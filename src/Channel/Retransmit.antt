-- ===== src/Channel/Retransmit.antt =====
-- The retransmit timer of a channel (send_queue.go).
use tru.Base.{ℕ, ◌+◌, ◌++◌, if◌then◌else◌, length}
use tru.Channel.{Channel}
use tru.Channel
use tru.SendQueue.{retransmit}

-- What a run of the timer's function does to its channel. Each packet that is sent again is
-- counted; the timer is armed again unless the channel is destroyed.
unfoldable pub retransmit_due : ℕ → Channel → Channel
retransmit_due now ch =
    let pass = retransmit ch.stat.trip_time_midle now ch.send_queue.queue in
    let done = record ch {
      send_queue = record (ch.send_queue) { queue = pass.queue };
      sender_ch = ch.sender_ch ++ pass.sent;
      stat = record (ch.stat) { retransmit = ch.stat.retransmit + length pass.sent };
    } in
    if pass.exhausted then Channel.destroy done else done
