-- ===== src/Network.antt =====
-- A sender, a receiver and the network between them: every interleaving of writes (channel.go), of
-- runs of the retransmit timer (send_queue.go), and of datagrams that arrive (tru.go). What was handed
-- to a sender process may arrive at any time, any number of times, or never.
pub mod Queue
pub mod Senders
pub mod Invariant
pub mod Writing
pub mod Acking
pub mod Receiving
pub mod Safety
pub mod Progress
pub mod Sent
pub mod Duplex
pub mod Session
use mathlib.Core.List.{Mem, Memᴰ}
use tru.Base.Map.{nat_eq}
use tru.Base.{
  ℕ, ◌+◌, ◌%◌, ◌≤◌, ◌<◌, ◌≡◌, Bool, true, false, List, [], ◌∷◌, ◌++◌, none, some, Bytes, length,
  map, drop,
}
use tru.Channel.Retransmit.{retransmit_due}
use tru.Channel.Write.{Env, write_to}
use tru.Channel.{Channel}
use tru.Connector.Serve.{serve_channel}
use tru.Crypt.Library.{Primitives}
use tru.Crypt.{encrypt_packet_data}
use tru.Packet.{Packet, packet_id_limit, new_packet, status_data, marshal_binary, unmarshal_binary}
use tru.Receive.Stream.{Near}
use tru.SendQueue
use tru.Transfer.{Writes}

-- `written` messages have been written, and the packets with the numbers in `arrived` have come. What
-- the receiver has handed to its own sender process when a packet came stands in `answered`, with
-- that packet's number.
pub record Net : Type 0 where
  pub sender : Channel
  pub receiver : Channel
  pub written : ℕ
  pub arrived : List ℕ
  pub answered : List (ℕ × Packet)

-- A channel has served a packet with a number, after which it is `after`.
abbrev pub arrive : ℕ → Channel → Net → Net
arrive n after net = record net {
  receiver = after;
  arrived = n ∷ net.arrived;
  answered =
      map (λ (a : Packet). (n, a)) (drop (length net.receiver.sender_ch) after.sender_ch)
      ++ net.answered;
}

module _ (p : Primitives) (key : Bytes) (w : Writes) where
  -- A packet of the message with a number.
  pub record Carries (n : ℕ) (pac : Packet) : Type 0 where
    pub id : pac.id ≡ n % packet_id_limit
    pub status : pac.status ≡ status_data
    pub payload :
        pac.payload ≡ encrypt_packet_data p key (w.env n).nonce (n % packet_id_limit) (w.message n)

  -- A write needs that its id does not wait any more. A packet comes within half the id space of the
  -- first one missing, and what the receiver answered it with before the ids have gone once around.
  pub data Step : Net → Net → Type 0 where
    write :
        (net : Net)
        → net.sender.stat.destroyed ≡ false
        → SendQueue.get net.sender.id net.sender.send_queue ≡ none
        → Step net (record net {
          sender =
              (write_to p
                (w.env net.written)
                (w.message net.written)
                status_data
                []
                []
                net.sender).1;
          written = net.written + 1;
        })
    retransmit :
        (net : Net) (now : ℕ) → Step net (record net { sender = retransmit_due now net.sender })
    deliver :
        (net : Net) (env : Env) (n : ℕ) (pac q : Packet)
        → Mem pac net.sender.sender_ch
        → n < net.written
        → Carries n pac
        → Near net.arrived n
        → unmarshal_binary (new_packet env.now) (marshal_binary pac) ≡ some q
        → Step net (arrive n (serve_channel p env q net.receiver).0 net)
    ack :
        (net : Net) (env : Env) (n : ℕ) (pac q : Packet)
        → Memᴰ (n, pac) net.answered
        → net.written ≤ n + packet_id_limit
        → unmarshal_binary (new_packet env.now) (marshal_binary pac) ≡ some q
        → Step net (record net { sender = (serve_channel p env q net.sender).0 })

  pub data Reach (start : Net) : Net → Type 0 where
    here : Reach start start
    next : {a b : Net} → Reach start a → Step a b → Reach start b
