-- ===== src/Channel.antt =====
-- channel.go: the state of a channel and its id, trip time and close operations. The callbacks of
-- the channel are left out of its state. What it hands to other parts is kept with it, in order:
-- the packets for the sender and for the reader, and the datagrams that it writes itself.
pub mod Ids
pub mod Write
pub mod Retransmit
pub mod Fresh
use tru.Base.Map.{Map, nat_eq}
use tru.Base.{
  ℕ, ◌+◌, ◌-◌, ◌*◌, ◌/◌, Bool, true, false, List, [], Option, none, some, Bytes, leb, ◌==◌,
  if◌then◌else◌,
}
use tru.Packet.{Packet, packet_id_limit}
use tru.SendQueue.{SendQueue}
use tru.SendQueue
use tru.Split.{Combiner, clear}
use tru.Statistic.{Statistic, zero_statistic}
use tru.Statistic

pub record Channel : Type 0 where
  pub addr : Bytes
  pub server_mode : Bool
  pub id : ℕ
  pub expected_id : ℕ
  pub stat : Statistic
  pub send_queue : SendQueue
  pub recv_queue : Map ℕ Packet
  pub combine : Combiner
  pub max_data_len : ℕ
  pub session_key : Bytes
  pub sender_ch : List Packet
  pub reader_ch : List Packet
  pub datagrams : List Bytes
  pub destroyed_calls : ℕ

-- The channel that `newChannel` makes: `send_delay` and `max_data_len` come from the connector.
unfoldable pub new_channel : ℕ → Bytes → Bool → ℕ → ℕ → Channel
new_channel now addr server_mode send_delay max_data_len = record {
  addr = addr;
  server_mode = server_mode;
  id = 0;
  expected_id = 0;
  stat =
      let s = Statistic.init now zero_statistic in
      if server_mode then s else Statistic.set_send_delay send_delay s;
  send_queue = SendQueue.init;
  recv_queue = [];
  combine = clear;
  max_data_len = max_data_len;
  session_key = [];
  sender_ch = [];
  reader_ch = [];
  datagrams = [];
  destroyed_calls = 0;
}

-- `newID`: the id at hand, and the channel with the next one.
unfoldable pub new_id : Channel → ℕ × Channel
new_id ch = (ch.id, record ch { id = if leb packet_id_limit (ch.id + 1) then 0 else ch.id + 1 })

unfoldable pub new_expected_id : Channel → Channel
new_expected_id ch = record ch {
  expected_id = if leb packet_id_limit (ch.expected_id + 1) then 0 else ch.expected_id + 1;
}

-- The mean that `setTripTime` keeps.
unfoldable pub middle : ℕ → ℕ → ℕ
middle midle tt = if midle == 0 then tt else (midle * 9 + tt) / 10

-- `setTripTime`; `none` is the error for a packet that does not wait.
unfoldable pub set_trip_time : ℕ → ℕ → Channel → Option (ℕ × Channel)
unfolding middle
set_trip_time now id ch = elim (SendQueue.get id ch.send_queue) [
  | none ↦ none
  | some (e, pac) ↦
      let tt = now - pac.time in
      some (
        tt,
        record ch {
          stat = record (ch.stat) {
            trip_time = tt;
            trip_time_midle = middle ch.stat.trip_time_midle tt;
          };
        },
      )
]

-- `destroy` on a channel's own state: its readers are called with the error, which is counted, and the
-- timers of the send queue and the statistic stop. `destroy_channel` takes it out of the map.
unfoldable pub destroy : Channel → Channel
destroy ch = record ch {
  destroyed_calls = ch.destroyed_calls + 1;
  send_queue = SendQueue.destroy ch.send_queue;
  stat = Statistic.destroy ch.stat;
}
