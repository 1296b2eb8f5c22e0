-- ===== src/Receive.antt =====
-- The receiving side of a channel: the data branch of `serve` (tru.go) and the receive queue
-- (receive_queue.go).
pub mod Queue
pub mod Stream
pub mod Rounds
pub mod Steps
pub mod Places
pub mod Ordered
pub mod Again
use tru.Base.Int.{ℤ, pos, negsuc}
use tru.Base.Map.{Map, nat_eq, lookup, insert, delete}
use tru.Base.Map
use tru.Base.{
  ℕ, zero, suc, ◌+◌, Bool, List, [], ◌∷◌, ◌++◌, Option, none, some, Bytes, if◌then◌else◌, length,
  is_some,
}
use tru.Channel.Write.{Env, write_to_ack}
use tru.Channel.{Channel, new_expected_id}
use tru.Crypt.Library.{Primitives}
use tru.Crypt.{decrypt_packet_data}
use tru.Packet.{Packet, distance}
use tru.Split.{packet}
use tru.Statistic.{set_recv, set_drop, set_last_activity}

-- receiveQueue, a map from ids.
abbrev pub ReceiveQueue : Type 0
ReceiveQueue = Map ℕ Packet

unfoldable pub add : Packet → ReceiveQueue → ReceiveQueue
add pac r = insert pac.id pac r

unfoldable pub get : ℕ → ReceiveQueue → Option Packet
get id r = lookup id r

unfoldable pub remove : ℕ → ReceiveQueue → ReceiveQueue × Option Packet
unfolding get
remove id r = (if is_some (get id r) then Map.delete id r else r, get id r)

unfoldable pub len : ReceiveQueue → ℕ
len r = length r

-- What comes out of the combiner goes to the reader.
unfoldable pub deliver : ℕ → Option Packet → Channel → Channel
deliver now none ch = ch
deliver now (some q) ch = record ch {
  reader_ch = ch.reader_ch ++ q ∷ [];
  stat = set_recv now ch.stat;
}

-- `sendToReader`
unfoldable pub send_to_reader : ℕ → Packet → Channel → Channel
send_to_reader now pac ch =
    let ch' = new_expected_id ch in
    let (c, out) = packet ch'.combine pac in deliver now out (record ch' { combine = c })

-- `process`: while the expected packet waits, it is sent on and deleted. Each round takes a packet
-- out, so the length of the queue is fuel enough.
unfoldable pub process : ℕ → ℕ → Channel → Channel
process zero now ch = ch
process (suc fuel) now ch = elim (get ch.expected_id ch.recv_queue) [
  | none ↦ ch
  | some pac ↦
      let sent = send_to_reader now pac ch in
      process fuel now (record sent { recv_queue = (remove ch.expected_id sent.recv_queue).0 })
]

-- The three cases of a data packet, by its distance from the expected one.
unfoldable pub place : ℕ → Packet → ℤ → Channel → Channel
place now pac (negsuc d) ch = record ch { stat = set_drop ch.stat }
place now pac (pos (suc d)) ch =
    if is_some (get pac.id ch.recv_queue)
    then record ch { stat = set_drop ch.stat }
    else record ch { recv_queue = add pac ch.recv_queue }
place now pac (pos zero) ch =
    let sent = send_to_reader now pac ch in process (suc (len sent.recv_queue)) now sent

-- `case statusData, statusDataNext` of `serve`, with the activity time set behind it. A packet
-- that does not decrypt is passed over.
unfoldable pub receive_data : Primitives → Env → Packet → Channel → Channel
receive_data p env pac ch = elim (decrypt_packet_data p ch.session_key pac.id pac.payload) [
  | none ↦ ch
  | some bytes ↦
      let plain = record pac { payload = bytes } in
      let acked = write_to_ack p env plain ch in
      let placed = place env.now plain (distance ch.expected_id pac.id) acked in
      record placed { stat = set_last_activity env.now placed.stat }
]
