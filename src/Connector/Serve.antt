-- ===== src/Connector/Serve.antt =====
-- `serve` of tru.go: what a connector does with a datagram.
pub mod Ack
pub mod Elsewhere
pub mod Kept
pub mod Open
pub mod Valid
use tru.Base.{
  ℕ, Bool, true, false, not, ◌&&◌, ◌||◌, ◌++◌, [], ◌∷◌, Option, none, some, Bytes, ◌==◌,
  if◌then◌else◌, is_some, ◌>>=◌,
}
use tru.Channel.Write.{Env, write_to_pong}
use tru.Channel.{Channel, set_trip_time}
use tru.Connect.{Random}
use tru.Connector.Handshake.{serve_packet}
use tru.Connector.{Tru, delivered, punched, get_channel, update_channel, destroy_channel}
use tru.Crypt.Library.{Primitives}
use tru.Packet.{
  Packet, new_packet, unmarshal_binary, status_connect, status_connect_server_answer,
  status_connect_client_answer, status_connect_done, status_punch, status_ping, status_pong,
  status_ack, status_disconnect, status_data, status_data_next,
}
use tru.Receive.{receive_data}
use tru.SendQueue
use tru.Statistic.{set_ack_received, set_ack_drop_received, set_last_activity}

unfoldable pub set_active : ℕ → Channel → Channel
set_active now ch = record ch { stat = set_last_activity now ch.stat }

-- `case statusAck`: the channel, and the delivery callback that is called, if there is one.
unfoldable pub serve_ack : ℕ → ℕ → Channel → Channel × Option ℕ
serve_ack now id ch = elim (set_trip_time now id ch) [
  | none ↦ (record ch { stat = set_ack_drop_received ch.stat }, none)
  | some (tt, timed) ↦
      let (queue, pac) = SendQueue.remove id timed.send_queue in
      (
        record timed { send_queue = queue; stat = set_ack_received timed.stat },
        pac >>= λ q. q.delivery,
      )
]

abbrev pub is_connect : ℕ → Bool
is_connect status =
    status == status_connect
    || status == status_connect_server_answer
    || status == status_connect_client_answer
    || status == status_connect_done

-- A packet of a channel, but for a disconnect.
unfoldable pub serve_channel : Primitives → Env → Packet → Channel → Channel × Option ℕ
serve_channel p env pac ch =
    let (acked, callback) = serve_ack env.now pac.id ch in
    if pac.status == status_ping
    then (set_active env.now (write_to_pong p env ch), none)
    else if pac.status == status_ack
    then (set_active env.now acked, callback)
    else if pac.status == status_data || pac.status == status_data_next
    then (receive_data p env pac ch, none)
    else (set_active env.now ch, none)

module _ {p : Primitives} where
  -- A packet that opens a channel: a first one closes the channel that is there, and an error
  -- closes one that was there.
  unfoldable pub serve_connection : Env → Random → Bytes → Packet → Tru p → Tru p
  serve_connection env random addr pac tru =
      let known = is_some (get_channel addr tru) in
      let tru' = if known && pac.status == status_connect then destroy_channel addr tru else tru in
      let (served, ok) = serve_packet env.now random addr pac tru' in
      if known && not ok then destroy_channel addr served else served

  unfoldable pub call : Option ℕ → Tru p → Tru p
  call none tru = tru
  call (some f) tru = record tru { calls = tru.calls ++ delivered f ∷ [] }

  -- `punching` says whether there is a callback for punch packets.
  unfoldable pub route : Env → Random → Bool → Bytes → Packet → Tru p → Tru p
  route env random punching addr pac tru =
      if is_connect pac.status
      then serve_connection env random addr pac tru
      else if pac.status == status_punch
      then (if punching
          then record tru { calls = tru.calls ++ punched addr pac.payload ∷ [] }
          else tru)
      else elim (get_channel addr tru) [
        | none ↦ tru
        | some ch ↦
            let (served, callback) = serve_channel p env pac ch in
            if pac.status == status_disconnect
            then destroy_channel addr tru
            else call callback (update_channel addr (λ _. served) tru)
      ]

  unfoldable pub serve : Env → Random → Bool → Bytes → Bytes → Tru p → Tru p
  serve env random punching addr bytes tru = elim (unmarshal_binary (new_packet env.now) bytes) [
    | none ↦ tru
    | some pac ↦ route env random punching addr pac tru
  ]
