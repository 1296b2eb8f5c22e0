-- ===== src/Connector/Handshake.antt =====
-- connect.go: the four packets that open a channel.
pub mod Steps
pub mod Agree
pub mod Fresh
use tru.Base.Map.{bytes_key, lookup, insert}
use tru.Base.{ℕ, Bool, true, false, ◌++◌, [], ◌∷◌, Option, none, some, Bytes, ◌==◌, if◌then◌else◌}
use tru.Channel.Write.{write_to_sender}
use tru.Channel.{Channel}
use tru.Connect.{Random, unmarshal_data, hello, server_answer, client_answer, done_answer}
use tru.Connector.{
  Tru, ConnectData, open_channel, get_channel, update_channel, add_connect, delete_connect,
  get_connect,
}
use tru.Crypt.Library.{Primitives}
use tru.Packet.{
  Packet, new_packet, set_status, set_data, marshal_binary, status_connect,
  status_connect_server_answer, status_connect_client_answer, status_connect_done,
}

unfoldable pub answer : ℕ → ℕ → Bytes → Packet
unfolding new_packet set_status set_data
answer now status bytes = set_data bytes (set_status status (new_packet now))

-- `setSesionKey`
unfoldable pub set_session_key : Bytes → Channel → Channel
set_session_key key ch = record ch { session_key = key }

module _ {p : Primitives} where
  -- `Connect`, up to its wait: the new uuid is kept, and the packet is written to the address.
  unfoldable pub connect : ℕ → Bytes → Bytes → Tru p → Tru p
  connect now uuid addr tru =
      let pac = answer now status_connect (hello p tru.private_key uuid) in
      let tru' = add_connect uuid tru in
      record tru' { datagrams = tru'.datagrams ++ (addr, marshal_binary pac) ∷ [] }

  -- The end of `Connect`: the wait gives the address of the channel, or an error at `none`, when
  -- the time is over; the uuid is forgotten.
  unfoldable pub finish_connect : Option ConnectData → Bytes → Tru p → Tru p × Option Bytes
  finish_connect none uuid tru = (delete_connect uuid tru, none)
  finish_connect (some cd) uuid tru = (delete_connect uuid tru, cd.ch)

  -- At the server: a channel for the client, and the server's public key for it. The Boolean
  -- says whether `serve` returned without an error.
  unfoldable pub serve_connect : ℕ → Random → Bytes → Bytes → Tru p → Tru p × Bool
  serve_connect now random addr bytes tru = elim (unmarshal_data bytes) [
    | none ↦ (tru, false)
    | some cp ↦
        let made = open_channel now addr true tru in
        elim (server_answer p random tru.private_key cp) [
          | none ↦ (made, false)
          | some out ↦
              let pac = answer now status_connect_server_answer out in
              (update_channel addr (write_to_sender pac) made, true)
        ]
  ]

  -- At the client: a channel for the server, and a session key for both.
  unfoldable pub serve_server_answer : ℕ → Random → Bytes → Bytes → Tru p → Tru p × Bool
  serve_server_answer now random addr bytes tru = elim (unmarshal_data bytes) [
    | none ↦ (tru, false)
    | some cp ↦ elim (get_connect cp.uuid tru) [
      | none ↦ (tru, false)
      | some cd ↦
          let opened = open_channel now addr false tru in
          let made = record opened {
            connects = insert cp.uuid (record cd { ch = some addr }) opened.connects;
          } in
          elim (client_answer p random tru.private_key cp) [
            | none ↦ (made, false)
            | some (out, key) ↦
                let pac = answer now status_connect_client_answer out in
                (
                  update_channel addr (λ ch. set_session_key key (write_to_sender pac ch)) made,
                  true,
                )
          ]
    ]
  ]

  -- At the server: the session key.
  unfoldable pub serve_client_answer : ℕ → Bytes → Bytes → Tru p → Tru p × Bool
  serve_client_answer now addr bytes tru = elim (unmarshal_data bytes) [
    | none ↦ (tru, false)
    | some cp ↦ elim (get_channel addr tru) [
      | none ↦ (tru, false)
      | some ch ↦ elim (done_answer p tru.private_key cp) [
        | none ↦ (tru, false)
        | some (out, key) ↦
            let pac = answer now status_connect_done out in
            (update_channel addr (λ ch. write_to_sender pac (set_session_key key ch)) tru, true)
      ]
    ]
  ]

  -- At the client: the waiting call of `Connect` goes on.
  unfoldable pub serve_done : Bytes → Tru p → Tru p × Bool
  serve_done bytes tru = elim (unmarshal_data bytes) [
    | none ↦ (tru, false)
    | some cp ↦ elim (get_connect cp.uuid tru) [
      | none ↦ (tru, false)
      | some cd ↦ (record tru { woken = tru.woken ++ cd ∷ [] }, true)
    ]
  ]

  -- `serve` of connect.go.
  unfoldable pub serve_packet : ℕ → Random → Bytes → Packet → Tru p → Tru p × Bool
  serve_packet now random addr pac tru =
      if pac.status == status_connect
      then serve_connect now random addr pac.payload tru
      else if pac.status == status_connect_server_answer
      then serve_server_answer now random addr pac.payload tru
      else if pac.status == status_connect_client_answer
      then serve_client_answer now addr pac.payload tru
      else if pac.status == status_connect_done
      then serve_done pac.payload tru
      else (tru, false)
