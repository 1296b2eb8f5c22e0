-- ===== src/Connector/Serve/Valid.antt =====
-- The channels of a connector, whatever comes in (tru.go, connect.go, channel.go).
use tru.Base.Map.{bytes_key, insert}
use tru.Base.{
  ℕ, Bool, true, false, Option, none, some, Bytes, if_holds, Option-cases, inl, inr, ◌==◌,
  if◌then◌else◌, ◌&&◌, is_some, not,
}
use tru.Channel.Write.{Env, write_to_sender}
use tru.Connect.{Random, unmarshal_data, server_answer, client_answer, done_answer}
use tru.Connector.Handshake.{
  answer, set_session_key, serve_connect, serve_server_answer, serve_client_answer, serve_done,
  serve_packet,
}
use tru.Connector.Serve.Kept.{serve_channel-IsOpen}
use tru.Connector.Serve.{serve_channel, serve_connection, call, route, serve, is_connect}
use tru.Connector.{Tru, open_channel, get_channel, update_channel, destroy_channel, get_connect}
use tru.Crypt.Library.{Primitives}
use tru.Packet.{
  Packet, unmarshal_binary, new_packet, status_connect, status_connect_server_answer,
  status_connect_client_answer, status_connect_done, status_punch, status_disconnect,
}
use tru.Connector.Serve.Open.{
  AllOpen, write_to_sender-IsOpen, set_session_key-IsOpen, open_channel-AllOpen,
  update_channel-AllOpen, destroy_channel-AllOpen,
}

module _ {p : Primitives} where
  serve_connect-AllOpen :
      (now : ℕ) (random : Random) (addr bytes : Bytes) (tru : Tru p)
      → AllOpen tru
      → AllOpen (serve_connect now random addr bytes tru).0
  unfolding serve_connect get_channel
  serve_connect-AllOpen now random addr bytes tru v = elim (Option-cases (unmarshal_data bytes)) [
    | inl e ↦ rw (e, serve_connect) v
    | inr (cp, e) ↦
        let made = open_channel now addr true tru in
        let o = open_channel-AllOpen now addr true tru v in
        elim (Option-cases (server_answer p random tru.private_key cp)) [
          | inl f ↦ rw (e, f, serve_connect) o
          | inr (out, f) ↦
              rw (e, f, serve_connect)
                (update_channel-AllOpen addr (write_to_sender (answer now 1 out)) made
                  (write_to_sender-IsOpen addr (answer now 1 out)) o)
        ]
  ]

  serve_server_answer-AllOpen :
      (now : ℕ) (random : Random) (addr bytes : Bytes) (tru : Tru p)
      → AllOpen tru
      → AllOpen (serve_server_answer now random addr bytes tru).0
  unfolding serve_server_answer get_channel
  serve_server_answer-AllOpen now random addr bytes tru v =
      elim (Option-cases (unmarshal_data bytes)) [
        | inl e ↦ rw (e, serve_server_answer) v
        | inr (cp, e) ↦ elim (Option-cases (get_connect cp.uuid tru)) [
          | inl f ↦ rw (e, f, serve_server_answer) v
          | inr (cd, f) ↦
              let opened = open_channel now addr false tru in
              let made : Tru p = record opened {
                connects = insert cp.uuid (record cd { ch = some addr }) opened.connects;
              } in
              let o = open_channel-AllOpen now addr false tru v in
              elim (Option-cases (client_answer p random tru.private_key cp)) [
                | inl g ↦ rw (e, f, g, serve_server_answer) o
                | inr ((out, key), g) ↦
                    rw (e, f, g, serve_server_answer)
                      (update_channel-AllOpen addr
                        (λ ch. set_session_key key (write_to_sender (answer now 2 out) ch)) made
                        (λ ch w.
                          set_session_key-IsOpen addr key (write_to_sender (answer now 2 out) ch)
                            (write_to_sender-IsOpen addr (answer now 2 out) ch w))
                        o)
              ]
        ]
      ]

  serve_client_answer-AllOpen :
      (now : ℕ) (addr bytes : Bytes) (tru : Tru p)
      → AllOpen tru
      → AllOpen (serve_client_answer now addr bytes tru).0
  unfolding serve_client_answer get_channel
  serve_client_answer-AllOpen now addr bytes tru v = elim (Option-cases (unmarshal_data bytes)) [
    | inl e ↦ rw (e, serve_client_answer) v
    | inr (cp, e) ↦ elim (Option-cases (get_channel addr tru)) [
      | inl f ↦ rw (e, f, serve_client_answer) v
      | inr (ch, f) ↦ elim (Option-cases (done_answer p tru.private_key cp)) [
        | inl g ↦ rw (e, f, g, serve_client_answer) v
        | inr ((out, key), g) ↦
            rw (e, f, g, serve_client_answer)
              (update_channel-AllOpen addr
                (λ c. write_to_sender (answer now 3 out) (set_session_key key c)) tru
                (λ c w.
                  write_to_sender-IsOpen addr (answer now 3 out) (set_session_key key c)
                    (set_session_key-IsOpen addr key c w))
                v)
      ]
    ]
  ]

  serve_done-AllOpen :
      (bytes : Bytes) (tru : Tru p) → AllOpen tru → AllOpen (serve_done bytes tru).0
  unfolding serve_done get_channel
  serve_done-AllOpen bytes tru v = elim (Option-cases (unmarshal_data bytes)) [
    | inl e ↦ rw (e, serve_done) v
    | inr (cp, e) ↦ elim (Option-cases (get_connect cp.uuid tru)) [
      | inl f ↦ rw (e, f, serve_done) v
      | inr (cd, f) ↦ rw (e, f, serve_done) v
    ]
  ]

  serve_packet-AllOpen :
      (now : ℕ) (random : Random) (addr : Bytes) (pac : Packet) (tru : Tru p)
      → AllOpen tru
      → AllOpen (serve_packet now random addr pac tru).0
  unfolding serve_packet
  serve_packet-AllOpen now random addr pac tru v =
      let Q = λ (r : Tru p × Bool). AllOpen r.0 in
      if_holds Q (pac.status == status_connect)
        (serve_connect-AllOpen now random addr pac.payload tru v)
        (if_holds Q (pac.status == status_connect_server_answer)
          (serve_server_answer-AllOpen now random addr pac.payload tru v)
          (if_holds Q (pac.status == status_connect_client_answer)
            (serve_client_answer-AllOpen now addr pac.payload tru v)
            (if_holds Q (pac.status == status_connect_done) (serve_done-AllOpen pac.payload tru v)
              v)))

  serve_connection-AllOpen :
      (env : Env) (random : Random) (addr : Bytes) (pac : Packet) (tru : Tru p)
      → AllOpen tru
      → AllOpen (serve_connection env random addr pac tru)
  unfolding serve_connection
  serve_connection-AllOpen env random addr pac tru v =
      let known = is_some (get_channel addr tru) in
      let again = known && pac.status == status_connect in
      let tru' = if again then destroy_channel addr tru else tru in
      let v' =
        if_holds AllOpen again {x = destroy_channel addr tru} {y = tru}
          (destroy_channel-AllOpen addr tru v) v in
      let (served, ok) = serve_packet env.now random addr pac tru' in
      let w = serve_packet-AllOpen env.now random addr pac tru' v' in
      if_holds AllOpen (known && not ok) (destroy_channel-AllOpen addr served w) w

  call-AllOpen : (callback : Option ℕ) (tru : Tru p) → AllOpen tru → AllOpen (call callback tru)
  unfolding call get_channel
  call-AllOpen none tru v = v
  call-AllOpen (some f) tru v = v

  route-AllOpen :
      (env : Env) (random : Random) (punching : Bool) (addr : Bytes) (pac : Packet) (tru : Tru p)
      → AllOpen tru
      → AllOpen (route env random punching addr pac tru)
  unfolding route get_channel
  route-AllOpen env random punching addr pac tru v =
      if_holds AllOpen (is_connect pac.status) (serve_connection-AllOpen env random addr pac tru v)
        (if_holds AllOpen (pac.status == status_punch) (if_holds AllOpen punching v v)
          (elim (Option-cases (get_channel addr tru)) [
            | inl e ↦ rw e v
            | inr (ch, e) ↦
                let (served, callback) = serve_channel p env pac ch in
                rw e (
                  if_holds AllOpen (pac.status == status_disconnect)
                    (destroy_channel-AllOpen addr tru v)
                    (call-AllOpen callback (update_channel addr (λ _. served) tru) (
                      update_channel-AllOpen addr (λ _. served) tru
                        (λ _ _. serve_channel-IsOpen p env pac addr ch (v addr ch e)) v)))
          ]))

  -- If every channel of a connector stands at its address, is not destroyed, and has a send queue
  -- whose index and list agree, then so it is after a datagram, whatever bytes come from whatever
  -- address.
  pub serve-AllOpen :
      (env : Env) (random : Random) (punching : Bool) (addr bytes : Bytes) (tru : Tru p)
      → AllOpen tru
      → AllOpen (serve env random punching addr bytes tru)
  unfolding serve
  serve-AllOpen env random punching addr bytes tru v =
      elim (Option-cases (unmarshal_binary (new_packet env.now) bytes)) [
        | inl e ↦ rw (e, serve) v
        | inr (pac, e) ↦ rw (e, serve) (route-AllOpen env random punching addr pac tru v)
      ]
