-- ===== src/Connector/Handshake/Fresh.antt =====
-- The packets of a handshake leave a channel without messages (connect.go).
use tru.Base.Map.{bytes_key, insert}
use tru.Base.{
  ℕ, ◌≡◌, sym, ◌∙◌, subst, true, false, some, some_eq, Bytes, if_holds, Option-cases, inl, inr,
  ◌==◌, Bool,
}
use tru.Channel.Fresh.{Fresh, new-Fresh, write_to_sender-Fresh, keyed-Fresh}
use tru.Channel.Write.{write_to_sender}
use tru.Channel.{Channel, new_channel}
use tru.Connect.{Random, unmarshal_data, server_answer, client_answer, done_answer}
use tru.Connector.Handshake.{
  answer, set_session_key, connect, serve_connect, serve_server_answer, serve_client_answer,
  serve_done, serve_packet,
}
use tru.Connector.Lookup.{get_channel-open_channel, get_channel-update_channel}
use tru.Connector.{Tru, open_channel, get_channel, update_channel, add_connect, get_connect}
use tru.Crypt.Library.{Primitives}
use tru.Packet.{
  Packet, status_connect, status_connect_server_answer, status_connect_client_answer,
  status_connect_done,
}

module _ {p : Primitives} where
  abbrev pub FreshAt : Bytes → Tru p → Type 0
  FreshAt addr tru = (ch : Channel) → get_channel addr tru ≡ some ch → Fresh ch

  open_channel-FreshAt :
      (now : ℕ) (addr : Bytes) (mode : Bool) (tru : Tru p)
      → FreshAt addr (open_channel now addr mode tru)
  unfolding new_channel
  open_channel-FreshAt now addr mode tru ch h =
      subst Fresh (some_eq (sym (get_channel-open_channel now addr mode tru) ∙ h))
        (new-Fresh now addr mode tru.send_delay tru.max_len)

  update_channel-FreshAt :
      (addr : Bytes) (f : Channel → Channel) (tru : Tru p)
      → ((ch : Channel) → Fresh ch → Fresh (f ch))
      → FreshAt addr tru
      → FreshAt addr (update_channel addr f tru)
  unfolding update_channel get_channel
  update_channel-FreshAt addr f tru keep v ch h = elim (Option-cases (get_channel addr tru)) [
    | inl e ↦ v ch (rw (e, update_channel) at h)
    | inr (c, e) ↦
        subst Fresh (some_eq (sym (get_channel-update_channel addr f tru e) ∙ h)) (keep c (v c e))
  ]

  serve_connect-FreshAt :
      (now : ℕ) (random : Random) (addr bytes : Bytes) (tru : Tru p)
      → FreshAt addr tru
      → FreshAt addr (serve_connect now random addr bytes tru).0
  unfolding serve_connect
  serve_connect-FreshAt now random addr bytes tru v = elim (Option-cases (unmarshal_data bytes)) [
    | inl e ↦ rw (e, serve_connect) v
    | inr (cp, e) ↦
        let made = open_channel now addr true tru in
        let o = open_channel-FreshAt now addr true tru in
        elim (Option-cases (server_answer p random tru.private_key cp)) [
          | inl f ↦ rw (e, f, serve_connect) o
          | inr (out, f) ↦
              let pac = answer now status_connect_server_answer out in
              rw (e, f, serve_connect)
                (update_channel-FreshAt addr (write_to_sender pac) made (write_to_sender-Fresh pac)
                  o)
        ]
  ]

  serve_server_answer-FreshAt :
      (now : ℕ) (random : Random) (addr bytes : Bytes) (tru : Tru p)
      → FreshAt addr tru
      → FreshAt addr (serve_server_answer now random addr bytes tru).0
  unfolding serve_server_answer get_channel set_session_key
  serve_server_answer-FreshAt now random addr bytes tru v =
      elim (Option-cases (unmarshal_data bytes)) [
        | inl e ↦ rw (e, serve_server_answer) v
        | inr (cp, e) ↦ elim (Option-cases (get_connect cp.uuid tru)) [
          | inl f ↦ rw (e, f, serve_server_answer) v
          | inr (cd, f) ↦
              let opened = open_channel now addr false tru in
              let made : Tru p = record opened {
                connects = insert cp.uuid (record cd { ch = some addr }) opened.connects;
              } in
              let o : FreshAt addr made = open_channel-FreshAt now addr false tru in
              elim (Option-cases (client_answer p random tru.private_key cp)) [
                | inl g ↦ rw (e, f, g, serve_server_answer) o
                | inr ((out, key), g) ↦
                    let pac = answer now status_connect_client_answer out in
                    rw (e, f, g, serve_server_answer)
                      (update_channel-FreshAt addr
                        (λ ch. set_session_key key (write_to_sender pac ch)) made
                        (λ ch w.
                          keyed-Fresh key (write_to_sender pac ch) (write_to_sender-Fresh pac ch w))
                        o)
              ]
        ]
      ]

  serve_client_answer-FreshAt :
      (now : ℕ) (addr bytes : Bytes) (tru : Tru p)
      → FreshAt addr tru
      → FreshAt addr (serve_client_answer now addr bytes tru).0
  unfolding serve_client_answer set_session_key
  serve_client_answer-FreshAt now addr bytes tru v = elim (Option-cases (unmarshal_data bytes)) [
    | inl e ↦ rw (e, serve_client_answer) v
    | inr (cp, e) ↦ elim (Option-cases (get_channel addr tru)) [
      | inl f ↦ rw (e, f, serve_client_answer) v
      | inr (ch, f) ↦ elim (Option-cases (done_answer p tru.private_key cp)) [
        | inl g ↦ rw (e, f, g, serve_client_answer) v
        | inr ((out, key), g) ↦
            let pac = answer now status_connect_done out in
            rw (e, f, g, serve_client_answer)
              (update_channel-FreshAt addr (λ c. write_to_sender pac (set_session_key key c)) tru
                (λ c w. write_to_sender-Fresh pac (set_session_key key c) (keyed-Fresh key c w)) v)
      ]
    ]
  ]

  serve_done-FreshAt :
      (addr bytes : Bytes) (tru : Tru p) → FreshAt addr tru → FreshAt addr (serve_done bytes tru).0
  unfolding serve_done get_channel
  serve_done-FreshAt addr bytes tru v = elim (Option-cases (unmarshal_data bytes)) [
    | inl e ↦ rw (e, serve_done) v
    | inr (cp, e) ↦ elim (Option-cases (get_connect cp.uuid tru)) [
      | inl f ↦ rw (e, f, serve_done) v
      | inr (cd, f) ↦ rw (e, f, serve_done) v
    ]
  ]

  -- Whatever the packet is, a channel at its address that had no messages has none after it.
  pub serve_packet-FreshAt :
      (now : ℕ) (random : Random) (addr : Bytes) (pac : Packet) (tru : Tru p)
      → FreshAt addr tru
      → FreshAt addr (serve_packet now random addr pac tru).0
  unfolding serve_packet
  serve_packet-FreshAt now random addr pac tru v =
      let Q = λ (r : Tru p × Bool). FreshAt addr r.0 in
      if_holds Q (pac.status == status_connect)
        (serve_connect-FreshAt now random addr pac.payload tru v)
        (if_holds Q (pac.status == status_connect_server_answer)
          (serve_server_answer-FreshAt now random addr pac.payload tru v)
          (if_holds Q (pac.status == status_connect_client_answer)
            (serve_client_answer-FreshAt now addr pac.payload tru v)
            (if_holds Q (pac.status == status_connect_done)
              (serve_done-FreshAt addr pac.payload tru v) v)))

  pub connect-FreshAt :
      (now : ℕ) (uuid addr : Bytes) (tru : Tru p)
      → FreshAt addr tru
      → FreshAt addr (connect now uuid addr tru)
  unfolding connect add_connect get_channel
  connect-FreshAt now uuid addr tru v = v
