-- ===== src/Connector/Handshake/Steps.antt =====
-- The steps of a handshake, each with the packet that the other end answers with (connect.go).
use tru.Base.Map.{bytes_key, beq_self, insert, lookup-insert}
use tru.Base.{
  ℕ, ◌<◌, ◌≡◌, true, false, List, [], ◌∷◌, ◌++◌, none, some, Bytes, arith, length, Option-cases,
  inl, inr,
}
use tru.Channel.Write.{write_to_sender}
use tru.Channel.{Channel, new_channel}
use tru.Connect.Answers.{server_answer_opens, client_answer_opens, done_answer_opens}
use tru.Connect.Codec.{unmarshal_data-marshal_data}
use tru.Connect.{Random, ConnectPacketData, marshal_data, hello, make_session_key}
use tru.Connector.Handshake.{
  answer, set_session_key, serve_connect, serve_server_answer, serve_client_answer, serve_done,
  serve_packet,
}
use tru.Connector.Lookup.{
  get_channel-open_channel, get_channel-update_channel, update_channel_keeps,
}
use tru.Connector.{Tru, ConnectData, open_channel, get_channel, get_connect}
use tru.Crypt.Library.{Primitives, IsSound}
use tru.Crypt.{decrypt, public_key_to_bytes}
use tru.Packet.{
  Packet, status_connect, status_connect_server_answer, status_connect_client_answer,
  status_connect_done, new_packet, set_status, set_data,
}

-- The packets that wait for the sender of the channel at an address, and its session key.
abbrev pub outbox : {p : Primitives} → Bytes → Tru p → List Packet
outbox addr tru = elim (get_channel addr tru) [ none ↦ [] | some ch ↦ ch.sender_ch ]

abbrev pub session_key_at : {p : Primitives} → Bytes → Tru p → Bytes
session_key_at addr tru = elim (get_channel addr tru) [ none ↦ [] | some ch ↦ ch.session_key ]

module _ (p : Primitives) (s : IsSound p) where
  pub serve_connect_step :
      (now : ℕ) (random : Random) (addr uuid : Bytes) (client : p.PrivateKey) (tru : Tru p)
      → length uuid < 256
      → let r =
          serve_packet now random addr (answer now status_connect (hello p client uuid)) tru in
        (boxed : Bytes) × (decrypt p (length boxed) client boxed
          ≡ some (public_key_to_bytes p (p.public_key tru.private_key)))
        × (r.1 ≡ true)
        × (r.0.private_key ≡ tru.private_key)
        × (outbox addr r.0
            ≡ answer now status_connect_server_answer
                (marshal_data (record { uuid = uuid; payload = boxed }))
              ∷ [])
  unfolding serve_packet serve_connect answer new_packet set_status set_data hello new_channel
      open_channel write_to_sender
  serve_connect_step now random addr uuid client tru h =
      let cp : ConnectPacketData = record {
        uuid = uuid;
        payload = public_key_to_bytes p (p.public_key client);
      } in
      let (boxed, made, opens) = server_answer_opens p s random tru.private_key client uuid in
      let read = unmarshal_data-marshal_data cp h in
      let pac =
        answer now status_connect_server_answer (marshal_data (record cp { payload = boxed })) in
      let opened = open_channel now addr true tru in
      let k = update_channel_keeps addr (write_to_sender pac) opened in
      let f =
        get_channel-update_channel addr (write_to_sender pac) opened
          (get_channel-open_channel now addr true tru) in
      (
        boxed,
        opens,
        ground (arith, read, made),
        ground (arith, read, made, k.0),
        ground (arith, read, made, f),
      )

  pub serve_server_answer_step :
      (now : ℕ) (random : Random) (addr uuid boxed : Bytes) (server : p.PrivateKey)
      (cd : ConnectData) (tru : Tru p)
      → length uuid < 256
      → get_connect uuid tru ≡ some cd
      → decrypt p (length boxed) tru.private_key boxed
        ≡ some (public_key_to_bytes p (p.public_key server))
      → let key = make_session_key p random.picks in
        let r =
          serve_packet now random addr
            (answer now status_connect_server_answer
              (marshal_data (record { uuid = uuid; payload = boxed })))
            tru in
        (again : Bytes) × (decrypt p (length again) server again ≡ some key)
        × (r.1 ≡ true)
        × (r.0.woken ≡ tru.woken)
        × (get_connect uuid r.0 ≡ some (record cd { ch = some addr }))
        × (session_key_at addr r.0 ≡ key)
        × (outbox addr r.0
            ≡ answer now status_connect_client_answer
                (marshal_data (record { uuid = uuid; payload = again }))
              ∷ [])
  unfolding serve_packet serve_server_answer answer new_packet set_status set_data new_channel
      open_channel write_to_sender set_session_key get_connect get_channel
  serve_server_answer_step now random addr uuid boxed server cd tru h waits opens =
      let (again, made, opens') =
        client_answer_opens p s random tru.private_key server uuid boxed opens in
      let cp : ConnectPacketData = record { uuid = uuid; payload = boxed } in
      let read = unmarshal_data-marshal_data cp h in
      let pac =
        answer now status_connect_client_answer (marshal_data (record cp { payload = again })) in
      let opened = open_channel now addr false tru in
      let there : Tru p = record opened {
        connects = insert uuid (record cd { ch = some addr }) opened.connects;
      } in
      let put = λ (ch : Channel).
        set_session_key (make_session_key p random.picks) (write_to_sender pac ch) in
      let k = update_channel_keeps addr put there in
      let f =
        get_channel-update_channel addr put there (get_channel-open_channel now addr false tru) in
      let l = lookup-insert uuid uuid (record cd { ch = some addr }) tru.connects in
      (
        again,
        opens',
        ground (arith, read, waits, made),
        ground (arith, read, waits, made, k),
        ground (arith, read, waits, made, k, l, beq_self uuid),
        ground (arith, read, waits, made, f),
        ground (arith, read, waits, made, f),
      )

  pub serve_client_answer_step :
      (now : ℕ) (addr uuid again key : Bytes) (random : Random) (tru : Tru p) (sent : Packet)
      → length uuid < 256
      → outbox addr tru ≡ sent ∷ []
      → decrypt p (length again) tru.private_key again ≡ some key
      → let r =
          serve_packet now random addr
            (answer now status_connect_client_answer
              (marshal_data (record { uuid = uuid; payload = again })))
            tru in
        (r.1 ≡ true)
        × (session_key_at addr r.0 ≡ key)
        × (outbox addr r.0
            ≡ sent
              ∷ answer now status_connect_done (marshal_data (record { uuid = uuid; payload = [] }))
              ∷ [])
  unfolding serve_packet serve_client_answer answer new_packet set_status set_data write_to_sender
      set_session_key
  serve_client_answer_step now addr uuid again key random tru sent h there opens =
      let cp : ConnectPacketData = record { uuid = uuid; payload = again } in
      let read = unmarshal_data-marshal_data cp h in
      let made = done_answer_opens p s tru.private_key uuid again key opens in
      let pac =
        answer now status_connect_done (marshal_data (record { uuid = uuid; payload = [] })) in
      let put = λ (ch : Channel). write_to_sender pac (set_session_key key ch) in
      elim (Option-cases (get_channel addr tru)) [
        | inl e ↦ absurd (ground (arith, there, e))
        | inr (ch, e) ↦
            let f = get_channel-update_channel addr put tru e in
            let queued = rw (e, outbox) at there in
            (
              ground (arith, read, e, made),
              ground (arith, read, e, made, f),
              ground (arith, read, e, made, f, queued),
            )
      ]

  pub serve_done_step :
      (now : ℕ) (random : Random) (addr uuid : Bytes) (cd : ConnectData) (tru : Tru p)
      → length uuid < 256
      → get_connect uuid tru ≡ some cd
      → let r =
          serve_packet now random addr
            (answer now status_connect_done (marshal_data (record { uuid = uuid; payload = [] })))
            tru in
        (r.1 ≡ true)
        × (r.0.woken ≡ tru.woken ++ cd ∷ [])
        × (session_key_at addr r.0 ≡ session_key_at addr tru)
  unfolding get_channel serve_packet serve_done answer new_packet set_status set_data
  serve_done_step now random addr uuid cd tru h waits =
      let cp : ConnectPacketData = record { uuid = uuid; payload = [] } in
      let read = unmarshal_data-marshal_data cp h in
      (ground (arith, read, waits), ground (arith, read, waits), ground (arith, read, waits))
