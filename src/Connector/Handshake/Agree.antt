-- ===== src/Connector/Handshake/Agree.antt =====
-- The two ends of a handshake agree on a session key (connect.go).
use tru.Base.Map.{bytes_key, beq_self, lookup-insert}
use tru.Base.{ℕ, ◌<◌, ◌≡◌, ◌∙◌, ap, [], ◌∷◌, ◌++◌, none, some, refl, Bytes, arith, length}
use tru.Connect.{Random, marshal_data, hello, make_session_key}
use tru.Connector.Handshake.Steps.{
  outbox, session_key_at, serve_connect_step, serve_server_answer_step, serve_client_answer_step,
  serve_done_step,
}
use tru.Connector.Handshake.{answer, connect, serve_packet}
use tru.Connector.{Tru, ConnectData, add_connect, get_connect}
use tru.Crypt.Library.{Primitives, IsSound}
use tru.Packet.{Packet, status_connect, status_connect_server_answer, status_connect_done}

module _ (p : Primitives) (s : IsSound p) where
  waits_connect :
      (now : ℕ) (uuid addr : Bytes) (client : Tru p)
      → get_connect uuid (connect now uuid addr client) ≡ some (record { uuid = uuid; ch = none })
  unfolding connect add_connect get_connect
  waits_connect now uuid addr client = ground (
    arith,
    beq_self uuid,
    lookup-insert uuid uuid (record { uuid = uuid; ch = none }) client.connects,
  )

  connect_keeps :
      (now : ℕ) (uuid addr : Bytes) (client : Tru p)
      → ((connect now uuid addr client).private_key ≡ client.private_key)
        × ((connect now uuid addr client).woken ≡ client.woken)
  unfolding connect add_connect
  connect_keeps now uuid addr client = (refl, refl)

  -- With sound cryptography and a uuid of less than 256 bytes, a client that connects and a
  -- server that hears of it answer each other with three packets. At the end both channels have
  -- the same session key, the hash of what the client drew, and the client's waiting call is
  -- given the channel at the server's address.
  pub handshake :
      (now : ℕ) (random random' : Random) (at_client at_server uuid : Bytes) (client server : Tru p)
      → length uuid < 256
      → let client₀ = connect now uuid at_server client in
        let first = answer now status_connect (hello p client.private_key uuid) in
        let server₁ = (serve_packet now random' at_client first server).0 in
        (p₁ p₂ p₃ : Packet) × (outbox at_client server₁ ≡ p₁ ∷ [])
        × (let client₁ = (serve_packet now random at_server p₁ client₀).0 in
            let server₂ = (serve_packet now random' at_client p₂ server₁).0 in
            let client₂ = (serve_packet now random at_server p₃ client₁).0 in
            (outbox at_server client₁ ≡ p₂ ∷ [])
            × (outbox at_client server₂ ≡ p₁ ∷ p₃ ∷ [])
            × (session_key_at at_server client₂ ≡ make_session_key p random.picks)
            × (session_key_at at_client server₂ ≡ make_session_key p random.picks)
            × (client₂.woken ≡ client.woken ++ record { uuid = uuid; ch = some at_server } ∷ []))
  handshake now random random' at_client at_server uuid client server h =
      let client₀ = connect now uuid at_server client in
      let waiting : ConnectData = record { uuid = uuid; ch = none } in
      let first = answer now status_connect (hello p client.private_key uuid) in
      let server₁ = (serve_packet now random' at_client first server).0 in
      let kc = connect_keeps now uuid at_server client in
      let (boxed, opens, _, same, out₁) =
        serve_connect_step p s now random' at_client uuid client.private_key server h in
      let p₁ =
        answer now status_connect_server_answer
          (marshal_data (record { uuid = uuid; payload = boxed })) in
      let client₁ = (serve_packet now random at_server p₁ client₀).0 in
      let (again, opens', _, woken, waits, session, out₂) =
        serve_server_answer_step p s now random at_server uuid boxed server.private_key waiting
          client₀ h (waits_connect now uuid at_server client) (rw kc.0 opens) in
      let (_, session', out₃) =
        serve_client_answer_step p s now at_client uuid again (make_session_key p random.picks)
          random' server₁ p₁ h out₁ (rw same opens') in
      let p₃ =
        answer now status_connect_done (marshal_data (record { uuid = uuid; payload = [] })) in
      let (_, woken', kept) =
        serve_done_step p s now random at_server uuid (record waiting { ch = some at_server })
          client₁ h waits in
      (
        p₁,
        _,
        p₃,
        out₁,
        (
          out₂,
          out₃,
          kept ∙ session,
          session',
          woken' ∙ ap (λ l. l ++ record { uuid = uuid; ch = some at_server } ∷ []) (woken ∙ kc.1),
        ),
      )
