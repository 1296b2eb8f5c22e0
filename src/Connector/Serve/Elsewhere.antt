-- ===== src/Connector/Serve/Elsewhere.antt =====
-- A datagram stays with its sender's channel (tru.go, connect.go).
use tru.Base.{
  ℕ, ◌≡◌, ◌≢◌, refl, Bool, true, false, Option, none, some, Bytes, arith, bytes_eq, bytes_eq_iff,
  Bool-cases, Option-cases, inl, inr,
}
use tru.Base.Map.{bytes_key, insert}
use tru.Channel.Write.{Env, write_to_sender}
use tru.Connect.{Random, unmarshal_data, server_answer, client_answer, done_answer}
use tru.Connector.Handshake.{
  answer, set_session_key, serve_connect, serve_server_answer, serve_client_answer, serve_done,
  serve_packet,
}
use tru.Connector.Lookup.{
  elsewhere-open_channel, elsewhere-update_channel, elsewhere-destroy_channel,
}
use tru.Connector.Serve.{serve_channel, serve_connection, call, route, serve}
use tru.Connector.{Tru, open_channel, get_channel, update_channel, destroy_channel, get_connect}
use tru.Crypt.Library.{Primitives}
use tru.Packet.{Packet, unmarshal_binary, new_packet}

bytes_eq_apart : (a b : Bytes) → a ≢ b → bytes_eq a b ≡ false
bytes_eq_apart a b h = elim (Bool-cases (bytes_eq a b)) [
  | inl e ↦ absurd (h ((bytes_eq_iff a b).0 e))
  | inr e ↦ e
]

module _ {p : Primitives} (addr other : Bytes) (apart : bytes_eq addr other ≡ false) where
  elsewhere-serve_connect :
      (now : ℕ) (random : Random) (bytes : Bytes) (tru : Tru p)
      → get_channel other (serve_connect now random addr bytes tru).0 ≡ get_channel other tru
  unfolding serve_connect
  elsewhere-serve_connect now random bytes tru = elim (Option-cases (unmarshal_data bytes)) [
    | inl e ↦ ground (arith, e)
    | inr (cp, e) ↦
        let made = open_channel now addr true tru in
        let o = elsewhere-open_channel addr other apart now true tru in
        elim (Option-cases (server_answer p random tru.private_key cp)) [
          | inl f ↦ ground (arith, e, f, o)
          | inr (out, f) ↦ ground (
            arith,
            e,
            f,
            o,
            elsewhere-update_channel addr other apart (write_to_sender (answer now 1 out)) made,
          )
        ]
  ]

  elsewhere-serve_server_answer :
      (now : ℕ) (random : Random) (bytes : Bytes) (tru : Tru p)
      → get_channel other (serve_server_answer now random addr bytes tru).0 ≡ get_channel other tru
  unfolding serve_server_answer get_channel
  elsewhere-serve_server_answer now random bytes tru = elim (Option-cases (unmarshal_data bytes)) [
    | inl e ↦ ground (arith, e)
    | inr (cp, e) ↦ elim (Option-cases (get_connect cp.uuid tru)) [
      | inl f ↦ ground (arith, e, f)
      | inr (cd, f) ↦
          let opened = open_channel now addr false tru in
          let made : Tru p = record opened {
            connects = insert cp.uuid (record cd { ch = some addr }) opened.connects;
          } in
          let o = elsewhere-open_channel addr other apart now false tru in
          elim (Option-cases (client_answer p random tru.private_key cp)) [
            | inl g ↦ ground (arith, e, f, g, o)
            | inr ((out, key), g) ↦ ground (
              arith,
              e,
              f,
              g,
              o,
              elsewhere-update_channel addr other apart
                  (λ ch. set_session_key key (write_to_sender (answer now 2 out) ch)) made,
            )
          ]
    ]
  ]

  elsewhere-serve_client_answer :
      (now : ℕ) (bytes : Bytes) (tru : Tru p)
      → get_channel other (serve_client_answer now addr bytes tru).0 ≡ get_channel other tru
  unfolding serve_client_answer
  elsewhere-serve_client_answer now bytes tru = elim (Option-cases (unmarshal_data bytes)) [
    | inl e ↦ ground (arith, e)
    | inr (cp, e) ↦ elim (Option-cases (get_channel addr tru)) [
      | inl f ↦ ground (arith, e, f)
      | inr (ch, f) ↦ elim (Option-cases (done_answer p tru.private_key cp)) [
        | inl g ↦ ground (arith, e, f, g)
        | inr ((out, key), g) ↦ ground (
          arith,
          e,
          f,
          g,
          elsewhere-update_channel addr other apart
              (λ c. write_to_sender (answer now 3 out) (set_session_key key c)) tru,
        )
      ]
    ]
  ]

  elsewhere-serve_done :
      (bytes : Bytes) (tru : Tru p)
      → get_channel other (serve_done bytes tru).0 ≡ get_channel other tru
  unfolding serve_done get_channel
  elsewhere-serve_done bytes tru = elim (Option-cases (unmarshal_data bytes)) [
    | inl e ↦ ground (arith, e)
    | inr (cp, e) ↦ elim (Option-cases (get_connect cp.uuid tru)) [
      | inl f ↦ ground (arith, e, f)
      | inr (cd, f) ↦ ground (arith, e, f)
    ]
  ]

  elsewhere-serve_packet :
      (now : ℕ) (random : Random) (pac : Packet) (tru : Tru p)
      → get_channel other (serve_packet now random addr pac tru).0 ≡ get_channel other tru
  unfolding serve_packet
  elsewhere-serve_packet now random pac tru = ground (
    arith,
    elsewhere-serve_connect now random pac.payload tru,
    elsewhere-serve_server_answer now random pac.payload tru,
    elsewhere-serve_client_answer now pac.payload tru,
    elsewhere-serve_done pac.payload tru,
  )

  elsewhere-serve_connection :
      (env : Env) (random : Random) (pac : Packet) (tru : Tru p)
      → get_channel other (serve_connection env random addr pac tru) ≡ get_channel other tru
  unfolding serve_connection
  elsewhere-serve_connection env random pac tru =
      let closed = destroy_channel addr tru in
      let gone : (t : Tru p) → get_channel other (destroy_channel addr t) ≡ get_channel other t =
        elsewhere-destroy_channel addr other apart in
      ground (
        arith,
        gone tru,
        elsewhere-serve_packet env.now random pac tru,
        elsewhere-serve_packet env.now random pac closed,
        gone (serve_packet env.now random addr pac tru).0,
        gone (serve_packet env.now random addr pac closed).0,
      )

  elsewhere-call :
      (callback : Option ℕ) (tru : Tru p)
      → get_channel other (call callback tru) ≡ get_channel other tru
  unfolding call get_channel
  elsewhere-call none tru = refl
  elsewhere-call (some f) tru = refl

  elsewhere-route :
      (env : Env) (random : Random) (punching : Bool) (pac : Packet) (tru : Tru p)
      → get_channel other (route env random punching addr pac tru) ≡ get_channel other tru
  unfolding route get_channel
  elsewhere-route env random punching pac tru =
      let opened = elsewhere-serve_connection env random pac tru in
      elim (Option-cases (get_channel addr tru)) [
        | inl e ↦ ground (arith, e, opened)
        | inr (ch, e) ↦
            let (served, callback) = serve_channel p env pac ch in
            ground (
              arith,
              e,
              opened,
              elsewhere-destroy_channel addr other apart tru,
              elsewhere-call callback (update_channel addr (λ _. served) tru),
              elsewhere-update_channel addr other apart (λ _. served) tru,
            )
      ]

-- A datagram opens, changes and closes no channel but the one of the address that it comes from,
-- whatever bytes it holds.
pub serve-elsewhere :
    {p : Primitives} (env : Env) (random : Random) (punching : Bool) (addr other bytes : Bytes)
    (tru : Tru p)
    → addr ≢ other
    → get_channel other (serve env random punching addr bytes tru) ≡ get_channel other tru
unfolding serve
serve-elsewhere env random punching addr other bytes tru h =
    elim (Option-cases (unmarshal_binary (new_packet env.now) bytes)) [
      | inl e ↦ ground (arith, e)
      | inr (pac, e) ↦ ground (
        arith,
        e,
        elsewhere-route addr other (bytes_eq_apart addr other h) env random punching pac tru,
      )
    ]
