-- ===== src/Connect/Answers.antt =====
-- What one end of a handshake boxes is what the other end opens (connect.go, crypt.go).
use tru.Base.{◌≡◌, [], some, Bytes, arith, length}
use tru.Connect.{Random, marshal_data, server_answer, client_answer, done_answer, make_session_key}
use tru.Crypt.Library.{Primitives, IsSound}
use tru.Crypt.Rsa.{decrypt-encrypt_lem}
use tru.Crypt.Keys.{bytes_to_public_key-public_key_to_bytes}
use tru.Crypt.{decrypt, public_key_to_bytes}

module _ (p : Primitives) (s : IsSound p) where
  pub server_answer_opens :
      (random : Random) (key client : p.PrivateKey) (uuid : Bytes)
      → (boxed : Bytes) × (server_answer p random key
            (record { uuid = uuid; payload = public_key_to_bytes p (p.public_key client) })
          ≡ some (marshal_data (record { uuid = uuid; payload = boxed })))
        × (decrypt p (length boxed) client boxed ≡ some (public_key_to_bytes p (p.public_key key)))
  unfolding server_answer
  server_answer_opens random key client uuid =
      let pub_key = public_key_to_bytes p (p.public_key key) in
      let (boxed, made, opens) =
        decrypt-encrypt_lem p s client (length pub_key) random.seed pub_key (omega arith) in
      (
        boxed,
        ground (arith, made, bytes_to_public_key-public_key_to_bytes p s (p.public_key client)),
        opens,
      )

  pub client_answer_opens :
      (random : Random) (key server : p.PrivateKey) (uuid boxed : Bytes)
      → decrypt p (length boxed) key boxed ≡ some (public_key_to_bytes p (p.public_key server))
      → (again : Bytes) × (client_answer p random key (record { uuid = uuid; payload = boxed })
          ≡ some (
            marshal_data (record { uuid = uuid; payload = again }),
            make_session_key p random.picks,
          ))
        × (decrypt p (length again) server again ≡ some (make_session_key p random.picks))
  unfolding client_answer
  client_answer_opens random key server uuid boxed h =
      let k = make_session_key p random.picks in
      let (again, made, opens) =
        decrypt-encrypt_lem p s server (length k) random.seed k (omega arith) in
      (
        again,
        ground (arith, h, made, bytes_to_public_key-public_key_to_bytes p s (p.public_key server)),
        opens,
      )

  pub done_answer_opens :
      (server : p.PrivateKey) (uuid again k : Bytes)
      → decrypt p (length again) server again ≡ some k
      → done_answer p server (record { uuid = uuid; payload = again })
        ≡ some (marshal_data (record { uuid = uuid; payload = [] }), k)
  unfolding done_answer
  done_answer_opens server uuid again k h = ground (arith, h)
