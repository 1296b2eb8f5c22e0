-- ===== src/Network/Session.antt =====
-- A handshake and what is then written over its channels (connect.go, channel.go, tru.go).
use tru.Base.{
  refl, List, Option-cases, inl, inr, ap, arith, ℕ, ◌<◌, ◌≤◌, ◌≡◌, sym, subst, [], ◌∷◌, none, some,
  Bytes, length,
}
use tru.Channel.Fresh.{IsFresh}
use tru.Channel.{Channel}
use tru.Connect.{Random, hello, make_session_key, random_string}
use tru.Connector.Handshake.Agree.{handshake}
use tru.Connector.Handshake.Fresh.{FreshAt, serve_packet-FreshAt, connect-FreshAt}
use tru.Connector.Handshake.Steps.{outbox, session_key_at}
use tru.Connector.Handshake.{answer, connect, serve_packet}
use tru.Connector.{Tru, get_channel}
use tru.Crypt.Library.{Primitives, IsSound}
use tru.Network.Duplex.Safety.{start_duplex, both_read_in_order}
use tru.Network.Duplex.{Duplex, Reach}
use tru.Packet.{Packet, status_connect}
use tru.Receive.Stream.{IsNext}
use tru.Transfer.Whole.{messages, bytes_read}
use tru.Transfer.{Writes}

module _ {p : Primitives} where
  -- The two connectors before and after each packet of a handshake, in which every packet is the
  -- newest one of the other end.
  pub record IsSession (now : ℕ) (random random' : Random) (at_client at_server uuid : Bytes)
      (client server client₂ server₂ : Tru p) : Type 0 where
    pub client₁ : Tru p
    pub server₁ : Tru p
    pub p₁ : Packet
    pub p₂ : Packet
    pub p₃ : Packet
    pub asks :
        server₁
        ≡ (serve_packet now random' at_client
            (answer now status_connect (hello p client.private_key uuid))
            server).0
    pub sent₁ : outbox at_client server₁ ≡ p₁ ∷ []
    pub answers :
        client₁ ≡ (serve_packet now random at_server p₁ (connect now uuid at_server client)).0
    pub sent₂ : outbox at_server client₁ ≡ p₂ ∷ []
    pub agrees : server₂ ≡ (serve_packet now random' at_client p₂ server₁).0
    pub sent₃ : outbox at_client server₂ ≡ p₁ ∷ p₃ ∷ []
    pub ends : client₂ ≡ (serve_packet now random at_server p₃ client₁).0

  none-FreshAt : (addr : Bytes) (tru : Tru p) → get_channel addr tru ≡ none → FreshAt addr tru
  none-FreshAt addr tru e ch h = cc

  keyed_channel :
      (s : IsSound p) (addr : Bytes) (picks : List ℕ) (tru : Tru p)
      → session_key_at addr tru ≡ make_session_key p picks
      → (ch : Channel) × (get_channel addr tru ≡ some ch)
  unfolding make_session_key
  keyed_channel s addr picks tru k = elim (Option-cases (get_channel addr tru)) [
    | inl e ↦
        let empty : [] ≡ make_session_key p picks = rw (e, session_key_at) at k in
        absurd
          (omega (arith, ap (λ (b : Bytes). length b) empty, s.sha256_size (random_string picks)))
    | inr found ↦ found
  ]

  at-IsFresh :
      (addr key : Bytes) (tru : Tru p) (ch : Channel)
      → FreshAt addr tru
      → session_key_at addr tru ≡ key
      → get_channel addr tru ≡ some ch
      → IsFresh key ch
  at-IsFresh addr key tru ch v k h =
      subst (λ (a : Bytes). IsFresh a ch) (rw (h, session_key_at) at k) (v ch h)

module _ {p : Primitives} (s : IsSound p) (now : ℕ) (random random' : Random)
    (at_client at_server uuid : Bytes) (client server client₂ server₂ : Tru p)
    (short : length uuid < 256)
    (session : IsSession now random random' at_client at_server uuid client server client₂
      server₂) where
  agreed :
      (session_key_at at_server client₂ ≡ make_session_key p random.picks)
      × (session_key_at at_client server₂ ≡ make_session_key p random.picks)
  agreed =
      let (q₁, q₂, q₃, o₁, (o₂, o₃, k, k', _)) =
        handshake p s now random random' at_client at_server uuid client server short in
      let a = session.asks in
      let b = session.answers in
      let c = session.agrees in
      let d = session.sent₁ in
      let e = session.sent₂ in let f = session.sent₃ in let g = session.ends in (cc, cc)

  both-IsFresh :
      (left right : Channel)
      → get_channel at_server client ≡ none
      → get_channel at_client server ≡ none
      → get_channel at_server client₂ ≡ some left
      → get_channel at_client server₂ ≡ some right
      → IsFresh (make_session_key p random.picks) left
        × IsFresh (make_session_key p random.picks) right
  both-IsFresh left right none_left none_right has_left has_right =
      let key = make_session_key p random.picks in
      let (k, k') = agreed in
      let asked =
        connect-FreshAt now uuid at_server client (none-FreshAt at_server client none_left) in
      let client-FreshAt : FreshAt at_server client₂ =
        subst (FreshAt at_server) (sym session.ends) (
          serve_packet-FreshAt now random at_server session.p₃ session.client₁ (
            subst (FreshAt at_server) (sym session.answers)
              (serve_packet-FreshAt now random at_server session.p₁ _ asked))) in
      let server-FreshAt : FreshAt at_client server₂ =
        subst (FreshAt at_client) (sym session.agrees) (
          serve_packet-FreshAt now random' at_client session.p₂ session.server₁ (
            subst (FreshAt at_client) (sym session.asks) (
              serve_packet-FreshAt now random' at_client _ server
                (none-FreshAt at_client server none_right)))) in
      (
        at-IsFresh at_server key client₂ left client-FreshAt k has_left,
        at-IsFresh at_client key server₂ right server-FreshAt k' has_right,
      )

  -- A client connects to a server, neither with a channel for the other, with sound cryptography
  -- and a uuid of less than 256 bytes, and the packets of the handshake arrive. Whatever is then
  -- written over the client's channel and the server's one, each with nonces of the cipher's
  -- size, in every state that writes, runs of the retransmit timers, arrivals and acks lead to in
  -- any order, each of them has read exactly the messages of the other before the first one that
  -- has not arrived, each once and in the order of writing. Each direction keeps to the limits of
  -- one: a write waits for its id to be free, a packet comes less than half the id space away from
  -- the first one missing, an ack before the ids have gone once around since
  -- its packet was written.
  pub session_reads_in_order :
      (from_client from_server : Writes) (left right : Channel) (d : Duplex)
      → ((n : ℕ) → length (from_client.env n).nonce ≡ p.nonce_size)
      → ((n : ℕ) → length (from_server.env n).nonce ≡ p.nonce_size)
      → get_channel at_server client ≡ none
      → get_channel at_client server ≡ none
      → get_channel at_server client₂ ≡ some left
      → get_channel at_client server₂ ≡ some right
      → Reach p
          (make_session_key p random.picks)
          from_client
          from_server
          (start_duplex left right)
          d
      → ((first : ℕ) × IsNext d.at_right first
          × (first ≤ d.left_written)
          × (bytes_read d.right.reader_ch ≡ messages from_client.message first))
        × ((first : ℕ) × IsNext d.at_left first
            × (first ≤ d.right_written)
            × (bytes_read d.left.reader_ch ≡ messages from_server.message first))
  session_reads_in_order from_client from_server left right d nonces nonces' none_left none_right
        has_left has_right r =
      let (fresh, fresh') = both-IsFresh left right none_left none_right has_left has_right in
      both_read_in_order p s (make_session_key p random.picks) from_client from_server nonces
        nonces' left right fresh fresh' d r

module _ {p : Primitives} (s : IsSound p) (now : ℕ) (random random' : Random)
    (at_client at_server uuid : Bytes) (client server : Tru p) where
  -- A client connects to a server, neither with a channel for the other, with sound cryptography
  -- and a uuid of less than 256 bytes, and the three packets of the handshake arrive. Then each of
  -- them has a channel for the other, the two have the hash of what the client drew as their
  -- session key, and neither has written or read a message.
  pub session_opens :
      length uuid < 256
      → get_channel at_server client ≡ none
      → get_channel at_client server ≡ none
      → (client₂ server₂ : Tru p) × IsSession now random random' at_client at_server uuid client
          server client₂ server₂
        × (left right : Channel) × (get_channel at_server client₂ ≡ some left)
        × (get_channel at_client server₂ ≡ some right)
        × IsFresh (make_session_key p random.picks) left
        × IsFresh (make_session_key p random.picks) right
  session_opens short none_left none_right =
      let (q₁, q₂, q₃, o₁, (o₂, o₃, k, k', _)) =
        handshake p s now random random' at_client at_server uuid client server short in
      let first = answer now status_connect (hello p client.private_key uuid) in
      let server₁ = (serve_packet now random' at_client first server).0 in
      let client₁ = (serve_packet now random at_server q₁ (connect now uuid at_server client)).0 in
      let server₂ = (serve_packet now random' at_client q₂ server₁).0 in
      let client₂ = (serve_packet now random at_server q₃ client₁).0 in
      let session : IsSession now random random' at_client at_server uuid client server client₂
          server₂ =
        record {
          client₁ = client₁;
          server₁ = server₁;
          p₁ = q₁;
          p₂ = q₂;
          p₃ = q₃;
          asks = refl;
          sent₁ = o₁;
          answers = refl;
          sent₂ = o₂;
          agrees = refl;
          sent₃ = o₃;
          ends = refl;
        } in
      let (left, has_left) = keyed_channel s at_server random.picks client₂ k in
      let (right, has_right) = keyed_channel s at_client random.picks server₂ k' in
      let (fresh, fresh') =
        both-IsFresh s now random random' at_client at_server uuid client server client₂ server₂
          short session left right none_left none_right has_left has_right in
      (client₂, server₂, session, left, right, has_left, has_right, fresh, fresh')
