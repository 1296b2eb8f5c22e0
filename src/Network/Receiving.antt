-- ===== src/Network/Receiving.antt =====
-- A packet that arrives keeps what holds of a network.
use tru.Base.Map.{nat_eq}
use tru.Base.{
  ==_self, ℕ, ◌%◌, ◌<◌, ◌≡◌, refl, sym, ap, ◌∙◌, subst, inl, inr, List, [], ◌∷◌, ◌++◌, map, drop,
  drop-append, All, All-map, some, some_eq, Bytes, arith, length, ◌==◌, Bool-cases, ==_iff,
}
use tru.Channel.Write.{Env, build}
use tru.Connector.Serve.{serve_channel}
use tru.Crypt.Library.{Primitives, IsSound}
use tru.Crypt.Session.{decrypt_packet_data-encrypt_packet_data}
use tru.Crypt.{decrypt_packet_data}
use tru.Network.Senders.{serve_data, deliver_sender}
use tru.Channel.Write.Laws.{build_fields}
use tru.Network.{Net, Carries, arrive}
use tru.Packet.Codec.{unmarshal_binary-marshal_binary}
use tru.Packet.{
  Packet, packet_id_limit, new_packet, status_data, status_ack, marshal_binary, unmarshal_binary,
}
use tru.Receive.Again.{receive_again, Inv-agree}
use tru.Receive.Ordered.{receive-Inv, IsNext-Inv}
use tru.Receive.Places.{Inv}
use tru.Receive.Stream.{Near, Seen}
use tru.Receive.{receive_data}
use tru.Transfer.{Writes}
use tru.Network.Invariant.{
  wire_at, plain_at, stamp_at, Seen-cases, AcksIt, IsGood, wire_at-IsStream,
}

drop_all : {A : Type 0} (xs : List A) → drop (length xs) xs ≡ []
drop_all [] = refl
drop_all (x ∷ xs) = drop_all xs

module _ (p : Primitives) (s : IsSound p) (key : Bytes) (w : Writes)
    (nonces : (n : ℕ) → length (w.env n).nonce ≡ p.nonce_size) where
  q_is_wire :
      (now n : ℕ) (stamps : ℕ → ℕ) (pac q : Packet)
      → Carries p key w n pac
      → unmarshal_binary (new_packet now) (marshal_binary pac) ≡ some q
      → stamps n ≡ now
      → q ≡ wire_at p key w stamps n
  unfolding wire_at
  q_is_wire now n stamps pac q c read at = some_eq (
      sym read
      ∙ unmarshal_binary-marshal_binary now pac (omega (arith, c.id)) (omega (arith, c.status))
      ∙ rw (c.id, c.status, c.payload, at) refl)

  plain_at-agree :
      (stamps : ℕ → ℕ) (n now : ℕ) (seen : List ℕ)
      → ¬ Seen n seen
      → (m : ℕ) → Seen m seen
      → plain_at w stamps m ≡ plain_at w (stamp_at stamps n now) m
  unfolding plain_at
  plain_at-agree stamps n now seen fresh m came = elim (Bool-cases (n == m)) [
    | inl x ↦ absurd (fresh (subst (λ (k : ℕ). Seen k seen) (sym ((==_iff n m).0 x)) came))
    | inr x ↦ rw x refl
  ]

  again :
      (env : Env) (n : ℕ) (pac q : Packet) (net : Net) (stamps : ℕ → ℕ) (first : ℕ)
      → Carries p key w n pac
      → Near net.arrived n
      → unmarshal_binary (new_packet env.now) (marshal_binary pac) ≡ some q
      → Seen n net.arrived
      → Inv key (plain_at w stamps) net.arrived first net.receiver
      → Inv key (plain_at w stamps) (n ∷ net.arrived) first (serve_channel p env q net.receiver).0
  unfolding wire_at
  again env n pac q net stamps first c near read came inv =
      let stream = wire_at-IsStream p s key w nonces (λ k. env.now) in
      let e = q_is_wire env.now n (λ k. env.now) pac q c read refl in
      let lo =
        (near first (
          IsNext-Inv p key (wire_at p key w stamps) (plain_at w stamps)
            (wire_at-IsStream p s key w nonces stamps) net.arrived first net.receiver inv)).0 in
      rw (serve_data p env q net.receiver (ap (λ (x : Packet). x.status) e)) (
        receive_again key (plain_at w stamps) p env n q (w.message n) net.arrived first net.receiver
          came lo (ap (λ (x : Packet). x.id) e)
          (ap (λ (x : Packet). decrypt_packet_data p key x.id x.payload) e
            ∙ decrypt_packet_data-encrypt_packet_data p s key (w.env n).nonce (n % packet_id_limit)
                (w.message n) (nonces n))
          inv)

  new :
      (env : Env) (n : ℕ) (pac q : Packet) (net : Net) (stamps : ℕ → ℕ) (first : ℕ)
      → Carries p key w n pac
      → Near net.arrived n
      → unmarshal_binary (new_packet env.now) (marshal_binary pac) ≡ some q
      → ¬ Seen n net.arrived
      → Inv key (plain_at w stamps) net.arrived first net.receiver
      → (stamps' : ℕ → ℕ) × (first' : ℕ) × Inv key
          (plain_at w stamps')
          (n ∷ net.arrived)
          first'
          (serve_channel p env q net.receiver).0
  unfolding wire_at
  new env n pac q net stamps first c near read fresh inv =
      let later = stamp_at stamps n env.now in
      let stream = wire_at-IsStream p s key w nonces later in
      let e = q_is_wire env.now n later pac q c read (ground (arith, ==_self n)) in
      let v =
        Inv-agree key (plain_at w stamps) (plain_at w later) net.arrived first net.receiver
          (plain_at-agree stamps n env.now net.arrived fresh) inv in
      let (lo, hi) = near first (
        IsNext-Inv p key (wire_at p key w later) (plain_at w later) stream net.arrived first
          net.receiver v) in
      let (first', _, done) =
        receive-Inv p key (wire_at p key w later) (plain_at w later) stream env n net.arrived first
          net.receiver lo hi v in
      (
        later,
        first',
        rw
            (serve_data p env q net.receiver (ap (λ (x : Packet). x.status) e)
              ∙ ap (λ (x : Packet). receive_data p env x net.receiver) e)
            done,
      )

  -- What the receiver hands to its sender process for a packet is an ack of it.
  answered_acks :
      (env : Env) (n : ℕ) (pac q : Packet) (net : Net)
      → Carries p key w n pac
      → unmarshal_binary (new_packet env.now) (marshal_binary pac) ≡ some q
      → All (AcksIt net.arrived) net.answered
      → All
          (AcksIt (n ∷ net.arrived))
          (arrive n (serve_channel p env q net.receiver).0 net).answered
  answered_acks env n pac q net c read v =
      let e = some_eq (
        sym read
        ∙ unmarshal_binary-marshal_binary env.now pac (omega (arith, c.id))
            (omega (arith, c.status))) in
      let at : q.id ≡ n % packet_id_limit = ap (λ (x : Packet). x.id) e ∙ c.id in
      let is_data : q.status ≡ status_data = ap (λ (x : Packet). x.status) e ∙ c.status in
      let answer = build env.now q.id status_ack [] in
      let fields = build_fields env.now q.id status_ack [] (omega (arith, at)) in
      let P = AcksIt (n ∷ net.arrived) in
      let old =
        All-map (AcksIt net.arrived) P net.answered (λ x (came, i, st). (inr came, i, st)) v in
      let sent = net.receiver.sender_ch in
      let Q = λ (after : List Packet).
        All P (map (λ (a : Packet). (n, a)) (drop (length sent) after) ++ net.answered) in
      elim (deliver_sender p env q net.receiver is_data) [
        | inl same ↦ subst Q (sym same) (rw (drop_all sent) old)
        | inr more ↦ subst Q (sym more) (
            rw (drop-append (length sent) sent (answer ∷ []) refl)
              ((inl refl, fields.0 ∙ at, fields.1), old))
      ]

  pub deliver-IsGood :
      (net : Net) (env : Env) (n : ℕ) (pac q : Packet)
      → n < net.written
      → Carries p key w n pac
      → Near net.arrived n
      → unmarshal_binary (new_packet env.now) (marshal_binary pac) ≡ some q
      → IsGood p key w net
      → IsGood p key w (arrive n (serve_channel p env q net.receiver).0 net)
  deliver-IsGood net env n pac q l c near read v =
      let (stamps, first, inv) = v.got in
      record {
        id = v.id;
        keyed = v.keyed;
        queue = v.queue;
        sent = λ m x. elim x [ inl same ↦ omega arith | inr came ↦ v.sent m came ];
        acks = answered_acks env n pac q net c read v.acks;
        kept = λ m k. elim (v.kept m k) [ inl came ↦ inl (inr came) | inr waits ↦ inr waits ];
        got = elim (Seen-cases n net.arrived) [
          | inl came ↦ (stamps, first, again env n pac q net stamps first c near read came inv)
          | inr fresh ↦ new env n pac q net stamps first c near read fresh inv
        ];
      }
