-- ===== src/Network/Acking.antt =====
-- An ack, and a run of the retransmit timer, keep what holds of a network.
use tru.Base.Map.{nat_eq}
use tru.Base.{
  ℕ, ◌+◌, ◌%◌, ◌≤◌, ◌≡◌, sym, ◌∙◌, subst, inl, inr, Bytes, arith, length, ◌==◌, Bool-cases, ==_iff,
}
use tru.Channel.Retransmit.{retransmit_due}
use tru.Channel.Write.{Env}
use tru.Connector.Serve.{serve_channel}
use tru.Crypt.Library.{Primitives, IsSound}
use tru.Network.Queue.{serve_ack_fields, retransmit_fields}
use tru.Network.{Net}
use tru.Packet.{status_ack, Packet, packet_id_limit}
use tru.Receive.Stream.{Seen}
use tru.Transfer.{Writes}
use tru.Network.Invariant.{IsGood, Carries-Alike}

module _ (p : Primitives) (s : IsSound p) (key : Bytes) (w : Writes)
    (nonces : (n : ℕ) → length (w.env n).nonce ≡ p.nonce_size) where
  pub ack-IsGood :
      (net : Net) (env : Env) (n : ℕ) (q : Packet)
      → q.status ≡ status_ack
      → q.id ≡ n % packet_id_limit
      → Seen n net.arrived
      → net.written ≤ n + packet_id_limit
      → IsGood p key w net
      → IsGood p key w (record net { sender = (serve_channel p env q net.sender).0 })
  ack-IsGood net env n q h at came fresh v =
      let (id, keyed, queue, get_all) = serve_ack_fields p s env q net.sender h v.queue in
      record {
        id = id ∙ v.id;
        keyed = keyed ∙ v.keyed;
        queue = queue;
        sent = v.sent;
        acks = v.acks;
        kept = λ j l. elim (v.kept j l) [
          | inl x ↦ inl x
          | inr (e, pac, there, c, near) ↦ elim (Bool-cases (q.id == j % packet_id_limit)) [
            | inl x ↦
                let round : n % packet_id_limit ≡ j % packet_id_limit =
                  sym at ∙ (==_iff q.id (j % packet_id_limit)).0 x in
                let one : n ≡ j = omega (arith, round, v.sent n came) in
                inl (subst (λ (k : ℕ). Seen k net.arrived) one came)
            | inr x ↦
                inr (e, pac, get_all (j % packet_id_limit) ∙ ground (arith, x, there), c, near)
          ]
        ];
        got = v.got;
      }

  pub retransmit-IsGood :
      (net : Net) (now : ℕ)
      → IsGood p key w net
      → IsGood p key w (record net { sender = retransmit_due now net.sender })
  retransmit-IsGood net now v =
      let (id, keyed, queue, get_all) = retransmit_fields now net.sender v.queue in
      record {
        id = id ∙ v.id;
        keyed = keyed ∙ v.keyed;
        queue = queue;
        sent = v.sent;
        acks = v.acks;
        kept = λ j l. elim (v.kept j l) [
          | inl x ↦ inl x
          | inr (e, pac, there, c, near) ↦
              let (b, there', alike) = get_all (j % packet_id_limit) e pac there in
              inr (e, b, there', Carries-Alike p key w j pac b alike c, near)
        ];
        got = v.got;
      }
