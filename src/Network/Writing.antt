-- ===== src/Network/Writing.antt =====
-- A write keeps what holds of a network.
use tru.Base.Map.{nat_eq}
use tru.Base.{
  ℕ, ◌+◌, ◌%◌, ◌≡◌, sym, ap, ◌∙◌, subst, inl, inr, false, none, Bytes, arith, length, ◌==◌,
  Bool-cases, ==_iff,
}
use tru.Channel.{Channel}
use tru.Crypt.Library.{Primitives, IsSound}
use tru.Network.{Net, Carries}
use tru.Packet.{Packet, packet_id_limit}
use tru.SendQueue.Get.{get-add, lookup-index_none}
use tru.SendQueue.Index.{add-IsValid}
use tru.SendQueue
use tru.Transfer.{Writes}
use tru.Network.Invariant.{Waits, IsGood}

module _ (p : Primitives) (s : IsSound p) (key : Bytes) (w : Writes)
    (nonces : (n : ℕ) → length (w.env n).nonce ≡ p.nonce_size) where
  -- What waits is not at the id that is free, so its number is not a whole round back.
  other_id :
      (net : Net) (n : ℕ)
      → SendQueue.get net.sender.id net.sender.send_queue ≡ none
      → net.sender.id ≡ net.written % packet_id_limit
      → Waits p key w n net
      → (net.written % packet_id_limit ≡ n % packet_id_limit)
      → ⊥
  other_id net n free id (e, q, there, c, near) same =
      cc (free, there, ap (λ (k : ℕ). SendQueue.get k net.sender.send_queue) (id ∙ same))

  write-Waits :
      (net : Net) (n : ℕ) (sender : Channel) (pac : Packet)
      → SendQueue.get net.sender.id net.sender.send_queue ≡ none
      → IsGood p key w net
      → sender.send_queue ≡ SendQueue.add pac net.sender.send_queue
      → Carries p key w net.written pac
      → Waits p key w n net
      → Waits p key w n (record net { sender = sender; written = net.written + 1 })
  write-Waits net n sender pac free v queue c (e, q, there, cq, near) =
      let apart = other_id net n free v.id (e, q, there, cq, near) in
      let found = get-add pac (n % packet_id_limit) net.sender.send_queue v.queue in
      let off : (pac.id == n % packet_id_limit) ≡ false =
        elim (Bool-cases (pac.id == n % packet_id_limit)) [
          | inl x ↦ absurd (apart (sym c.id ∙ (==_iff pac.id (n % packet_id_limit)).0 x))
          | inr x ↦ x
        ] in
      (
        e,
        q,
        ap (SendQueue.get (n % packet_id_limit)) queue ∙ found ∙ ground (arith, off, there),
        cq,
        elim (Bool-cases (net.written == n + packet_id_limit)) [
          | inl x ↦ absurd (apart (omega (arith, (==_iff net.written (n + packet_id_limit)).0 x)))
          | inr x ↦ ground (arith, near, x)
        ],
      )

  pub write-IsGood :
      (net : Net) (sender : Channel) (pac : Packet)
      → SendQueue.get net.sender.id net.sender.send_queue ≡ none
      → IsGood p key w net
      → sender.id ≡ (net.written + 1) % packet_id_limit
      → sender.session_key ≡ net.sender.session_key
      → sender.send_queue ≡ SendQueue.add pac net.sender.send_queue
      → Carries p key w net.written pac
      → IsGood p key w (record net { sender = sender; written = net.written + 1 })
  write-IsGood net sender pac free v id keyed queue c =
      let free' = ap (λ (k : ℕ). SendQueue.get k net.sender.send_queue) (c.id ∙ sym v.id) ∙ free in
      record {
        id = id;
        keyed = keyed ∙ v.keyed;
        queue = rw queue (
            add-IsValid pac net.sender.send_queue
              (lookup-index_none pac.id net.sender.send_queue v.queue free') v.queue);
        acks = v.acks;
        sent = λ n x. omega (arith, v.sent n x);
        kept = λ n l. elim (Bool-cases (n == net.written)) [
          | inl x ↦
              let same = (==_iff n net.written).0 x in
              inr (
                net.sender.send_queue.next_element,
                pac,
                ap (SendQueue.get (n % packet_id_limit)) queue
                    ∙ get-add pac (n % packet_id_limit) net.sender.send_queue v.queue
                    ∙ ground (arith, c.id, same),
                subst (λ (k : ℕ). Carries p key w k pac) (sym same) c,
                omega (arith, same),
              )
          | inr x ↦ elim (v.kept n (ground (arith, l, x))) [
            | inl came ↦ inl came
            | inr waits ↦ inr (write-Waits net n sender pac free v queue c waits)
          ]
        ];
        got = v.got;
      }
