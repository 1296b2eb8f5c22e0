-- ===== src/Network/Progress.antt =====
-- A network goes on: what is sent again, and arrives, is read (send_queue.go, tru.go).
use mathlib.Core.List.Memᴰ
use mathlib.Core.List.{Mem}
use tru.Base.{
  ℕ, ◌%◌, ◌≤◌, ◌<◌, ◌≡◌, refl, subst, inl, inr, Bool, true, List, ◌∷◌, ◌++◌, some, Bytes, arith,
  length, ltb, Bool-cases, ◌==◌, ==_iff, All,
}
use tru.Channel.Retransmit.{retransmit_due}
use tru.Channel.Write.{Env}
use tru.Channel.{Channel}
use tru.Connector.Serve.{serve_channel}
use tru.Crypt.Library.{Primitives, IsSound}
use tru.Network.Invariant.{Carries-Alike}
use tru.Network.Safety.{start_net, reads_in_order, kept_until_arrival}
use tru.Network.{Net, Step, arrive, Carries, retransmit, deliver, Reach, next}
use tru.Packet.Codec.{unmarshal_binary-marshal_binary}
use tru.Packet.{Packet, packet_id_limit, new_packet, marshal_binary, unmarshal_binary}
use tru.Receive.Stream.{IsNext, Near}
use tru.SendQueue.Get.{lookup-get}
use tru.SendQueue.Index.{IsValid}
use tru.SendQueue.Renewal.{renew-Alike}
use tru.SendQueue.Retransmit.{HasAttempts, is_due, due, retransmit_pass, Mem-due}
use tru.SendQueue.{renew}
use tru.SendQueue
use tru.Transfer.Whole.{messages, bytes_read}
use tru.Transfer.{Writes}

-- There is one first number that has not come, and it moves on when it comes.
IsNext-unique : (seen : List ℕ) (a b : ℕ) → IsNext seen a → IsNext seen b → a ≤ b
IsNext-unique seen a b (below, missing) (below', missing') = elim (Bool-cases (ltb b a)) [
  | inl l ↦ absurd (missing' (below b (ground arith)))
  | inr l ↦ ground arith
]

IsNext-after :
    (seen : List ℕ) (first later : ℕ)
    → IsNext seen first
    → IsNext (first ∷ seen) later
    → first < later
IsNext-after seen first later (below, missing) (below', missing') =
    elim (Bool-cases (ltb first later)) [
      | inl l ↦ ground arith
      | inr l ↦ elim (Bool-cases (first == later)) [
        | inl k ↦ absurd (missing' (inl ((==_iff first later).0 k)))
        | inr k ↦ absurd (missing' (inr (below later (ground (arith, l, k)))))
      ]
    ]

sent_again :
    (now : ℕ) (ch : Channel)
    → All (HasAttempts now) ch.send_queue.queue
    → (retransmit_due now ch).sender_ch
      ≡ ch.sender_ch ++ due ch.stat.trip_time_midle now ch.send_queue.queue
unfolding retransmit_due
sent_again now ch h =
    rw (retransmit_pass ch.stat.trip_time_midle now ch.send_queue.queue h, retransmit_due) refl

module _ (p : Primitives) (s : IsSound p) (w : Writes)
    (nonces : (n : ℕ) → length (w.env n).nonce ≡ p.nonce_size) where
  module _ (sender : Channel) (now : ℕ) (addr : Bytes) (server_mode : Bool) (delay limit : ℕ)
      (first_id : sender.id ≡ 0) (valid : IsValid sender.send_queue) where
    -- A sender with sound cryptography, nonces of the cipher's size, its ids at 0 and an index that
    -- fits its send queue has written to a new channel with the same session key, and a message is
    -- the first one that has not arrived. When its packet is due and every packet that is due has
    -- an attempt left, then the step of the retransmit timer at that time and one step in which
    -- this message arrives, and no other, lead to a state in which the reader has this message too:
    -- it has exactly the messages before the first one that has not arrived then, in the order of
    -- writing, and that one stands behind this message.
    pub retransmit_progress :
        (net : Net) (first time e : ℕ) (pac : Packet) (env : Env)
        → Reach p sender.session_key w (start_net sender now addr server_mode delay limit) net
        → IsNext net.arrived first
        → first < net.written
        → All (HasAttempts time) net.sender.send_queue.queue
        → SendQueue.get (first % packet_id_limit) net.sender.send_queue ≡ some (e, pac)
        → is_due time pac ≡ true
        → let sent = record net { sender = retransmit_due time net.sender } in
          (later : Net) × Step p sender.session_key w net sent
          × Step p sender.session_key w sent later
          × (later.sender ≡ sent.sender)
          × (later.written ≡ net.written)
          × (later.arrived ≡ first ∷ net.arrived)
          × (first' : ℕ) × IsNext (first ∷ net.arrived) first'
          × (first < first')
          × (bytes_read later.receiver.reader_ch ≡ messages w.message first')
    retransmit_progress net first time e pac env r is_next l attempts there timed =
        let key = sender.session_key in
        let again = renew net.sender.stat.trip_time_midle time pac in
        let kept =
          kept_until_arrival p s w nonces sender now addr server_mode delay limit first_id valid
            first net r l in
        let c : Carries p key w first again = elim kept [
          | inl came ↦ absurd (is_next.1 came)
          | inr (f, q, found, c, _) ↦
              let one : q ≡ pac = cc (found, there) in
              Carries-Alike p key w first pac again
                (renew-Alike net.sender.stat.trip_time_midle time pac)
                (subst (λ (x : Packet). Carries p key w first x) one c)
        ] in
        let again_sent : Mem again (
            net.sender.sender_ch
            ++ due net.sender.stat.trip_time_midle time net.sender.send_queue.queue) =
          ∣ Memᴰ.append_right net.sender.sender_ch (
            Mem-due net.sender.stat.trip_time_midle time e pac net.sender.send_queue.queue
              (lookup-get (first % packet_id_limit) e pac net.sender.send_queue there) timed) ∣₁ in
        let sent : Mem again (retransmit_due time net.sender).sender_ch =
          rw (sent_again time net.sender attempts) again_sent in
        let near : Near net.arrived first = λ k h.
          let a = IsNext-unique net.arrived first k is_next h in
          let b = IsNext-unique net.arrived k first h is_next in
          (omega (arith, b), omega (arith, a)) in
        let wire : Packet = record (new_packet env.now) {
          id = again.id;
          status = again.status;
          payload = again.payload;
        } in
        let read : unmarshal_binary (new_packet env.now) (marshal_binary again) ≡ some wire =
          unmarshal_binary-marshal_binary env.now again (omega (arith, c.id))
            (omega (arith, c.status)) in
        let net₁ : Net = record net { sender = retransmit_due time net.sender } in
        let net₂ : Net = arrive first (serve_channel p env wire net.receiver).0 net₁ in
        let s₁ : Step p key w net net₁ = retransmit net time in
        let s₂ : Step p key w net₁ net₂ = deliver net₁ env first again wire sent l c near read in
        let (first', is_next', _, given) =
          reads_in_order p s w nonces sender now addr server_mode delay limit first_id valid net₂
            (next (next r s₁) s₂) in
        (
          net₂,
          s₁,
          s₂,
          refl,
          refl,
          refl,
          first',
          is_next',
          IsNext-after net.arrived first first' is_next is_next',
          given,
        )
