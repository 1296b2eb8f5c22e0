-- ===== src/Network/Invariant.antt =====
-- What holds of a network in every state that it reaches.
use tru.Base.Map.{nat_eq}
use tru.Base.{
  ℕ, ◌+◌, ◌%◌, ◌≤◌, ◌<◌, ◌≡◌, refl, ◌∙◌, ◌⊎◌, inl, inr, List, [], ◌∷◌, some, Bytes, arith, length,
  ◌==◌, if◌then◌else◌, Bool-cases, ==_iff, All,
}
use tru.Crypt.Library.{Primitives, IsSound}
use tru.Crypt.Session.{decrypt_packet_data-encrypt_packet_data}
use tru.Crypt.{encrypt_packet_data}
use tru.Network.{Net, Carries}
use tru.Packet.{Packet, packet_id_limit, new_packet, status_data, status_ack}
use tru.Receive.Places.{Inv}
use tru.Receive.Stream.{Seen, IsStream}
use tru.SendQueue.Index.{IsValid}
use tru.SendQueue.Renewal.{Alike}
use tru.SendQueue
use tru.Transfer.{Writes}

-- The packets of the stream at the receiver, with the times at which each was read first.
unfoldable pub wire_at : Primitives → Bytes → Writes → (ℕ → ℕ) → ℕ → Packet
unfolding new_packet
wire_at p key w stamps n = record (new_packet (stamps n)) {
  id = n % packet_id_limit;
  status = status_data;
  payload = encrypt_packet_data p key (w.env n).nonce (n % packet_id_limit) (w.message n);
}

unfoldable pub plain_at : Writes → (ℕ → ℕ) → ℕ → Packet
unfolding new_packet
plain_at w stamps n = record (new_packet (stamps n)) {
  id = n % packet_id_limit;
  status = status_data;
  payload = w.message n;
}

abbrev pub stamp_at : (ℕ → ℕ) → ℕ → ℕ → ℕ → ℕ
stamp_at stamps n now m = if n == m then now else stamps m

pub Seen-cases : (n : ℕ) (ms : List ℕ) → Seen n ms ⊎ (¬ Seen n ms)
Seen-cases n [] = inr (λ b. b)
Seen-cases n (m ∷ ms) = elim (Bool-cases (m == n)) [
  | inl e ↦ inl (inl ((==_iff m n).0 e))
  | inr e ↦ elim (Seen-cases n ms) [
    | inl s ↦ inl (inr s)
    | inr s ↦
        inr (λ x. elim x [ inl same ↦ absurd (ground (arith, e, same)) | inr there ↦ s there ])
  ]
]

-- An answer to a packet that came is an ack of it.
abbrev pub AcksIt : List ℕ → ℕ × Packet → Type 0
AcksIt arrived (n, pac) =
    Seen n arrived × (pac.id ≡ n % packet_id_limit) × (pac.status ≡ status_ack)

module _ (p : Primitives) (key : Bytes) (w : Writes) where
  -- The message with a number has come to the receiver, or its packet waits at the sender.
  abbrev pub Waits : ℕ → Net → Type 0
  Waits n net =
      (e : ℕ) × (pac : Packet) × (SendQueue.get (n % packet_id_limit) net.sender.send_queue
        ≡ some (e, pac))
      × Carries p key w n pac
      × (net.written ≤ n + packet_id_limit)

  pub record IsGood (net : Net) : Type 0 where
    pub id : net.sender.id ≡ net.written % packet_id_limit
    pub keyed : net.sender.session_key ≡ key
    pub queue : IsValid net.sender.send_queue
    pub sent : (n : ℕ) → Seen n net.arrived → n < net.written
    pub acks : All (AcksIt net.arrived) net.answered
    pub kept : (n : ℕ) → n < net.written → Seen n net.arrived ⊎ Waits n net
    pub got :
        (stamps : ℕ → ℕ) × (first : ℕ) × Inv key (plain_at w stamps) net.arrived first net.receiver

  pub Carries-Alike : (n : ℕ) (a b : Packet) → Alike a b → Carries p key w n a → Carries p key w n b
  Carries-Alike n a b (i, st, pl, d) c = record {
    id = i ∙ c.id;
    status = st ∙ c.status;
    payload = pl ∙ c.payload;
  }

module _ (p : Primitives) (s : IsSound p) (key : Bytes) (w : Writes)
    (nonces : (n : ℕ) → length (w.env n).nonce ≡ p.nonce_size) where
  pub wire_at-IsStream :
      (stamps : ℕ → ℕ) → IsStream p key (wire_at p key w stamps) (plain_at w stamps)
  unfolding wire_at plain_at
  wire_at-IsStream stamps = record {
    id = λ n. refl;
    opens = λ n.
        decrypt_packet_data-encrypt_packet_data p s key (w.env n).nonce (n % packet_id_limit)
          (w.message n) (nonces n);
    same = λ n. refl;
  }
