-- ===== src/SendQueue/Retransmit.antt =====
-- The retransmit timer (send_queue.go, and setRetransmitTime of channel.go).
use mathlib.Core.List.{Memᴰ}
use tru.Base.{
  some, true, Bool-cases, inl, inr, ◌==◌, ℕ, ◌+◌, ◌*◌, ◌≤◌, ◌<◌, ◌≡◌, ◌⊎◌, ◌↔◌, refl, Bool, false,
  List, [], ◌∷◌, ◌++◌, arith, ltb, if◌then◌else◌, All,
}
use tru.Base.Map.{Map, nat_eq, lookup}
use tru.Packet.{Packet, set_retransmit_attempts}
use tru.SendQueue.{
  min_rtt, max_rtt, start_rtt, max_retransmit_attempts, retransmit_after, renew, retransmit,
}

mul_mono : (x a b : ℕ) → a ≤ b → x * (a + 1) ≤ x * (b + 1)
mul_mono x a b h = grind arith

-- The wait lies between 30 ms and 3 s, and grows with the attempts.
pub retransmit_after_bounds :
    (trip a b : ℕ)
    → a ≤ b
    → (min_rtt ≤ retransmit_after trip a)
      × (retransmit_after trip a ≤ max_rtt)
      × (retransmit_after trip a ≤ retransmit_after trip b)
unfolding retransmit_after
retransmit_after_bounds trip a b h = (
  grind arith,
  ground arith,
  ground (
    arith,
    mul_mono start_rtt a b h,
    mul_mono (min_rtt + trip) a b h,
    mul_mono start_rtt 0 b (omega arith),
    mul_mono (min_rtt + trip) 0 b (omega arith),
  ),
)

abbrev pub is_due : ℕ → Packet → Bool
is_due now pac = ltb pac.retransmit_time now

-- What the timer leaves of a list in which no packet that is due has used up its attempts.
abbrev pub renewed : ℕ → ℕ → Map ℕ Packet → Map ℕ Packet
renewed trip now [] = []
renewed trip now ((e, pac) ∷ rest) =
    (e, if is_due now pac then renew trip now pac else pac) ∷ renewed trip now rest

abbrev pub due : ℕ → ℕ → Map ℕ Packet → List Packet
due trip now [] = []
due trip now ((e, pac) ∷ rest) =
    let others = due trip now rest in if is_due now pac then renew trip now pac ∷ others else others

abbrev pub HasAttempts : ℕ → ℕ × Packet → Type 0
HasAttempts now (e, pac) =
    (is_due now pac ≡ false) ⊎ (pac.retransmit_attempts < max_retransmit_attempts)

-- While every packet that is due has an attempt left, the run sends exactly the due packets again
-- in their order, renews them in their places, leaves the others as they are, and does not
-- destroy the channel.
pub retransmit_pass :
    (trip now : ℕ) (queue : Map ℕ Packet)
    → All (HasAttempts now) queue
    → retransmit trip now queue
      ≡ record { queue = renewed trip now queue; sent = due trip now queue; exhausted = false }
unfolding retransmit
retransmit_pass trip now [] h = refl
retransmit_pass trip now ((e, pac) ∷ rest) h =
    ground (arith, retransmit_pass trip now rest h.1, h.0)

-- At the first packet that is due and has no attempt left the run ends, with the channel to be
-- destroyed: the due packets before it are sent again and renewed, its own attempts are counted
-- once more, and all that stands behind it is left as it is and not sent, due or not.
pub retransmit_stops :
    (trip now e : ℕ) (pac : Packet) (before rest : Map ℕ Packet)
    → All (HasAttempts now) before
    → is_due now pac ≡ true
    → max_retransmit_attempts ≤ pac.retransmit_attempts
    → retransmit trip now (before ++ (e, pac) ∷ rest) ≡ record {
      queue =
          renewed trip now before
          ++ (e, record pac { retransmit_attempts = pac.retransmit_attempts + 1 }) ∷ rest;
      sent = due trip now before;
      exhausted = true;
    }
unfolding retransmit set_retransmit_attempts
retransmit_stops trip now e pac [] rest h d l = ground (arith, d, l)
retransmit_stops trip now e pac ((f, q) ∷ before) rest (h, hs) d l =
    ground (arith, retransmit_stops trip now e pac before rest hs d l, h)

-- The channel is destroyed exactly when a packet that is due has no attempt left.
pub retransmit_exhausted :
    (trip now : ℕ) (queue : Map ℕ Packet)
    → ((retransmit trip now queue).exhausted ≡ false) ↔ All (HasAttempts now) queue
unfolding retransmit
retransmit_exhausted trip now [] = (λ h. tt, λ h. refl)
retransmit_exhausted trip now ((e, pac) ∷ rest) =
    let ih = retransmit_exhausted trip now rest in
    (λ h. (ground (arith, h), ih.0 (ground (arith, h))), λ h. ground (arith, h.0, ih.1 h.1))

-- A packet of the list that is due is among those sent again.
pub Mem-due :
    (trip now e : ℕ) (pac : Packet) (queue : Map ℕ Packet)
    → lookup e queue ≡ some pac
    → is_due now pac ≡ true
    → Memᴰ (renew trip now pac) (due trip now queue)
unfolding lookup
Mem-due trip now e pac [] h d = absurd (ground (arith, h))
Mem-due trip now e pac ((f, q) ∷ rest) h d = elim (Bool-cases (f == e)) [
  | inl k ↦ let one : q ≡ pac = ground (arith, h, k) in rw one (rw d (Memᴰ.head refl))
  | inr k ↦
      let later = Mem-due trip now e pac rest (ground (arith, h, k)) d in
      elim (Bool-cases (is_due now q)) [ inl i ↦ rw i (Memᴰ.tail later) | inr i ↦ rw i later ]
]
