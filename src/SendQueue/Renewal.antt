-- ===== src/SendQueue/Renewal.antt =====
-- A run of the retransmit timer leaves what waits (send_queue.go).
use tru.Base.Map.{Map, nat_eq, lookup}
use tru.Base.{
  ℕ, ◌+◌, ◌≡◌, refl, sym, ap, ◌∙◌, subst, [], ◌∷◌, Option, none, some, some_eq, arith, Option-cases,
  Bool-cases, inl, inr, ltb, not, ◌==◌,
}
use tru.Packet.{Packet, set_retransmit_attempts, set_retransmit_time}
use tru.SendQueue.Index.{IsValid}
use tru.SendQueue.{SendQueue, get, retransmit, renew, max_retransmit_attempts}

-- The same packet to the other end, and to whoever waits for its delivery.
abbrev pub Alike : Packet → Packet → Type 0
Alike a b =
    (b.id ≡ a.id) × (b.status ≡ a.status) × (b.payload ≡ a.payload) × (b.delivery ≡ a.delivery)

-- Two results of a search in the list: none, or packets that are alike.
abbrev pub AlikeFound : Option Packet → Option Packet → Type 0
AlikeFound none found = found ≡ none
AlikeFound (some a) found = (b : Packet) × (found ≡ some b) × Alike a b

Found-self : (found : Option Packet) → AlikeFound found found
Found-self none = refl
Found-self (some a) = (a, refl, (refl, refl, refl, refl))

pub renew-Alike : (trip now : ℕ) (pac : Packet) → Alike pac (renew trip now pac)
unfolding renew set_retransmit_attempts set_retransmit_time
renew-Alike trip now pac = (refl, refl, refl, refl)

attempts-Alike : (n : ℕ) (pac : Packet) → Alike pac (set_retransmit_attempts n pac)
unfolding set_retransmit_attempts
attempts-Alike n pac = (refl, refl, refl, refl)

entry :
    (f e : ℕ) (a b : Packet) (m m' : Map ℕ Packet)
    → Alike a b
    → AlikeFound (lookup f m) (lookup f m')
    → AlikeFound (lookup f ((e, a) ∷ m)) (lookup f ((e, b) ∷ m'))
unfolding lookup
entry f e a b m m' h k = elim (Bool-cases (e == f)) [ inl i ↦ rw i (b, refl, h) | inr i ↦ rw i k ]

pub retransmit-AlikeFound :
    (trip now f : ℕ) (m : Map ℕ Packet)
    → AlikeFound (lookup f m) (lookup f (retransmit trip now m).queue)
unfolding retransmit
retransmit-AlikeFound trip now f [] = Found-self (lookup f [])
retransmit-AlikeFound trip now f ((e, pac) ∷ rest) =
    let later = retransmit-AlikeFound trip now f rest in
    let after = (retransmit trip now rest).queue in
    elim (Bool-cases (not (ltb pac.retransmit_time now))) [
      | inl i ↦ rw (i, retransmit) (entry f e pac pac rest after (refl, refl, refl, refl) later)
      | inr i ↦ elim (Bool-cases (ltb max_retransmit_attempts (pac.retransmit_attempts + 1))) [
        | inl j ↦
            rw (i, j, retransmit)
              (entry f e pac (set_retransmit_attempts (pac.retransmit_attempts + 1) pac) rest rest
                (attempts-Alike (pac.retransmit_attempts + 1) pac) (Found-self (lookup f rest)))
        | inr j ↦
            rw (i, j, retransmit)
              (entry f e pac (renew trip now pac) rest after (renew-Alike trip now pac) later)
      ]
    ]

pub retransmit-IsValid :
    (trip now : ℕ) (s : SendQueue)
    → IsValid s
    → IsValid (record s { queue = (retransmit trip now s.queue).queue })
retransmit-IsValid trip now s v =
    let after = (retransmit trip now s.queue).queue in
    record {
      sound = λ id e h.
          let (pac, found, same) = v.sound id e h in
          let (b, found', alike) = rw found at (retransmit-AlikeFound trip now e s.queue) in
          (b, found', alike.0 ∙ same);
      complete = λ e b h. elim (Option-cases (lookup e s.queue)) [
        | inl gone ↦ absurd (cc (rw gone at (retransmit-AlikeFound trip now e s.queue), h))
        | inr (a, found) ↦
            let (b', found', alike) = rw found at (retransmit-AlikeFound trip now e s.queue) in
            let one : b' ≡ b = some_eq (sym found' ∙ h) in
            ap (λ (q : Packet). lookup q.id s.index) (sym one)
            ∙ ap (λ (i : ℕ). lookup i s.index) alike.0
            ∙ v.complete e a found
      ];
      fresh = λ e h. rw (v.fresh e h) at (retransmit-AlikeFound trip now e s.queue);
    }

-- A packet that waits goes on waiting at its place.
pub retransmit-get :
    (trip now id e : ℕ) (pac : Packet) (s : SendQueue)
    → get id s ≡ some (e, pac)
    → (b : Packet) × (get id (record s { queue = (retransmit trip now s.queue).queue })
        ≡ some (e, b))
      × Alike pac b
unfolding get
retransmit-get trip now id e pac s h = elim (Option-cases (lookup id s.index)) [
  | inl gone ↦ absurd (ground (arith, h, gone))
  | inr (f, at) ↦ elim (Option-cases (lookup f s.queue)) [
    | inl gone ↦ absurd (ground (arith, h, at, gone))
    | inr (a, found) ↦
        let (b, found', alike) = rw found at (retransmit-AlikeFound trip now f s.queue) in
        let spot : f ≡ e = ground (arith, h, at, found) in
        let one : a ≡ pac = ground (arith, h, at, found) in
        (b, ground (arith, at, found', spot), subst (λ (x : Packet). Alike x b) one alike)
  ]
]
