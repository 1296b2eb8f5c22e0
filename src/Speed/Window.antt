-- ===== src/Speed/Window.antt =====
-- The window of a second (speed.go).
use tru.Base.{
  ℕ, zero, suc, ◌+◌, ◌%◌, ◌<◌, ◌≡◌, refl, sym, ap, ◌∙◌, Bool, false, List, [], ◌∷◌, arith, length,
  length-set,
}
use tru.Speed.{Speed, sum, sum_array_len, slot, turn, add}

-- Ten slots, the current one among them, and the speed is the sum of the slots.
pub record IsWindow (s : Speed) : Type 0 where
  pub size : length s.sum_array ≡ sum_array_len
  pub inside : s.current < sum_array_len
  pub summed : s.speed ≡ sum s.sum_array

-- Every call keeps a valid window valid and moves to the slot of the time.
pub add-IsWindow :
    (now : ℕ) (counts : Bool) (s : Speed)
    → IsWindow s
    → IsWindow (add now counts s) × ((add now counts s).current ≡ slot now)
unfolding add
add-IsWindow now counts s v = ground (arith, length-set s.sum_array s.current s.current_sum)

-- One turn for each slot.
quiet : ℕ → Speed → Speed
quiet zero s = s
quiet (suc k) s = quiet k (turn ((s.current + 1) % sum_array_len) s)

abbrev at : ℕ → ℕ → ℕ → List ℕ → Speed
at c n k xs = record { speed = k; current = c; current_sum = n; sum_array = xs }

quiet-at :
    (c n k x0 x1 x2 x3 x4 x5 x6 x7 x8 x9 : ℕ)
    → c < 10
    → (quiet 11 (at c n k (x0 ∷ x1 ∷ x2 ∷ x3 ∷ x4 ∷ x5 ∷ x6 ∷ x7 ∷ x8 ∷ x9 ∷ []))).speed ≡ 0
unfolding quiet turn
quiet-at zero n k x0 x1 x2 x3 x4 x5 x6 x7 x8 x9 h = refl
quiet-at (suc zero) n k x0 x1 x2 x3 x4 x5 x6 x7 x8 x9 h = refl
quiet-at (suc (suc zero)) n k x0 x1 x2 x3 x4 x5 x6 x7 x8 x9 h = refl
quiet-at (suc (suc (suc zero))) n k x0 x1 x2 x3 x4 x5 x6 x7 x8 x9 h = refl
quiet-at (suc (suc (suc (suc zero)))) n k x0 x1 x2 x3 x4 x5 x6 x7 x8 x9 h = refl
quiet-at (suc (suc (suc (suc (suc zero))))) n k x0 x1 x2 x3 x4 x5 x6 x7 x8 x9 h = refl
quiet-at (suc (suc (suc (suc (suc (suc zero)))))) n k x0 x1 x2 x3 x4 x5 x6 x7 x8 x9 h = refl
quiet-at (suc (suc (suc (suc (suc (suc (suc zero))))))) n k x0 x1 x2 x3 x4 x5 x6 x7 x8 x9 h = refl
quiet-at (suc (suc (suc (suc (suc (suc (suc (suc zero)))))))) n k x0 x1 x2 x3 x4 x5 x6 x7 x8 x9 h =
    refl
quiet-at (suc (suc (suc (suc (suc (suc (suc (suc (suc zero))))))))) n k x0 x1 x2 x3 x4 x5 x6 x7 x8
      x9 h =
    refl
quiet-at (suc (suc (suc (suc (suc (suc (suc (suc (suc (suc c)))))))))) n k x0 x1 x2 x3 x4 x5 x6 x7
      x8 x9 h =
    absurd (omega arith)

quiet_slots :
    (c n k : ℕ) (xs : List ℕ) → length xs ≡ 10 → c < 10 → (quiet 11 (at c n k xs)).speed ≡ 0
quiet_slots c n k (x0 ∷ x1 ∷ x2 ∷ x3 ∷ x4 ∷ x5 ∷ x6 ∷ x7 ∷ x8 ∷ x9 ∷ []) h l =
    quiet-at c n k x0 x1 x2 x3 x4 x5 x6 x7 x8 x9 l
quiet_slots c n k _ h l = absurd (omega arith)

-- The calls of `process` while no packet comes: one every tenth of a second.
pub process : ℕ → ℕ → Speed → Speed
process zero now s = s
process (suc k) now s = process k (now + 100_000_000) (add now false s)

turn_current : (i : ℕ) (s : Speed) → (turn i s).current ≡ i
unfolding turn
turn_current i s = ground arith

slot_next : (now : ℕ) → slot (now + 100_000_000) ≡ (slot now + 1) % 10
unfolding slot
slot_next now = omega arith

process-quiet :
    (k now : ℕ) (s : Speed) → slot now ≡ (s.current + 1) % 10 → process k now s ≡ quiet k s
unfolding process quiet add
process-quiet zero now s h = refl
process-quiet (suc k) now s h =
    process-quiet k (now + 100_000_000) (turn (slot now) s)
      (slot_next now ∙ ap (λ (i : ℕ). (i + 1) % 10) (sym (turn_current (slot now) s)))
    ∙ ap (λ (i : ℕ). quiet k (turn i s)) h

-- From a valid window that is in the slot before the present one: when no packet comes for eleven
-- slots in a row, the speed is zero again, whatever it was.
pub process_quiet :
    (now : ℕ) (s : Speed)
    → IsWindow s
    → slot now ≡ (s.current + 1) % sum_array_len
    → (process 11 now s).speed ≡ 0
process_quiet now s v h =
    ap (λ (t : Speed). t.speed) (process-quiet 11 now s h)
    ∙ quiet_slots s.current s.current_sum s.speed s.sum_array v.size v.inside
