-- ===== src/StatisticLog/Last.antt =====
-- The log holds the last messages (statistic_log.go).
use tru.Base.{
  ℕ, zero, suc, sym, ap, ◌∙◌, ltb, inl, inr, Bool-cases, append-nil, ◌-◌, ◌≤◌, ◌≡◌, refl, List, [],
  ◌∷◌, ◌++◌, Bytes, arith, length, length-append, length-drop, drop, append_assoc,
}
use tru.StatisticLog.{StatisticLog, total_messages, empty, add}

-- Messages added one after the other, each with its time.
pub add_all : List (Bytes × Bytes) → StatisticLog → StatisticLog
add_all [] s = s
add_all ((stamp, msg) ∷ more) s = add_all more (add stamp msg s)

abbrev pub lines : List (Bytes × Bytes) → List Bytes
lines [] = []
lines ((stamp, msg) ∷ more) = (stamp ++ msg) ∷ lines more

-- The last `k` elements.
abbrev pub last {ℓ} : {A : Type ℓ} → ℕ → List A → List A
last k xs = drop (length xs - k) xs

drop-append_le {ℓ} :
    {A : Type ℓ} (n : ℕ) (xs ys : List A) → n ≤ length xs → drop n (xs ++ ys) ≡ drop n xs ++ ys
drop-append_le zero xs ys h = refl
drop-append_le (suc n) [] ys h = absurd (omega arith)
drop-append_le (suc n) (x ∷ xs) ys h = drop-append_le n xs ys (omega arith)

drop_one {ℓ} : {A : Type ℓ} (d : ℕ) (xs : List A) → drop 1 (drop d xs) ≡ drop (suc d) xs
drop_one zero xs = refl
drop_one (suc d) [] = refl
drop_one (suc d) (x ∷ xs) = drop_one d xs

-- One more message after a history.
add-last :
    (history : List Bytes) (stamp msg : Bytes) (s : StatisticLog)
    → s.msgs ≡ last total_messages history
    → (add stamp msg s).msgs ≡ last total_messages (history ++ (stamp ++ msg) ∷ [])
unfolding add
add-last history stamp msg s h =
    let line = stamp ++ msg in
    let d = length history - total_messages in
    let grown : s.msgs ++ line ∷ [] ≡ drop d (history ++ line ∷ []) =
      rw h (sym (drop-append_le d history (line ∷ []) (omega arith))) in
    let size = length-append history (line ∷ []) in
    elim (Bool-cases (ltb total_messages (length (s.msgs ++ line ∷ [])))) [
      | inl e ↦ rw e (
          ap (drop 1) grown
          ∙ drop_one d (history ++ line ∷ [])
          ∙ ap (λ (k : ℕ). drop k (history ++ line ∷ [])) {x = suc d}
              (ground (arith, size, ap length grown, length-drop d (history ++ line ∷ []))))
      | inr e ↦ rw e (
          grown
          ∙ ap (λ (k : ℕ). drop k (history ++ line ∷ [])) {x = d}
              (ground (arith, size, ap length grown, length-drop d (history ++ line ∷ []))))
    ]

add_all-last :
    (ms : List (Bytes × Bytes)) (history : List Bytes) (s : StatisticLog)
    → s.msgs ≡ last total_messages history
    → (add_all ms s).msgs ≡ last total_messages (history ++ lines ms)
unfolding add_all
add_all-last [] history s h = rw append-nil h
add_all-last ((stamp, msg) ∷ ms) history s h =
    add_all-last ms (history ++ (stamp ++ msg) ∷ []) (add stamp msg s)
      (add-last history stamp msg s h)
    ∙ ap (last total_messages) (append_assoc history ((stamp ++ msg) ∷ []) (lines ms))

-- After any messages the log holds the last 256 of them in order, or all if they are fewer.
pub add_all-empty :
    (ms : List (Bytes × Bytes)) → (add_all ms empty).msgs ≡ last total_messages (lines ms)
add_all-empty ms = add_all-last ms [] empty refl
