-- ===== src/Base/Decimal.antt =====
-- `strconv.Itoa`, `%d` and `strconv.Atoi` on texts as bytes.
use tru.Base.Int.{ℤ, pos, negsuc}
use tru.Base.{
  ℕ, zero, suc, ◌+◌, ◌-◌, ◌*◌, ◌/◌, ◌%◌, ◌^◌, ◌<◌, ◌≡◌, refl, ap, ◌∙◌, Bool, true, false, ◌&&◌, [],
  ◌∷◌, ◌++◌, Option, none, some, Bytes, arith, ltb, leb, if◌then◌else◌, ◌==◌, Bool-cases, inl, inr,
  append_assoc, append-nil, sym,
}

-- A number has no more digits than its successor counts.
unfoldable pub decimal_on : ℕ → ℕ → Bytes
decimal_on zero n = []
decimal_on (suc fuel) n =
    let rest = decimal_on fuel (n / 10) in
    if ltb n 10 then (48 + n) ∷ [] else rest ++ (48 + n % 10) ∷ []

unfoldable pub decimal : ℕ → Bytes
decimal n = decimal_on (suc n) n

abbrev pub decimal_int : ℤ → Bytes
decimal_int (pos n) = decimal n
decimal_int (negsuc n) = b'-' ∷ decimal (n + 1)

unfoldable pub is_digit : ℕ → Bool
is_digit c = leb 48 c && leb c 57

-- The digits at the front of a text, after a number, and what is behind them.
unfoldable pub digits : ℕ → Bytes → ℕ × Bytes
digits n [] = (n, [])
digits n (c ∷ s) =
    let rest = digits (n * 10 + (c - 48)) s in if is_digit c then rest else (n, c ∷ s)

-- A text of digits and nothing else.
unfoldable pub all_digits : Bytes → Option ℕ
all_digits [] = none
all_digits (c ∷ s) = let (n, rest) = digits 0 (c ∷ s) in elim rest [ [] ↦ some n | _ ∷ _ ↦ none ]

-- An int has 64 bits, and a number that does not fit it is an error.
unfoldable pub atoi : Bytes → Option ℤ
atoi [] = none
atoi (c ∷ s) =
    if c == b'-'
    then elim (all_digits s) [
      | none ↦ none
      | some zero ↦ some (pos zero)
      | some (suc n) ↦ if ltb n (2 ^ 63) then some (negsuc n) else none
    ]
    else elim (all_digits (if c == b'+' then s else c ∷ s)) [
      | none ↦ none
      | some n ↦ if ltb n (2 ^ 63) then some (pos n) else none
    ]

-- A text that does not go on with a digit.
abbrev pub Stops : Bytes → Type 0
Stops [] = Unit
Stops (c ∷ s) = is_digit c ≡ false

digits_stop : (n : ℕ) (s : Bytes) → Stops s → digits n s ≡ (n, s)
unfolding digits
digits_stop n [] h = refl
digits_stop n (c ∷ s) h = ground (arith, h)

-- The number `m` in front of what the digits of `n` add.
power : ℕ → ℕ → ℕ
power zero n = 1
power (suc fuel) n = let rest = power fuel (n / 10) in if ltb n 10 then 10 else rest * 10

digits-decimal_on :
    (fuel n m : ℕ) (s : Bytes)
    → n < fuel
    → digits m (decimal_on fuel n ++ s) ≡ digits (m * power fuel n + n) s
unfolding decimal_on digits is_digit power
digits-decimal_on zero n m s h = absurd (omega arith)
digits-decimal_on (suc fuel) n m s h =
    let q = n / 10 in
    let p = power fuel q in
    elim (Bool-cases (ltb n 10)) [
      | inl k ↦ ground (arith, k)
      | inr k ↦
          let go_on = digits-decimal_on fuel q m ((48 + n % 10) ∷ s) (ground (arith, k, h)) in
          let value : (m * p + q) * 10 + n % 10 ≡ m * (p * 10) + n = omega arith in
          rw k (
            ap (digits m) (append_assoc (decimal_on fuel q) ((48 + n % 10) ∷ []) s)
            ∙ go_on
            ∙ ground (arith, k, value))
    ]

-- What is printed is read, and the reading stops where the digits do.
pub digits-decimal : (n : ℕ) (s : Bytes) → Stops s → digits 0 (decimal n ++ s) ≡ (n, s)
unfolding decimal
digits-decimal n s h =
    let value : 0 * power (suc n) n + n ≡ n = omega arith in
    digits-decimal_on (suc n) n 0 s (omega arith)
    ∙ ap (λ (k : ℕ). digits k s) value
    ∙ digits_stop n s h

decimal_head :
    (fuel n : ℕ)
    → n < fuel
    → (c : ℕ) × (t : Bytes) × (decimal_on fuel n ≡ c ∷ t) × (is_digit c ≡ true)
unfolding decimal_on is_digit
decimal_head zero n h = absurd (omega arith)
decimal_head (suc fuel) n h = elim (Bool-cases (ltb n 10)) [
  | inl k ↦ (48 + n, [], ground (arith, k), ground (arith, k))
  | inr k ↦
      let (c, t, e, d) = decimal_head fuel (n / 10) (ground (arith, k, h)) in
      (c, t ++ (48 + n % 10) ∷ [], ground (arith, k, e), d)
]

all_digits-decimal : (n : ℕ) (c : ℕ) (t : Bytes) → decimal n ≡ c ∷ t → all_digits (c ∷ t) ≡ some n
unfolding all_digits
all_digits-decimal n c t e =
    let read : digits 0 (c ∷ t) ≡ (n, []) =
      ap (digits 0) (sym e ∙ sym (append-nil (decimal n))) ∙ digits-decimal n [] tt in
    rw (read, all_digits) (ap (λ (r : ℕ × Bytes). some r.0) read)

-- A number of an int that is printed is read back.
pub atoi-decimal : (n : ℕ) → n < 2 ^ 63 → atoi (decimal n) ≡ some (pos n)
unfolding atoi decimal is_digit
atoi-decimal n h =
    let (c, t, e, d) = decimal_head (suc n) n (omega arith) in
    let read = all_digits-decimal n c t e in rw e (ground (arith, d, read, h))
