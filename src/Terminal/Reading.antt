-- ===== src/Terminal/Reading.antt =====
-- What a terminal reads of the sequences with numbers (term/term.go).
use tru.Base.Int.{pos}
use tru.Base.Decimal.{decimal, digits, digits-decimal, is_digit}
use tru.Base.{
  ℕ, false, ◌&&◌, if◌then◌else◌, sym, ◌≡◌, refl, ap, ◌∙◌, [], ◌∷◌, ◌++◌, Option, none, some, Bytes,
  arith, Bool-cases, inl, inr, ◌==◌, ==_iff, append_assoc,
}
use tru.Terminal.{set_cursor_position, set_scroll_region}

-- A control sequence as a terminal takes it: the escape, a bracket, two numbers with a semicolon
-- between them, of which the second one may be missing and is 0 then, and the letter of a function.
pub record Control : Type 0 where
  pub first : ℕ
  pub second : ℕ
  pub function : ℕ
  pub rest : Bytes

abbrev read_function : ℕ → ℕ × Bytes → Option Control
read_function a (b, []) = none
read_function a (b, f ∷ rest) = some (record { first = a; second = b; function = f; rest = rest })

abbrev read_second : ℕ × Bytes → Option Control
read_second (a, []) = none
read_second (a, c ∷ s) = let b = digits 0 s in if c == b';' then read_function a b else none

unfoldable pub read_control : Bytes → Option Control
read_control (e ∷ b ∷ s) =
    let a = digits 0 s in if e == 27 && b == b'[' then read_second a else none
read_control _ = none

digits_between :
    (a : ℕ) (c : ℕ) (t rest : Bytes)
    → is_digit c ≡ false
    → digits 0 ((decimal a ++ (c ∷ t)) ++ rest) ≡ (a, c ∷ (t ++ rest))
digits_between a c t rest h =
    ap (digits 0) (append_assoc (decimal a) (c ∷ t) rest) ∙ digits-decimal a (c ∷ (t ++ rest)) h

digits_letter : (f : ℕ) (rest : Bytes) → is_digit f ≡ false → digits 0 (f ∷ rest) ≡ (0, f ∷ rest)
unfolding digits
digits_letter f rest h = ground (arith, h)

-- The two numbers in front of a letter.
read_pair :
    (a b f : ℕ) (rest : Bytes)
    → is_digit f ≡ false
    → read_second (digits 0 ((decimal a ++ (b';' ∷ (decimal b ++ f ∷ []))) ++ rest))
      ≡ some (record { first = a; second = b; function = f; rest = rest })
unfolding is_digit
read_pair a b f rest h =
    ap read_second (digits_between a b';' (decimal b ++ f ∷ []) rest refl)
    ∙ ap (read_function a) (digits_between b f [] rest h)

read_one :
    (a f : ℕ) (rest : Bytes)
    → is_digit f ≡ false
    → read_second (digits 0 ((decimal a ++ (b';' ∷ f ∷ [])) ++ rest))
      ≡ some (record { first = a; second = 0; function = f; rest = rest })
unfolding is_digit
read_one a f rest h =
    ap read_second (digits_between a b';' (f ∷ []) rest refl)
    ∙ ap (read_function a) (digits_letter f rest h)

-- A terminal reads the cursor position as the row and then the column, each in full, and of a
-- scroll region the first row and the number that was given, or none; the text behind the sequence
-- is left as it is.
pub read_control-sequences :
    (x y start_row : ℕ) (num_rows : Option ℕ) (rest : Bytes)
    → (read_control (set_cursor_position x y ++ rest)
        ≡ some (record { first = y; second = x; function = b'f'; rest = rest }))
      × (read_control (set_scroll_region (pos start_row) num_rows ++ rest)
          ≡ some (record {
            first = start_row;
            second = elim num_rows [ none ↦ 0 | some n ↦ n ];
            function = b'r';
            rest = rest;
          }))
unfolding read_control set_cursor_position set_scroll_region is_digit
read_control-sequences x y start_row none rest =
    (read_pair y x b'f' rest refl, read_one start_row b'r' rest refl)
read_control-sequences x y start_row (some n) rest = (
  read_pair y x b'f' rest refl,
  elim (Bool-cases (n == 0)) [
    | inl k ↦
        let zeroed : n ≡ 0 = (==_iff n 0).0 k in
        rw k (
          read_one start_row b'r' rest refl
          ∙ ap
              (λ (m : ℕ).
                some (record { first = start_row; second = m; function = b'r'; rest = rest }))
              (sym zeroed))
    | inr k ↦ rw k (read_pair start_row n b'r' rest refl)
  ],
)
