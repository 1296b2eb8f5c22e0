-- ===== src/Teolog/Filter.antt =====
-- What the filter lets pass (teolog/teolog.go).
use tru.Base.{
  ◌≡◌, ◌≢◌, ◌↔◌, ◌⊎◌, inl, inr, refl, ap, true, List, [], ◌∷◌, ◌++◌, Bytes, arith, ◌&&◌, ltb, not,
  length, if◌then◌else◌, Bool-cases, ==_self,
}
use tru.Teolog.{Teolog, has_prefix, contains, is_valid, write}

-- A part stands somewhere in a text, and one of some parts does.
abbrev pub StandsIn : Bytes → Bytes → Type 0
StandsIn part text = (front back : Bytes) × (text ≡ front ++ part ++ back)

abbrev pub OneStandsIn : List Bytes → Bytes → Type 0
OneStandsIn [] text = ⊥
OneStandsIn (f ∷ fs) text = StandsIn f text ⊎ OneStandsIn fs text

has_prefix_found :
    (text part : Bytes) → has_prefix text part ≡ true → (back : Bytes) × (text ≡ part ++ back)
unfolding has_prefix
has_prefix_found text [] h = (text, refl)
has_prefix_found [] (b ∷ part) h = absurd (ground (arith, h))
has_prefix_found (a ∷ text) (b ∷ part) h =
    let (back, same) = has_prefix_found text part (ground (arith, h)) in
    (back, ground (arith, h, same))

has_prefix_self : (part back : Bytes) → has_prefix (part ++ back) part ≡ true
unfolding has_prefix
has_prefix_self [] back = refl
has_prefix_self (b ∷ part) back = ground (arith, has_prefix_self part back, ==_self b)

contains_found : (text part : Bytes) → contains text part ≡ true → StandsIn part text
unfolding contains
contains_found [] part h = let (back, same) = has_prefix_found [] part h in ([], back, same)
contains_found (a ∷ text) part h = elim (Bool-cases (has_prefix (a ∷ text) part)) [
  | inl e ↦ let (back, same) = has_prefix_found (a ∷ text) part e in ([], back, same)
  | inr e ↦
      let (front, back, same) = contains_found text part (ground (arith, h, e)) in
      (a ∷ front, back, ap (◌∷◌ a) same)
]

contains_at : (front part back : Bytes) → contains (front ++ part ++ back) part ≡ true
unfolding contains
contains_at [] [] [] = has_prefix_self [] []
contains_at [] [] (b ∷ back) = ground (arith, has_prefix_self [] (b ∷ back))
contains_at [] (c ∷ part) back = ground (arith, has_prefix_self (c ∷ part) back)
contains_at (a ∷ front) part back = ground (arith, contains_at front part back)

is_valid_found : (text : Bytes) (fs : List Bytes) → is_valid text fs ≡ true → OneStandsIn fs text
unfolding is_valid
is_valid_found text [] h = absurd (ground (arith, h))
is_valid_found text (f ∷ fs) h = elim (Bool-cases (contains text f)) [
  | inl e ↦ inl (contains_found text f e)
  | inr e ↦ inr (is_valid_found text fs (ground (arith, h, e)))
]

is_valid_in : (text : Bytes) (fs : List Bytes) → OneStandsIn fs text → is_valid text fs ≡ true
unfolding is_valid
is_valid_in text [] h = elim h [ ]
is_valid_in text (f ∷ fs) (inl (front, back, same)) =
    let there : contains text f ≡ true = rw same (contains_at front f back) in ground (arith, there)
is_valid_in text (f ∷ fs) (inr h) = ground (arith, is_valid_in text fs h)

passes :
    (fs : List Bytes) (text : Bytes)
    → text ≢ []
    → ((if ltb 0 (length fs) && not (is_valid text fs) then [] else text) ≡ text)
      ↔ ((fs ≡ []) ⊎ OneStandsIn fs text)
passes [] text h = (λ e. inl refl, λ e. refl)
passes (f ∷ fs) text h = (
  λ e. elim (Bool-cases (is_valid text (f ∷ fs))) [
    | inl v ↦ inr (is_valid_found text (f ∷ fs) v)
    | inr v ↦ absurd (h (ground (arith, e, v)))
  ],
  λ o. elim o [ inl e ↦ cc | inr s ↦ ground (arith, is_valid_in text (f ∷ fs) s) ],
)

-- A text that is not empty is written exactly when there is no filter or one of the filters stands
-- somewhere in it.
pub write_passes :
    (t : Teolog) (text : Bytes)
    → text ≢ []
    → (write t text ≡ text) ↔ ((t.filter ≡ []) ⊎ OneStandsIn t.filter text)
unfolding write
write_passes t text h = passes t.filter text h
