-- ===== src/Base/Text.antt =====
-- What the program uses of the package strings, on texts as bytes. White space is that of ASCII.
use Prim.Native.Char.{code}
use Prim.Native.String.{String}
use tru.Base.{
  ℕ, zero, suc, length, ◌-◌, ◌+◌, ◌≡◌, refl, ap, ◌∙◌, Bool, true, false, ◌&&◌, ◌||◌, List, [], ◌∷◌,
  ◌++◌, map, Bytes, arith, leb, if◌then◌else◌, ◌==◌, ==_self,
}

abbrev pub codes : String → Bytes
codes String.[] = []
codes (String.◌∷◌ c s) = code c ∷ codes s

unfoldable pub is_space : ℕ → Bool
is_space c = c == 32 || (leb 9 c && leb c 13)

unfoldable pub lower : ℕ → ℕ
lower c = if leb b'A' c && leb c b'Z' then c + 32 else c

unfoldable pub to_lower : Bytes → Bytes
to_lower s = map lower s

unfoldable pub trim_left : Bytes → Bytes
trim_left [] = []
trim_left (c ∷ s) = let rest = trim_left s in if is_space c then rest else c ∷ s

-- A byte in front of what is left of the text behind it.
abbrev keep : ℕ → Bytes → Bytes
keep c [] = if is_space c then [] else c ∷ []
keep c (d ∷ s) = c ∷ d ∷ s

unfoldable pub trim_right : Bytes → Bytes
trim_right [] = []
trim_right (c ∷ s) = keep c (trim_right s)

unfoldable pub trim_space : Bytes → Bytes
trim_space s = trim_right (trim_left s)

abbrev pub push : ℕ → List Bytes → List Bytes
push c [] = (c ∷ []) ∷ []
push c (part ∷ parts) = (c ∷ part) ∷ parts

-- `strings.Split` at one byte, and at two bytes.
unfoldable pub split_at : ℕ → Bytes → List Bytes
split_at sep [] = [] ∷ []
split_at sep (c ∷ s) = let rest = split_at sep s in if c == sep then [] ∷ rest else push c rest

unfoldable pub split_at_two : ℕ → ℕ → Bytes → List Bytes
split_at_two a b [] = [] ∷ []
split_at_two a b (c ∷ []) = (c ∷ []) ∷ []
split_at_two a b (c ∷ d ∷ s) =
    let found = split_at_two a b s in
    let rest = split_at_two a b (d ∷ s) in if c == a && d == b then [] ∷ found else push c rest

abbrev spaces : ℕ → Bytes
spaces zero = []
spaces (suc n) = b' ' ∷ spaces n

-- `%-10s` and the like.
abbrev pub pad_right : ℕ → Bytes → Bytes
pad_right n s = s ++ spaces (n - length s)

abbrev pub AreSpaces : Bytes → Type 0
AreSpaces [] = Unit
AreSpaces (c ∷ s) = (is_space c ≡ true) × AreSpaces s

-- A text that neither starts nor ends with white space.
abbrev pub IsTrimmed : Bytes → Type 0
IsTrimmed [] = Unit
IsTrimmed (c ∷ s) = (is_space c ≡ false) × (trim_right (c ∷ s) ≡ c ∷ s)

trim_left-spaces : (a s : Bytes) → AreSpaces a → trim_left (a ++ s) ≡ trim_left s
unfolding trim_left
trim_left-spaces [] s h = refl
trim_left-spaces (c ∷ a) s (h, hs) = ground (arith, h, trim_left-spaces a s hs)

trim_right-spaces_nil : (a : Bytes) → AreSpaces a → trim_right a ≡ []
unfolding trim_right
trim_right-spaces_nil [] h = refl
trim_right-spaces_nil (c ∷ a) (h, hs) =
    rw (trim_right-spaces_nil a hs, trim_right) (ground (arith, h))

trim_right-spaces : (s a : Bytes) → AreSpaces a → trim_right (s ++ a) ≡ trim_right s
unfolding trim_right
trim_right-spaces [] a h = trim_right-spaces_nil a h
trim_right-spaces (c ∷ s) a h = ap (keep c) (trim_right-spaces s a h)

-- A first byte that is no space stays.
trim_left-append : (c : ℕ) (s : Bytes) → is_space c ≡ false → trim_left (c ∷ s) ≡ c ∷ s
unfolding trim_left
trim_left-append c s h = ground (arith, h)

trim_left-spaces_nil : (a : Bytes) → AreSpaces a → trim_left a ≡ []
unfolding trim_left
trim_left-spaces_nil [] h = refl
trim_left-spaces_nil (c ∷ a) (h, hs) = ground (arith, h, trim_left-spaces_nil a hs)

-- White space around a trimmed text is what trimming takes away.
pub trim_space-around :
    (a s b : Bytes) → AreSpaces a → AreSpaces b → IsTrimmed s → trim_space (a ++ (s ++ b)) ≡ s
unfolding trim_space trim_right
trim_space-around a [] b ha hb h =
    ap trim_right (trim_left-spaces a b ha ∙ trim_left-spaces_nil b hb)
trim_space-around a (c ∷ s) b ha hb (h, t) =
    ap trim_right (trim_left-spaces a (c ∷ (s ++ b)) ha ∙ trim_left-append c (s ++ b) h)
    ∙ trim_right-spaces (c ∷ s) b hb
    ∙ t

abbrev pub Lacks : ℕ → Bytes → Type 0
Lacks b [] = Unit
Lacks b (c ∷ s) = ((c == b) ≡ false) × Lacks b s

pub Lacks-append : (b : ℕ) (s t : Bytes) → Lacks b s → Lacks b t → Lacks b (s ++ t)
Lacks-append b [] t hs ht = ht
Lacks-append b (c ∷ s) t (h, hs) ht = (h, Lacks-append b s t hs ht)

split_at-Lacks : (sep : ℕ) (s : Bytes) → Lacks sep s → split_at sep s ≡ s ∷ []
unfolding split_at
split_at-Lacks sep [] h = refl
split_at-Lacks sep (c ∷ s) (h, hs) = rw (h, split_at) (ap (push c) (split_at-Lacks sep s hs))

-- Two parts with one separator between them.
pub split_at-pair :
    (sep : ℕ) (s t : Bytes) → Lacks sep s → Lacks sep t → split_at sep (s ++ sep ∷ t) ≡ s ∷ t ∷ []
unfolding split_at
split_at-pair sep [] t hs ht = ground (arith, ==_self sep, split_at-Lacks sep t ht)
split_at-pair sep (c ∷ s) t (h, hs) ht =
    rw (h, split_at) (ap (push c) (split_at-pair sep s t hs ht))
