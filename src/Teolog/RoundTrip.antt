-- ===== src/Teolog/RoundTrip.antt =====
-- The text of a filter is read back as the filter (teolog/teolog.go).
use tru.Base.Text.{
  trim_space, split_at_two, push, IsTrimmed, AreSpaces, trim_space-around, is_space,
}
use tru.Base.{
  ℕ, ◌+◌, ◌≡◌, refl, ap, sym, ◌∙◌, true, false, ◌&&◌, List, [], ◌∷◌, ◌++◌, map, Bytes, arith, ltb,
  ◌==◌, append_assoc, append-nil,
}
use mathlib.Core.Path.{ap₂}
use tru.Teolog.Names.{log_filter, filter_from, filter_text}

-- Two bars nowhere in a text.
abbrev pub HasNoBars : Bytes → Type 0
HasNoBars [] = Unit
HasNoBars (c ∷ []) = Unit
HasNoBars (c ∷ d ∷ s) = ((c == b'|' && d == b'|') ≡ false) × HasNoBars (d ∷ s)

-- A line of a filter that its text can hold.
abbrev pub IsPlain : Bytes → Type 0
IsPlain f = IsTrimmed f × HasNoBars f

abbrev pub ArePlain : List Bytes → Type 0
ArePlain [] = Unit
ArePlain (f ∷ fs) = IsPlain f × ArePlain fs

split_plain : (s : Bytes) → HasNoBars s → split_at_two b'|' b'|' s ≡ s ∷ []
unfolding split_at_two
split_plain [] h = refl
split_plain (c ∷ []) h = refl
split_plain (c ∷ d ∷ s) (h, hs) = rw (h, split_at_two) (ap (push c) (split_plain (d ∷ s) hs))

-- A piece that ends in a space, with bars behind it.
split_piece :
    (s t : Bytes)
    → HasNoBars s
    → split_at_two b'|' b'|' (s ++ (b' ' ∷ b'|' ∷ b'|' ∷ t))
      ≡ (s ++ b' ' ∷ []) ∷ split_at_two b'|' b'|' t
unfolding split_at_two
split_piece [] t h = refl
split_piece (c ∷ []) t h = ground arith
split_piece (c ∷ d ∷ s) t (h, hs) = rw (h, split_at_two) (ap (push c) (split_piece (d ∷ s) t hs))

HasNoBars-space : (s : Bytes) → HasNoBars s → HasNoBars (b' ' ∷ s)
HasNoBars-space [] h = tt
HasNoBars-space (c ∷ s) h = (refl, h)

filter_rest :
    (lead f : Bytes) (fs : List Bytes) (i : ℕ)
    → AreSpaces lead
    → HasNoBars (lead ++ f)
    → IsPlain f
    → ArePlain fs
    → log_filter (lead ++ (f ++ filter_from (i + 1) fs)) ≡ f ∷ fs
unfolding log_filter filter_from is_space
filter_rest lead f [] i hl hb (t, b) hs =
    let whole : lead ++ (f ++ []) ≡ lead ++ f = ap (λ (x : Bytes). lead ++ x) (append-nil f) in
    ap (λ (x : Bytes). map trim_space (split_at_two b'|' b'|' x)) whole
    ∙ ap (map trim_space) (split_plain (lead ++ f) hb)
    ∙ ap (λ (x : Bytes). x ∷ []) (ap trim_space (sym whole) ∙ trim_space-around lead f [] hl tt t)
filter_rest lead f (g ∷ gs) i hl hb (t, b) ((tg, bg), hs) =
    let more : ltb 0 (i + 1) ≡ true = ground arith in
    let tail = filter_from (i + 1 + 1) gs in
    let rest = b' ' ∷ (g ++ tail) in
    let last = filter_rest (b' ' ∷ []) g gs (i + 1) (refl, tt) (HasNoBars-space g bg) (tg, bg) hs in
    rw more (
      ap log_filter (sym (append_assoc lead f (b' ' ∷ b'|' ∷ b'|' ∷ rest)))
      ∙ ap (map trim_space) (split_piece (lead ++ f) rest hb)
      ∙ ap₂ ◌∷◌
          (ap trim_space (append_assoc lead f (b' ' ∷ []))
            ∙ trim_space-around lead f (b' ' ∷ []) hl (refl, tt) t)
          last)

-- A filter of at least one line, each without white space at its ends and without two bars in a
-- row, is read back from the text that `Filter` gives for it.
pub log_filter-filter_text :
    (f : Bytes) (fs : List Bytes)
    → IsPlain f
    → ArePlain fs
    → log_filter (filter_text (f ∷ fs)) ≡ f ∷ fs
unfolding filter_text filter_from
log_filter-filter_text f fs (t, b) h = filter_rest [] f fs 0 tt b (t, b) h
