-- ===== src/Teolog/Names.antt =====
-- The names of the levels and the text of a filter (teolog/teolog.go).
use tru.Base.Text.{
  pad_right, codes, to_lower, trim_space, split_at_two, IsTrimmed, AreSpaces, trim_space-around,
  is_space, trim_right, lower,
}
use tru.Base.{
  ℕ, zero, suc, ◌<◌, none, some, get_elem?, arith, refl, ap, ◌∙◌, ◌+◌, ◌≡◌, List, [], ◌∷◌, ◌++◌,
  map, Bytes, bytes_eq, if◌then◌else◌, ltb,
}
use tru.Teolog.{Teolog, num_levels, set_level, set_filter}

abbrev pub level_none : ℕ
level_none = 0

-- The cases of a `switch` on texts: the first name that is the text gives its level.
unfoldable pub level_of : List (Bytes × ℕ) → Bytes → ℕ
level_of [] s = level_none
level_of ((name, level) ∷ rest) s =
    let other = level_of rest s in if bytes_eq name s then level else other

abbrev pub level_names : List (Bytes × ℕ)
level_names =
    (codes "none", 0)
    ∷ (codes "error", 1)
    ∷ (codes "user", 2)
    ∷ (codes "info", 3)
    ∷ (codes "connect", 4)
    ∷ (codes "debug", 5)
    ∷ (codes "debugv", 6)
    ∷ (codes "debugvv", 7)
    ∷ (codes "debugvvv", 8)
    ∷ (codes "all", 8)
    ∷ []

unfoldable pub level_from_str : Bytes → ℕ
level_from_str level = level_of level_names (to_lower (trim_space level))

abbrev pub level_strs : List Bytes
level_strs =
    codes "None"
    ∷ codes "Error"
    ∷ codes "User"
    ∷ codes "Info"
    ∷ codes "Connect"
    ∷ codes "Debug"
    ∷ codes "DebugV"
    ∷ codes "DebugVV"
    ∷ codes "DebugVVV"
    ∷ []

unfoldable pub level_to_str : ℕ → Bytes
level_to_str level = elim (get_elem? level_strs level) [
  | none ↦ codes "Wrong level"
  | some name ↦ name
]

-- A line of `levelsToStr`.
abbrev level_line : Bytes → Bytes → Bytes
level_line name description =
    codes " " ++ (pad_right 10 name ++ (codes " " ++ (description ++ codes "\n")))

unfoldable pub levels_to_str : Bytes
levels_to_str =
    codes "\n List of available logger levels:\n\n"
    ++ (level_line (codes "None") (codes "No logs")
        ++ (level_line (codes "Error") (codes "Errors log")
            ++ (level_line (codes "User") (codes "User level log")
                ++ (level_line (codes "Info") (codes "Info level")
                    ++ (level_line (codes "Connect") (codes "Connect")
                        ++ (level_line (codes "Debug") (codes "Debug level")
                            ++ (level_line (codes "Debugv") (codes "Debugv level")
                                ++ (level_line (codes "Debugvv") (codes "Debugvv level")
                                    ++ level_line (codes "Debugvvv")
                                        (codes "Debugvvv level")))))))))

-- `SetLevel` of a string.
unfoldable pub set_level_text : Bytes → Teolog → Teolog
set_level_text name t = set_level (level_from_str name) t

-- `Logfilter` with the loop of `trim`.
unfoldable pub log_filter : Bytes → List Bytes
log_filter str = map trim_space (split_at_two b'|' b'|' str)

-- The loop of `Filter` from index `i` on.
unfoldable pub filter_from : ℕ → List Bytes → Bytes
filter_from i [] = []
filter_from i (f ∷ fs) = (if ltb 0 i then codes " || " ++ f else f) ++ filter_from (i + 1) fs

unfoldable pub filter_text : List Bytes → Bytes
filter_text fs = filter_from 0 fs

-- `SetFilter` of a string.
unfoldable pub set_filter_text : Bytes → Teolog → Teolog
set_filter_text str t = set_filter (log_filter str) t

name_back :
    (l : ℕ)
    → l < num_levels
    → IsTrimmed (level_to_str l) × (level_of level_names (to_lower (level_to_str l)) ≡ l)
unfolding bytes_eq level_of level_to_str to_lower is_space trim_right lower
name_back zero h = ((refl, refl), refl)
name_back (suc zero) h = ((refl, refl), refl)
name_back (suc (suc zero)) h = ((refl, refl), refl)
name_back (suc (suc (suc zero))) h = ((refl, refl), refl)
name_back (suc (suc (suc (suc zero)))) h = ((refl, refl), refl)
name_back (suc (suc (suc (suc (suc zero))))) h = ((refl, refl), refl)
name_back (suc (suc (suc (suc (suc (suc zero)))))) h = ((refl, refl), refl)
name_back (suc (suc (suc (suc (suc (suc (suc zero))))))) h = ((refl, refl), refl)
name_back (suc (suc (suc (suc (suc (suc (suc (suc zero)))))))) h = ((refl, refl), refl)
name_back (suc (suc (suc (suc (suc (suc (suc (suc (suc l))))))))) h = absurd (omega arith)

-- The name that `String` gives for a level is read as that level by `SetLevel`, with any white
-- space around it, such as the end of the line that the hotkey menu reads.
pub level_from_str-level_to_str :
    (l : ℕ) (a b : Bytes)
    → l < num_levels
    → AreSpaces a
    → AreSpaces b
    → level_from_str (a ++ (level_to_str l ++ b)) ≡ l
unfolding level_from_str
level_from_str-level_to_str l a b h ha hb =
    let (trimmed, back) = name_back l h in
    ap (λ (s : Bytes). level_of level_names (to_lower s))
      (trim_space-around a (level_to_str l) b ha hb trimmed)
    ∙ back
