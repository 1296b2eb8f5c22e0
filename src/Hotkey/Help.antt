-- ===== src/Hotkey/Help.antt =====
-- The text of the help screen (hotkey/hotkey.go).
pub mod Order
use mathlib.Core.List.Memᴰ
use mathlib.Core.List.{Memᴰ}
use tru.Base.Sort.{sort_by, AreDistinct, IsSorted, Mem-sort_by, sort_by-IsSorted, IsSorted-unique}
use tru.Base.Text.{codes, pad_right}
use tru.Base.{
  ℕ, zero, suc, ◌-◌, ◌≡◌, ◌↔◌, refl, sym, ap, ◌∙◌, ◌⊎◌, inl, inr, Bool, true, false, ◌||◌, List, [],
  ◌∷◌, ◌++◌, map, Option, none, some, Bytes, ltb, if◌then◌else◌, length, get_elem?, ◌==◌, ==_iff,
  Bool-cases, arith,
}
use tru.Hotkey.{KeyCode, name, HotkeyData, Hotkey}

-- `find` and `add` of `String`.
abbrev pub has_pointer : ℕ → List ℕ → Bool
has_pointer p [] = false
has_pointer p (v ∷ ar) = v == p || has_pointer p ar

unfoldable pub add_pointer : List ℕ → ℕ → List ℕ
add_pointer ar p = if has_pointer p ar then ar else ar ++ p ∷ []

unfoldable pub collect : List ℕ → List ℕ → List ℕ
collect ar [] = ar
collect ar (p ∷ ps) = collect (add_pointer ar p) ps

-- The name of the first key; an entry with no keys is never in the map.
unfoldable pub first_name : List KeyCode → Bytes
first_name [] = []
first_name (key ∷ keys) = name key

-- `%v` of a list of strings.
abbrev join : List Bytes → Bytes
join [] = []
join (s ∷ []) = s
join (s ∷ t ∷ rest) = s ++ (b' ' ∷ join (t ∷ rest))

unfoldable pub keys_text : List KeyCode → Bytes
keys_text keys =
    if ltb 1 (length keys)
    then codes "[" ++ (join (map name keys) ++ codes "]")
    else first_name keys

module _ {ℓ κ} {A : Type ℓ} {S : Type κ} (h : Hotkey A S) where
  unfoldable pub line : ℕ → Bytes
  line p = elim (get_elem? h.data_of p) [
    | none ↦ []
    | some d ↦
        codes "   "
        ++ (pad_right 10 (keys_text d.keys) ++ (codes " " ++ (d.description ++ 10 ∷ [])))
  ]

  unfoldable pub sort_name : ℕ → Bytes
  sort_name p = elim (get_elem? h.data_of p) [ none ↦ [] | some d ↦ first_name d.keys ]

  abbrev pub lines : List ℕ → Bytes
  lines [] = []
  lines (p ∷ ps) = line p ++ lines ps

  -- The pointers of the entries in the order of the text, from the order in which the loop over
  -- the map comes to them.
  unfoldable pub entries : List ℕ → List ℕ
  entries order = sort_by sort_name (collect [] order)

  -- `String`.
  unfoldable pub help_text : List ℕ → Bytes
  help_text order = lines (entries order)
