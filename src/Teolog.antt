-- ===== src/Teolog.antt =====
-- teolog/teolog.go: the levels of the logger and the filter of its writer. A text is its bytes; the
-- names of the levels are left out.
pub mod Filter
pub mod Levels
pub mod Names
pub mod RoundTrip
use tru.Base.{
  ℕ, zero, suc, ◌+◌, Bool, true, false, not, ◌&&◌, ◌||◌, List, [], ◌∷◌, ◌++◌, map, Option, none,
  some, Bytes, ltb, leb, ◌==◌, if◌then◌else◌, length,
}

-- None is 0, and Debugvvv 8.
abbrev pub num_levels : ℕ
num_levels = 9

-- `outputs` says of each logger, from Error to Debugvvv, whether it writes to the writer.
pub record Teolog : Type 0 where
  pub outputs : List Bool
  pub level : ℕ
  pub filter : List Bytes

-- Eight loggers that discard what they are given.
abbrev pub new_teolog : Teolog
new_teolog = record {
  outputs = false ∷ false ∷ false ∷ false ∷ false ∷ false ∷ false ∷ false ∷ [];
  level = 0;
  filter = [];
}

-- The loop of `SetLevel` over the loggers from index `i` on.
unfoldable pub set_outputs : ℕ → ℕ → List Bool → List Bool
set_outputs level i [] = []
set_outputs level i (o ∷ os) = ltb i level ∷ set_outputs level (i + 1) os

unfoldable pub set_level : ℕ → Teolog → Teolog
set_level level t = record t { level = level; outputs = set_outputs level 0 t.outputs }

unfoldable pub switch_level : Teolog → Teolog
switch_level t = set_level (if leb num_levels (t.level + 1) then 0 else t.level + 1) t

-- A text begins with another one, and `strings.Contains`.
unfoldable pub has_prefix : Bytes → Bytes → Bool
has_prefix text [] = true
has_prefix [] (b ∷ bs) = false
has_prefix (a ∷ text) (b ∷ bs) = a == b && has_prefix text bs

unfoldable pub contains : Bytes → Bytes → Bool
contains [] part = has_prefix [] part
contains (a ∷ text) part = has_prefix (a ∷ text) part || contains text part

-- The loop of `Write` over the filters.
unfoldable pub is_valid : Bytes → List Bytes → Bool
is_valid text [] = false
is_valid text (f ∷ fs) = contains text f || is_valid text fs

unfoldable pub set_filter : List Bytes → Teolog → Teolog
set_filter fs t = record t { filter = fs }

unfoldable pub clear_filter : Teolog → Teolog
clear_filter t = record t { filter = [] }

-- `Write`: what goes to the standard output.
unfoldable pub write : Teolog → Bytes → Bytes
write t text = if ltb 0 (length t.filter) && not (is_valid text t.filter) then [] else text
