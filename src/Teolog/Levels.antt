-- ===== src/Teolog/Levels.antt =====
-- Which loggers write (teolog/teolog.go).
use tru.Base.{
  ℕ, zero, suc, ◌+◌, ◌<◌, ◌≡◌, refl, ap, ◌∙◌, Bool, List, [], ◌∷◌, some, arith, length, get_elem?,
  ltb, leb, ◌%◌, if◌then◌else◌,
}
use tru.Teolog.{Teolog, num_levels, set_outputs, set_level, switch_level}

length-set_outputs : (level i : ℕ) (os : List Bool) → length (set_outputs level i os) ≡ length os
unfolding set_outputs
length-set_outputs level i [] = refl
length-set_outputs level i (o ∷ os) = ap suc (length-set_outputs level (i + 1) os)

pub set_outputs_at :
    (level i k : ℕ) (os : List Bool)
    → k < length os
    → get_elem? (set_outputs level i os) k ≡ some (ltb (i + k) level)
unfolding set_outputs
set_outputs_at level i k [] h = absurd (omega arith)
set_outputs_at level i zero (o ∷ os) h = ap (λ (n : ℕ). some (ltb n level)) (omega arith)
set_outputs_at level i (suc k) (o ∷ os) h =
    set_outputs_at level (i + 1) k os (omega arith)
    ∙ ap (λ (n : ℕ). some (ltb n level)) (omega arith)

-- There are eight loggers, and those below the level write.
pub record IsAtLevel (t : Teolog) : Type 0 where
  pub eight : length t.outputs ≡ 8
  pub below : (k : ℕ) → k < length t.outputs → get_elem? t.outputs k ≡ some (ltb k t.level)

-- `SwitchLevel`, some times over.
abbrev pub switch_times : ℕ → Teolog → Teolog
switch_times zero t = t
switch_times (suc n) t = switch_times n (switch_level t)

pub set_level-IsAtLevel :
    (level : ℕ) (t : Teolog) → length t.outputs ≡ 8 → IsAtLevel (set_level level t)
unfolding set_level
set_level-IsAtLevel level t h =
    let same = length-set_outputs level 0 t.outputs in
    record {
      eight = same ∙ h;
      below = λ k l.
          set_outputs_at level 0 k t.outputs (omega (arith, same))
          ∙ ap (λ (n : ℕ). some (ltb n level)) (omega arith);
    }

switch_level_next :
    (t : Teolog)
    → t.level < num_levels
    → length t.outputs ≡ 8
    → ((switch_level t).level ≡ (t.level + 1) % num_levels)
      × ((switch_level t).level < num_levels)
      × IsAtLevel (switch_level t)
unfolding switch_level set_level
switch_level_next t h e = (
  ground arith,
  ground arith,
  set_level-IsAtLevel (if leb num_levels (t.level + 1) then 0 else t.level + 1) t e,
)

-- From any of the nine levels, with the loggers set to it, switching goes through the levels in
-- turn and back to the first one, and each time the loggers below the level write and the others
-- do not.
pub switch_times-IsAtLevel :
    (n : ℕ) (t : Teolog)
    → t.level < num_levels
    → IsAtLevel t
    → IsAtLevel (switch_times n t) × ((switch_times n t).level ≡ (t.level + n) % num_levels)
switch_times-IsAtLevel zero t h v = (v, omega arith)
switch_times-IsAtLevel (suc n) t h v =
    let next = switch_level_next t h v.eight in
    let rest = switch_times-IsAtLevel n (switch_level t) next.1 next.2 in
    (rest.0, rest.1 ∙ ground (arith, next.0))
