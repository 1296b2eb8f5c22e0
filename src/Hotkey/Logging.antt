-- ===== src/Hotkey/Logging.antt =====
-- The menu stops the log and starts it again (hotkey.go, hotkey/hotkey.go).
use mathlib.Core.Path.{ap₂}
use tru.Base.{
  ℕ, suc, ◌+◌, ◌<◌, ◌≡◌, refl, sym, ap, ◌∙◌, Bool, List, [], ◌∷◌, none, some, some_eq, Bytes, arith,
  length, get_elem?, ltb,
}
use tru.Hotkey.Menu.{
  ask_level, ask_filter, Program, Menu, stop_log, continue_log, restore_log, exec, press,
}
use tru.Hotkey.{own_action, next_key, on_key, set_state, set_next_key_action}
use tru.Teolog.Levels.{IsAtLevel}
use tru.Teolog.Names.{set_level_text, set_filter_text, level_from_str, log_filter}
use tru.Teolog.{Teolog, set_level, set_outputs, set_filter}

set_outputs-set_outputs :
    (l m i : ℕ) (os : List Bool) → set_outputs l i (set_outputs m i os) ≡ set_outputs l i os
unfolding set_outputs
set_outputs-set_outputs l m i [] = refl
set_outputs-set_outputs l m i (o ∷ os) = ap (◌∷◌ (ltb i l)) (set_outputs-set_outputs l m (i + 1) os)

set_outputs_same :
    (l i : ℕ) (os : List Bool)
    → ((k : ℕ) → k < length os → get_elem? os k ≡ some (ltb (i + k) l))
    → set_outputs l i os ≡ os
unfolding set_outputs
set_outputs_same l i [] h = refl
set_outputs_same l i (o ∷ os) h =
    let first : ltb i l ≡ o =
      ap (λ (k : ℕ). ltb k l) (omega arith) ∙ some_eq (sym (h 0 (omega arith))) in
    ap₂ ◌∷◌ first (
      set_outputs_same l (i + 1) os
        (λ k b. h (suc k) (omega arith) ∙ ap (λ (j : ℕ). some (ltb j l)) (omega arith)))

-- Setting the level that a logger is at, after it was stopped, gives the logger.
set_level_back : (t : Teolog) → IsAtLevel t → set_level t.level (set_level 0 t) ≡ t
unfolding set_level
set_level_back t v =
    ap (λ (os : List Bool). record t { outputs = os })
      (set_outputs-set_outputs t.level 0 0 t.outputs
        ∙ set_outputs_same t.level 0 t.outputs
            (λ k b. v.below k b ∙ ap (λ (j : ℕ). some (ltb j t.level)) (omega arith)))

-- The menu stops the log while it shows help, a level, or a question. The next key, whatever it is
-- and whatever it does, does the same as if the log had never been stopped, except that the menu
-- has saved the level. A new level that is typed is set, and a new filter leaves the level. This
-- holds for a logger that is at its level.
pub logging_resumes :
    (typed ch : Bytes) (h : Menu) (w : Program)
    → IsAtLevel w.log
    → let saved = set_next_key_action none (set_state w.log.level h) in
      (press typed ch (stop_log (h, w)) ≡ press typed ch (saved, w))
      × (exec typed ask_level ch (h, w) ≡ (saved, record w { log = set_level_text typed w.log }))
      × ((exec typed ask_filter ch (h, w)).1 ≡ record w { log = set_filter_text typed w.log })
unfolding on_key next_key stop_log continue_log exec restore_log set_next_key_action set_state
    set_level_text set_filter_text set_filter set_level
logging_resumes typed ch h w v =
    let back = set_level_back w.log v in
    (
      ap
          (λ (t : Teolog).
            own_action (exec typed) ch
              (set_next_key_action none (set_state w.log.level h), record w { log = t }))
          back,
      ap
          (λ (os : List Bool). (
            set_next_key_action none (set_state w.log.level h),
            record w { log = record (w.log) { level = level_from_str typed; outputs = os } },
          ))
          (set_outputs-set_outputs (level_from_str typed) 0 0 w.log.outputs),
      ap (λ (t : Teolog). record w { log = set_filter (log_filter typed) t }) back,
    )
