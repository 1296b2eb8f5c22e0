-- ===== src/Hotkey/Menu.antt =====
-- hotkey.go: the menu of a connector. What is printed is left out. The state of the menu is the
-- level that was saved; `newHotkey` sets it before any key is bound, and the type assertions on it
-- would panic without.
use tru.Base.{if◌then◌else◌, not, ℕ, Bool, true, false, [], ◌∷◌, Option, none, some, Bytes}
use tru.Base.Text.{codes}
use tru.Hotkey.{
  Keys, bytes, text, texts, key_code, Hotkey, new, set_state, set_next_key_action, add, add_unknown,
  stop_menu, on_key,
}
use tru.StatisticLog.{StatisticLog, show_swap}
use tru.Teolog.Names.{set_level_text, set_filter_text}
use tru.Teolog.{Teolog, set_level, switch_level}

-- The actions by the function that they are, in the order of `newHotkey`; `restore_level` is what
-- `stopLog` sets for the next key.
pub data Action : Type 0 where
  unknown enter help statistic minilog next_level show_level ask_level ask_filter stop_keys quit :
      Action
  restore_level : Action

-- What the actions change: the logger, whether the statistic is printed (`statTimer`), its log, and
-- whether `tru.Close` and `os.Exit` were called.
pub record Program : Type 0 where
  pub log : Teolog
  pub printing : Bool
  pub messages : StatisticLog
  pub closed : Bool

-- `StatisticPrint`, `StatisticPrintRunning` and `StatisticPrintStop`
unfoldable pub statistic_print : Program → Program
statistic_print w = record w { printing = true }

unfoldable pub statistic_print_running : Program → Bool
statistic_print_running w = w.printing

unfoldable pub statistic_print_stop : Program → Program
statistic_print_stop w = if w.printing then record w { printing = false } else w

abbrev pub Menu : Type 0
Menu = Hotkey Action ℕ

-- `stopLog`: the level is saved, and nothing is logged until the next key.
unfoldable pub stop_log : Menu × Program → Menu × Program
stop_log (h, w) = (
  set_next_key_action (some restore_level) (set_state w.log.level h),
  record w { log = set_level 0 w.log },
)

abbrev pub saved_level : Menu → ℕ
saved_level h = elim h.state [ none ↦ 0 | some level ↦ level ]

-- `restoreLog` and `continueLog`.
unfoldable pub restore_log : Menu × Program → Menu × Program
restore_log (h, w) = (h, record w { log = set_level (saved_level h) w.log })

unfoldable pub continue_log : Menu × Program → Menu × Program
continue_log (h, w) = (set_next_key_action none h, w)

-- `Stop` of this menu, for which no stop action is ever set.
unfoldable pub stop : Menu × Program → Menu × Program
stop s = stop_menu (λ a t. t) s

-- An action, with the line that `ReadString` gives where it reads one.
unfoldable pub exec : Bytes → Action → Bytes → Menu × Program → Menu × Program
exec typed unknown ch s = s
exec typed enter ch s = s
exec typed help ch s = stop_log s
exec typed statistic ch (h, w) =
    (h, if not (statistic_print_running w) then statistic_print w else statistic_print_stop w)
exec typed minilog ch (h, w) = (h, record w { messages = (show_swap w.messages).0 })
exec typed next_level ch (h, w) = (h, record w { log = switch_level w.log })
exec typed show_level ch s = stop_log s
exec typed ask_level ch s =
    let (h, w) = stop_log s in continue_log (h, record w { log = set_level_text typed w.log })
exec typed ask_filter ch s =
    let (h, w) = stop_log s in restore_log (h, record w { log = set_filter_text typed w.log })
exec typed stop_keys ch s = stop s
exec typed quit ch s = let (h, w) = stop s in (h, statistic_print_stop (record w { closed = true }))
exec typed restore_level ch s = restore_log s

-- `Add` of keys that it takes.
abbrev then_add : Option Menu → Keys → Bytes → Action → Option Menu
then_add none keys description action = none
then_add (some h) keys description action = add keys description (some action) h

-- `newHotkey`.
unfoldable pub new_hotkey : Option Menu
new_hotkey =
    let h = some (add_unknown (some unknown) (set_state 0 (new unknown))) in
    let h = then_add h (bytes (13 ∷ [])) (codes "") enter in
    let h = then_add h (texts (codes "h" ∷ codes "?" ∷ [])) (codes "show this help screen") help in
    let h = then_add h (text (codes "u")) (codes "show/hide tru statistic") statistic in
    let h = then_add h (text (codes "U")) (codes "show/hide tru statistic minilog") minilog in
    let h = then_add h (text (codes "l")) (codes "switch logger level") next_level in
    let h = then_add h (text (codes "L")) (codes "print current logger level") show_level in
    let h =
      then_add h (key_code (record { code = 12 ∷ []; name = codes "Ctrl+L" }))
        (codes "set new logger level") ask_level in
    let h = then_add h (text (codes "f")) (codes "set logger filter") ask_filter in
    let h =
      then_add h (key_code (record { code = 3 ∷ []; name = codes "Ctrl+C" }))
        (codes "stop this hotkey menu") stop_keys in
    then_add h (text (codes "q")) (codes "quit from application") quit

-- One key, at which a line may be typed.
abbrev pub press : Bytes → Bytes → Menu × Program → Menu × Program
press typed ch s = on_key (exec typed) ch s
