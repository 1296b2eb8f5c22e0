-- ===== src/Tests/Menus.antt =====
-- The hotkey menu, the printed statistic and the parameters of a connector.
use mathlib.Core.List.Memᴰ
use mathlib.Core.List.{Memᴰ}
use tru.Base.Map.{lookup}
use tru.Base.Text.{codes}
use tru.Base.{ℕ, zero, suc, ◌*◌, ◌≡◌, refl, true, false, [], ◌∷◌, Bytes, none, some}
use tru.Channel.{Channel, new_channel}
use tru.Connector.New.Settings.{Settled, new_settings}
use tru.Connector.New.{level, stat, wrong, max_data_len_type, is_wrong, new}
use tru.Connector.Rows.Order.{readings_lost}
use tru.Connector.Rows.{ChannelStatistic, row, with_queue, append_rows, statistic}
use tru.Hotkey.Bindings.{IsValid}
use tru.Hotkey.Logging.{logging_resumes}
use tru.Hotkey.Menu.{help, Menu, Program, unknown, ask_level, ask_filter, stop_log, exec, press}
use tru.Hotkey.{
  Hotkey, HotkeyData, texts, keys_of, unnamed, add, entry, set_next_key_action, set_state,
}
use tru.Hotkey
use tru.StatisticLog.{empty}
use tru.Teolog.Levels.{set_level-IsAtLevel}
use tru.Teolog.Names.{set_level_text, set_filter_text}
use tru.Teolog.{new_teolog, set_level}

new_settings_example :
    Settled
      (stat true ∷ level (codes "debug") ∷ [])
      none
      false
      true
      true
      (new (stat true ∷ level (codes "debug") ∷ wrong ∷ max_data_len_type 9 ∷ []) none true true)
unfolding is_wrong
new_settings_example =
    new_settings (stat true ∷ level (codes "debug") ∷ wrong ∷ max_data_len_type 9 ∷ []) none true
      true

abbrev near : Channel
near = new_channel 0 (codes "a:1") false 15 0

abbrev far : Channel
far = new_channel 0 (codes "b:1") true 15 0

abbrev first_byte : Bytes → ℕ
first_byte [] = 0
first_byte (b ∷ s) = b

-- The capacities of a slice that doubles.
abbrev twice : ℕ → ℕ
twice zero = 1
twice (suc n) = suc n * 2

two_rows : (append_rows twice 0 0 (far ∷ near ∷ [])).0 ≡ row far ∷ with_queue near (row near) ∷ []
unfolding append_rows
two_rows = refl

readings_lost_example :
    (r : ChannelStatistic) × Memᴰ r (statistic twice (far ∷ near ∷ []))
    × (r.addr ≡ far.addr)
    × (r.sq ≡ 0)
    × (r.rta ≡ 0)
readings_lost_example = readings_lost twice far near [] refl

abbrev menu : Menu
menu = Hotkey.new unknown

menu-IsValid : IsValid menu
unfolding lookup Hotkey.new
menu-IsValid = record { inside = λ c p h. cc }

abbrev program : Program
program = record {
  log = set_level 5 new_teolog;
  printing = false;
  messages = empty;
  closed = false;
}

logging_resumes_example :
    let saved = set_next_key_action none (set_state 5 menu) in
    (press (codes "user\n") (codes "?") (stop_log (menu, program))
      ≡ press (codes "user\n") (codes "?") (saved, program))
    × (exec (codes "user\n") ask_level (codes "?") (menu, program)
        ≡ (saved, record program { log = set_level_text (codes "user\n") program.log }))
    × ((exec (codes "user\n") ask_filter (codes "?") (menu, program)).1
        ≡ record program { log = set_filter_text (codes "user\n") program.log })
unfolding set_level
logging_resumes_example =
    logging_resumes (codes "user\n") (codes "?") menu program
      (set_level-IsAtLevel 5 new_teolog refl)

abbrev two_entries : Menu
two_entries = record menu {
  data_of =
      record { keys = unnamed (codes "u") ∷ []; description = codes "statistic"; action = none }
      ∷ record {
        keys = unnamed (codes "h") ∷ unnamed (codes "?") ∷ [];
        description = codes "help";
        action = some help;
      }
      ∷ [];
}
