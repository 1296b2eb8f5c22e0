-- ===== src/Terminal.antt =====
-- term/term.go: the escape sequences and the key codes. What asks the operating system is left out.
pub mod Reading
pub mod System
use tru.Base.Decimal.{decimal, decimal_int}
use tru.Base.Int.{ℤ}
use tru.Base.Text.{codes}
use tru.Base.{ℕ, List, [], ◌∷◌, ◌++◌, Option, none, some, Bytes, if◌then◌else◌, ◌==◌}

-- "\033"
abbrev pub escape : Bytes → Bytes
escape s = 27 ∷ s

-- The colors.
abbrev pub color_none : Bytes
color_none = escape (codes "[0m")

abbrev pub color_black : Bytes
color_black = escape (codes "[22;30m")

abbrev pub color_red : Bytes
color_red = escape (codes "[22;31m")

abbrev pub color_green : Bytes
color_green = escape (codes "[22;32m")

abbrev pub color_brown : Bytes
color_brown = escape (codes "[22;33m")

abbrev pub color_blue : Bytes
color_blue = escape (codes "[22;34m")

abbrev pub color_magenta : Bytes
color_magenta = escape (codes "[22;35m")

abbrev pub color_cyan : Bytes
color_cyan = escape (codes "[22;36m")

abbrev pub color_grey : Bytes
color_grey = escape (codes "[22;37m")

abbrev pub color_dark_grey : Bytes
color_dark_grey = escape (codes "[01;30m")

abbrev pub color_light_red : Bytes
color_light_red = escape (codes "[01;31m")

abbrev pub color_light_green : Bytes
color_light_green = escape (codes "[01;32m")

abbrev pub color_yellow : Bytes
color_yellow = escape (codes "[01;33m")

abbrev pub color_light_blue : Bytes
color_light_blue = escape (codes "[01;34m")

abbrev pub color_light_magenta : Bytes
color_light_magenta = escape (codes "[01;35m")

abbrev pub color_light_cyan : Bytes
color_light_cyan = escape (codes "[01;36m")

abbrev pub color_white : Bytes
color_white = escape (codes "[01;37m")

unfoldable pub set_color : Bytes → Bytes → Bytes
set_color color txt = color ++ (txt ++ color_none)

-- The functions of a terminal.
abbrev pub clear : Bytes
clear = escape (codes "[2J")

abbrev pub wrap_on : Bytes
wrap_on = escape (codes "[?7h")

abbrev pub wrap_off : Bytes
wrap_off = escape (codes "[?7l")

abbrev pub save_cursor_position : Bytes
save_cursor_position = escape (codes "[s")

abbrev pub restore_cursor_position : Bytes
restore_cursor_position = escape (codes "[u")

abbrev pub hide_cursor : Bytes
hide_cursor = escape (codes "[?25l")

abbrev pub show_cursor : Bytes
show_cursor = escape (codes "[?25h")

abbrev pub clear_line : Bytes
clear_line = escape (codes "[K")

abbrev pub reset_scroll_region : Bytes
reset_scroll_region = escape (codes "[r")

unfoldable pub set_cursor_position : ℕ → ℕ → Bytes
set_cursor_position x y =
    escape (codes "[" ++ (decimal y ++ (codes ";" ++ (decimal x ++ codes "f"))))

-- Without a number of rows, or with 0, the region goes on to the end.
unfoldable pub set_scroll_region : ℤ → Option ℕ → Bytes
set_scroll_region start_row num_rows =
    let to_end = escape (codes "[" ++ (decimal_int start_row ++ codes ";r")) in
    elim num_rows [
      | none ↦ to_end
      | some n ↦
          if n == 0
          then to_end
          else escape
              (codes "[" ++ (decimal_int start_row ++ (codes ";" ++ (decimal n ++ codes "r"))))
    ]

-- The key codes.
abbrev pub ctrl_c : Bytes
ctrl_c = 3 ∷ []

abbrev pub ctrl_d : Bytes
ctrl_d = 4 ∷ []

abbrev pub left : Bytes
left = 27 ∷ 91 ∷ 68 ∷ []
