-- ===== src/Terminal/System/Windows.antt =====
-- term/term_windows.go.
use Prim.Native.Nat.{bit_and, bit_or}
use tru.Base.Int.{ℤ, pos, negsuc}
use tru.Base.{ℕ, ◌+◌, ◌-◌, ◌%◌, ◌^◌, Bool, Option, none, some, is_some, ltb, if◌then◌else◌}
use tru.Terminal.System.Attributes.{Attributes, system}
use tru.Terminal.System.{System}

-- The window of a ConsoleScreenBufferInfo: int16 numbers as their 16 bits.
pub record Window : Type 0 where
  pub left : ℕ
  pub top : ℕ
  pub right : ℕ
  pub bottom : ℕ

-- What the package windows gives: its constants, and its calls; `none` is an error.
pub record WindowsCalls : Type 1 where
  pub Os : Type 0
  pub enable_echo_input : ℕ
  pub enable_processed_input : ℕ
  pub enable_line_input : ℕ
  pub enable_processed_output : ℕ
  pub get_console_mode : ℕ → Os → Option ℕ
  pub set_console_mode : ℕ → ℕ → Os → Option Os
  pub get_console_screen_buffer_info : ℕ → Os → Option Window

-- `int(b - a + 1)` of int16 numbers.
unfoldable pub span : ℕ → ℕ → ℤ
span a b =
    let n = (b + 2 ^ 16 - a + 1) % 2 ^ 16 in
    if ltb n (2 ^ 15) then pos n else negsuc (2 ^ 16 - n - 1)

module _ (w : WindowsCalls) where
  open w use {
    Os, enable_echo_input, enable_processed_input, enable_line_input, enable_processed_output,
    get_console_mode, set_console_mode, get_console_screen_buffer_info,
  }

  abbrev pub console_mode : Attributes
  console_mode = record { Os = Os; Mode = ℕ; get = get_console_mode; set = set_console_mode }

  -- `st &^ (...)`
  unfoldable pub non_block : ℕ → ℕ
  non_block st =
      st
      - bit_and st (
          bit_or (bit_or (bit_or enable_echo_input enable_processed_input) enable_line_input)
            enable_processed_output)

  unfoldable pub is_terminal : ℕ → Os → Bool
  is_terminal fd os = is_some (get_console_mode fd os)

  unfoldable pub get_size : ℕ → Os → Option (ℤ × ℤ)
  unfolding span
  get_size fd os = elim (get_console_screen_buffer_info fd os) [
    | none ↦ none
    | some info ↦ some (span info.left info.right, span info.top info.bottom)
  ]

  abbrev pub windows : System
  windows = system console_mode non_block (is_terminal, get_size)
