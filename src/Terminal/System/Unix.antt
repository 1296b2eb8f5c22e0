-- ===== src/Terminal/System/Unix.antt =====
-- term/term_unix.go.
use Prim.Native.Nat.{bit_and, bit_or}
use tru.Base.Int.{ℤ, pos}
use tru.Base.{ℕ, ◌-◌, ◌≡◌, Bool, ◌⊎◌, Option, none, some, Bytes, is_some}
use tru.Terminal.System.Attributes.{Attributes, IsTty, system, getch_restores_attributes}
use tru.Terminal.System.{System, getch, panicked, pressed}

-- The fields of a termios that makeNonBlock writes, and the others.
pub record Termios : Type 0 where
  pub lflag : ℕ
  pub vmin : ℕ
  pub vtime : ℕ
  pub others : Bytes

-- What the package unix gives: its constants, and its calls; `none` is an error.
pub record UnixCalls : Type 1 where
  pub Os : Type 0
  pub echo : ℕ
  pub icanon : ℕ
  pub isig : ℕ
  pub get_termios : ℕ → Os → Option Termios
  pub set_termios : ℕ → Termios → Os → Option Os
  -- columns and rows
  pub get_winsize : ℕ → Os → Option (ℕ × ℕ)

module _ (u : UnixCalls) where
  open u use {Os, echo, icanon, isig, get_termios, set_termios, get_winsize}

  abbrev pub termios : Attributes
  termios = record { Os = Os; Mode = Termios; get = get_termios; set = set_termios }

  -- `lflag &^ (ECHO | ICANON | ISIG)`
  unfoldable pub non_block : Termios → Termios
  non_block t = record t {
    lflag = t.lflag - bit_and t.lflag (bit_or (bit_or echo icanon) isig);
    vmin = 1;
    vtime = 0;
  }

  unfoldable pub is_terminal : ℕ → Os → Bool
  is_terminal fd os = is_some (get_termios fd os)

  unfoldable pub get_size : ℕ → Os → Option (ℤ × ℤ)
  get_size fd os = elim (get_winsize fd os) [
    | none ↦ none
    | some (col, row) ↦ some (pos col, pos row)
  ]

  abbrev pub unix : System
  unix = system termios non_block (is_terminal, get_size)

  -- On Unix, with a reading that leaves the attributes of the terminal: whatever `Getch` gives, the
  -- terminal has the attributes that it had before. It panics only where the attributes cannot be
  -- read; otherwise a key is what was read with the attributes that these were but for three fields:
  -- the flags ECHO, ICANON and ISIG are taken out, a read waits for one byte, and has no timeout.
  pub getch_restores_unix :
      (fd : ℕ) (read_stdin : Os → Option Bytes × Os)
      → IsTty termios fd
      → ((os : Os) → get_termios fd (read_stdin os).1 ≡ get_termios fd os)
      → (os : Os)
      → let (result, end) = getch unix fd read_stdin os in
        (get_termios fd end ≡ get_termios fd os)
        × ((get_termios fd os ≡ none) × (result ≡ panicked)
            ⊎ ((t : Termios) × (mid : Os) × (get_termios fd os ≡ some t)
                × (get_termios fd mid
                    ≡ some (record {
                      lflag = t.lflag - bit_and t.lflag (bit_or (bit_or echo icanon) isig);
                      vmin = 1;
                      vtime = 0;
                      others = t.others;
                    }))
                × (result ≡ pressed (read_stdin mid).0)))
  unfolding non_block
  getch_restores_unix fd read_stdin tty keeps os =
      getch_restores_attributes termios non_block (is_terminal, get_size) fd read_stdin tty keeps os
