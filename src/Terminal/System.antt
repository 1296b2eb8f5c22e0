-- ===== src/Terminal/System.antt =====
-- term/term.go: the operations of a terminal that ask the operating system. Each system has its own
-- file of them, so they are a record.
pub mod Unix
pub mod Windows
pub mod Keys
pub mod Attributes
use tru.Base.Int.{ℤ}
use tru.Base.Text.{codes}
use tru.Base.{ℕ, Bool, false, ◌||◌, Option, none, some, Bytes, take, bytes_eq}

-- isTerminal, getSize, makeNonBlock, getState and restoreState of one system; `none` is an error.
pub record System : Type 1 where
  pub Os : Type 0
  pub State : Type 0
  pub is_terminal : ℕ → Os → Bool
  pub get_size : ℕ → Os → Option (ℤ × ℤ)
  pub make_non_block : ℕ → Os → Option (State × Os)
  pub get_state : ℕ → Os → Option State
  pub restore_state : ℕ → State → Os → Option Os

-- term_unsupported.go: everything is an error.
abbrev pub unsupported : System
unsupported = record {
  Os = Unit {0};
  State = Unit {0};
  is_terminal = λ fd os. false;
  get_size = λ fd os. none;
  make_non_block = λ fd os. none;
  get_state = λ fd os. none;
  restore_state = λ fd state os. none;
}

-- term_plan9.go: with the path that `Fd2path` gives.
abbrev pub plan9 : (ℕ → Option Bytes) → System
plan9 fd2path = record unsupported {
  is_terminal = λ fd os. elim (fd2path fd) [
    | none ↦ false
    | some path ↦ bytes_eq path (codes "/dev/cons") || bytes_eq path (codes "/mnt/term/dev/cons")
  ];
}

-- What `Getch` gives: it panics when the terminal cannot be put into the non block mode, and gives nil
-- when the reading fails.
pub data Pressed : Type 0 where
  panicked no_key : Pressed
  key : Bytes → Pressed

abbrev pub pressed : Option Bytes → Pressed
pressed none = no_key
pressed (some bytes) = key (take 3 bytes)

module _ (s : System) where
  open s use {Os, State, make_non_block, restore_state}

  -- An error of `RestoreState` is not looked at.
  unfoldable pub restore : ℕ → State → Os → Os
  restore fd state os = elim (restore_state fd state os) [ none ↦ os | some os' ↦ os' ]

  -- `Getch`; `read_stdin` is the reading of at most three bytes.
  unfoldable pub getch : ℕ → (Os → Option Bytes × Os) → Os → Pressed × Os
  unfolding restore
  getch fd read_stdin os = elim (make_non_block fd os) [
    | none ↦ (panicked, os)
    | some (old, os') ↦ let (bytes, os'') = read_stdin os' in (pressed bytes, restore fd old os'')
  ]

  -- `Anykey`
  unfoldable pub anykey : ℕ → (Os → Option Bytes × Os) → Os → Os
  anykey fd read_stdin os = (getch fd read_stdin os).1
