-- ===== src/Terminal/System/Keys.antt =====
-- A terminal after a key was read (term/term.go).
use tru.Base.{ℕ, ◌≡◌, refl, sym, ◌∙◌, ◌⊎◌, inl, inr, Option, none, some, Bytes, Option-cases}
use tru.Terminal.System.{System, panicked, pressed, restore, getch}

-- What a system has to promise for a file descriptor: makeNonBlock gives the state from before,
-- and where it succeeds, restoring succeeds and sets the state.
pub record Restores (s : System) (fd : ℕ) : Type 0 where
  pub old :
      (os os' : s.Os) (state : s.State)
      → s.make_non_block fd os ≡ some (state, os')
      → s.get_state fd os ≡ some state
  pub again :
      (os os' later : s.Os) (state : s.State)
      → s.make_non_block fd os ≡ some (state, os')
      → s.get_state fd later ≡ s.get_state fd os'
      → (end : s.Os) × (s.restore_state fd state later ≡ some end)
        × (s.get_state fd end ≡ some state)

module _ (s : System) (fd : ℕ) (r : Restores s fd) (read_stdin : s.Os → Option Bytes × s.Os)
    (keeps : (os : s.Os) → s.get_state fd (read_stdin os).1 ≡ s.get_state fd os) where
  -- Whatever `Getch` gives, the terminal has the state that it had before. A key is what was read in
  -- the non block mode.
  pub getch_restores :
      (os : s.Os)
      → (s.get_state fd (getch s fd read_stdin os).1 ≡ s.get_state fd os)
        × ((s.make_non_block fd os ≡ none) × ((getch s fd read_stdin os).0 ≡ panicked)
            ⊎ ((state : s.State) × (mid : s.Os) × (s.make_non_block fd os ≡ some (state, mid))
                × ((getch s fd read_stdin os).0 ≡ pressed (read_stdin mid).0)))
  unfolding getch restore
  getch_restores os = elim (Option-cases (s.make_non_block fd os)) [
    | inl e ↦ rw (e, getch) (refl, inl (refl, refl))
    | inr ((state, mid), e) ↦
        let (end, done, back) = r.again os mid (read_stdin mid).1 state e (keeps mid) in
        rw (e, getch)
          (rw (done, restore) (back ∙ sym (r.old os mid state e), inr (state, mid, refl, refl)))
  ]
