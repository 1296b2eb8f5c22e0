-- ===== src/Terminal/System/Attributes.antt =====
-- Systems on which a terminal has attributes that are read and set (term_unix.go, term_windows.go).
use tru.Base.Int.{ℤ}
use tru.Base.{
  Bool, ℕ, ◌≡◌, sym, ap, ◌∙◌, subst, ◌⊎◌, inl, inr, Option, none, some, some_eq, Bytes,
  Option-cases,
}
use tru.Terminal.System.Keys.{Restores, getch_restores}
use tru.Terminal.System.{System, getch, panicked, pressed}

-- Reading and setting the attributes at a file descriptor; `none` is an error.
pub record Attributes : Type 1 where
  pub Os : Type 0
  pub Mode : Type 0
  pub get : ℕ → Os → Option Mode
  pub set : ℕ → Mode → Os → Option Os

-- What is documented of them for the file descriptor of a terminal: what is set is set, and where
-- attributes can be read, they can be set.
pub record IsTty (a : Attributes) (fd : ℕ) : Type 0 where
  pub get-set : (t : a.Mode) (os os' : a.Os) → a.set fd t os ≡ some os' → a.get fd os' ≡ some t
  pub settable :
      (t t' : a.Mode) (os : a.Os)
      → a.get fd os ≡ some t
      → (os' : a.Os) × (a.set fd t' os ≡ some os')

ne_none : {A : Type 0} {a : A} → none ≡ some a → ⊥
ne_none e = cc

-- makeNonBlock of both systems: the attributes are read and set changed, and those from before are
-- the result.
unfoldable pub set_changed :
    (a : Attributes) → (a.Mode → a.Mode) → ℕ → a.Os → Option (a.Mode × a.Os)
set_changed a non_block fd os = elim (a.get fd os) [
  | none ↦ none
  | some t ↦ elim (a.set fd (non_block t) os) [ none ↦ none | some os' ↦ some (t, os') ]
]

module _ (a : Attributes) (non_block : a.Mode → a.Mode) where
  open a use {Os, Mode, get, set}

  -- When makeNonBlock succeeds, its state is the one from before, and the non block mode is set.
  set_changed_lem :
      (fd : ℕ) (tty : IsTty a fd) (os os' : Os) (t : Mode)
      → set_changed a non_block fd os ≡ some (t, os')
      → (get fd os ≡ some t) × (get fd os' ≡ some (non_block t))
  unfolding set_changed
  set_changed_lem fd tty os os' t h = elim (Option-cases (get fd os)) [
    | inl e ↦ cc (rw (e, set_changed) at h)
    | inr (t₀, e) ↦ elim (Option-cases (set fd (non_block t₀) os)) [
      | inl f ↦ absurd (ne_none (rw (e, f, set_changed) at h))
      | inr (os₁, f) ↦
          let pair = some_eq (rw (e, f, set_changed) at h) in
          let same = ap (λ (x : Mode × Os). x.0) pair in
          let end = ap (λ (x : Mode × Os). x.1) pair in
          (
            e ∙ ap (λ (x : Mode). some x) same,
            subst (λ (o : Os). get fd o ≡ some (non_block t)) end
                (tty.get-set (non_block t₀) os os₁ f ∙ ap (λ (x : Mode). some (non_block x)) same),
          )
    ]
  ]

  get_none :
      (fd : ℕ) (tty : IsTty a fd) (os : Os)
      → set_changed a non_block fd os ≡ none
      → get fd os ≡ none
  unfolding set_changed
  get_none fd tty os h = elim (Option-cases (get fd os)) [
    | inl e ↦ e
    | inr (t, e) ↦
        let (os', f) = tty.settable t (non_block t) os e in
        absurd (ne_none (sym (rw (e, f, set_changed) at h)))
  ]

  module _ (s : (ℕ → Os → Bool) × (ℕ → Os → Option (ℤ × ℤ))) where
    -- The system that has these attributes.
    abbrev pub system : System
    system = record {
      Os = Os;
      State = Mode;
      is_terminal = s.0;
      get_size = s.1;
      make_non_block = set_changed a non_block;
      get_state = get;
      restore_state = set;
    }

    system-Restores : (fd : ℕ) → IsTty a fd → Restores system fd
    system-Restores fd tty = record {
      old = λ os os' t h. (set_changed_lem fd tty os os' t h).0;
      again = λ os os' later t h same.
          let (end, done) =
            tty.settable (non_block t) t later (same ∙ (set_changed_lem fd tty os os' t h).1) in
          (end, done, tty.get-set t later end done);
    }

    -- With a reading that leaves the attributes of the terminal: whatever `Getch` gives, the terminal
    -- has the attributes that it had before. It panics only where the attributes cannot be
    -- read; otherwise a key is what was read in the non block mode.
    pub getch_restores_attributes :
        (fd : ℕ) (read_stdin : Os → Option Bytes × Os)
        → IsTty a fd
        → ((os : Os) → get fd (read_stdin os).1 ≡ get fd os)
        → (os : Os)
        → let (result, end) = getch system fd read_stdin os in
          (get fd end ≡ get fd os)
          × ((get fd os ≡ none) × (result ≡ panicked)
              ⊎ ((t : Mode) × (mid : Os) × (get fd os ≡ some t)
                  × (get fd mid ≡ some (non_block t))
                  × (result ≡ pressed (read_stdin mid).0)))
    getch_restores_attributes fd read_stdin tty keeps os =
        let (back, cases) = getch_restores system fd (system-Restores fd tty) read_stdin keeps os in
        (
          back,
          elim cases [
            | inl (failed, p) ↦ inl (get_none fd tty os failed, p)
            | inr (t, mid, made, k) ↦
                let (old, off) = set_changed_lem fd tty os mid t made in inr (t, mid, old, off, k)
          ],
        )
