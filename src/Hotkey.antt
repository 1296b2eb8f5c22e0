-- ===== src/Hotkey.antt =====
-- hotkey/hotkey.go: a menu of keys and what they do. A pointer to a hotkeyData is its number in the
-- order of the calls of `Add`; an action is a name, and what it does to the menu and to the rest of
-- the program is a parameter of the loop. A width counts bytes.
pub mod Bindings
pub mod Help
pub mod Logging
pub mod Menu
use tru.Base.Map.{Map, bytes_key, nat_eq, lookup, insert}
use tru.Base.Sort.{sort_by}
use tru.Base.Text.{codes}
use tru.Base.{
  ℕ, zero, suc, ◌+◌, ◌-◌, Bool, true, false, ◌||◌, List, [], ◌∷◌, ◌++◌, map, Option, none, some,
  Bytes, ltb, if◌then◌else◌, length, get_elem?, ◌==◌,
}

pub record KeyCode : Type 0 where
  pub code : Bytes
  pub name : Bytes

unfoldable pub name : KeyCode → Bytes
name hk = if ltb 0 (length hk.name) then hk.name else hk.code

pub record HotkeyData {ℓ} (A : Type ℓ) : Type ℓ where
  pub keys : List KeyCode
  pub description : Bytes
  pub action : Option A

pub record Hotkey {ℓ κ} (A : Type ℓ) (S : Type κ) : Type (ℓ ⊔ κ) where
  pub hotkeys : Map Bytes ℕ
  pub data_of : List (HotkeyData A)
  pub unknown_key : Option A
  pub next_key_action : Option A
  pub state : Option S
  pub stop : Bool
  pub stopactions : List A

-- What `Add` takes as its keys; `other` stands for every other type.
pub data Keys : Type 0 where
  bytes text : Bytes → Keys
  texts : List Bytes → Keys
  key_code : KeyCode → Keys
  key_codes : List KeyCode → Keys
  other : Keys

abbrev pub unnamed : Bytes → KeyCode
unnamed code = record { code = code; name = [] }

-- At `none` the call panics.
unfoldable pub keys_of : Keys → Option (List KeyCode)
keys_of (bytes v) = some (unnamed v ∷ [])
keys_of (text v) = some (unnamed v ∷ [])
keys_of (texts v) = some (map unnamed v)
keys_of (key_code v) = some (v ∷ [])
keys_of (key_codes v) = some v
keys_of other = none

-- The loop of `Add` over the keys.
unfoldable pub bind_all : List KeyCode → ℕ → Map Bytes ℕ → Map Bytes ℕ
bind_all [] p m = m
bind_all (l ∷ ls) p m = bind_all ls p (insert l.code p m)

module _ {ℓ κ} {A : Type ℓ} {S : Type κ} where
  -- `New`, with the name of the default action for an unknown key.
  unfoldable pub new : A → Hotkey A S
  new def_unknown = record {
    hotkeys = [];
    data_of = [];
    unknown_key = some def_unknown;
    next_key_action = none;
    state = none;
    stop = false;
    stopactions = [];
  }

  unfoldable pub set_state : S → Hotkey A S → Hotkey A S
  set_state state h = record h { state = some state }

  unfoldable pub set_next_key_action : Option A → Hotkey A S → Hotkey A S
  set_next_key_action f h = record h { next_key_action = f }

  unfoldable pub add : Keys → Bytes → Option A → Hotkey A S → Option (Hotkey A S)
  add keys description action h = elim (keys_of keys) [
    | none ↦ none
    | some ks ↦ some (record h {
      hotkeys = bind_all ks (length h.data_of) h.hotkeys;
      data_of = h.data_of ++ record { keys = ks; description = description; action = action } ∷ [];
    })
  ]

  unfoldable pub add_unknown : Option A → Hotkey A S → Hotkey A S
  add_unknown action h = record h { unknown_key = action }

  unfoldable pub set_stop_action : A → Hotkey A S → Hotkey A S
  set_stop_action f h = record h { stopactions = h.stopactions ++ f ∷ [] }

  -- The entry of a key.
  unfoldable pub entry : Bytes → Hotkey A S → Option (HotkeyData A)
  entry ch h = elim (lookup ch h.hotkeys) [ none ↦ none | some p ↦ get_elem? h.data_of p ]

  -- `Stop`, with what the stop actions do.
  abbrev pub exec_all {μ} :
      {W : Type μ} (exec : A → Hotkey A S × W → Hotkey A S × W)
      → List A
      → Hotkey A S × W
      → Hotkey A S × W
  exec_all exec [] s = s
  exec_all exec (f ∷ fs) s = exec_all exec fs (exec f s)

  unfoldable pub stop_menu {μ} :
      {W : Type μ} (exec : A → Hotkey A S × W → Hotkey A S × W) → Hotkey A S × W → Hotkey A S × W
  stop_menu exec s = let (h, w) = exec_all exec s.0.stopactions s in (record h { stop = true }, w)

  module _ {μ} {W : Type μ} (exec : A → Bytes → Hotkey A S × W → Hotkey A S × W) where
    abbrev pub exec_some : Option A → Bytes → Hotkey A S × W → Hotkey A S × W
    exec_some none ch s = s
    exec_some (some a) ch s = exec a ch s

    -- The action that was set for the next key; it is run once.
    unfoldable pub next_key : Bytes → Hotkey A S × W → Hotkey A S × W
    next_key ch s = elim s.0.next_key_action [
      | none ↦ s
      | some f ↦ let (h, w) = exec f ch s in (record h { next_key_action = none }, w)
    ]

    -- The action of the key itself.
    unfoldable pub own_action : Bytes → Hotkey A S × W → Hotkey A S × W
    own_action ch s = elim (entry ch s.0) [
      | none ↦ exec_some s.0.unknown_key ch s
      | some hd ↦ exec_some hd.action ch s
    ]

    -- What `run` does for one key.
    unfoldable pub on_key : Bytes → Hotkey A S × W → Hotkey A S × W
    on_key ch s = own_action ch (next_key ch s)

    -- `run`, for the keys that are pressed. The result says what keys are not read. After the
    -- last key it waits, unless it was stopped.
    unfoldable pub run : List Bytes → Hotkey A S × W → List Bytes × (Hotkey A S × W)
    run [] s = ([], if s.0.stop then (record (s.0) { stop = false }, s.1) else s)
    run (ch ∷ rest) s =
        let after = run rest (on_key ch s) in
        if s.0.stop then (ch ∷ rest, (record (s.0) { stop = false }, s.1)) else after
