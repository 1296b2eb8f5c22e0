-- ===== src/Hotkey/Help/Order.antt =====
-- The help screen does not depend on the order of a map (hotkey/hotkey.go).
use mathlib.Core.List.Memᴰ
use mathlib.Core.List.{Memᴰ}
use tru.Base.{ℕ, ◌≡◌, List, Bytes}
use tru.Hotkey.{Hotkey}

module _ (key : ℕ → Bytes) where
  -- The key tells the elements of two lists apart.
  abbrev pub Tells : List ℕ → List ℕ → Type 0
  Tells a b = (p q : ℕ) → Memᴰ p a → Memᴰ q b → key p ≡ key q → p ≡ q
