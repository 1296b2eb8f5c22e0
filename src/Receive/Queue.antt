-- ===== src/Receive/Queue.antt =====
-- The receive queue as a map (receive_queue.go).
use tru.Base.Map.{nat_eq, lookup, lookup-insert, lookup-delete}
use tru.Base.{ℕ, ◌≡◌, refl, inl, inr, none, some, arith, ◌==◌, if◌then◌else◌, Option-cases}
use tru.Packet.{Packet}
use tru.Receive.{ReceiveQueue, add, get, remove}

-- An added packet is found under its id.
pub get-add :
    (pac : Packet) (id : ℕ) (r : ReceiveQueue)
    → get id (add pac r) ≡ (if pac.id == id then some pac else get id r)
unfolding get add
get-add pac id r = lookup-insert pac.id id pac r

-- Removing an id gives what was found under it and leaves nothing there.
pub get-remove :
    (j id : ℕ) (r : ReceiveQueue)
    → ((remove j r).1 ≡ get j r) × (get id (remove j r).0 ≡ (if j == id then none else get id r))
unfolding get remove
get-remove j id r = (
  refl,
  elim (Option-cases (lookup j r)) [
    | inl k ↦ ground (arith, lookup-delete j id r)
    | inr (q, k) ↦ ground (arith, lookup-delete j id r)
  ],
)
