-- ===== src/SendQueue/Get.antt =====
-- The send queue as a map from packet ids (send_queue.go).
use tru.Base.Map.{nat_eq, lookup, lookup-insert, lookup-delete, lookup-append}
use tru.Base.{ℕ, ◌≡◌, Option, none, some, arith, ◌==◌, if◌then◌else◌, Option-cases, inl, inr}
use tru.Packet.{Packet}
use tru.SendQueue.Index.{IsValid}
use tru.SendQueue.{SendQueue, add, get, remove}

-- In a valid send queue an added packet is found under its id, with its element, and every other
-- id finds what it found before.
pub get-add :
    (pac : Packet) (id : ℕ) (s : SendQueue)
    → IsValid s
    → get id (add pac s) ≡ (if pac.id == id then some (s.next_element, pac) else get id s)
unfolding get add
get-add pac id s v = elim (Option-cases (lookup id s.index)) [
  | inl k ↦ ground (
    arith,
    lookup-insert pac.id id s.next_element s.index,
    lookup-append s.next_element s.next_element pac s.queue,
    v.fresh s.next_element,
  )
  | inr (e, k) ↦
      let (p, found, same) = v.sound id e k in
      ground (
        arith,
        lookup-insert pac.id id s.next_element s.index,
        lookup-append s.next_element s.next_element pac s.queue,
        lookup-append e s.next_element pac s.queue,
        v.fresh s.next_element,
      )
]

abbrev pub packet_of : Option (ℕ × Packet) → Option Packet
packet_of none = none
packet_of (some (e, pac)) = some pac

-- Removing an id from a valid send queue gives the packet that was found under it and leaves none
-- there, and every other id finds what it found before.
pub get-remove :
    (j id : ℕ) (s : SendQueue)
    → IsValid s
    → ((remove j s).1 ≡ packet_of (get j s))
      × (get id (remove j s).0 ≡ (if j == id then none else get id s))
unfolding get remove
get-remove j id s v = elim (Option-cases (lookup j s.index)) [
  | inl k ↦ (ground arith, ground arith)
  | inr (e, k) ↦
      let (p, found, same) = v.sound j e k in
      (
        ground arith,
        elim (Option-cases (lookup id s.index)) [
          | inl l ↦ ground (arith, lookup-delete j id s.index)
          | inr (f, l) ↦
              let (q, found', same') = v.sound id f l in
              ground (arith, lookup-delete j id s.index, lookup-delete e f s.queue)
        ],
      )
]

-- An id under which nothing is found is not in the index.
pub lookup-index_none :
    (id : ℕ) (s : SendQueue) → IsValid s → get id s ≡ none → lookup id s.index ≡ none
unfolding get
lookup-index_none id s v h = elim (Option-cases (lookup id s.index)) [
  | inl e ↦ e
  | inr (f, e) ↦ let (p, found, same) = v.sound id f e in absurd (ground (arith, h, e, found))
]

-- What is found under an id is in the list.
pub lookup-get :
    (id e : ℕ) (pac : Packet) (s : SendQueue)
    → get id s ≡ some (e, pac)
    → lookup e s.queue ≡ some pac
unfolding get
lookup-get id e pac s h = elim (Option-cases (lookup id s.index)) [
  | inl k ↦ absurd (ground (arith, h, k))
  | inr (f, k) ↦ elim (Option-cases (lookup f s.queue)) [
    | inl l ↦ absurd (ground (arith, h, k, l))
    | inr (q, l) ↦ ground (arith, h, k, l)
  ]
]
