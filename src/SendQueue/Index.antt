-- ===== src/SendQueue/Index.antt =====
-- The index and the list of the send queue agree (send_queue.go).
use tru.Base.Map.{nat_eq, lookup, delete, lookup-insert, lookup-delete, lookup-append}
use tru.Base.{ℕ, ◌≤◌, ◌≡◌, refl, none, some, arith, ◌==◌, Bool-cases, Option-cases, inl, inr}
use tru.Packet.{Packet}
use tru.SendQueue.{SendQueue, init, add, remove}

-- The index leads to the elements that hold the packets, every element is indexed under the id
-- of its packet, and a new element is none of those in the list.
pub record IsValid (s : SendQueue) : Type 0 where
  pub sound :
      (id e : ℕ)
      → lookup id s.index ≡ some e
      → (pac : Packet) × (lookup e s.queue ≡ some pac) × (pac.id ≡ id)
  pub complete :
      (e : ℕ) (pac : Packet) → lookup e s.queue ≡ some pac → lookup pac.id s.index ≡ some e
  pub fresh : (e : ℕ) → s.next_element ≤ e → lookup e s.queue ≡ none

pub init-IsValid : IsValid init
unfolding lookup
init-IsValid = record { sound = λ id e h. cc; complete = λ e pac h. cc; fresh = λ e h. refl }

-- Adding a packet with an id that does not wait yet keeps the index and the list of the send
-- queue together.
pub add-IsValid :
    (pac : Packet) (s : SendQueue) → lookup pac.id s.index ≡ none → IsValid s → IsValid (add pac s)
unfolding add
add-IsValid pac s new v = record {
  sound = λ id e h.
      let h' = rw (lookup-insert pac.id id s.next_element s.index) at h in
      let last = lookup-append e s.next_element pac s.queue in
      elim (Bool-cases (pac.id == id)) [
        | inl k ↦ (pac, ground (arith, h', last, v.fresh e), ground arith)
        | inr k ↦
            let (p, found, same) = v.sound id e (ground (arith, h')) in
            (p, ground (arith, last), same)
      ];
  complete = λ e p h.
      let h' = rw (lookup-append e s.next_element pac s.queue) at h in
      elim (Option-cases (lookup e s.queue)) [
        | inl k ↦ ground (arith, h', lookup-insert pac.id p.id s.next_element s.index)
        | inr (q, k) ↦
            ground (arith, h', v.complete e q k, lookup-insert pac.id p.id s.next_element s.index)
      ];
  fresh = λ e h. ground (arith, lookup-append e s.next_element pac s.queue, v.fresh e);
}

-- What is left when an element that the index leads to is taken out.
pub removed-IsValid :
    (id e : ℕ) (pac : Packet) (s : SendQueue)
    → lookup id s.index ≡ some e
    → lookup e s.queue ≡ some pac
    → IsValid s
    → IsValid (record s { queue = delete e s.queue; index = delete id s.index })
removed-IsValid id e pac s at_id at_e v = record {
  sound = λ j f h.
      let h' = rw (lookup-delete id j s.index) at h in
      let (p, found, same) = v.sound j f (ground (arith, h')) in
      let (q, found', same') = v.sound id e at_id in
      (p, ground (arith, h', lookup-delete e f s.queue), same);
  complete = λ f p h.
      let h' = rw (lookup-delete e f s.queue) at h in
      ground (arith, h', v.complete f p, lookup-delete id p.id s.index);
  fresh = λ f h. ground (arith, lookup-delete e f s.queue, v.fresh f h);
}

-- Deleting an id from a valid send queue, whether it waits or not, keeps the index and the list
-- together.
pub remove-IsValid : (id : ℕ) (s : SendQueue) → IsValid s → IsValid (remove id s).0
unfolding remove
remove-IsValid id s v = elim (Option-cases (lookup id s.index)) [
  | inl k ↦ rw (k, remove) v
  | inr (e, k) ↦
      let (p, found, same) = v.sound id e k in
      rw (k, found, remove) (removed-IsValid id e p s k found v)
]
