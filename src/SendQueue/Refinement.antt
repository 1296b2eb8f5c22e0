-- ===== src/SendQueue/Refinement.antt =====
-- The send queue as a list of packets, which is all that its users see of it (send_queue.go).
use tru.SendQueue.Entries.{
  find, without, packets, Exact, tells, lacks, find-Tells, without-Tells, find-Lacks, without-Lacks,
  packets-append, Exact-insert, Exact-append, Exact-delete,
}
use tru.Base.Map.{nat_eq, lookup, insert, lookup-insert}
use tru.Base.{
  ℕ, ◌≡◌, refl, ap, sym, ◌∙◌, List, [], ◌∷◌, ◌++◌, Option, none, arith, ==_self, Option-cases, inl,
  inr,
}
use tru.Packet.{Packet}
use tru.SendQueue.Get.{packet_of, lookup-index_none}
use tru.SendQueue.Index.{IsValid, init-IsValid, add-IsValid, removed-IsValid}
use tru.SendQueue.{SendQueue, init, add, get, remove}

-- What is asked of a send queue, and what it answers to the removals.
pub data Op : Type 0 where
  adds : Packet → Op
  removes : ℕ → Op

unfoldable pub run : List Op → SendQueue → List (Option Packet) × SendQueue
run [] s = ([], s)
run (adds pac ∷ ops) s = run ops (add pac s)
run (removes id ∷ ops) s =
    let (answers, last) = run ops (remove id s).0 in ((remove id s).1 ∷ answers, last)

unfoldable pub run_list : List Op → List Packet → List (Option Packet) × List Packet
run_list [] ps = ([], ps)
run_list (adds pac ∷ ops) ps = run_list ops (ps ++ pac ∷ [])
run_list (removes id ∷ ops) ps =
    let (answers, last) = run_list ops (without id ps) in (find id ps ∷ answers, last)

-- No packet is added under an id that waits.
abbrev pub AreFresh : List Op → List Packet → Type 0
AreFresh [] ps = Unit
AreFresh (adds pac ∷ ops) ps = (find pac.id ps ≡ none) × AreFresh ops (ps ++ pac ∷ [])
AreFresh (removes id ∷ ops) ps = AreFresh ops (without id ps)

record Refines (s : SendQueue) (ps : List Packet) : Type 0 where
  valid : IsValid s
  exact : Exact s.index s.queue
  same : packets s.queue ≡ ps

-- Looking up and removing, seen from the list.
get-find :
    (id : ℕ) (s : SendQueue) (ps : List Packet) → Refines s ps → packet_of (get id s) ≡ find id ps
unfolding get
get-find id s ps r = elim (Option-cases (lookup id s.index)) [
  | inl k ↦ ground (arith, k, find-Lacks id s.queue (lacks id s.index s.queue k r.exact), r.same)
  | inr (e, k) ↦
      let (p, found, same) = r.valid.sound id e k in
      ground
        (arith, k, found, find-Tells id e s.queue (tells id e s s.queue r.valid k r.exact), r.same)
]

add-Refines :
    (pac : Packet) (s : SendQueue) (ps : List Packet)
    → find pac.id ps ≡ none
    → Refines s ps
    → Refines (add pac s) (ps ++ pac ∷ [])
unfolding add
add-Refines pac s ps new r =
    let free : get pac.id s ≡ none = ground (arith, get-find pac.id s ps r, new) in
    let at = lookup-index_none pac.id s r.valid free in
    record {
      valid = add-IsValid pac s at r.valid;
      exact =
          Exact-append s.next_element pac (insert pac.id s.next_element s.index) s.queue
            (lookup-insert pac.id pac.id s.next_element s.index ∙ ground (arith, ==_self pac.id))
            (Exact-insert pac.id s.next_element s.index s.queue at r.exact);
      same =
          packets-append s.next_element pac s.queue
          ∙ ap (λ (l : List Packet). l ++ pac ∷ []) r.same;
    }

remove-Refines :
    (id : ℕ) (s : SendQueue) (ps : List Packet)
    → Refines s ps
    → ((remove id s).1 ≡ find id ps) × Refines (remove id s).0 (without id ps)
unfolding get remove
remove-Refines id s ps r = elim (Option-cases (lookup id s.index)) [
  | inl k ↦
      let l = lacks id s.index s.queue k r.exact in
      rw (k, remove)
        (
          sym (find-Lacks id s.queue l) ∙ ap (find id) r.same,
          record {
            valid = r.valid;
            exact = r.exact;
            same = sym (without-Lacks id s.queue l) ∙ ap (without id) r.same;
          },
        )
  | inr (e, k) ↦
      let (p, found, same) = r.valid.sound id e k in
      let t = tells id e s s.queue r.valid k r.exact in
      rw (k, found, remove)
        (
          sym found ∙ sym (find-Tells id e s.queue t) ∙ ap (find id) r.same,
          record {
            valid = removed-IsValid id e p s k found r.valid;
            exact = Exact-delete id e s.index s.queue t r.exact;
            same = without-Tells id e s.queue t ∙ ap (without id) r.same;
          },
        )
]

run-Refines :
    (ops : List Op) (s : SendQueue) (ps : List Packet)
    → AreFresh ops ps
    → Refines s ps
    → ((run ops s).0 ≡ (run_list ops ps).0) × Refines (run ops s).1 (run_list ops ps).1
unfolding run run_list
run-Refines [] s ps f r = (refl, r)
run-Refines (adds pac ∷ ops) s ps (new, f) r =
    run-Refines ops (add pac s) (ps ++ pac ∷ []) f (add-Refines pac s ps new r)
run-Refines (removes id ∷ ops) s ps f r =
    let (answer, r') = remove-Refines id s ps r in
    let (answers, last) = run-Refines ops (remove id s).0 (without id ps) f r' in
    (ground (arith, answer, answers), last)

-- The send queue refines a list of packets. Whatever is added to an empty send queue and removed
-- from it, as long as no packet is added under an id that waits: the removals answer what the list
-- answers, the queue then holds the packets of the list in their order, its index fits, and each
-- id finds the packet that the list has for it.
pub run_refines :
    (ops : List Op)
    → AreFresh ops []
    → let (answers, s) = run ops init in
      let (answers', ps) = run_list ops [] in
      (answers ≡ answers')
      × (packets s.queue ≡ ps)
      × IsValid s
      × ((id : ℕ) → packet_of (get id s) ≡ find id ps)
run_refines ops f =
    let (answers, r) =
      run-Refines ops init [] f (record { valid = init-IsValid; exact = tt; same = refl }) in
    (answers, r.same, r.valid, λ id. get-find id (run ops init).1 (run_list ops []).1 r)
