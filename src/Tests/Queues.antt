-- ===== src/Tests/Queues.antt =====
-- The send queue, the speed and the log.
use tru.Base.Map.{nat_eq}
use tru.Base.{ℕ, ◌+◌, ◌∷◌, ◌++◌, true, inr, ◌≤◌, ◌≡◌, refl, [], some, arith, List, none}
use tru.Packet.{Packet, new_packet}
use tru.SendQueue.Refinement.{Op, adds, removes, run, run_list, run_refines}
use tru.SendQueue.Entries.{find, packets}
use tru.SendQueue.Get.{packet_of}
use tru.SendQueue.Index.{IsValid}
use tru.SendQueue.Retransmit.{retransmit_after_bounds, retransmit_stops, renewed, due}
use tru.SendQueue.{
  max_retransmit_attempts, init, get, retransmit, retransmit_after, min_rtt, max_rtt,
}
use tru.Speed.Window.{IsWindow}
use tru.Speed.{Speed, slot}
use tru.Speed
use tru.StatisticLog.Last.{add_all, add_all-empty, last}
use tru.StatisticLog.{total_messages, empty}

abbrev first : Packet
first = record (new_packet 0) { id = 7; retransmit_time = 10 }

abbrev ops : List Op
ops = adds first ∷ adds (record first { id = 8 }) ∷ removes 7 ∷ removes 9 ∷ []

run_refines_example :
    ((run ops init).0 ≡ some first ∷ none ∷ [])
    × (packets (run ops init).1.queue ≡ record first { id = 8 } ∷ [])
    × IsValid (run ops init).1
    × ((id : ℕ) → packet_of (get id (run ops init).1) ≡ find id (record first { id = 8 } ∷ []))
unfolding new_packet run_list
run_refines_example = run_refines ops (refl, (refl, tt))

abbrev tired : Packet
tired = record first { id = 8; retransmit_attempts = max_retransmit_attempts }

retransmit_stops_example : retransmit 5 20 ((0, first) ∷ (1, tired) ∷ (2, first) ∷ []) ≡ record {
  queue =
      renewed 5 20 ((0, first) ∷ [])
      ++ (1, record tired { retransmit_attempts = max_retransmit_attempts + 1 }) ∷ (2, first) ∷ [];
  sent = due 5 20 ((0, first) ∷ []);
  exhausted = true;
}
unfolding new_packet
retransmit_stops_example =
    retransmit_stops 5 20 1 tired ((0, first) ∷ []) ((2, first) ∷ []) (inr (omega arith), tt) refl
      (omega arith)

retransmit_after_bounds_example :
    (min_rtt ≤ retransmit_after 40 2)
    × (retransmit_after 40 2 ≤ max_rtt)
    × (retransmit_after 40 2 ≤ retransmit_after 40 3)
retransmit_after_bounds_example = retransmit_after_bounds 40 2 3 (omega arith)

init-IsWindow : IsWindow Speed.init
init-IsWindow = record { size = refl; inside = omega arith; summed = refl }

add_all-empty_example :
    (add_all ((1 ∷ [], 2 ∷ []) ∷ []) empty).msgs ≡ last total_messages ((1 ∷ 2 ∷ []) ∷ [])
add_all-empty_example = add_all-empty ((1 ∷ [], 2 ∷ []) ∷ [])
