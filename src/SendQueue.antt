-- ===== src/SendQueue.antt =====
-- send_queue.go: the packets that wait for their ack, in the order of sending, with an index by
-- packet id. A list element is a number that stands for its pointer, and the list pairs it with
-- its packet.
pub mod Index
pub mod Get
pub mod Retransmit
pub mod Renewal
pub mod Entries
pub mod Refinement
use tru.Base.Map.{Map, nat_eq, lookup, insert, delete}
use tru.Base.Map
use tru.Base.{
  ℕ, ◌+◌, ◌*◌, Bool, true, false, not, List, [], ◌∷◌, ◌++◌, Option, none, some, ltb, ◌==◌,
  if◌then◌else◌, length,
}
use tru.Packet.{Packet, set_retransmit_attempts, set_retransmit_time}

-- 30, 3000 and 200 ms.
abbrev pub min_rtt : ℕ
min_rtt = 30_000_000

abbrev pub max_rtt : ℕ
max_rtt = 3_000_000_000

abbrev pub start_rtt : ℕ
start_rtt = 200_000_000

abbrev pub max_retransmit_attempts : ℕ
max_retransmit_attempts = 100

pub record SendQueue : Type 0 where
  pub queue : Map ℕ Packet
  pub index : Map ℕ ℕ
  pub next_element : ℕ
  pub retransmit_timer : Bool

-- With the timer that `init` starts.
abbrev pub init : SendQueue
init = record { queue = []; index = []; next_element = 0; retransmit_timer = true }

unfoldable pub destroy : SendQueue → SendQueue
destroy s = record s { retransmit_timer = false }

-- `PushBack` makes a new element.
unfoldable pub add : Packet → SendQueue → SendQueue
add pac s = record s {
  queue = s.queue ++ (s.next_element, pac) ∷ [];
  index = insert pac.id s.next_element s.index;
  next_element = s.next_element + 1;
}

-- The element and its packet.
unfoldable pub get : ℕ → SendQueue → Option (ℕ × Packet)
get id s = elim (lookup id s.index) [
  | none ↦ none
  | some e ↦ elim (lookup e s.queue) [ none ↦ none | some pac ↦ some (e, pac) ]
]

unfoldable pub remove : ℕ → SendQueue → SendQueue × Option Packet
unfolding get
remove id s = elim (get id s) [
  | none ↦ (s, none)
  | some (e, pac) ↦
      (record s { queue = Map.delete e s.queue; index = Map.delete id s.index }, some pac)
]

unfoldable pub get_first : SendQueue → Option Packet
get_first s = elim s.queue [ [] ↦ none | (e, pac) ∷ rest ↦ some pac ]

unfoldable pub get_retransmit_attempts : SendQueue → ℕ
unfolding get_first
get_retransmit_attempts s = elim (get_first s) [ none ↦ 0 | some pac ↦ pac.retransmit_attempts ]

unfoldable pub len : SendQueue → ℕ
len s = length s.index

-- The time to wait for an ack (`Channel.setRetransmitTime`), from the middle trip time and the
-- attempts made.
unfoldable pub retransmit_after : ℕ → ℕ → ℕ
retransmit_after trip_time attempts =
    let once = if trip_time == 0 then start_rtt else min_rtt + trip_time in
    let rtt = if ltb 0 attempts then once * (attempts + 1) else once in
    if ltb max_rtt rtt then max_rtt else rtt

-- The packet once more on its way.
unfoldable pub renew : ℕ → ℕ → Packet → Packet
unfolding set_retransmit_attempts set_retransmit_time
renew trip_time now pac =
    let rta = pac.retransmit_attempts + 1 in
    set_retransmit_time now (retransmit_after trip_time rta) (set_retransmit_attempts rta pac)

-- One run of the retransmit timer's function over the list: the packets in it, those sent again,
-- and whether the channel is to be destroyed, which ends the run.
pub record Pass : Type 0 where
  pub queue : Map ℕ Packet
  pub sent : List Packet
  pub exhausted : Bool

unfoldable pub retransmit : ℕ → ℕ → Map ℕ Packet → Pass
unfolding set_retransmit_attempts
retransmit trip_time now [] = record { queue = []; sent = []; exhausted = false }
retransmit trip_time now ((e, pac) ∷ rest) =
    let after = retransmit trip_time now rest in
    let again = renew trip_time now pac in
    if not (ltb pac.retransmit_time now)
    then record after { queue = (e, pac) ∷ after.queue }
    else if ltb max_retransmit_attempts (pac.retransmit_attempts + 1)
    then record {
      queue = (e, set_retransmit_attempts (pac.retransmit_attempts + 1) pac) ∷ rest;
      sent = [];
      exhausted = true;
    }
    else record after { queue = (e, again) ∷ after.queue; sent = again ∷ after.sent }
