-- ===== src/StatisticLog.antt =====
-- statistic_log.go: the last messages, shown under the statistic.
pub mod Last
use tru.Base.{
  ℕ, ◌+◌, ◌-◌, Bool, true, false, not, List, [], ◌∷◌, ◌++◌, Option, none, some, Bytes, ltb, leb,
  if◌then◌else◌, length, drop, get_elem?,
}

abbrev pub total_messages : ℕ
total_messages = 256

pub record StatisticLog : Type 0 where
  pub msgs : List Bytes
  pub showit_ : Bool

abbrev pub empty : StatisticLog
empty = record { msgs = []; showit_ = false }

-- `stamp` is the formatted time with the space behind it.
unfoldable pub add : Bytes → Bytes → StatisticLog → StatisticLog
add stamp msg s =
    let msgs = s.msgs ++ (stamp ++ msg) ∷ [] in
    record s { msgs = if ltb total_messages (length msgs) then drop 1 msgs else msgs }

abbrev pub len : StatisticLog → ℕ
len s = length s.msgs

-- An index out of range gives the empty string.
unfoldable pub get : ℕ → StatisticLog → Bytes
get i s = elim (get_elem? s.msgs i) [ none ↦ [] | some msg ↦ msg ]

unfoldable pub show_swap : StatisticLog → StatisticLog × Bool
show_swap s = (record s { showit_ = not s.showit_ }, not s.showit_)
