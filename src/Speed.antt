-- ===== src/Speed.antt =====
-- speed.go: packets in the last second, from ten slots of a tenth of a second.
pub mod Window
use tru.Base.{
  ℕ, zero, suc, ◌+◌, ◌/◌, ◌%◌, Bool, true, false, List, [], ◌∷◌, ◌==◌, if◌then◌else◌, set,
}

abbrev pub sum_array_len : ℕ
sum_array_len = 10

pub record Speed : Type 0 where
  pub speed : ℕ
  pub current : ℕ
  pub current_sum : ℕ
  pub sum_array : List ℕ

abbrev pub sum : List ℕ → ℕ
sum [] = 0
sum (v ∷ vs) = v + sum vs

abbrev pub init : Speed
init = record {
  speed = 0;
  current = 0;
  current_sum = 0;
  sum_array = 0 ∷ 0 ∷ 0 ∷ 0 ∷ 0 ∷ 0 ∷ 0 ∷ 0 ∷ 0 ∷ 0 ∷ [];
}

-- The slot of a time in nanoseconds.
unfoldable pub slot : ℕ → ℕ
slot now = now / 1000000 / 100 % 10

-- The switch to another slot: the finished one is stored, and the speed is summed anew.
unfoldable pub turn : ℕ → Speed → Speed
turn i s = if i == s.current then s else record {
  speed = sum (set s.sum_array s.current s.current_sum);
  current = i;
  current_sum = 0;
  sum_array = set s.sum_array s.current s.current_sum;
}

-- `add(count...)`: a packet is counted when no argument is given.
unfoldable pub add : ℕ → Bool → Speed → Speed
unfolding slot turn
add now counts s =
    let t = turn (slot now) s in if counts then record t { current_sum = t.current_sum + 1 } else t
