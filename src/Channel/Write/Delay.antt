-- ===== src/Channel/Write/Delay.antt =====
-- The send delay of a client (channel.go).
use tru.Base.{ℕ, List, [], ◌∷◌, zero, suc, ◌+◌, ◌≤◌, ◌≡◌, arith}
use tru.Channel.Write.{min_send_delay, delay_rounds, next_send_delay}

-- A delay that is not below the least one stays so, and one check moves it by ten at most.
pub next_send_delay_bounds :
    (rounds delay : ℕ)
    → min_send_delay ≤ delay
    → (min_send_delay ≤ next_send_delay rounds delay)
      × (next_send_delay rounds delay ≤ delay + 10)
      × (delay ≤ next_send_delay rounds delay + 10)
unfolding next_send_delay
next_send_delay_bounds rounds delay h = ground arith

-- `k` checks with no packet to be sent again.
pub quiet_checks : ℕ → ℕ → ℕ
quiet_checks zero delay = delay
quiet_checks (suc k) delay = quiet_checks k (next_send_delay 0 delay)

-- While nothing has to be sent again, a delay that is not below the least one is the least one
-- after as many checks as it is above it, and stays so.
pub quiet_checks_least :
    (k delay : ℕ)
    → min_send_delay ≤ delay
    → delay ≤ min_send_delay + k
    → quiet_checks k delay ≡ min_send_delay
unfolding quiet_checks next_send_delay
quiet_checks_least zero delay h l = omega arith
quiet_checks_least (suc k) delay h l =
    quiet_checks_least k (next_send_delay 0 delay) (ground arith) (ground arith)

-- The wait before a write has at most `k` rounds.
pub delay_rounds-le : (k rta : ℕ) (polls : List ℕ) → delay_rounds k rta polls ≤ k
unfolding delay_rounds
delay_rounds-le zero rta polls = omega arith
delay_rounds-le (suc k) zero polls = omega arith
delay_rounds-le (suc k) (suc rta) [] = omega arith
delay_rounds-le (suc k) (suc rta) (q ∷ polls) = omega (arith, delay_rounds-le k q polls)
