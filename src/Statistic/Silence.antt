-- ===== src/Statistic/Silence.antt =====
-- A silent channel is closed (statistic.go).
use tru.Base.{
  ℕ, zero, suc, ◌+◌, ◌*◌, ◌≤◌, ◌<◌, ◌≡◌, Option, none, some, arith, if◌then◌else◌, ltb, Bool-cases,
  inl, inr,
}
use tru.Statistic.{
  Statistic, check_activity, rearm, check_inactive_after, disconnect_inactive_after,
}

-- The timer of `checkActivity`, armed at a time, with nothing received: when the channel is found
-- to be inactive, if it is within the given number of runs.
pub check_until : ℕ → ℕ → Statistic → Option ℕ
check_until zero now s = none
check_until (suc runs) now s =
    let at = now + check_inactive_after in
    let later = check_until runs at s in if rearm (check_activity at s) then later else some at

closed_within :
    (runs now : ℕ) (s : Statistic)
    → now ≤ s.last_activity + disconnect_inactive_after
    → s.last_activity + disconnect_inactive_after < now + runs * check_inactive_after
    → (at : ℕ) × (check_until runs now s ≡ some at)
      × (s.last_activity + disconnect_inactive_after < at)
      × (at ≤ s.last_activity + disconnect_inactive_after + check_inactive_after)
unfolding check_until check_activity
closed_within zero now s h k = absurd (omega arith)
closed_within (suc runs) now s h k =
    elim (Bool-cases
      (ltb (s.last_activity + disconnect_inactive_after) (now + check_inactive_after))) [
        | inl e ↦ (now + check_inactive_after, ground arith, ground arith, omega arith)
        | inr e ↦
            let (at, found, lo, hi) =
              closed_within runs (now + check_inactive_after) s (ground arith) (omega arith) in
            (at, ground (arith, found), lo, hi)
      ]

-- A channel from which nothing is received any more is found inactive more than 6 s and at most 6.5 s
-- after its last activity, whenever the timer was armed in the first 6 s, in 13 runs at
-- most.
pub silent_closed :
    (now : ℕ) (s : Statistic)
    → s.last_activity ≤ now
    → now ≤ s.last_activity + disconnect_inactive_after
    → (at : ℕ) × (check_until 13 now s ≡ some at)
      × (s.last_activity + disconnect_inactive_after < at)
      × (at ≤ s.last_activity + disconnect_inactive_after + check_inactive_after)
silent_closed now s h k = closed_within 13 now s k (omega arith)
