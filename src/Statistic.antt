-- ===== src/Statistic.antt =====
-- statistic.go: the counters and times of a channel. Counters are int64, and are not taken to
-- wrap. A timer is a flag that says whether it runs.
pub mod Silence
use tru.Base.{ℕ, ◌+◌, ◌-◌, Bool, true, false, ltb, if◌then◌else◌}
use tru.Speed.{Speed}
use tru.Speed

-- 500 ms, 4 s and 6 s.
abbrev pub check_inactive_after : ℕ
check_inactive_after = 500_000_000

abbrev pub ping_inactive_after : ℕ
ping_inactive_after = 4_000_000_000

abbrev pub disconnect_inactive_after : ℕ
disconnect_inactive_after = 6_000_000_000

pub record Statistic : Type 0 where
  pub destroyed : Bool
  pub started : ℕ
  pub last_activity : ℕ
  pub last_send : ℕ
  pub last_delay_check : ℕ
  pub check_activity_timer : Bool
  pub send_delay : ℕ
  pub trip_time : ℕ
  pub trip_time_midle : ℕ
  pub send : ℕ
  pub send_speed : Speed
  pub ack_recv : ℕ
  pub ack_recv_drop : ℕ
  pub retransmit : ℕ
  pub recv : ℕ
  pub recv_speed : Speed
  pub drop : ℕ

abbrev pub zero_statistic : Statistic
zero_statistic = record {
  destroyed = false;
  started = 0;
  last_activity = 0;
  last_send = 0;
  last_delay_check = 0;
  check_activity_timer = false;
  send_delay = 0;
  trip_time = 0;
  trip_time_midle = 0;
  send = 0;
  send_speed = Speed.init;
  ack_recv = 0;
  ack_recv_drop = 0;
  retransmit = 0;
  recv = 0;
  recv_speed = Speed.init;
  drop = 0;
}

unfoldable pub set_last_activity : ℕ → Statistic → Statistic
set_last_activity now s = record s { last_activity = now }

unfoldable pub init : ℕ → Statistic → Statistic
unfolding set_last_activity
init now s = record (set_last_activity now s) { started = now; check_activity_timer = true }

unfoldable pub destroy : Statistic → Statistic
destroy s = record s { check_activity_timer = false; destroyed = true }

unfoldable pub set_send : ℕ → Statistic → Statistic
set_send now s = record s { send = s.send + 1; send_speed = Speed.add now true s.send_speed }

unfoldable pub set_ack_received : Statistic → Statistic
set_ack_received s = record s { ack_recv = s.ack_recv + 1 }

unfoldable pub set_ack_drop_received : Statistic → Statistic
set_ack_drop_received s = record s { ack_recv_drop = s.ack_recv_drop + 1 }

unfoldable pub set_recv : ℕ → Statistic → Statistic
set_recv now s = record s { recv = s.recv + 1; recv_speed = Speed.add now true s.recv_speed }

unfoldable pub set_retransmit : Statistic → Statistic
set_retransmit s = record s { retransmit = s.retransmit + 1 }

unfoldable pub set_drop : Statistic → Statistic
set_drop s = record s { drop = s.drop + 1 }

unfoldable pub set_send_delay : ℕ → Statistic → Statistic
set_send_delay d s = record s { send_delay = d }

unfoldable pub set_last_send : ℕ → Statistic → Statistic
set_last_send t s = record s { last_send = t }

-- What the function of the timer in `checkActivity` does at its time. `rearm` says whether
-- `checkActivity` is called again behind it.
pub data Check : Type 0 where
  inactive keepalive idle : Check

unfoldable pub check_activity : ℕ → Statistic → Check
check_activity now s =
    if ltb disconnect_inactive_after (now - s.last_activity)
    then inactive
    else if ltb ping_inactive_after (now - s.last_activity)
    then keepalive
    else idle

abbrev pub rearm : Check → Bool
rearm inactive = false
rearm keepalive = true
rearm idle = true
