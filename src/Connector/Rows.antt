-- ===== src/Connector/Rows.antt =====
-- The printed statistic (statistic.go): the rows of the channels, and the part of the terminal that
-- it takes. The table itself is laid out by another library. A trip time is in microseconds; the
-- three readings of a channel that `Statistic` makes one after the other are of one state.
pub mod Order
pub mod Screen
use tru.Base.Int.{ℤ, pos, sub_ℕ, ◌+ℤ◌}
use tru.Base.Sort.{sort_by}
use tru.Base.{
  ℕ, ◌+◌, ◌-◌, ◌/◌, ◌==◌, ◌||◌, Bool, true, false, List, [], ◌∷◌, map, Option, none, some, Bytes,
  ltb, if◌then◌else◌, length, drop,
}
use tru.Channel.{Channel}
use tru.Receive
use tru.SendQueue
use tru.StatisticLog.{StatisticLog}
use tru.StatisticLog

pub record ChannelStatistic : Type 0 where
  pub addr : Bytes
  pub send : ℕ
  pub ssec : ℕ
  pub rsnd : ℕ
  pub ack : ℕ
  pub ackd : ℕ
  pub recv : ℕ
  pub rsec : ℕ
  pub drop : ℕ
  pub sq : ℕ
  pub rq : ℕ
  pub rta : ℕ
  pub delay : ℕ
  pub tt : ℕ

-- What `Statistic` appends for a channel; its SQ and RTA are written later.
unfoldable pub row : Channel → ChannelStatistic
row ch = record {
  addr = ch.addr;
  send = ch.stat.send;
  ssec = ch.stat.send_speed.speed;
  rsnd = ch.stat.retransmit;
  ack = ch.stat.ack_recv;
  ackd = ch.stat.ack_recv_drop;
  recv = ch.stat.recv;
  rsec = ch.stat.recv_speed.speed;
  drop = ch.stat.drop;
  sq = 0;
  rq = Receive.len ch.recv_queue;
  rta = 0;
  delay = ch.stat.send_delay;
  tt = ch.stat.trip_time_midle / 1000;
}

-- What `getRetransmitAttempts` adds to the row of a channel.
unfoldable pub with_queue : Channel → ChannelStatistic → ChannelStatistic
with_queue ch r = record r {
  rta = SendQueue.get_retransmit_attempts ch.send_queue;
  sq = SendQueue.len ch.send_queue;
}

-- The loop, from the row `i` on and with the capacity of the slice; `grow` is the capacity that
-- `append` gives a full slice of a length. Each row's goroutine has the slice as it was after its
-- own append and runs after the loop, so what it writes is lost if a later append has copied
-- the rows to a larger array. The Boolean says whether one of these appends has done so.
unfoldable pub append_rows : (ℕ → ℕ) → ℕ → ℕ → List Channel → List ChannelStatistic × Bool
append_rows grow cap i [] = ([], false)
append_rows grow cap i (ch ∷ rest) =
    let full = cap == i in
    let (rows, copied) = append_rows grow (if full then grow i else cap) (i + 1) rest in
    ((if copied then row ch else with_queue ch (row ch)) ∷ rows, copied || full)

abbrev pub addr_of : ChannelStatistic → Bytes
addr_of r = r.addr

-- `Statistic`, for the channels in the order in which the loop over the map comes to them.
unfoldable pub statistic : (ℕ → ℕ) → List Channel → List ChannelStatistic
statistic grow channels = sort_by addr_of (append_rows grow 0 0 channels).0

unfoldable pub num_rows : List ChannelStatistic → ℕ
num_rows cs =
    let rows = length cs in
    let totals = if ltb 1 rows then rows + 1 else rows in
    if ltb 0 totals then totals + 3 + 1 else totals

-- `getLog`: the first message that is shown; the height of the terminal may not be known.
unfoldable pub log_from : Option ℕ → ℕ → StatisticLog → ℕ
log_from none table_len s = 0
log_from (some h) table_len s = StatisticLog.len s + table_len - h

unfoldable pub get_log : Option ℕ → ℕ → StatisticLog → List Bytes × ℤ
get_log h table_len s =
    let from = log_from h table_len s in (drop from s.msgs, sub_ℕ (StatisticLog.len s) from)

-- The row that `getStat` scrolls from, which is under the table and the log.
unfoldable pub scroll_row : Option ℕ → List ChannelStatistic → StatisticLog → ℤ
scroll_row h cs s =
    let n = if s.showit_ then (get_log h (num_rows cs + 4) s).1 +ℤ pos 1 else pos 0 in
    pos (num_rows cs + 3) +ℤ n
