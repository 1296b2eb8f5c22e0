-- ===== src/Connector/Rows/Order.antt =====
-- What the printed statistic shows does not depend on the order of a map (statistic.go).
use mathlib.Core.List.Memᴰ
use mathlib.Core.List.{Memᴰ}
use tru.Base.Int.{pos, ◌+ℤ◌}
use tru.Base.Sort.{Mem-sort_by}
use tru.Base.{
  ◌⊎◌, ◌==◌, ◌||◌, if◌then◌else◌, ℕ, ◌+◌, ◌-◌, ◌≡◌, refl, ◌∙◌, true, List, ◌∷◌, some, Bytes, arith,
  length, length-drop, min,
}
use tru.Channel.{Channel}
use tru.Connector.Rows.{
  ChannelStatistic, row, with_queue, append_rows, addr_of, statistic, num_rows, log_from, get_log,
  scroll_row,
}
use tru.StatisticLog.{StatisticLog}

abbrev pub addr_of_channel : Channel → Bytes
addr_of_channel ch = ch.addr

-- A row without the two columns that are written after the loop.
abbrev pub as_appended : ChannelStatistic → ChannelStatistic
as_appended r = record r { sq = 0; rta = 0 }

abbrev pub IsRowOf : ChannelStatistic → Channel → Type 0
IsRowOf r ch = (r ≡ row ch) ⊎ (r ≡ with_queue ch (row ch))

-- When the first append makes room for one row only, the row of the channel that the loop comes to
-- first, with another one behind it, is in the statistic without the readings of its send queue:
-- SQ and RTA are zero, whatever waits.
pub readings_lost :
    (grow : ℕ → ℕ) (first second : Channel) (rest : List Channel)
    → grow 0 ≡ 1
    → (r : ChannelStatistic) × Memᴰ r (statistic grow (first ∷ second ∷ rest))
      × (r.addr ≡ first.addr)
      × (r.sq ≡ 0)
      × (r.rta ≡ 0)
unfolding append_rows statistic row
readings_lost grow first second rest g =
    let rows = append_rows grow 0 0 (first ∷ second ∷ rest) in
    let next = append_rows grow (if grow 0 == 1 then grow 1 else grow 0) 2 rest in
    let copied : (next.1 || (grow 0 == 1)) ≡ true = ground (arith, g) in
    let there : Memᴰ (row first) rows.0 = rw copied (Memᴰ.head refl) in
    (row first, (Mem-sort_by addr_of (row first) rows.0).0 there, refl, refl, refl)

-- With the log shown on a terminal of a known height, the text scrolls from the row under the table
-- and all messages, or from the last row of the terminal if that comes first, even when the table
-- alone is higher than the terminal; and as many of the last messages are shown as fit.
pub log_window :
    (h : ℕ) (cs : List ChannelStatistic) (s : StatisticLog)
    → s.showit_ ≡ true
    → (scroll_row (some h) cs s ≡ pos (min h (num_rows cs + 4 + length s.msgs)))
      × (length (get_log (some h) (num_rows cs + 4) s).0
          ≡ min (length s.msgs) (h - (num_rows cs + 4)))
unfolding scroll_row get_log log_from ◌+ℤ◌
log_window h cs s shown = (
  ground (arith, shown),
  length-drop (length s.msgs + (num_rows cs + 4) - h) s.msgs ∙ ground arith,
)
