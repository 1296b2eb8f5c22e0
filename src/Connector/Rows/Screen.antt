-- ===== src/Connector/Rows/Screen.antt =====
-- The frame that the printed statistic writes to the terminal (statistic.go). The table is laid out
-- by another library, and the run time and the addresses are texts.
use tru.Base.Decimal.{decimal}
use tru.Base.Text.{codes}
use tru.Base.{ℕ, ◌+◌, List, [], ◌∷◌, ◌++◌, Option, none, Bytes, if◌then◌else◌}
use tru.Connector.Rows.{ChannelStatistic, get_log, num_rows, scroll_row}
use tru.StatisticLog.{StatisticLog}
use tru.Terminal.{
  clear_line, wrap_on, wrap_off, save_cursor_position, restore_cursor_position, set_cursor_position,
  set_scroll_region,
}

-- What the title shows.
pub record Title : Type 0 where
  pub local_addr : Bytes
  pub reader_ch : ℕ
  pub sender_ch : ℕ
  pub run_time : Bytes

abbrev title_text : Title → Bytes
title_text t =
    codes "TRU "
    ++ (t.local_addr
        ++ (codes ", RCH: "
            ++ (decimal t.reader_ch
                ++ (codes ", SCH: "
                    ++ (decimal t.sender_ch ++ (codes ", run time: " ++ t.run_time))))))

-- The loop of `getLog`.
unfoldable pub log_text : List Bytes → Bytes
log_text [] = []
log_text (msg ∷ msgs) = clear_line ++ (msg ++ (codes "\n" ++ log_text msgs))

-- `getStat`
unfoldable pub get_stat : Option ℕ → Title → Bytes → List ChannelStatistic → StatisticLog → Bytes
get_stat h title table cs s =
    save_cursor_position
    ++ (set_cursor_position 1 1
        ++ (wrap_off
            ++ (clear_line
                ++ (title_text title
                    ++ (codes "\n"
                        ++ (clear_line
                            ++ (table
                                ++ (codes "\n"
                                    ++ (clear_line
                                        ++ ((if s.showit_
                                              then clear_line
                                                ++ (codes "\n"
                                                    ++ log_text (get_log h (num_rows cs + 4) s).0)
                                              else [])
                                            ++ (clear_line
                                                ++ (codes "\n"
                                                    ++ (set_scroll_region (scroll_row h cs s) none
                                                        ++ (restore_cursor_position
                                                            ++ wrap_on))))))))))))))
