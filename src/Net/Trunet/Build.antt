-- ===== src/Net/Trunet/Build.antt =====
-- tru_net_debug.go, tru_net_stat.go and their counterparts: what the build tags choose, and what
-- tru_net.go makes of it.
use tru.Base.Text.{codes}
use tru.Base.{ℕ, Bool, true, false, List, [], ◌∷◌, Bytes, if◌then◌else◌}
use tru.Connector.New.{Param, connect_func, level, stat}

abbrev pub log_level_debug : Bytes
log_level_debug = codes "debugvv"

abbrev pub log_level_plain : Bytes
log_level_plain = codes "none"

abbrev pub show_stats_tagged : Bool
show_stats_tagged = true

abbrev pub show_stats_plain : Bool
show_stats_plain = false

-- The parameters that `newTrunet` gives to `New`, by the tags truDebug and truStat; a callback is a
-- number.
unfoldable pub new_params : Bool → Bool → ℕ → List Param
new_params tru_debug tru_stat connected =
    connect_func connected
    ∷ level (if tru_debug then log_level_debug else log_level_plain)
    ∷ stat (if tru_stat then show_stats_tagged else show_stats_plain)
    ∷ []
