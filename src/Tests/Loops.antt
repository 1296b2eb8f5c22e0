-- ===== src/Tests/Loops.antt =====
-- The processes of a connector, its end, and a silent channel.
use tru.Base.Map.{bytes_key}
use tru.Base.{ℕ, ◌≤◌, ◌<◌, ◌≡◌, true, false, List, [], ◌∷◌, none, some, arith}
use tru.Connector.Loops.Wire.{arrived_all, read_all, sender_process_arrives}
use tru.Connector.Loops.{SenderData, ReaderData, sender_process}
use tru.Statistic.Silence.{check_until, silent_closed}
use tru.Statistic.{zero_statistic}
use tru.Tests.Connections.{waiting}

abbrev to_send : List SenderData
to_send =
    record { addr = 1 ∷ []; destroyed = false; pac = waiting }
    ∷ record { addr = 2 ∷ []; destroyed = true; pac = waiting }
    ∷ []

sender_process_arrives_example : read_all 5 (sender_process to_send) ≡ arrived_all 5 to_send
sender_process_arrives_example =
    sender_process_arrives 5 to_send ((omega arith, omega arith), ((omega arith, omega arith), tt))

abbrev to_read : List ReaderData
to_read =
    record { destroyed = false; reader = none; pac = waiting }
    ∷ record { destroyed = false; reader = some (λ q. true); pac = waiting }
    ∷ []

silent_closed_example :
    (at : ℕ) × (check_until 13 7 zero_statistic ≡ some at)
    × (6_000_000_000 < at)
    × (at ≤ 6_500_000_000)
silent_closed_example = silent_closed 7 zero_statistic (omega arith) (omega arith)
