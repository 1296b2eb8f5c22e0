-- ===== src/Tests/Texts.antt =====
-- Names, filters and addresses.
use tru.Base.Decimal.{decimal, decimal_on}
use tru.Base.Int.{pos}
use tru.Base.Text.{codes, is_space, trim_right}
use tru.Base.{◌≡◌, refl, inr, true, List, [], ◌∷◌, none, arith, All}
use tru.Net.Trunet.Shared.{
  parse_port-decimal, Call, listens, dials, closes, run, first_connector, Uses, IsCommon,
}
use tru.Net.Trunet.{World, parse_port, listen}
use tru.Teolog.Names.{log_filter, filter_text, filter_from}
use tru.Teolog.RoundTrip.{log_filter-filter_text}

log_filter-filter_text_example :
    log_filter (codes "send || a | b") ≡ codes "send" ∷ codes "a | b" ∷ []
unfolding is_space trim_right filter_text filter_from
log_filter-filter_text_example =
    log_filter-filter_text (codes "send") (codes "a | b" ∷ [])
      ((refl, refl), (refl, (refl, (refl, tt))))
      (((refl, refl), (refl, (refl, (refl, (refl, tt))))), tt)

local_port : parse_port (codes "localhost:7070") ≡ inr (pos 7070)
unfolding decimal decimal_on
local_port =
    parse_port-decimal (codes "localhost") 7070
      (refl, (refl, (refl, (refl, (refl, (refl, (refl, (refl, (refl, tt))))))))) (omega arith)

abbrev start : World
start = record { common = none; nodes = []; accepts = 0; pending = [] }

abbrev calls : List Call
calls =
    listens (codes ":8080") true
    ∷ closes (record { tru = 0; accept = 0 })
    ∷ listens (codes "x") true
    ∷ dials none true
    ∷ []

first_connector_example :
    ((listen (codes "localhost:7070") true start).0 ≡ inr (record { tru = 0; accept = 0 }))
    × All (Uses 0 0) (run calls (listen (codes "localhost:7070") true start).1).0
    × IsCommon 0 0 (pos 7070) (run calls (listen (codes "localhost:7070") true start).1).1
first_connector_example =
    first_connector (codes "localhost:7070") (pos 7070) calls start local_port refl
