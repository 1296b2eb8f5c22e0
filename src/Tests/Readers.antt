-- ===== src/Tests/Readers.antt =====
-- Reading from a connection.
use tru.Base.{◌+◌, ◌≡◌, [], ◌∷◌, none, some, false, arith}
use tru.Net.Messages.{read_all, read_message}
use tru.Net.{Conn}
use tru.Tests.Channels.{client}

abbrev conn : Conn
conn = record { ch = some client; read_ch = []; closed = false; buf = []; cont = false }

read_message_example :
    read_all 5 (λ k. k + 1) (record conn { read_ch = (1 ∷ 2 ∷ 3 ∷ []) ∷ (4 ∷ []) ∷ [] })
    ≡ some (record conn { read_ch = (4 ∷ []) ∷ [] }, record { bytes = 1 ∷ 2 ∷ 3 ∷ []; err = none })
read_message_example =
    read_message 5 (λ k. k + 1) (1 ∷ 2 ∷ 3 ∷ []) ((4 ∷ []) ∷ []) conn (λ k. omega arith)
      (omega arith)
