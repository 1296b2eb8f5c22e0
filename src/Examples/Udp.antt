-- ===== src/Examples/Udp.antt =====
-- examples/conn/main.go: datagrams with nothing behind them.
use tru.Base.Decimal.{decimal}
use tru.Base.Text.{codes}
use tru.Base.{
  ℕ, ◌+◌, Bool, true, false, List, [], ◌∷◌, ◌++◌, Option, none, some, Bytes, if◌then◌else◌, ◌==◌,
  length,
}

-- The address that `Create` listens at.
unfoldable pub create_addr : List ℕ → Bytes
create_addr [] = codes ":" ++ decimal 0
create_addr (port ∷ ports) = codes ":" ++ decimal port

-- What `ReadFrom` gives: an error, or an address and bytes.
unfoldable pub listen : List (Option (Bytes × Bytes)) → List (Bytes × Bytes)
listen [] = []
listen (none ∷ reads) = listen reads
listen (some (addr, bytes) ∷ reads) = (addr, bytes) ∷ listen reads

-- What has been sent, and whether the program has ended with an error.
pub record Sent : Type 0 where
  pub datagrams : List (Bytes × Bytes)
  pub fatal : Bool

-- The loop of `Sender` from a number; each round has whether `WriteTo` succeeds.
unfoldable pub send_from : ℕ → Bytes → List Bool → Sent
send_from i a [] = record { datagrams = []; fatal = false }
send_from i a (true ∷ writes) =
    let later = send_from (i + 1) a writes in
    record later { datagrams = (a, codes "data " ++ decimal i) ∷ later.datagrams }
send_from i a (false ∷ writes) = record { datagrams = []; fatal = true }

-- `Sender`; `resolved` is what `ResolveUDPAddr` makes of the address.
unfoldable pub sender : Bytes → Option Bytes → List Bool → Sent
sender addr resolved writes =
    if length addr == 0 then record { datagrams = []; fatal = false } else elim resolved [
      | none ↦ record { datagrams = []; fatal = true }
      | some a ↦ send_from 0 a writes
    ]
