-- ===== src/Net/Trunet.antt =====
-- tru_net.go: listeners and dialled connections, which share one connector. Connectors and accept
-- channels are numbered in the order in which they are made; whether `New` can open its socket, and
-- what `Connect` gives, come from outside.
pub mod Shared
pub mod Build
use tru.Base.Decimal.{atoi}
use tru.Base.Int.{ℤ}
use tru.Base.Text.{codes, split_at}
use tru.Base.{
  ℕ, zero, suc, ◌+◌, ◌≡◌, ◌⊎◌, inl, inr, Bool, true, false, List, [], ◌∷◌, ◌++◌, Option, none, some,
  Bytes, if◌then◌else◌, length, ◌==◌,
}
use tru.Channel.{Channel}
use tru.Net.{Conn, new_conn}

pub data TrunetError : Type 0 where
  wrong_address wrong_port not_created not_connected : TrunetError

-- A connector with the accept channel that its `connected` callback sends to.
pub record Node : Type 0 where
  pub port : ℤ
  pub accept : ℕ
  pub closed : Bool

pub record Trunet : Type 0 where
  pub tru : ℕ
  pub accept : ℕ

-- `common` is `truCommon`. What was sent to an accept channel waits in `pending`.
pub record World : Type 0 where
  pub common : Option ℕ
  pub nodes : List Node
  pub accepts : ℕ
  pub pending : List (ℕ × Channel)

unfoldable pub port_of : List Bytes → TrunetError ⊎ ℤ
port_of (host ∷ port ∷ []) = elim (atoi port) [ none ↦ inl wrong_port | some n ↦ inr n ]
port_of _ = inl wrong_address

unfoldable pub parse_port : Bytes → TrunetError ⊎ ℤ
parse_port address = port_of (split_at b':' address)

-- `truObj` of `newTrunet`, when there is none to use.
unfoldable pub create : ℤ → Bool → Bool → World → (TrunetError ⊎ Trunet) × World
create port use_common made w =
    let accept = w.accepts in
    let tru = length w.nodes in
    let w' = record w { accepts = accept + 1 } in
    if made
    then (
      inr (record { tru = tru; accept = accept }),
      record w' {
        nodes = w.nodes ++ record { port = port; accept = accept; closed = false } ∷ [];
        common = if use_common then some tru else w.common;
      },
    )
    else (inl not_created, w')

unfoldable pub new_trunet : Bytes → Bool → Bool → World → (TrunetError ⊎ Trunet) × World
new_trunet address use_common made w = elim (parse_port address) [
  | inl e ↦ (inl e, w)
  | inr port ↦ elim (if use_common then w.common else none) [
    | none ↦ create port use_common made w
    | some tru ↦
        (inr (record { tru = tru; accept = w.accepts }), record w { accepts = w.accepts + 1 })
  ]
]

unfoldable pub listen : Bytes → Bool → World → (TrunetError ⊎ Trunet) × World
listen address made w = new_trunet address true made w

-- `Dial`; the channel is what `Connect` of the connector gives.
abbrev pub dialled : Option Channel → TrunetError ⊎ Trunet → TrunetError ⊎ (Trunet × Conn)
dialled ch (inl e) = inl e
dialled none (inr t) = inl not_connected
dialled (some c) (inr t) = inr (t, new_conn c)

unfoldable pub dial : Option Channel → Bool → World → (TrunetError ⊎ (Trunet × Conn)) × World
dial ch made w = let (t, w') = new_trunet (codes ":0") true made w in (dialled ch t, w')

abbrev pub update_at : ℕ → (Node → Node) → List Node → List Node
update_at i f [] = []
update_at zero f (n ∷ ns) = f n ∷ ns
update_at (suc i) f (n ∷ ns) = n ∷ update_at i f ns

-- `Close` of a listener closes the connector it has.
unfoldable pub close : Trunet → World → World
close t w = record w { nodes = update_at t.tru (λ n. record n { closed = true }) w.nodes }

-- `connected`, called by a connector for a channel without an error.
unfoldable pub connected : Node → Channel → World → World
connected n ch w = record w { pending = w.pending ++ (n.accept, ch) ∷ [] }

-- The first that waits in an accept channel, and the others.
unfoldable pub take_pending : ℕ → List (ℕ × Channel) → Option (Channel × List (ℕ × Channel))
take_pending accept [] = none
take_pending accept ((a, ch) ∷ rest) =
    let later = take_pending accept rest in
    if a == accept
    then some (ch, rest)
    else elim later [ none ↦ none | some (c, others) ↦ some (c, (a, ch) ∷ others) ]

-- `Accept`; at `none` it waits.
unfoldable pub accept_conn : Trunet → World → Option (Conn × World)
accept_conn t w = elim (take_pending t.accept w.pending) [
  | none ↦ none
  | some (ch, rest) ↦ some (new_conn ch, record w { pending = rest })
]
