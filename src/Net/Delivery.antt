-- ===== src/Net/Delivery.antt =====
-- From the reader's process of a connector (tru.go) through a connection (tru_net.go) to the program
-- that reads it.
use tru.Base.{
  ℕ, zero, suc, ◌+◌, ◌≤◌, ◌<◌, ◌≡◌, refl, ap, ◌∙◌, Bool, false, List, [], ◌∷◌, ◌++◌, Option, none,
  some, Bytes, arith, length, All, append_assoc, append-nil, sym,
}
use tru.Channel.{Channel}
use tru.Connector.Loops.{ReaderData, ReaderCall, channel_reader, global_reader, reader_process}
use tru.Net.Messages.{read_all, read_message}
use tru.Net.{Conn, reader}
use tru.Packet.{Packet}
use tru.Transfer.Whole.{bytes_read}

-- What the channel of a connection hands to the reader's process, and whether the channel is destroyed
-- when that takes it. The reader of a connection has the result false.
abbrev pub handed : Bool → List Packet → List ReaderData
handed destroyed [] = []
handed destroyed (pac ∷ rest) =
    record { destroyed = destroyed; reader = some (λ _. false); pac = pac } ∷ handed destroyed rest

-- The calls of the reader of a connection; a connector of `newTrunet` has no reader of its own.
unfoldable pub read_calls : List ReaderCall → Conn → Conn
read_calls [] c = c
read_calls (channel_reader pac ∷ rest) c = read_calls rest (reader pac c)
read_calls (global_reader pac ∷ rest) c = read_calls rest c

-- What the connection has after the reader's process has taken these packets.
unfoldable pub delivered : Channel → List Packet → Conn → Conn
delivered ch pacs c = read_calls (reader_process false (handed ch.stat.destroyed pacs)) c

-- A program that reads a number of messages, one after the other.
unfoldable pub read_each : ℕ → ℕ → (ℕ → ℕ) → Conn → Option (Conn × List Bytes)
read_each zero fuel sizes c = some (c, [])
read_each (suc n) fuel sizes c = elim (read_all fuel sizes c) [
  | none ↦ none
  | some (c', r) ↦
      let more = read_each n fuel sizes c' in
      elim r.err [
        | some e ↦ none
        | none ↦ elim more [ none ↦ none | some (end, ms) ↦ some (end, r.bytes ∷ ms) ]
      ]
]

read_calls_lem :
    (pacs : List Packet) (ch : Channel) (c : Conn)
    → c.ch ≡ some ch
    → read_calls (reader_process false (handed false pacs)) c
      ≡ record c { read_ch = c.read_ch ++ bytes_read pacs }
unfolding read_calls reader_process reader
read_calls_lem [] ch c there =
    ap (λ (l : List Bytes). record c { read_ch = l }) (sym (append-nil c.read_ch))
read_calls_lem (pac ∷ pacs) ch c there =
    let c' = record c { read_ch = c.read_ch ++ pac.payload ∷ [] } in
    let one : reader pac c ≡ c' = ground (arith, there) in
    ap (read_calls (reader_process false (handed false pacs))) one
    ∙ read_calls_lem pacs ch c' there
    ∙ ap (λ (l : List Bytes). record c { read_ch = l })
        (append_assoc c.read_ch (pac.payload ∷ []) (bytes_read pacs))

-- The packets of a channel that is not destroyed all come to its connection, in their order.
pub delivered_lem :
    (pacs : List Packet) (ch : Channel) (c : Conn)
    → c.ch ≡ some ch
    → ch.stat.destroyed ≡ false
    → delivered ch pacs c ≡ record c { read_ch = c.read_ch ++ bytes_read pacs }
unfolding delivered
delivered_lem pacs ch c there alive =
    ap (λ (b : Bool). read_calls (reader_process false (handed b pacs)) c) alive
    ∙ read_calls_lem pacs ch c there

pub read_each_lem :
    (ms rest : List Bytes) (fuel : ℕ) (sizes : ℕ → ℕ) (c : Conn)
    → ((k : ℕ) → 0 < sizes k)
    → All (λ m. length m + 2 ≤ fuel) ms
    → read_each (length ms) fuel sizes (record c { buf = []; cont = false; read_ch = ms ++ rest })
      ≡ some (record c { buf = []; cont = false; read_ch = rest }, ms)
unfolding read_each
read_each_lem [] rest fuel sizes c h l = refl
read_each_lem (m ∷ ms) rest fuel sizes c h l = ground (
  arith,
  read_message fuel sizes m (ms ++ rest) c h l.0,
  read_each_lem ms rest fuel sizes c h l.1,
)
