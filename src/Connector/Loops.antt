-- ===== src/Connector/Loops.antt =====
-- tru.go: the processes that take packets to the readers and to the socket, and the end of a
-- connector.
pub mod Close
pub mod Wire
use tru.Base.Map.{Map, bytes_key}
use tru.Base.{
  ℕ, Bool, true, false, List, [], ◌∷◌, ◌++◌, map, Option, none, some, Bytes, if◌then◌else◌,
}
use tru.Channel.Write.{build}
use tru.Channel.{Channel}
use tru.Connector.{Tru, get_channel, destroy_channel}
use tru.Crypt.Library.{Primitives}
use tru.Packet.{Packet, marshal_binary, status_disconnect}

-- senderChData: the address of its channel, and whether the channel is destroyed when the packet
-- is taken from the Go channel.
pub record SenderData : Type 0 where
  pub addr : Bytes
  pub destroyed : Bool
  pub pac : Packet

-- `senderProccess`: the datagrams that are written, with their addresses.
unfoldable pub sender_process : List SenderData → List (Bytes × Bytes)
sender_process [] = []
sender_process (r ∷ rest) =
    let after = sender_process rest in
    if r.destroyed then after else (r.addr, marshal_binary r.pac) ∷ after

-- readerChData, with the reader of its channel, if it has one, and what that reader returns.
pub record ReaderData : Type 0 where
  pub destroyed : Bool
  pub reader : Option (Packet → Bool)
  pub pac : Packet

-- A call of a reader.
pub data ReaderCall : Type 0 where
  channel_reader global_reader : Packet → ReaderCall

abbrev pub call_global : Bool → Packet → List ReaderCall
call_global true pac = global_reader pac ∷ []
call_global false pac = []

-- `readerProccess`; the Boolean says whether the connector has a reader.
unfoldable pub reader_process : Bool → List ReaderData → List ReaderCall
reader_process has_reader [] = []
reader_process has_reader (r ∷ rest) =
    let after = reader_process has_reader rest in
    if r.destroyed then after else elim r.reader [
      | none ↦ call_global has_reader r.pac ++ after
      | some f ↦
          if f r.pac
          then channel_reader r.pac ∷ after
          else channel_reader r.pac ∷ call_global has_reader r.pac ++ after
    ]

module _ {p : Primitives} where
  -- `Close` of the channel at an address: the disconnect packet, and `destroy`.
  unfoldable pub close_channel : ℕ → Bytes → Tru p → Tru p
  close_channel now addr tru =
      let closed = destroy_channel addr tru in
      elim (get_channel addr tru) [
        | none ↦ tru
        | some ch ↦ if ch.stat.destroyed then tru else record closed {
          datagrams =
              closed.datagrams ++ (addr, marshal_binary (build now 0 status_disconnect [])) ∷ [];
        }
      ]

  -- `ForEachChannel`, over the addresses that were there at its start.
  unfoldable pub for_each_channel : (Bytes → Tru p → Tru p) → List Bytes → Tru p → Tru p
  for_each_channel f [] tru = tru
  for_each_channel f (addr ∷ rest) tru = for_each_channel f rest (f addr tru)

  unfoldable pub addresses : Tru p → List Bytes
  addresses tru = map (λ (c : Bytes × Channel). c.0) tru.channels

  -- `Close`, without the socket, the printing of statistics, and the reader's call.
  unfoldable pub close_all : ℕ → Tru p → Tru p
  close_all now tru = for_each_channel (close_channel now) (addresses tru) tru
