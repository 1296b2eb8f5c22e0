-- ===== src/Connector/Socket.antt =====
-- tru.go, channel.go: the socket of a connector, its listening loop, and what is written without a
-- channel. The system resolves a text to an address, or does not.
pub mod Life
use tru.Base.Text.{codes}
use tru.Base.{
  ℕ, ◌++◌, Bool, true, false, List, [], ◌∷◌, Option, none, some, Bytes, if◌then◌else◌, ltb, length,
}
use tru.Channel.Write.{Env}
use tru.Connect.{Random}
use tru.Connector.Serve.{serve}
use tru.Connector.{Tru}
use tru.Crypt.Library.{Primitives}
use tru.Packet.{new_packet, set_status, set_data, status_punch, marshal_binary}

-- The address of `WriteTo` by its type; `other` stands for every other type.
pub data Address : Type 0 where
  text udp_addr : Bytes → Address
  other : Address

-- What the loop of `listen` comes to: the stop channel was closed, reading failed, or a datagram
-- was read, with what is read from outside while it is served.
pub data Event : Type 0 where
  stopped read_failed : Event
  received : Env → Random → Bytes → Bytes → Event

module _ {p : Primitives} where
  unfoldable pub set_send_delay : ℕ → Tru p → Tru p
  set_send_delay delay tru = record tru { send_delay = delay }

  abbrev pub write_datagram : Bytes → Bytes → Tru p → Tru p
  write_datagram addr bytes tru = record tru { datagrams = tru.datagrams ++ (addr, bytes) ∷ [] }

  -- `WriteTo` of a connector, and whether it succeeds. Without an address nothing is written, and
  -- the error of the socket is not looked at.
  unfoldable pub write_to :
      (resolve : Bytes → Option Bytes) → Bytes → Address → Tru p → Tru p × Bool
  write_to resolve bytes (text v) tru = elim (resolve v) [
    | none ↦ (tru, false)
    | some addr ↦ (write_datagram addr bytes tru, true)
  ]
  write_to resolve bytes (udp_addr addr) tru = (write_datagram addr bytes tru, true)
  write_to resolve bytes other tru = (tru, true)

  -- `WriteToPunch`
  unfoldable pub write_to_punch :
      (resolve : Bytes → Option Bytes) → ℕ → Bytes → Address → Tru p → Tru p × Bool
  write_to_punch resolve now bytes addr tru =
      write_to resolve (marshal_binary (set_data bytes (set_status status_punch (new_packet now))))
        addr tru

  -- A datagram that was read; an empty one is passed over.
  unfoldable pub on_datagram : Bool → Env → Random → Bytes → Bytes → Tru p → Tru p
  on_datagram punching env random addr bytes tru =
      if ltb 0 (length bytes) then serve env random punching addr bytes tru else tru

  -- `listen`, and whether it has returned.
  unfoldable pub listen : Bool → List Event → Tru p → Tru p × Bool
  listen punching [] tru = (tru, false)
  listen punching (stopped ∷ events) tru = (tru, true)
  listen punching (read_failed ∷ events) tru = listen punching events tru
  listen punching (received env random addr bytes ∷ events) tru =
      listen punching events (on_datagram punching env random addr bytes tru)
