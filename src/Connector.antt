-- ===== src/Connector.antt =====
-- tru.go, channel.go: the connector, its channels and the connections it waits for. Callbacks are
-- left out of the state; the calls of them are kept in it, in order, as are the datagrams that are
-- written to the socket without a channel.
pub mod Handshake
pub mod Serve
pub mod Lookup
pub mod Loops
pub mod New
pub mod Socket
pub mod Rows
use tru.Base.Map.{Map, bytes_key, lookup, insert}
use tru.Base.Map
use tru.Base.{
  ℕ, ◌++◌, Bool, true, false, not, List, [], ◌∷◌, Option, none, some, Bytes, ltb, if◌then◌else◌,
}
use tru.Channel.{Channel, new_channel}
use tru.Channel
use tru.Crypt.Library.{Primitives}
use tru.Packet.{max_data_len}

-- connectData. A channel is named by its address, a Go channel by the uuid.
pub record ConnectData : Type 0 where
  pub uuid : Bytes
  pub ch : Option Bytes

-- A callback that was called, with the address that it was called for.
pub data Call : Type 0 where
  connected destroyed : Bytes → Call
  punched : Bytes → Bytes → Call
  delivered : ℕ → Call

pub record Tru (p : Primitives) : Type 0 where
  pub private_key : p.PrivateKey
  pub channels : Map Bytes Channel
  pub connects : Map Bytes ConnectData
  pub send_delay : ℕ
  pub max_len : ℕ
  pub calls : List Call
  pub datagrams : List (Bytes × Bytes)
  pub woken : List ConnectData

module _ {p : Primitives} where
  -- `newChannel` of a connector: the channel takes the place of another one at the address.
  unfoldable pub open_channel : ℕ → Bytes → Bool → Tru p → Tru p
  open_channel now addr server_mode tru = record tru {
    channels =
        insert addr (new_channel now addr server_mode tru.send_delay tru.max_len) tru.channels;
    calls = if server_mode then tru.calls ++ connected addr ∷ [] else tru.calls;
  }

  unfoldable pub get_channel : Bytes → Tru p → Option Channel
  get_channel addr tru = lookup addr tru.channels

  -- A change of the channel at an address, through its pointer.
  unfoldable pub update_channel : Bytes → (Channel → Channel) → Tru p → Tru p
  update_channel addr f tru = elim (lookup addr tru.channels) [
    | none ↦ tru
    | some ch ↦ record tru { channels = insert addr (f ch) tru.channels }
  ]

  -- `destroy` of the channel at an address: the readers hear of it, the channel is destroyed, and the
  -- address has no channel any more.
  unfoldable pub destroy_channel : Bytes → Tru p → Tru p
  destroy_channel addr tru =
      let marked = update_channel addr Channel.destroy tru in
      record marked {
        channels = Map.delete addr marked.channels;
        calls = marked.calls ++ destroyed addr ∷ [];
      }

  -- `connect.add`, `connect.delete` and `connect.get`
  unfoldable pub add_connect : Bytes → Tru p → Tru p
  add_connect uuid tru = record tru {
    connects = insert uuid (record { uuid = uuid; ch = none }) tru.connects;
  }

  unfoldable pub delete_connect : Bytes → Tru p → Tru p
  delete_connect uuid tru = record tru { connects = Map.delete uuid tru.connects }

  unfoldable pub get_connect : Bytes → Tru p → Option ConnectData
  get_connect uuid tru = lookup uuid tru.connects

  -- `SetMaxDataLen`, of a limit that is not negative.
  unfoldable pub set_max_data_len : ℕ → Tru p → Tru p
  set_max_data_len limit tru =
      if ltb limit max_data_len then record tru { max_len = limit } else tru
