-- ===== src/Net.antt =====
-- tru_net.go: a channel as a `net.Conn`. Its read channel is unbuffered: the list holds what the
-- blocked senders have in hand.
pub mod Messages
pub mod Delivery
pub mod Writing
pub mod Conversation
pub mod Trunet
use tru.Base.{
  ℕ, zero, suc, ◌+◌, Bool, true, false, ◌&&◌, List, [], ◌∷◌, ◌++◌, Option, none, some, Bytes, ◌==◌,
  if◌then◌else◌, length, take, drop, ◌>>=◌, is_some,
}
use tru.Channel.Write.{Env, write, close}
use tru.Channel.{Channel}
use tru.Crypt.Library.{Primitives}
use tru.Packet.{Packet}

pub data ConnError : Type 0 where
  eof channel_destroyed channel_already_destroyed write_failed : ConnError

-- Conn with its connRead.
pub record Conn : Type 0 where
  pub ch : Option Channel
  pub read_ch : List Bytes
  pub closed : Bool
  pub buf : Bytes
  pub cont : Bool

unfoldable pub new_conn : Channel → Conn
new_conn ch = record { ch = some ch; read_ch = []; closed = false; buf = []; cont = false }

-- `reader` with a packet.
unfoldable pub reader : Packet → Conn → Conn
reader pac c = elim c.ch [
  | none ↦ c
  | some ch ↦ record c { read_ch = c.read_ch ++ pac.payload ∷ [] }
]

-- What a call of `Read` copies, and its error.
pub record Copied : Type 0 where
  pub bytes : Bytes
  pub err : Option ConnError

-- `copy`, into a slice of the given length.
unfoldable pub copy : ℕ → Conn → Conn × Copied
copy size c = (record c { buf = drop size c.buf }, record { bytes = take size c.buf; err = none })

-- `Read`; at `none` it waits.
unfoldable pub read : ℕ → Conn → Option (Conn × Copied)
unfolding copy
read size c =
    if length c.buf == 0 && c.cont
    then some (record c { cont = false }, record { bytes = []; err = some eof })
    else if length c.buf == 0
    then elim c.read_ch [
      | [] ↦
          if c.closed then some (c, record { bytes = []; err = some channel_destroyed }) else none
      | d ∷ rest ↦ some (copy size (record c { read_ch = rest; buf = d; cont = true }))
    ]
    else some (copy size c)

module _ (p : Primitives) where
  -- `Write`: the number of bytes written and the error; `none` is a split out of fuel.
  unfoldable pub write_conn : Env → Bytes → Conn → Option (Conn × ℕ × Option ConnError)
  write_conn env bytes c = elim c.ch [
    | none ↦ some (c, 0, some channel_destroyed)
    | some ch ↦ do
      (done, ch') ← write p env bytes [] ch
      some (
        record c { ch = some ch' },
        if is_some done.err then 0 else length bytes,
        if is_some done.err then some write_failed else none,
      )
  ]

  -- `Close`: the closed channel with it. Senders that wait are dropped.
  unfoldable pub close_conn : Env → Conn → Conn × Option Channel × Option ConnError
  close_conn env c = elim c.ch [
    | none ↦ (c, none, some channel_already_destroyed)
    | some ch ↦ (record c { ch = none; read_ch = []; closed = true }, some (close p env ch), none)
  ]
