-- ===== src/Split.antt =====
-- split.go: a large packet is split for sending and combined by the receiver.
pub mod Combine
pub mod RoundTrip
use tru.Base.{
  ℕ, zero, suc, ◌+◌, Bool, true, false, not, ◌&&◌, List, [], ◌∷◌, ◌++◌, Option, none, some, Bytes,
  leb, ◌==◌, if◌then◌else◌, length, take, drop,
}
use tru.Packet.{
  Packet, status_data, status_data_next, status_split, max_data_len, set_data, set_status,
}

-- The result of a call of `writeTo`: the packet id and the error, if there is one.
pub record Written (E : Type 0) : Type 0 where
  pub id : ℕ
  pub err : Option E

module _ {S E : Type 0} (write_to : Bytes → ℕ → S → Written E × S) (max_len : ℕ) where
  -- The loop of `splitPacket`; `i` counts its rounds. It has run out of fuel at `none`.
  unfoldable pub split_loop : ℕ → ℕ → Bytes → ℕ → S → Option (Written E × S)
  split_loop zero i bytes rid s = none
  split_loop (suc fuel) i bytes rid s =
      let (last, s₁) = write_to bytes 0 s in
      let (part, s₂) = write_to (take max_len bytes) status_split s in
      let rest = split_loop fuel (i + 1) (drop max_len bytes) part.id s₂ in
      if leb (length bytes) max_len
      then some (record last { id = if i == 0 then last.id else rid }, s₁)
      else elim part.err [ none ↦ rest | some e ↦ some (part, s₂) ]

-- `maxDataLen` of the channel, or the largest that a datagram takes.
unfoldable pub split_len : ℕ → ℕ
split_len limit = if limit == 0 then max_data_len else limit

-- A round takes at least a byte off, so the length of the data is fuel enough.
unfoldable pub split_packet :
    {S E : Type 0} → (Bytes → ℕ → S → Written E × S) → ℕ → Bytes → S → Option (Written E × S)
split_packet write_to limit bytes s =
    split_loop write_to (split_len limit) (suc (length bytes)) 0 bytes 0 s

-- combinePacket. `payload` is the field `data`.
pub record Combiner : Type 0 where
  pub combine : Bool
  pub payload : Bytes
  pub first : Option Packet

abbrev pub clear : Combiner
clear = record { combine = false; payload = []; first = none }

-- The last packet of a row: the first one, with the data of all of them. `first` is never nil
-- there, see `Combine.IsValid`.
unfoldable pub finish : Option Packet → Bytes → Option Packet
finish none bytes = none
finish (some f) bytes = some (set_status status_data (set_data bytes f))

unfoldable pub packet : Combiner → Packet → Combiner × Option Packet
packet c pac =
    if not c.combine && pac.status == status_data_next
    then (record { combine = true; payload = pac.payload; first = some pac }, none)
    else if c.combine && pac.status == status_data_next
    then (record c { payload = c.payload ++ pac.payload }, none)
    else if c.combine && pac.status == status_data
    then (clear, finish c.first (c.payload ++ pac.payload))
    else if not c.combine && pac.status == status_data
    then (c, some pac)
    else (c, none)
