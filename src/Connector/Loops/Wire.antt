-- ===== src/Connector/Loops/Wire.antt =====
-- What the sender process writes can be read (tru.go, packet.go), and who reads what comes in.
use tru.Base.{
  ℕ, ◌<◌, ◌≡◌, refl, Bool, true, false, List, [], ◌∷◌, Option, none, some, Bytes, arith, All,
  if◌then◌else◌, Bool-cases, Option-cases, inl, inr, not, ◌&&◌,
}
use tru.Connector.Loops.{
  SenderData, sender_process, ReaderData, ReaderCall, channel_reader, global_reader, reader_process,
}
use tru.Packet.Codec.{unmarshal_binary-marshal_binary}
use tru.Packet.{Packet, packet_id_limit, new_packet, unmarshal_binary}

-- A packet whose id and status are in range.
abbrev pub InRange : SenderData → Type 0
InRange r = (r.pac.id < packet_id_limit) × (r.pac.status < 256)

-- A packet at the other end: its address, and what of it comes out of a datagram.
abbrev pub arrived : ℕ → SenderData → Bytes × Option Packet
arrived now r = (
  r.addr,
  some (record (new_packet now) { id = r.pac.id; status = r.pac.status; payload = r.pac.payload }),
)

abbrev pub arrived_all : ℕ → List SenderData → List (Bytes × Option Packet)
arrived_all now [] = []
arrived_all now (r ∷ rest) =
    let after = arrived_all now rest in if r.destroyed then after else arrived now r ∷ after

abbrev pub read_all : ℕ → List (Bytes × Bytes) → List (Bytes × Option Packet)
read_all now [] = []
read_all now ((addr, bytes) ∷ rest) =
    (addr, unmarshal_binary (new_packet now) bytes) ∷ read_all now rest

-- Of packets with ids and statuses in range, those of the channels that are not destroyed, and no
-- others, come out of the datagrams that the sender process writes, in order and with their
-- addresses.
pub sender_process_arrives :
    (now : ℕ) (rs : List SenderData)
    → All InRange rs
    → read_all now (sender_process rs) ≡ arrived_all now rs
unfolding sender_process
sender_process_arrives now [] h = refl
sender_process_arrives now (r ∷ rest) (h, hs) =
    ground
      (arith, sender_process_arrives now rest hs, unmarshal_binary-marshal_binary now r.pac h.0 h.1)

-- The packets that each reader is called with.
abbrev pub heard_globally : List ReaderCall → List Packet
heard_globally [] = []
heard_globally (global_reader pac ∷ calls) = pac ∷ heard_globally calls
heard_globally (channel_reader pac ∷ calls) = heard_globally calls

abbrev taken : ReaderData → Bool
taken r = elim r.reader [ none ↦ false | some f ↦ f r.pac ]

abbrev pub not_taken : List ReaderData → List Packet
not_taken [] = []
not_taken (r ∷ rest) =
    let after = not_taken rest in if not r.destroyed && not (taken r) then r.pac ∷ after else after

-- The connector's reader is called with the packets of the channels that are not destroyed that the
-- channel's own reader did not process, each once and in order; without one nobody is called so.
pub reader_process_heard :
    (has_reader : Bool) (rs : List ReaderData)
    → heard_globally (reader_process has_reader rs) ≡ (if has_reader then not_taken rs else [])
unfolding reader_process
reader_process_heard true [] = refl
reader_process_heard false [] = refl
reader_process_heard has_reader (r ∷ rest) =
    let ih = reader_process_heard has_reader rest in
    elim (Option-cases r.reader) [
      | inl e ↦ elim (Bool-cases has_reader) [
        | inl b ↦ ground (arith, ih, e, b)
        | inr b ↦ ground (arith, ih, e, b)
      ]
      | inr (f, e) ↦ elim (Bool-cases has_reader) [
        | inl b ↦ ground (arith, ih, e, b)
        | inr b ↦ ground (arith, ih, e, b)
      ]
    ]
