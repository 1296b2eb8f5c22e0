-- ===== src/Split/Combine.antt =====
-- The combiner (split.go) over a row of packets.
use tru.Base.{
  Option, ◌≡◌, ◌⊎◌, true, List, [], ◌∷◌, ◌++◌, none, some, Bytes, arith, All, append_assoc, is_some,
}
use tru.Packet.{Packet, status_data, status_data_next, set_data, set_status}
use tru.Split.{Combiner, clear, finish, packet}

-- The first packet is at hand exactly while a row is being combined, and data only then.
pub record IsValid (c : Combiner) : Type 0 where
  pub started : c.combine ≡ is_some c.first
  pub fresh : (c.combine ≡ true) ⊎ (c.payload ≡ [])

-- A combiner that has a first packet exactly while it combines, and data only then, is so after
-- any packet.
pub packet-IsValid : (c : Combiner) (pac : Packet) → IsValid c → IsValid (packet c pac).0
unfolding packet
packet-IsValid c pac v = record {
  started = ground (arith, v.started);
  fresh = ground (arith, v.fresh);
}

-- The packets that come out of a row of packets.
unfoldable pub combine_all : Combiner → List Packet → Combiner × List Packet
combine_all c [] = (c, [])
combine_all c (p ∷ ps) =
    let (c', out) = packet c p in
    let (c'', outs) = combine_all c' ps in (c'', elim out [ none ↦ outs | some q ↦ q ∷ outs ])

abbrev pub payloads : List Packet → Bytes
payloads [] = []
payloads (p ∷ ps) = p.payload ++ payloads ps

abbrev pub IsNext : Packet → Type 0
IsNext p = p.status ≡ status_data_next

-- A row that has begun comes out as its first packet with all the data.
combine_started :
    (ps : List Packet) (last f : Packet) (bytes : Bytes)
    → All IsNext ps
    → last.status ≡ status_data
    → combine_all (record { combine = true; payload = bytes; first = some f }) (ps ++ last ∷ []) ≡ (
      clear,
      record f { payload = bytes ++ (payloads ps ++ last.payload); status = status_data } ∷ [],
    )
unfolding combine_all packet finish set_data set_status
combine_started [] last f bytes h e = ground arith
combine_started (p ∷ ps) last f bytes h e = ground (
  arith,
  combine_started ps last f (bytes ++ p.payload) h.1 e,
  append_assoc p.payload (payloads ps) last.payload,
  append_assoc bytes p.payload (payloads ps ++ last.payload),
)

pub combine_all_row :
    (p : Packet) (ps : List Packet) (last : Packet)
    → All IsNext (p ∷ ps)
    → last.status ≡ status_data
    → combine_all clear ((p ∷ ps) ++ last ∷ [])
      ≡ (clear, record p { payload = payloads (p ∷ ps) ++ last.payload; status = status_data } ∷ [])
unfolding combine_all packet
combine_all_row p ps last h e = ground (
  arith,
  combine_started ps last p p.payload h.1 e,
  append_assoc p.payload (payloads ps) last.payload,
)

abbrev pub out_list : Option Packet → List Packet
out_list none = []
out_list (some q) = q ∷ []

-- One packet more at the end of a row.
pub combine_all-concat :
    (c : Combiner) (ps : List Packet) (p : Packet)
    → combine_all c (ps ++ p ∷ []) ≡ (
      (packet (combine_all c ps).0 p).0,
      (combine_all c ps).1 ++ out_list (packet (combine_all c ps).0 p).1,
    )
unfolding combine_all
combine_all-concat c [] p = ground (arith)
combine_all-concat c (q ∷ ps) p = ground (arith, combine_all-concat (packet c q).0 ps p)
