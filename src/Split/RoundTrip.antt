-- ===== src/Split/RoundTrip.antt =====
-- What `splitPacket` writes is combined to the data again (split.go).
use Prim.Native.Nat.{bit_or}
use mathlib.Core.Path.{ap₂}
use tru.Base.{
  ℕ, zero, suc, ◌+◌, ◌-◌, ◌≤◌, ◌<◌, ◌≡◌, refl, ap, ◌∙◌, inl, inr, List, [], ◌∷◌, ◌++◌, Option, none,
  some, Bytes, arith, All, append_assoc, length, length-append, length-drop, subst, length-take,
  take, drop, take-append-drop, leb, Bool-cases, ◌==◌, if◌then◌else◌,
}
use tru.Packet.{Packet, new_packet, status_data, status_data_next, status_split, max_data_len}
use tru.Split.Combine.{IsNext, payloads, combine_all, combine_all_row}
use tru.Split.{clear, packet, Written, split_loop, split_len, split_packet}

abbrev pub sent_packet : ℕ → ℕ → Bytes → Packet
sent_packet id split bytes = record (new_packet 0) {
  id = id;
  status = bit_or status_data split;
  payload = bytes;
}

-- A writer that never fails and keeps the packets that it is to send, numbered from 0, as
-- `WriteTo` builds them: `statusData | split` is the status.
pub recorder : Bytes → ℕ → List Packet → Written (Unit {0}) × List Packet
recorder bytes split sent =
    (record { id = length sent; err = none }, sent ++ sent_packet (length sent) split bytes ∷ [])

abbrev pub Fits : ℕ → Packet → Type 0
Fits m p = length p.payload ≤ m

-- A row of packets that carries these bytes: all but the last announce a next one.
pub record IsRow (m : ℕ) (bytes : Bytes) (nexts : List Packet) (last : Packet) : Type 0 where
  pub announced : All IsNext nexts
  pub ended : last.status ≡ status_data
  pub nexts_fit : All (Fits m) nexts
  pub last_fits : Fits m last
  pub whole : payloads nexts ++ last.payload ≡ bytes

IsRow-cons :
    {m : ℕ} {nexts : List Packet} {last : Packet} (bytes : Bytes) (p : Packet)
    → p.status ≡ status_data_next
    → p.payload ≡ take m bytes
    → IsRow m (drop m bytes) nexts last
    → IsRow m bytes (p ∷ nexts) last
IsRow-cons {m} {nexts} {last} bytes p n e r = record {
  announced = (n, r.announced);
  ended = r.ended;
  nexts_fit = (rw e (omega (arith, length-take m bytes)), r.nexts_fit);
  last_fits = r.last_fits;
  whole =
      append_assoc p.payload (payloads nexts) last.payload
      ∙ rw (e, r.whole) (take-append-drop m bytes);
}

abbrev pub Numbered : ℕ → List Packet → Type 0
Numbered n [] = Unit
Numbered n (p ∷ ps) = (p.id ≡ n) × Numbered (n + 1) ps

-- The id that the loop returns, from its round, the id at hand, the id of the next packet and the
-- number of full packets that it still writes: with any, it is the id of the last full one.
abbrev pub returned_id : ℕ → ℕ → ℕ → ℕ → ℕ
returned_id i rid n zero = if i == 0 then n else rid
returned_id i rid n (suc k) = n + k

abbrev Sends : ℕ → Bytes → ℕ → ℕ → List Packet → Option (Written (Unit {0}) × List Packet) → Type 0
Sends m bytes i rid sent r =
    (nexts : List Packet) × (last : Packet) × (r
      ≡ some (
        record { id = returned_id i rid (length sent) (length nexts); err = none },
        sent ++ (nexts ++ last ∷ []),
      ))
    × IsRow m bytes nexts last
    × Numbered (length sent) (nexts ++ last ∷ [])

returned_id_step : (i rid n k : ℕ) → returned_id (i + 1) n (n + 1) k ≡ returned_id i rid n (suc k)
returned_id_step i rid n zero = ground arith
returned_id_step i rid n (suc k) = omega arith

split_loop-Sends :
    (m fuel i : ℕ) (bytes : Bytes) (rid : ℕ) (sent : List Packet)
    → 0 < m
    → length bytes < fuel
    → Sends m bytes i rid sent (split_loop recorder m fuel i bytes rid sent)
unfolding split_loop recorder
split_loop-Sends m zero i bytes rid sent h f = absurd (omega arith)
split_loop-Sends m (suc fuel) i bytes rid sent h f = elim (Bool-cases (leb (length bytes) m)) [
  | inl e ↦ (
    [],
    sent_packet (length sent) 0 bytes,
    rw e refl,
    record { announced = tt; ended = refl; nexts_fit = tt; last_fits = ground arith; whole = refl },
    (refl, tt),
  )
  | inr e ↦
      let p = sent_packet (length sent) status_split (take m bytes) in
      let (nexts, last, same, row, numbers) =
        split_loop-Sends m fuel (i + 1) (drop m bytes) (length sent) (sent ++ p ∷ []) h
          (ground (arith, length-drop m bytes)) in
      let size = length-append sent (p ∷ []) in
      (
        p ∷ nexts,
        last,
        rw e (
            same
            ∙ ap₂ (λ (k : ℕ) t. some (record { id = k; err = none }, t))
                (ap (λ (n : ℕ). returned_id (i + 1) (length sent) n (length nexts)) size
                  ∙ returned_id_step i rid (length sent) (length nexts))
                (append_assoc sent (p ∷ []) (nexts ++ last ∷ []))),
        IsRow-cons bytes p refl refl row,
        (refl, subst (λ (n : ℕ). Numbered n (nexts ++ last ∷ [])) size numbers),
      )
]

All-append {ℓ κ} :
    {A : Type ℓ} (P : A → Type κ) (xs ys : List A) → All P xs → All P ys → All P (xs ++ ys)
All-append P [] ys hx hy = hy
All-append P (x ∷ xs) ys hx hy = (hx.0, All-append P xs ys hx.1 hy)

split_len-pos : (limit : ℕ) → 0 < split_len limit
unfolding split_len max_data_len
split_len-pos limit = ground arith

combine_row :
    (m : ℕ) (bytes : Bytes) (nexts : List Packet) (last : Packet)
    → IsRow m bytes nexts last
    → Numbered 0 (nexts ++ last ∷ [])
    → (q : Packet) × (combine_all clear (nexts ++ last ∷ []) ≡ (clear, q ∷ []))
      × (q.id ≡ 0)
      × (q.status ≡ status_data)
      × (q.payload ≡ bytes)
unfolding combine_all packet
combine_row m bytes [] last row n = (last, ground arith, n.0, row.ended, row.whole)
combine_row m bytes (p ∷ nexts) last row n =
    (_, combine_all_row p nexts last row.announced row.ended, n.0, refl, row.whole)

-- Whatever the data and the limit, the split comes to its end with no error, its packets are
-- numbered in order and each fits the limit, and the receiver's combiner makes of them one packet
-- with that data and the first id, and is empty after it.
pub combine_all-split_packet :
    (limit : ℕ) (bytes : Bytes)
    → (id : ℕ) × (sent : List Packet) × (q : Packet) × (split_packet recorder limit bytes []
        ≡ some (record { id = id; err = none }, sent))
      × All (Fits (split_len limit)) sent
      × Numbered 0 sent
      × (combine_all clear sent ≡ (clear, q ∷ []))
      × (q.id ≡ 0)
      × (q.status ≡ status_data)
      × (q.payload ≡ bytes)
unfolding split_packet
combine_all-split_packet limit bytes =
    let m = split_len limit in
    let (nexts, last, same, row, n) =
      split_loop-Sends m (suc (length bytes)) 0 bytes 0 [] (split_len-pos limit) (omega arith) in
    let (q, out, id, status, payload) = combine_row m bytes nexts last row n in
    (
      _,
      _,
      q,
      same,
      All-append (Fits m) nexts (last ∷ []) row.nexts_fit (row.last_fits, tt),
      n,
      out,
      id,
      status,
      payload,
    )

-- The id that a split write returns is not the one that the receiver reports, 0, unless the data
-- takes two packets at most: it is the id of the last full packet.
pub split_packet_id :
    (limit : ℕ) (bytes : Bytes)
    → (id : ℕ) × (sent : List Packet) × (split_packet recorder limit bytes []
        ≡ some (record { id = id; err = none }, sent))
      × (id ≡ length sent - 2)
unfolding split_packet
split_packet_id limit bytes =
    let (nexts, last, same, row, n) =
      split_loop-Sends (split_len limit) (suc (length bytes)) 0 bytes 0 [] (split_len-pos limit)
        (omega arith) in
    (_, _, same, last_full nexts last)
  where
    last_full :
        (ps : List Packet) (q : Packet) → returned_id 0 0 0 (length ps) ≡ length (ps ++ q ∷ []) - 2
    last_full [] q = refl
    last_full (p ∷ ps) q = omega (arith, length-append ps (q ∷ []))
