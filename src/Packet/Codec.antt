-- ===== src/Packet/Codec.antt =====
-- MarshalBinary and UnmarshalBinary of a packet (packet.go).
use mathlib.Core.Path.{ap₂}
use tru.Base.Bits.{bit_and_low, bit_or_low_high}
use tru.Base.Endian.{put_u32, get_u32, get_u32-put_u32, get_u32_short, get_u32_long}
use tru.Base.{
  ℕ, ◌+◌, ◌*◌, ◌/◌, ◌%◌, ◌^◌, ◌<◌, ◌≤◌, ◌≡◌, ◌↔◌, refl, sym, [], ◌∷◌, ◌++◌, none, some, arith,
  Bytes, All, IsByte, some_eq, length, get_elem?, ◌∙◌, ap,
}
use tru.Packet.{
  Packet, read_rest, packet_id_limit, new_packet, pack_stat_id, unpack_stat_id, marshal_binary,
  unmarshal_binary, len,
}

-- The header as arithmetic: the low 20 bits of the id, and the status in the top byte.
pub pack_stat_id_sum : (p : Packet) → pack_stat_id p ≡ p.id % 2 ^ 20 + p.status * 2 ^ 24
unfolding pack_stat_id
pack_stat_id_sum p =
    rw (bit_and_low 20 p.id) (bit_or_low_high 24 (p.id % 2 ^ 20) p.status (omega arith))

unpack_stat_id_fields :
    (p : Packet) (n : ℕ)
    → unpack_stat_id p n ≡ record p { id = n % 2 ^ 20; status = n / 2 ^ 24 % 256 }
unfolding unpack_stat_id
unpack_stat_id_fields p n = rw (bit_and_low 20 n)

-- A packet with no data of its own takes what is left, empty or not.
read_rest_fresh :
    (q : Packet) (rest : Bytes) → q.payload ≡ [] → read_rest q rest ≡ record q { payload = rest }
read_rest_fresh q [] h = λ i. record q { payload = h i }
read_rest_fresh q (b ∷ rest) h = refl

unmarshal_binary_read :
    (now : ℕ) (bytes : Bytes) (n : ℕ) (rest : Bytes)
    → get_u32 bytes ≡ some (n, rest)
    → unmarshal_binary (new_packet now) bytes
      ≡ some
          (record (new_packet now) { id = n % 2 ^ 20; status = n / 2 ^ 24 % 256; payload = rest })
unfolding unmarshal_binary new_packet
unmarshal_binary_read now bytes n rest e =
    rw (e, unmarshal_binary) (rw unpack_stat_id_fields (ap some (read_rest_fresh _ rest refl)))

-- A packet whose id has 20 bits and whose status has 8 comes out of the bytes as it went in: its
-- id, its status and its data, in a packet that is new otherwise.
pub unmarshal_binary-marshal_binary :
    (now : ℕ) (p : Packet)
    → p.id < packet_id_limit
    → p.status < 256
    → unmarshal_binary (new_packet now) (marshal_binary p)
      ≡ some (record (new_packet now) { id = p.id; status = p.status; payload = p.payload })
unfolding unmarshal_binary marshal_binary new_packet
unmarshal_binary-marshal_binary now p hi hs =
    unmarshal_binary_read now _ _ p.payload (get_u32-put_u32 (pack_stat_id p) p.payload fits)
    ∙ ap₂ (λ i s. some (record (new_packet now) { id = i; status = s; payload = p.payload })) low
        top
  where
    fits : pack_stat_id p < 2 ^ 32
    fits = omega (arith, pack_stat_id_sum p)

    low : pack_stat_id p % 2 ^ 20 ≡ p.id
    low = omega (arith, pack_stat_id_sum p)

    top : pack_stat_id p / 2 ^ 24 % 256 ≡ p.status
    top = omega (arith, pack_stat_id_sum p)

-- Fewer than four bytes are an error.
pub unmarshal_binary_short :
    (p : Packet) (bytes : Bytes) → length bytes < 4 → unmarshal_binary p bytes ≡ none
unfolding unmarshal_binary
unmarshal_binary_short p bytes h = rw (get_u32_short bytes h, unmarshal_binary)

-- Four bytes or more always give a packet, with id and status in range and as long as the bytes.
pub unmarshal_binary_long :
    (now : ℕ) (bytes : Bytes)
    → 4 ≤ length bytes
    → All IsByte bytes
    → (q : Packet) × (unmarshal_binary (new_packet now) bytes ≡ some q)
      × (q.id < packet_id_limit)
      × (q.status < 256)
      × (len q ≡ length bytes)
unfolding unmarshal_binary new_packet len
unmarshal_binary_long now bytes h b =
    let (n, rest, e, fits, size, same) = get_u32_long bytes h b in
    (_, unmarshal_binary_read now bytes n rest e, omega arith, omega arith, omega arith)

pack_unpacked :
    (now n : ℕ) (rest : Bytes)
    → n < 2 ^ 32
    → marshal_binary
        (record (new_packet now) { id = n % 2 ^ 20; status = n / 2 ^ 24 % 256; payload = rest })
      ≡ put_u32 (n % 2 ^ 20 + n / 2 ^ 24 * 2 ^ 24) ++ rest
unfolding marshal_binary new_packet
pack_unpacked now n rest h =
    ap (λ k. put_u32 k ++ rest)
      (omega (
        arith,
        pack_stat_id_sum (record (new_packet now) {
          id = n % 2 ^ 20;
          status = n / 2 ^ 24 % 256;
          payload = rest;
        }),
      ))

abbrev word : ℕ → ℕ → ℕ → ℕ → ℕ
word x y z w = x + y * 2 ^ 8 + z * 2 ^ 16 + w * 2 ^ 24

reencoded :
    (now x y z w : ℕ) (rest : Bytes) (q : Packet)
    → All IsByte (x ∷ y ∷ z ∷ w ∷ rest)
    → unmarshal_binary (new_packet now) (x ∷ y ∷ z ∷ w ∷ rest) ≡ some q
    → marshal_binary q ≡ put_u32 (word x y z w % 2 ^ 20 + word x y z w / 2 ^ 24 * 2 ^ 24) ++ rest
unfolding get_u32
reencoded now x y z w rest q b e =
    ap marshal_binary (some_eq (sym e ∙ unmarshal_binary_read now _ _ rest refl))
    ∙ pack_unpacked now (word x y z w) rest (omega arith)

-- Re-encoding keeps the bytes exactly when the third has no high bit.
reencoded_iff :
    (x y z w : ℕ) (rest : Bytes)
    → All IsByte (x ∷ y ∷ z ∷ w ∷ rest)
    → (put_u32 (word x y z w % 2 ^ 20 + word x y z w / 2 ^ 24 * 2 ^ 24) ++ rest
        ≡ x ∷ y ∷ z ∷ w ∷ rest)
      ↔ (z < 16)
unfolding put_u32
reencoded_iff x y z w rest b = (λ h. ground arith, λ h. ground arith)

-- Decoding loses bits 20 to 23 of the header and nothing else: bytes that have none of them set
-- are what the decoded packet encodes to.
pub marshal_binary-unmarshal_binary :
    (now : ℕ) (bytes : Bytes) (q : Packet)
    → All IsByte bytes
    → unmarshal_binary (new_packet now) bytes ≡ some q
    → (marshal_binary q ≡ bytes) ↔ ((c : ℕ) × (get_elem? bytes 2 ≡ some c) × (c < 16))
marshal_binary-unmarshal_binary now [] q b e =
    cc (unmarshal_binary_short (new_packet now) [] (omega arith))
marshal_binary-unmarshal_binary now (x ∷ []) q b e =
    cc (unmarshal_binary_short (new_packet now) (x ∷ []) (omega arith))
marshal_binary-unmarshal_binary now (x ∷ y ∷ []) q b e =
    cc (unmarshal_binary_short (new_packet now) (x ∷ y ∷ []) (omega arith))
marshal_binary-unmarshal_binary now (x ∷ y ∷ z ∷ []) q b e =
    cc (unmarshal_binary_short (new_packet now) (x ∷ y ∷ z ∷ []) (omega arith))
marshal_binary-unmarshal_binary now (x ∷ y ∷ z ∷ w ∷ rest) q b e = (
  λ m. (z, refl, (reencoded_iff x y z w rest b).0 (sym (reencoded now x y z w rest q b e) ∙ m)),
  λ h. reencoded now x y z w rest q b e ∙ (reencoded_iff x y z w rest b).1 (ground arith),
)
