-- ===== src/Tests/Packets.antt =====
-- Packets, their split and their encryption.
use tru.Base.Int.{pos, negsuc}
use tru.Base.Map.{nat_eq}
use tru.Base.{
  ℕ, ◌-◌, ◌<◌, ◌≤◌, ◌≡◌, ◌↔◌, refl, List, [], ◌∷◌, Bytes, none, some, arith, length, get_elem?, All,
}
use tru.Crypt.Rsa.{decrypt-encrypt_lem}
use tru.Crypt.Session.{decrypt_packet_data-encrypt_packet_data}
use tru.Crypt.{encrypt_packet_data, decrypt_packet_data, encrypt, decrypt}
use tru.Packet.Codec.{unmarshal_binary-marshal_binary, marshal_binary-unmarshal_binary}
use tru.Packet.Distance.{distance-stream}
use tru.Packet.{
  Packet, new_packet, status_data, marshal_binary, unmarshal_binary, pack_stat_id, unpack_stat_id,
  distance,
}
use tru.Base.Endian.{put_u32, get_u32}
use tru.Split.Combine.{combine_all}
use tru.Split.RoundTrip.{recorder, Numbered, combine_all-split_packet, split_packet_id}
use tru.Split.{split_packet, split_len, clear}
use tru.Tests.Toy.{toy, toy-IsSound, zeros}

abbrev sample : Packet
sample = record (new_packet 0) { id = 48; status = 11; payload = 1 ∷ 2 ∷ [] }

marshal_sample : marshal_binary sample ≡ 48 ∷ 0 ∷ 0 ∷ 11 ∷ 1 ∷ 2 ∷ []
unfolding marshal_binary pack_stat_id put_u32
marshal_sample = refl

distance_back : distance 10 0xFFFFFFFF ≡ negsuc 10
unfolding distance
distance_back = refl

unmarshal_binary-marshal_binary_example :
    unmarshal_binary (new_packet 5) (marshal_binary sample)
    ≡ some (record (new_packet 5) { id = 48; status = 11; payload = 1 ∷ 2 ∷ [] })
unmarshal_binary-marshal_binary_example =
    unmarshal_binary-marshal_binary 5 sample (omega arith) (omega arith)

abbrev raw : Bytes
raw = 1 ∷ 2 ∷ 255 ∷ 4 ∷ 9 ∷ []

abbrev decoded : Packet
decoded = record (new_packet 5) { id = 0xF0201; status = 4; payload = 9 ∷ [] }

marshal_binary-unmarshal_binary_example :
    (marshal_binary decoded ≡ raw) ↔ ((c : ℕ) × (get_elem? raw 2 ≡ some c) × (c < 16))
unfolding unmarshal_binary get_u32 unpack_stat_id new_packet
marshal_binary-unmarshal_binary_example =
    marshal_binary-unmarshal_binary 5 raw decoded (omega arith) refl

distance-stream_example : distance 0xFFFFE 1 ≡ pos 3
distance-stream_example = distance-stream 0xFFFFE 0x100001 (omega arith) (omega arith)

abbrev long : Bytes
long = 1 ∷ 2 ∷ 3 ∷ 4 ∷ 5 ∷ []

combine_all-split_packet_example :
    (id : ℕ) × (sent : List Packet) × (q : Packet) × (split_packet recorder 2 long []
      ≡ some (record { id = id; err = none }, sent))
    × All (λ r. length r.payload ≤ split_len 2) sent
    × Numbered 0 sent
    × (combine_all clear sent ≡ (clear, q ∷ []))
    × (q.id ≡ 0)
    × (q.status ≡ status_data)
    × (q.payload ≡ long)
combine_all-split_packet_example = combine_all-split_packet 2 long

split_packet_id_example :
    (id : ℕ) × (sent : List Packet) × (split_packet recorder 2 long []
      ≡ some (record { id = id; err = none }, sent))
    × (id ≡ length sent - 2)
split_packet_id_example = split_packet_id 2 long

abbrev session : Bytes
session = 3 ∷ 1 ∷ 4 ∷ []

decrypt_packet_data-encrypt_packet_data_example :
    decrypt_packet_data toy session 7 (encrypt_packet_data toy session (zeros 12) 7 long)
    ≡ some long
decrypt_packet_data-encrypt_packet_data_example =
    decrypt_packet_data-encrypt_packet_data toy toy-IsSound session (zeros 12) 7 long refl

decrypt-encrypt_example :
    (boxed : Bytes) × (encrypt toy 70 (λ k. k) tt (zeros 70) ≡ some boxed)
    × (decrypt toy (length boxed) tt boxed ≡ some (zeros 70))
decrypt-encrypt_example =
    decrypt-encrypt_lem toy toy-IsSound tt 70 (λ k. k) (zeros 70) (omega arith)
