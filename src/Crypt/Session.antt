-- ===== src/Crypt/Session.antt =====
-- The session cipher (crypt.go).
use mathlib.Core.Path.{ap₂}
use tru.Base.{
  ℕ, ◌+◌, ◌%◌, ◌^◌, ◌≤◌, ◌<◌, ◌≡◌, ◌⊎◌, refl, ap, ◌∙◌, true, false, [], ◌∷◌, ◌++◌, some, Bytes,
  arith, leb, length, length-append, take-append, drop-append, Bool-cases, inl, inr,
}
use tru.Base.Endian.{put_u32}
use tru.Base.Bits.{bit_xor_twice}
use tru.Crypt.Library.{Primitives, IsSound}
use tru.Crypt.{
  xor_from, xor_encrypt_decrypt, ison, packet_key, encrypt_aes, decrypt_aes, encrypt_packet_data,
  decrypt_packet_data,
}

length-xor_from :
    (key : Bytes) (i : ℕ) (input : Bytes) → length (xor_from key i input) ≡ length input
unfolding xor_from
length-xor_from key i [] = refl
length-xor_from key i (b ∷ input) = omega (arith, length-xor_from key (i + 1) input)

xor_from_twice :
    (key : Bytes) (i : ℕ) (input : Bytes) → xor_from key i (xor_from key i input) ≡ input
unfolding xor_from
xor_from_twice key i [] = refl
xor_from_twice key i (b ∷ input) = rw (bit_xor_twice b, xor_from_twice key (i + 1) input)

module _ (p : Primitives) (s : IsSound p) where
  -- With hashes of their documented sizes, a key is never empty. It is at least as long as the
  -- data, or the data is longer than 64 bytes and the key has the 32 bytes of an AES-256 key.
  pub length-packet_key :
      (session_key : Bytes) (id len : ℕ)
      → (16 ≤ length (packet_key p session_key id len))
        × ((len ≤ length (packet_key p session_key id len))
            ⊎ ((64 < len) × (length (packet_key p session_key id len) ≡ 32)))
  unfolding packet_key
  length-packet_key session_key id len =
      let key = session_key ++ put_u32 id in
      (
        ground (arith, s.md5_size key, s.sha1_size key, s.sha256_size key, s.sha512_size key),
        elim (Bool-cases (leb len 64)) [
          | inl e ↦ inl (
              ground
                (arith, e, s.md5_size key, s.sha1_size key, s.sha256_size key, s.sha512_size key))
          | inr e ↦ inr (ground arith, ground (arith, e, s.sha256_size key))
        ],
      )

  packet_key_long :
      (session_key : Bytes) (id m n : ℕ)
      → 64 < m
      → 64 < n
      → packet_key p session_key id m ≡ packet_key p session_key id n
  unfolding packet_key
  packet_key_long session_key id m n h k = ground arith

  decrypt_short :
      (session_key : Bytes) (id : ℕ) (bytes : Bytes)
      → ison session_key ≡ true
      → length bytes ≤ 64
      → decrypt_packet_data p session_key id bytes
        ≡ some (xor_encrypt_decrypt bytes (packet_key p session_key (id % 2 ^ 32) (length bytes)))
  unfolding decrypt_packet_data
  decrypt_short session_key id bytes on h = ground arith

  decrypt_long :
      (session_key : Bytes) (id : ℕ) (bytes : Bytes)
      → ison session_key ≡ true
      → 64 < length bytes
      → decrypt_packet_data p session_key id bytes
        ≡ decrypt_aes p (packet_key p session_key (id % 2 ^ 32) (length bytes)) bytes
  unfolding decrypt_packet_data
  decrypt_long session_key id bytes on h = ground arith

  decrypt_off :
      (session_key : Bytes) (id : ℕ) (bytes : Bytes)
      → ison session_key ≡ false
      → decrypt_packet_data p session_key id bytes ≡ some bytes
  unfolding decrypt_packet_data
  decrypt_off session_key id bytes off = ground arith

  length-xor : (key input : Bytes) → length (xor_encrypt_decrypt input key) ≡ length input
  unfolding xor_encrypt_decrypt
  length-xor key input = length-xor_from key 0 input

  xor_twice : (key input : Bytes) → xor_encrypt_decrypt (xor_encrypt_decrypt input key) key ≡ input
  unfolding xor_encrypt_decrypt
  xor_twice key input = xor_from_twice key 0 input

  decrypt_aes-encrypt_aes :
      (key nonce bytes : Bytes)
      → length nonce ≡ p.nonce_size
      → decrypt_aes p key (encrypt_aes p key nonce bytes) ≡ some bytes
  unfolding decrypt_aes encrypt_aes
  decrypt_aes-encrypt_aes key nonce bytes h =
      ap₂ (p.open_sealed key) (take-append p.nonce_size nonce (p.seal key nonce bytes) h)
        (drop-append p.nonce_size nonce (p.seal key nonce bytes) h)
      ∙ s.open-seal key nonce bytes

  length-encrypt_aes :
      (key nonce bytes : Bytes)
      → length (encrypt_aes p key nonce bytes) ≡ length nonce + (length bytes + 16)
  unfolding encrypt_aes
  length-encrypt_aes key nonce bytes =
      omega (arith, length-append nonce (p.seal key nonce bytes), s.seal_size key nonce bytes)

  -- With sound cryptography, the same session key and packet id, and a nonce of the cipher's
  -- size, the receiver reads what the sender encrypted, before the handshake and after it,
  -- whatever the length.
  pub decrypt_packet_data-encrypt_packet_data :
      (session_key nonce : Bytes) (id : ℕ) (bytes : Bytes)
      → length nonce ≡ p.nonce_size
      → decrypt_packet_data p session_key id (encrypt_packet_data p session_key nonce id bytes)
        ≡ some bytes
  unfolding encrypt_packet_data
  decrypt_packet_data-encrypt_packet_data session_key nonce id bytes h =
      elim (Bool-cases (ison session_key)) [
        | inl on ↦ elim (Bool-cases (leb (length bytes) 64)) [
          | inl short ↦
              let key = packet_key p session_key (id % 2 ^ 32) (length bytes) in
              let boxed = xor_encrypt_decrypt bytes key in
              rw (on, short)
                (decrypt_short session_key id boxed on (ground (arith, length-xor key bytes))
                  ∙ rw (length-xor key bytes) (ap some (xor_twice key bytes)))
          | inr long ↦
              let key = packet_key p session_key (id % 2 ^ 32) (length bytes) in
              let boxed = encrypt_aes p key nonce bytes in
              let size = length-encrypt_aes key nonce bytes in
              rw (on, long)
                (decrypt_long session_key id boxed on (ground (arith, size))
                  ∙ rw
                      (packet_key_long session_key (id % 2 ^ 32) (length boxed) (length bytes)
                        (ground (arith, size)) (ground arith))
                      (decrypt_aes-encrypt_aes key nonce bytes h))
        ]
        | inr off ↦ rw off (decrypt_off session_key id bytes off)
      ]
