-- ===== src/Crypt.antt =====
-- crypt.go: the session cipher of a channel and the RSA boxes of the handshake. The hashes, AES-GCM,
-- RSA-OAEP and the key encoding are Go's, and enter as a record.
pub mod Library
pub mod Session
pub mod Rsa
pub mod Keys
use Prim.Native.Nat.{bit_xor}
use tru.Base.Endian.{put_u32}
use tru.Base.Text.{codes}
use tru.Base.{
  ◌>>=◌, ℕ, zero, suc, ◌+◌, ◌%◌, ◌^◌, Bool, List, [], ◌∷◌, ◌++◌, Option, none, some, Bytes, ltb,
  leb, if◌then◌else◌, length, take, drop, get_elem?,
}
use Library.{Primitives}

-- `key[i % len(key)]`; an empty key, for which Go panics, is never used, see `Session.length-packet_key`.
unfoldable pub key_byte : Bytes → ℕ → ℕ
key_byte key i = elim (get_elem? key (i % length key)) [ none ↦ 0 | some k ↦ k ]

-- The loop of `xorEncryptDecrypt` from index `i`.
unfoldable pub xor_from : Bytes → ℕ → Bytes → Bytes
xor_from key i [] = []
xor_from key i (b ∷ input) = bit_xor b (key_byte key i) ∷ xor_from key (i + 1) input

unfoldable pub xor_encrypt_decrypt : Bytes → Bytes → Bytes
xor_encrypt_decrypt input key = xor_from key 0 input

-- The session key is empty until the handshake is over.
unfoldable pub ison : Bytes → Bool
ison session_key = ltb 0 (length session_key)

abbrev pub split_encrypt : ℕ
split_encrypt = 62

abbrev pub split_decrypt : ℕ
split_decrypt = 128

module _ (p : Primitives) where
  open p use {
    PrivateKey, PublicKey, md5, sha1, sha256, sha512, nonce_size, seal, open_sealed, encrypt_oaep,
    decrypt_oaep, pem_encode, pem_decode, marshal_pkix, parse_pkix,
  }

  unfoldable pub packet_key : Bytes → ℕ → ℕ → Bytes
  packet_key session_key id len =
      let key = session_key ++ put_u32 id in
      if leb len 16
      then md5 key
      else if leb len 20
      then sha1 key
      else if leb len 32
      then sha256 key
      else if leb len 64
      then sha512 key
      else sha256 key

  -- `nonce` is what `rand.Reader` gives. NewCipher and NewGCM take a key of 32 bytes.
  unfoldable pub encrypt_aes : Bytes → Bytes → Bytes → Bytes
  encrypt_aes key nonce bytes = nonce ++ seal key nonce bytes

  unfoldable pub decrypt_aes : Bytes → Bytes → Option Bytes
  decrypt_aes key bytes = open_sealed key (take nonce_size bytes) (drop nonce_size bytes)

  unfoldable pub encrypt_packet_data : Bytes → Bytes → ℕ → Bytes → Bytes
  encrypt_packet_data session_key nonce id bytes =
      let key = packet_key session_key (id % 2 ^ 32) (length bytes) in
      if ison session_key
      then if leb (length bytes) 64
        then xor_encrypt_decrypt bytes key
        else encrypt_aes key nonce bytes
      else bytes

  -- `none` is the error of `aesGCM.Open`.
  unfoldable pub decrypt_packet_data : Bytes → ℕ → Bytes → Option Bytes
  decrypt_packet_data session_key id bytes =
      let key = packet_key session_key (id % 2 ^ 32) (length bytes) in
      if ison session_key
      then if leb (length bytes) 64
        then some (xor_encrypt_decrypt bytes key)
        else decrypt_aes key bytes
      else some bytes

  -- `encrypt`: the input in pieces of 62 bytes, each with a random seed. The first number is the
  -- fuel, for which the length of the input is enough.
  unfoldable pub encrypt : ℕ → (ℕ → ℕ) → PublicKey → Bytes → Option Bytes
  encrypt fuel seed key [] = some []
  encrypt zero seed key (b ∷ input) = none
  encrypt (suc fuel) seed key (b ∷ input) =
      elim (encrypt_oaep (seed fuel) key (take split_encrypt (b ∷ input))) [
        | none ↦ none
        | some piece ↦ elim (encrypt fuel seed key (drop split_encrypt (b ∷ input))) [
          | none ↦ none
          | some rest ↦ some (piece ++ rest)
        ]
      ]

  -- `decrypt`: the input in pieces of 128 bytes.
  unfoldable pub decrypt : ℕ → PrivateKey → Bytes → Option Bytes
  decrypt fuel key [] = some []
  decrypt zero key (b ∷ input) = none
  decrypt (suc fuel) key (b ∷ input) = elim (decrypt_oaep key (take split_decrypt (b ∷ input))) [
    | none ↦ none
    | some piece ↦ elim (decrypt fuel key (drop split_decrypt (b ∷ input))) [
      | none ↦ none
      | some rest ↦ some (piece ++ rest)
    ]
  ]

  -- `publicKeyToBytes`
  unfoldable pub public_key_to_bytes : PublicKey → Bytes
  public_key_to_bytes key = pem_encode (codes "RSA PUBLIC KEY") (marshal_pkix key)

  -- `bytesToPublicKey`: no PEM block, no PKIX key, and a key of another kind are errors.
  unfoldable pub bytes_to_public_key : Bytes → Option PublicKey
  bytes_to_public_key pub_key = do block ← pem_decode pub_key; ifc ← parse_pkix block; ifc
