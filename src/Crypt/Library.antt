-- ===== src/Crypt/Library.antt =====
-- The cryptography that crypt.go takes from Go's library, and what it documents of it.
use tru.Base.{ℕ, ◌+◌, ◌≤◌, ◌≡◌, Bytes, Option, some, length}

pub record Primitives : Type 1 where
  pub PrivateKey : Type 0
  pub PublicKey : Type 0
  pub public_key : PrivateKey → PublicKey
  pub md5 : Bytes → Bytes
  pub sha1 : Bytes → Bytes
  pub sha256 : Bytes → Bytes
  pub sha512 : Bytes → Bytes
  pub nonce_size : ℕ
  -- key, nonce and data
  pub seal : Bytes → Bytes → Bytes → Bytes
  pub open_sealed : Bytes → Bytes → Bytes → Option Bytes
  -- seed, key and message; the hash is SHA-256 and the key has 1024 bits
  pub encrypt_oaep : ℕ → PublicKey → Bytes → Option Bytes
  pub decrypt_oaep : PrivateKey → Bytes → Option Bytes
  -- a PEM block of a type, and the bytes of a block
  pub pem_encode : Bytes → Bytes → Bytes
  pub pem_decode : Bytes → Option Bytes
  -- PKIX; a key that is read may be of another kind than RSA
  pub marshal_pkix : PublicKey → Bytes
  pub parse_pkix : Bytes → Option (Option PublicKey)

-- The documented behaviour.
pub record IsSound (p : Primitives) : Type 0 where
  pub md5_size : (b : Bytes) → length (p.md5 b) ≡ 16
  pub sha1_size : (b : Bytes) → length (p.sha1 b) ≡ 20
  pub sha256_size : (b : Bytes) → length (p.sha256 b) ≡ 32
  pub sha512_size : (b : Bytes) → length (p.sha512 b) ≡ 64
  -- a sealed text opens, and is longer than the data by the tag
  pub open-seal : (key nonce b : Bytes) → p.open_sealed key nonce (p.seal key nonce b) ≡ some b
  pub seal_size : (key nonce b : Bytes) → length (p.seal key nonce b) ≡ length b + 16
  -- a message of at most 128 - 2 * 32 - 2 bytes makes 128 bytes, which the private key reads
  pub decrypt-encrypt :
      (seed : ℕ) (key : p.PrivateKey) (b : Bytes)
      → length b ≤ 62
      → (c : Bytes) × (p.encrypt_oaep seed (p.public_key key) b ≡ some c)
        × (length c ≡ 128)
        × (p.decrypt_oaep key c ≡ some b)
  pub pem_decode-pem_encode : (type b : Bytes) → p.pem_decode (p.pem_encode type b) ≡ some b
  pub parse_pkix-marshal_pkix :
      (key : p.PublicKey) → p.parse_pkix (p.marshal_pkix key) ≡ some (some key)
