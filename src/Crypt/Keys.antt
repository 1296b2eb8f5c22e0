-- ===== src/Crypt/Keys.antt =====
-- The public keys of the handshake as bytes, and the session keys (crypt.go).
use tru.Base.Text.{codes}
use tru.Base.{◌≡◌, refl, some}
use tru.Crypt.Library.{Primitives, IsSound}
use tru.Crypt.{public_key_to_bytes, bytes_to_public_key}

module _ (p : Primitives) (s : IsSound p) where
  pub bytes_to_public_key-public_key_to_bytes :
      (key : p.PublicKey) → bytes_to_public_key p (public_key_to_bytes p key) ≡ some key
  unfolding bytes_to_public_key public_key_to_bytes
  bytes_to_public_key-public_key_to_bytes key =
      rw (s.pem_decode-pem_encode (codes "RSA PUBLIC KEY") (p.marshal_pkix key))
        (rw (s.parse_pkix-marshal_pkix key) refl)
