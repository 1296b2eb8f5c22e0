-- ===== src/Crypt/Rsa.antt =====
-- The RSA boxes (crypt.go).
use tru.Base.{
  ℕ, zero, suc, ◌≤◌, ◌≡◌, refl, ap, ◌∙◌, [], ◌∷◌, ◌++◌, some, Bytes, arith, length, length-append,
  take-append, drop-append, take, drop, length-take, length-drop, take-append-drop,
}
use tru.Crypt.Library.{Primitives, IsSound}
use tru.Crypt.{encrypt, decrypt, split_encrypt, split_decrypt}

module _ (p : Primitives) (s : IsSound p) (key : p.PrivateKey) where
  decrypt_nil : (fuel : ℕ) → decrypt p fuel key [] ≡ some []
  unfolding decrypt
  decrypt_nil zero = refl
  decrypt_nil (suc fuel) = refl

  decrypt_piece :
      (fuel : ℕ) (piece rest : Bytes) {b bs : Bytes}
      → length piece ≡ split_decrypt
      → p.decrypt_oaep key piece ≡ some b
      → decrypt p fuel key rest ≡ some bs
      → decrypt p (suc fuel) key (piece ++ rest) ≡ some (b ++ bs)
  unfolding decrypt
  decrypt_piece fuel [] rest size one others = absurd (omega arith)
  decrypt_piece fuel (x ∷ piece) rest size one others = ground (
    arith,
    one,
    others,
    take-append split_decrypt (x ∷ piece) rest size,
    drop-append split_decrypt (x ∷ piece) rest size,
  )

  decrypt_boxed :
      (more : ℕ) (piece rest input : Bytes)
      → length piece ≡ split_decrypt
      → p.decrypt_oaep key piece ≡ some (take split_encrypt input)
      → ((fuel : ℕ)
          → length rest ≤ fuel
          → decrypt p fuel key rest ≡ some (drop split_encrypt input))
      → length (piece ++ rest) ≤ more
      → decrypt p more key (piece ++ rest) ≡ some input
  decrypt_boxed zero piece rest input size one others h =
      absurd (omega (arith, length-append piece rest))
  decrypt_boxed (suc more) piece rest input size one others h =
      decrypt_piece more piece rest size one (others more (omega (arith, length-append piece rest)))
      ∙ ap some (take-append-drop split_encrypt input)

  decrypt-encrypt_enough :
      (fuel : ℕ) (seed : ℕ → ℕ) (input : Bytes)
      → length input ≤ fuel
      → (boxed : Bytes) × (encrypt p fuel seed (p.public_key key) input ≡ some boxed)
        × ((more : ℕ) → length boxed ≤ more → decrypt p more key boxed ≡ some input)
  unfolding encrypt
  decrypt-encrypt_enough zero seed [] h = ([], refl, λ more _. decrypt_nil more)
  decrypt-encrypt_enough (suc fuel) seed [] h = ([], refl, λ more _. decrypt_nil more)
  decrypt-encrypt_enough zero seed (b ∷ input) h = absurd (omega arith)
  decrypt-encrypt_enough (suc fuel) seed (b ∷ input) h =
      let all = b ∷ input in
      let (piece, boxed, size, one) =
        s.decrypt-encrypt (seed fuel) key (take split_encrypt all)
          (omega (arith, length-take split_encrypt all)) in
      let (rest, more_boxed, others) =
        decrypt-encrypt_enough fuel seed (drop split_encrypt all)
          (omega (arith, length-drop split_encrypt all)) in
      (
        piece ++ rest,
        ground (arith, boxed, more_boxed),
        λ more m. decrypt_boxed more piece rest all size one others m,
      )

  -- With sound cryptography, what is encrypted for a key is decrypted by it to the input,
  -- whatever its length; the lengths are fuel enough on both sides.
  pub decrypt-encrypt_lem :
      (fuel : ℕ) (seed : ℕ → ℕ) (input : Bytes)
      → length input ≤ fuel
      → (boxed : Bytes) × (encrypt p fuel seed (p.public_key key) input ≡ some boxed)
        × (decrypt p (length boxed) key boxed ≡ some input)
  decrypt-encrypt_lem fuel seed input h =
      let (boxed, made, opens) = decrypt-encrypt_enough fuel seed input h in
      (boxed, made, opens (length boxed) (omega arith))
