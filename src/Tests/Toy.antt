-- ===== src/Tests/Toy.antt =====
-- A concrete stand-in for Go's cryptography: it hides nothing and meets what is assumed.
use tru.Base.{
  ℕ, zero, suc, ◌-◌, ◌≤◌, ◌≡◌, refl, ap, ◌∙◌, [], ◌∷◌, ◌++◌, Bytes, Option, none, some, arith, leb,
  if◌then◌else◌, length, length-append, length-take, take, take-append,
}
use tru.Crypt.Library.{Primitives, IsSound}

abbrev pub zeros : ℕ → Bytes
zeros zero = []
zeros (suc n) = 0 ∷ zeros n

length-zeros : (n : ℕ) → length (zeros n) ≡ n
length-zeros zero = refl
length-zeros (suc n) = ap suc (length-zeros n)

-- The first `n` bytes, filled up with zeros.
unfoldable pub pad : ℕ → Bytes → Bytes
pad n b = take n (b ++ zeros n)

length-pad : (n : ℕ) (b : Bytes) → length (pad n b) ≡ n
unfolding pad
length-pad n b =
    omega (arith, length-take n (b ++ zeros n), length-append b (zeros n), length-zeros n)

take-take : (m n : ℕ) (b : Bytes) → m ≤ n → take m (take n b) ≡ take m b
take-take zero n b h = refl
take-take (suc m) zero b h = absurd (omega arith)
take-take (suc m) (suc n) [] h = refl
take-take (suc m) (suc n) (x ∷ b) h = ap (◌∷◌ x) (take-take m n b (omega arith))

take-pad : (n : ℕ) (b : Bytes) → length b ≤ n → take (length b) (pad n b) ≡ b
unfolding pad
take-pad n b h = take-take (length b) n (b ++ zeros n) h ∙ take-append (length b) b (zeros n) refl

unfoldable pub unseal : Bytes → Option Bytes
unseal c = some (take (length c - 16) c)

unseal-seal : (b : Bytes) → unseal (b ++ zeros 16) ≡ some b
unfolding unseal
unseal-seal b =
    ap (λ (k : ℕ). some (take k (b ++ zeros 16))) (omega (arith, length-append b (zeros 16)))
    ∙ ap some (take-append (length b) b (zeros 16) refl)

unfoldable pub unbox : Bytes → Option Bytes
unbox [] = none
unbox (n ∷ b) = some (take n b)

abbrev pub toy : Primitives
toy = record {
  PrivateKey = Unit {0};
  PublicKey = Unit {0};
  public_key = λ k. k;
  md5 = pad 16;
  sha1 = pad 20;
  sha256 = pad 32;
  sha512 = pad 64;
  nonce_size = 12;
  seal = λ key nonce b. b ++ zeros 16;
  open_sealed = λ key nonce c. unseal c;
  encrypt_oaep = λ seed key b. if leb (length b) 62 then some (length b ∷ pad 127 b) else none;
  decrypt_oaep = λ key c. unbox c;
  pem_encode = λ type b. b;
  pem_decode = λ b. some b;
  marshal_pkix = λ key. 7 ∷ [];
  parse_pkix = λ b. some (some tt);
}

box :
    (b : Bytes)
    → length b ≤ 62
    → (c : Bytes) × ((if leb (length b) 62 then some (length b ∷ pad 127 b) else none) ≡ some c)
      × (length c ≡ 128)
      × (unbox c ≡ some b)
unfolding unbox
box b h = (
  length b ∷ pad 127 b,
  ground arith,
  omega (arith, length-pad 127 b),
  ap some (take-pad 127 b (omega arith)),
)

pub toy-IsSound : IsSound toy
toy-IsSound = record {
  md5_size = length-pad 16;
  sha1_size = length-pad 20;
  sha256_size = length-pad 32;
  sha512_size = length-pad 64;
  open-seal = λ key nonce b. unseal-seal b;
  seal_size = λ key nonce b. length-append b (zeros 16);
  decrypt-encrypt = λ seed key b h. box b h;
  pem_decode-pem_encode = λ type b. refl;
  parse_pkix-marshal_pkix = λ key. refl;
}
