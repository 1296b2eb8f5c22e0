-- ===== src/Base/Map.antt =====
-- A Go map as an association list: one entry for a key, and a store replaces it.
use tru.Base.{
  ℕ, ◌++◌, ◌≤◌, ◌<◌, ◌≡◌, ◌↔◌, refl, Bool, true, List, [], ◌∷◌, Option, none, some, arith, ==_iff,
  bytes_eq, bytes_eq_iff, Bytes, if◌then◌else◌, length, ◌==◌, is_some,
}

pub record Eq {ℓ} (A : Type ℓ) : Type ℓ where
  pub beq : A → A → Bool
  pub beq_iff : (a b : A) → (beq a b ≡ true) ↔ (a ≡ b)

instance abbrev pub nat_eq : Eq ℕ
nat_eq = record { beq = ◌==◌; beq_iff = ==_iff }

instance abbrev pub bytes_key : Eq Bytes
bytes_key = record { beq = bytes_eq; beq_iff = bytes_eq_iff }

abbrev pub Map {ℓ κ} : Type ℓ → Type κ → Type (ℓ ⊔ κ)
Map K V = List (K × V)

pub beq_self {ℓ} : {K : Type ℓ} ⦃e : Eq K⦄ → (k : K) → e.beq k k ≡ true
beq_self ⦃e⦄ k = (e.beq_iff k k).1 refl

module _ {ℓ κ} {K : Type ℓ} {V : Type κ} ⦃e : Eq K⦄ where
  unfoldable pub lookup : K → Map K V → Option V
  lookup k [] = none
  lookup k ((j, v) ∷ m) = if e.beq j k then some v else lookup k m

  unfoldable pub insert : K → V → Map K V → Map K V
  insert k v [] = (k, v) ∷ []
  insert k v ((j, w) ∷ m) = if e.beq j k then (k, v) ∷ m else (j, w) ∷ insert k v m

  unfoldable pub delete : K → Map K V → Map K V
  delete k [] = []
  delete k ((j, w) ∷ m) = let rest = delete k m in if e.beq j k then rest else (j, w) ∷ rest

  pub lookup-insert :
      (k j : K) (v : V) (m : Map K V)
      → lookup j (insert k v m) ≡ (if e.beq k j then some v else lookup j m)
  unfolding lookup insert
  lookup-insert k j v [] = refl
  lookup-insert k j v ((i, w) ∷ m) =
      ground (arith, e.beq_iff k j, e.beq_iff i k, e.beq_iff i j, lookup-insert k j v m)

  pub lookup-delete :
      (k j : K) (m : Map K V) → lookup j (delete k m) ≡ (if e.beq k j then none else lookup j m)
  unfolding lookup delete
  lookup-delete k j [] = ground arith
  lookup-delete k j ((i, w) ∷ m) =
      ground (arith, e.beq_iff k j, e.beq_iff i k, e.beq_iff i j, lookup-delete k j m)

  pub length-delete-le : (k : K) (m : Map K V) → length (delete k m) ≤ length m
  unfolding delete
  length-delete-le k [] = omega arith
  length-delete-le k ((j, w) ∷ m) = ground (arith, length-delete-le k m)

  pub length-delete-lt :
      (k : K) (m : Map K V) → is_some (lookup k m) ≡ true → length (delete k m) < length m
  unfolding lookup delete
  length-delete-lt k [] h = ground arith
  length-delete-lt k ((j, w) ∷ m) h = ground (arith, length-delete-le k m, length-delete-lt k m)

  -- An entry put behind the others is found where no other is.
  pub lookup-append :
      (k j : K) (v : V) (m : Map K V)
      → lookup k (m ++ (j, v) ∷ [])
        ≡ (if is_some (lookup k m) then lookup k m else if e.beq j k then some v else none)
  unfolding lookup
  lookup-append k j v [] = refl
  lookup-append k j v ((i, w) ∷ m) = ground (arith, lookup-append k j v m)
