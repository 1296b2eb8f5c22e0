-- ===== src/Base/Endian.antt =====
-- encoding/binary, little endian, as far as the program uses it: a uint32 and what follows it.
use tru.Base.{
  ℕ, ◌+◌, ◌*◌, ◌/◌, ◌%◌, ◌^◌, ◌<◌, ◌≤◌, ◌≡◌, refl, [], ◌∷◌, ◌++◌, Option, none, some, arith, Bytes,
  All, IsByte, length,
}

unfoldable pub put_u32 : ℕ → Bytes
put_u32 n = n % 256 ∷ n / 2 ^ 8 % 256 ∷ n / 2 ^ 16 % 256 ∷ n / 2 ^ 24 % 256 ∷ []

-- `none` where fewer than four bytes are left.
unfoldable pub get_u32 : Bytes → Option (ℕ × Bytes)
get_u32 (a ∷ b ∷ c ∷ d ∷ rest) = some (a + b * 2 ^ 8 + c * 2 ^ 16 + d * 2 ^ 24, rest)
get_u32 _ = none

pub get_u32-put_u32 :
    (n : ℕ) (rest : Bytes) → n < 2 ^ 32 → get_u32 (put_u32 n ++ rest) ≡ some (n, rest)
unfolding put_u32 get_u32
get_u32-put_u32 n rest h = ground arith

-- Reading fails on fewer than four bytes only.
pub get_u32_short : (bytes : Bytes) → length bytes < 4 → get_u32 bytes ≡ none
unfolding get_u32
get_u32_short [] h = refl
get_u32_short (a ∷ []) h = refl
get_u32_short (a ∷ b ∷ []) h = refl
get_u32_short (a ∷ b ∷ c ∷ []) h = refl
get_u32_short (a ∷ b ∷ c ∷ d ∷ rest) h = absurd (omega arith)

-- What was read, with its range and the length of the rest.
pub get_u32_long :
    (bytes : Bytes)
    → 4 ≤ length bytes
    → All IsByte bytes
    → (n : ℕ) × (rest : Bytes) × (get_u32 bytes ≡ some (n, rest))
      × (n < 2 ^ 32)
      × (length bytes ≡ 4 + length rest)
      × (bytes ≡ put_u32 n ++ rest)
unfolding get_u32 put_u32
get_u32_long [] h b = absurd (omega arith)
get_u32_long (x ∷ []) h b = absurd (omega arith)
get_u32_long (x ∷ y ∷ []) h b = absurd (omega arith)
get_u32_long (x ∷ y ∷ z ∷ []) h b = absurd (omega arith)
get_u32_long (x ∷ y ∷ z ∷ w ∷ rest) h b = (_, rest, refl, omega arith, omega arith, ground arith)
