-- ===== src/Base/Sort.antt =====
-- `sort.Slice` by a string, and `<` on strings: bytes from the first one on.
use tru.Base.{
  ◌≡◌, ◌↔◌, refl, sym, ap, ◌∙◌, subst, ◌⊎◌, inl, inr, Bool, true, false, List, [], ◌∷◌, map, Bytes,
  arith, ltb, if◌then◌else◌, Bool-cases,
}
use mathlib.Core.Path.{ap₂}
use mathlib.Core.List.{Memᴰ}
use mathlib.Core.List.Memᴰ

unfoldable pub bytes_lt : Bytes → Bytes → Bool
bytes_lt x [] = false
bytes_lt [] (b ∷ y) = true
bytes_lt (a ∷ x) (b ∷ y) =
    let rest = bytes_lt x y in if ltb a b then true else if ltb b a then false else rest

bytes_lt_irrefl : (x : Bytes) → bytes_lt x x ≡ false
unfolding bytes_lt
bytes_lt_irrefl [] = refl
bytes_lt_irrefl (a ∷ x) = ground (arith, bytes_lt_irrefl x)

bytes_lt_asym : (x y : Bytes) → bytes_lt x y ≡ true → bytes_lt y x ≡ true → ⊥
unfolding bytes_lt
bytes_lt_asym x [] h k = ground arith
bytes_lt_asym [] (b ∷ y) h k = ground arith
bytes_lt_asym (a ∷ x) (b ∷ y) h k = ground (arith, h, k, bytes_lt_asym x y)

pub bytes_lt_trans :
    (x y z : Bytes) → bytes_lt x y ≡ true → bytes_lt y z ≡ true → bytes_lt x z ≡ true
unfolding bytes_lt
bytes_lt_trans x [] z h k = ground arith
bytes_lt_trans x (b ∷ y) [] h k = ground arith
bytes_lt_trans [] (b ∷ y) (c ∷ z) h k = refl
bytes_lt_trans (a ∷ x) (b ∷ y) (c ∷ z) h k = ground (arith, h, k, bytes_lt_trans x y z)

bytes_lt_total : (x y : Bytes) → bytes_lt x y ≡ false → bytes_lt y x ≡ false → x ≡ y
unfolding bytes_lt
bytes_lt_total [] [] h k = refl
bytes_lt_total [] (b ∷ y) h k = ground arith
bytes_lt_total (a ∷ x) [] h k = ground arith
bytes_lt_total (a ∷ x) (b ∷ y) h k =
    let same : a ≡ b = ground (arith, h, k) in
    ap₂ ◌∷◌ same (bytes_lt_total x y (ground (arith, h, k, same)) (ground (arith, h, k, same)))

module _ {ℓ} {A : Type ℓ} (key : A → Bytes) where
  unfoldable pub insert_by : A → List A → List A
  insert_by x [] = x ∷ []
  insert_by x (y ∷ l) =
      let rest = insert_by x l in if bytes_lt (key x) (key y) then x ∷ y ∷ l else y ∷ rest

  unfoldable pub sort_by : List A → List A
  sort_by [] = []
  sort_by (x ∷ l) = insert_by x (sort_by l)

  -- No two elements with the same key.
  abbrev pub AreDistinct : List A → Type ℓ
  AreDistinct [] = Unit
  AreDistinct (x ∷ l) = ((y : A) → Memᴰ y l → ¬ (key x ≡ key y)) × AreDistinct l

  abbrev pub IsSorted : List A → Type ℓ
  IsSorted [] = Unit
  IsSorted (x ∷ l) = ((y : A) → Memᴰ y l → bytes_lt (key x) (key y) ≡ true) × IsSorted l

  Mem-insert_by : (x y : A) (l : List A) → Memᴰ y (insert_by x l) → (y ≡ x) ⊎ Memᴰ y l
  unfolding insert_by
  Mem-insert_by x y [] h = Memᴰ.cases_cons h
  Mem-insert_by x y (z ∷ l) h = elim (Bool-cases (bytes_lt (key x) (key z))) [
    | inl k ↦ Memᴰ.cases_cons (subst (λ (m : List A). Memᴰ y m) (rw k refl) h)
    | inr k ↦ elim (Memᴰ.cases_cons (subst (λ (m : List A). Memᴰ y m) (rw k refl) h)) [
      | inl e ↦ inr (Memᴰ.head e)
      | inr i ↦ elim (Mem-insert_by x y l i) [ inl e ↦ inl e | inr j ↦ inr (Memᴰ.tail j) ]
    ]
  ]

  insert_by-Mem : (x y : A) (l : List A) → (y ≡ x) ⊎ Memᴰ y l → Memᴰ y (insert_by x l)
  unfolding insert_by
  insert_by-Mem x y [] h = elim h [ inl e ↦ Memᴰ.head e | inr m ↦ Memᴰ.tail m ]
  insert_by-Mem x y (z ∷ l) h = elim (Bool-cases (bytes_lt (key x) (key z))) [
    | inl k ↦ rw k (elim h [ inl e ↦ Memᴰ.head e | inr m ↦ Memᴰ.tail m ])
    | inr k ↦ rw k (elim h [
      | inl e ↦ Memᴰ.tail (insert_by-Mem x y l (inl e))
      | inr m ↦ elim (Memᴰ.cases_cons m) [
        | inl e ↦ Memᴰ.head e
        | inr i ↦ Memᴰ.tail (insert_by-Mem x y l (inr i))
      ]
    ])
  ]

  -- Sorting moves the elements only.
  pub Mem-sort_by : (y : A) (l : List A) → Memᴰ y l ↔ Memᴰ y (sort_by l)
  unfolding sort_by
  Mem-sort_by y [] = (λ m. m, λ m. m)
  Mem-sort_by y (x ∷ l) = (
    λ m. elim (Memᴰ.cases_cons m) [
      | inl e ↦ insert_by-Mem x y (sort_by l) (inl e)
      | inr i ↦ insert_by-Mem x y (sort_by l) (inr ((Mem-sort_by y l).0 i))
    ],
    λ m. elim (Mem-insert_by x y (sort_by l) m) [
      | inl e ↦ Memᴰ.head e
      | inr i ↦ Memᴰ.tail ((Mem-sort_by y l).1 i)
    ],
  )

  insert_by-IsSorted :
      (x : A) (l : List A)
      → ((y : A) → Memᴰ y l → ¬ (key x ≡ key y))
      → IsSorted l
      → IsSorted (insert_by x l)
  unfolding insert_by
  insert_by-IsSorted x [] new s = (λ y m. absurd (Memᴰ.not-nil m), tt)
  insert_by-IsSorted x (z ∷ l) new (least, s) = elim (Bool-cases (bytes_lt (key x) (key z))) [
    | inl k ↦ rw k (
      λ y m. elim (Memᴰ.cases_cons m) [
        | inl e ↦ ap (λ (w : A). bytes_lt (key x) (key w)) e ∙ k
        | inr i ↦ bytes_lt_trans (key x) (key z) (key y) k (least y i)
      ],
      (least, s),
    )
    | inr k ↦
        let after : bytes_lt (key z) (key x) ≡ true = elim (Bool-cases (bytes_lt (key z) (key x))) [
          | inl t ↦ t
          | inr f ↦ absurd (new z (Memᴰ.head refl) (bytes_lt_total (key x) (key z) k f))
        ] in
        rw k (
          λ y m. elim (Mem-insert_by x y l m) [
            | inl e ↦ ap (λ (w : A). bytes_lt (key z) (key w)) e ∙ after
            | inr i ↦ least y i
          ],
          insert_by-IsSorted x l (λ y m. new y (Memᴰ.tail m)) s,
        )
  ]

  pub sort_by-IsSorted : (l : List A) → AreDistinct l → IsSorted (sort_by l)
  unfolding sort_by
  sort_by-IsSorted [] d = tt
  sort_by-IsSorted (x ∷ l) (new, d) =
      insert_by-IsSorted x (sort_by l) (λ y m. new y ((Mem-sort_by y l).1 m)) (sort_by-IsSorted l d)

  -- There is only one way to sort.
  pub IsSorted-unique :
      (a b : List A) → IsSorted a → IsSorted b → ((y : A) → Memᴰ y a ↔ Memᴰ y b) → a ≡ b
  IsSorted-unique [] [] s t m = refl
  IsSorted-unique [] (y ∷ b) s t m = absurd (Memᴰ.not-nil ((m y).1 (Memᴰ.head refl)))
  IsSorted-unique (x ∷ a) [] s t m = absurd (Memᴰ.not-nil ((m x).0 (Memᴰ.head refl)))
  IsSorted-unique (x ∷ a) (y ∷ b) (ls, s) (lt, t) m =
      let same : x ≡ y = elim (Memᴰ.cases_cons ((m x).0 (Memᴰ.head refl))) [
        | inl e ↦ e
        | inr i ↦ elim (Memᴰ.cases_cons ((m y).1 (Memᴰ.head refl))) [
          | inl e ↦ sym e
          | inr j ↦ absurd (bytes_lt_asym (key x) (key y) (ls y j) (lt x i))
        ]
      ] in
      let rest : (z : A) → Memᴰ z a ↔ Memᴰ z b = λ z. (
        λ i. elim (Memᴰ.cases_cons ((m z).0 (Memᴰ.tail i))) [
          | inl e ↦ absurd (not_self x z (e ∙ sym same) (ls z i))
          | inr j ↦ j
        ],
        λ j. elim (Memᴰ.cases_cons ((m z).1 (Memᴰ.tail j))) [
          | inl e ↦ absurd (not_self y z (e ∙ same) (lt z j))
          | inr i ↦ i
        ],
      ) in
      ap₂ ◌∷◌ same (IsSorted-unique a b s t rest)
    where
      not_self : (u v : A) → v ≡ u → ¬ (bytes_lt (key u) (key v) ≡ true)
      not_self u v e h =
          ground (arith, h, ap (λ (w : A). bytes_lt (key u) (key w)) e, bytes_lt_irrefl (key u))

-- A function that keeps the keys can be applied before or after.
module _ {ℓ} {A : Type ℓ} (key : A → Bytes) (f : A → A) (keeps : (x : A) → key (f x) ≡ key x) where
  map-insert_by : (x : A) (l : List A) → map f (insert_by key x l) ≡ insert_by key (f x) (map f l)
  unfolding insert_by
  map-insert_by x [] = refl
  map-insert_by x (y ∷ l) = elim (Bool-cases (bytes_lt (key x) (key y))) [
    | inl k ↦ rw (keeps x, keeps y, k) refl
    | inr k ↦ rw (keeps x, keeps y, k) (ap (◌∷◌ (f y)) (map-insert_by x l))
  ]

  pub map-sort_by : (l : List A) → map f (sort_by key l) ≡ sort_by key (map f l)
  unfolding sort_by
  map-sort_by [] = refl
  map-sort_by (x ∷ l) = map-insert_by x (sort_by key l) ∙ ap (insert_by key (f x)) (map-sort_by l)
