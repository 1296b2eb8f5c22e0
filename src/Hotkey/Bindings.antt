-- ===== src/Hotkey/Bindings.antt =====
-- What a key does after entries are added (hotkey/hotkey.go).
use tru.Base.Map.{Map, bytes_key, lookup, insert, lookup-insert}
use tru.Base.{
  ℕ, ◌<◌, ◌≡◌, refl, Bool, false, ◌||◌, List, [], ◌∷◌, ◌++◌, Option, some, Bytes, arith, bytes_eq,
  if◌then◌else◌, Bool-cases, Option-cases, inl, inr, length, length-append, get_elem?-append_old,
  get_elem?-append_last,
}
use tru.Hotkey.{KeyCode, HotkeyData, Hotkey, Keys, keys_of, bind_all, add, entry}

abbrev pub has_code : Bytes → List KeyCode → Bool
has_code c [] = false
has_code c (l ∷ ls) = bytes_eq l.code c || has_code c ls

lookup-bind_all :
    (ks : List KeyCode) (p : ℕ) (m : Map Bytes ℕ) (c : Bytes)
    → lookup c (bind_all ks p m) ≡ (if has_code c ks then some p else lookup c m)
unfolding bind_all
lookup-bind_all [] p m c = refl
lookup-bind_all (l ∷ ls) p m c =
    ground (arith, lookup-bind_all ls p (insert l.code p m) c, lookup-insert l.code c p m)

module _ {ℓ κ} {A : Type ℓ} {S : Type κ} where
  -- Every key leads to an entry.
  pub record IsValid (h : Hotkey A S) : Type (ℓ ⊔ κ) where
    pub inside : (c : Bytes) (p : ℕ) → lookup c h.hotkeys ≡ some p → p < length h.data_of

  added :
      (ks : List KeyCode) (d : HotkeyData A) (h : Hotkey A S) (c : Bytes)
      → IsValid h
      → let h' = record h {
        hotkeys = bind_all ks (length h.data_of) h.hotkeys;
        data_of = h.data_of ++ d ∷ [];
      } in
        entry c h' ≡ (if has_code c ks then some d else entry c h)
  unfolding entry
  added ks d h c v =
      let found = lookup-bind_all ks (length h.data_of) h.hotkeys c in
      let last = get_elem?-append_last h.data_of d in
      elim (Bool-cases (has_code c ks)) [
        | inl k ↦ ground (arith, found, k, last)
        | inr k ↦ elim (Option-cases (lookup c h.hotkeys)) [
          | inl e ↦ ground (arith, found, k, e)
          | inr (p, e) ↦
              ground (arith, found, k, e, get_elem?-append_old h.data_of d p (v.inside c p e))
        ]
      ]

  -- `Add` fails only for keys of a wrong type. Otherwise, on a menu whose keys all lead to entries,
  -- each of the keys given leads to the new entry from then on, even one that had another entry,
  -- every other key does what it did, and all keys still lead to entries.
  pub entry-add :
      (keys : Keys) (ks : List KeyCode) (description : Bytes) (action : Option A) (h : Hotkey A S)
      → keys_of keys ≡ some ks
      → IsValid h
      → let d : HotkeyData A = record { keys = ks; description = description; action = action } in
        (h' : Hotkey A S) × (add keys description action h ≡ some h')
        × IsValid h'
        × ((c : Bytes) → entry c h' ≡ (if has_code c ks then some d else entry c h))
  unfolding add
  entry-add keys ks description action h e v =
      let d : HotkeyData A = record { keys = ks; description = description; action = action } in
      let h' : Hotkey A S = record h {
        hotkeys = bind_all ks (length h.data_of) h.hotkeys;
        data_of = h.data_of ++ d ∷ [];
      } in
      let valid : IsValid h' = record {
        inside = λ c p at.
            let found = lookup-bind_all ks (length h.data_of) h.hotkeys c in
            let longer = length-append h.data_of (d ∷ []) in
            elim (Bool-cases (has_code c ks)) [
              | inl k ↦ ground (arith, found, at, k, longer)
              | inr k ↦ ground (arith, found, at, k, longer, v.inside c p)
            ];
      } in
      (h', rw (e, add) refl, valid, λ c. added ks d h c v)
