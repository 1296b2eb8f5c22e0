-- ===== src/Connector/Loops/Close.antt =====
-- The end of a connector (tru.go, channel.go).
use tru.Base.Map.{Map, bytes_key, lookup}
use tru.Base.{
  ℕ, ◌≡◌, ◌⊎◌, inl, inr, List, [], ◌∷◌, map, none, some, Bytes, arith, Option-cases, Bool-cases,
  bytes_eq, bytes_eq_iff, if◌then◌else◌,
}
use tru.Channel.{Channel}
use tru.Connector.Loops.{close_channel, for_each_channel, addresses, close_all}
use tru.Connector.Serve.Open.{AllOpen}
use tru.Connector.Lookup.{get_channel-destroy_channel}
use tru.Connector.{Tru, get_channel}
use tru.Crypt.Library.{Primitives}

abbrev IsOneOf : Bytes → List Bytes → Type 0
IsOneOf a [] = ⊥
IsOneOf a (b ∷ bs) = (b ≡ a) ⊎ IsOneOf a bs

IsOneOf-keys :
    (a : Bytes) (m : Map Bytes Channel) {ch : Channel}
    → lookup a m ≡ some ch
    → IsOneOf a (map (λ (c : Bytes × Channel). c.0) m)
unfolding lookup
IsOneOf-keys a [] h = absurd (ground (arith, h))
IsOneOf-keys a ((b, c) ∷ m) {ch} h = elim (Bool-cases (bytes_eq b a)) [
  | inl e ↦ inl ((bytes_eq_iff b a).0 e)
  | inr e ↦ let there : lookup a m ≡ some ch = ground (arith, h, e) in inr (IsOneOf-keys a m there)
]

module _ {p : Primitives} where
  -- A close takes the channel at its address away, if it is alive, and no other.
  get_channel-close_channel :
      (now : ℕ) (addr other : Bytes) (tru : Tru p)
      → AllOpen tru
      → get_channel other (close_channel now addr tru)
        ≡ (if bytes_eq addr other then none else get_channel other tru)
  unfolding close_channel get_channel
  get_channel-close_channel now addr other tru v = elim (Option-cases (lookup addr tru.channels)) [
    | inl e ↦ elim (Bool-cases (bytes_eq addr other)) [
      | inl same ↦ ground (arith, e, same, (bytes_eq_iff addr other).0 same)
      | inr apart ↦ ground (arith, e, apart)
    ]
    | inr (ch, e) ↦
        ground (arith, e, (v addr ch e).alive, get_channel-destroy_channel addr other tru)
  ]

  close_channel-AllOpen :
      (now : ℕ) (addr : Bytes) (tru : Tru p) → AllOpen tru → AllOpen (close_channel now addr tru)
  close_channel-AllOpen now addr tru v other ch h =
      let h' = rw (get_channel-close_channel now addr other tru v) at h in
      v other ch (ground (arith, h'))

  for_each_channel-close :
      (now : ℕ) (addrs : List Bytes) (other : Bytes) (tru : Tru p)
      → AllOpen tru
      → (get_channel other tru ≡ none) ⊎ IsOneOf other addrs
      → get_channel other (for_each_channel (close_channel now) addrs tru) ≡ none
  unfolding for_each_channel
  for_each_channel-close now [] other tru v (inl e) = e
  for_each_channel-close now [] other tru v (inr x) = elim x [ ]
  for_each_channel-close now (addr ∷ rest) other tru v known =
      for_each_channel-close now rest other (close_channel now addr tru)
        (close_channel-AllOpen now addr tru v)
        (elim known [
          | inl e ↦ inl (ground (arith, get_channel-close_channel now addr other tru v, e))
          | inr (inl e) ↦ inl (
              ground (
                arith,
                get_channel-close_channel now addr other tru v,
                (bytes_eq_iff addr other).1 e,
              ))
          | inr (inr e) ↦ inr e
        ])

  -- When a connector whose channels are all open is closed, no channel is left at any address.
  pub close_all_empty :
      (now : ℕ) (addr : Bytes) (tru : Tru p)
      → AllOpen tru
      → get_channel addr (close_all now tru) ≡ none
  unfolding close_all addresses get_channel
  close_all_empty now addr tru v = elim (Option-cases (get_channel addr tru)) [
    | inl e ↦ for_each_channel-close now (addresses tru) addr tru v (inl e)
    | inr (ch, e) ↦
        for_each_channel-close now (addresses tru) addr tru v
          (inr (IsOneOf-keys addr tru.channels e))
  ]
