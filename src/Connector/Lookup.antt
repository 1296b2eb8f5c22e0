-- ===== src/Connector/Lookup.antt =====
-- What is found in a connector after a channel is opened or changed (channel.go).
use tru.Base.Map.{bytes_key, beq_self, lookup, insert, lookup-insert, lookup-delete}
use tru.Base.{
  ℕ, ◌≡◌, refl, none, if◌then◌else◌, Bool, false, some, Bytes, arith, bytes_eq, Option-cases, inl,
  inr,
}
use tru.Channel
use tru.Channel.{Channel, new_channel}
use tru.Connector.{Tru, open_channel, get_channel, update_channel, destroy_channel}
use tru.Crypt.Library.{Primitives}

module _ {p : Primitives} where
  pub get_channel-open_channel :
      (now : ℕ) (addr : Bytes) (mode : Bool) (tru : Tru p)
      → get_channel addr (open_channel now addr mode tru)
        ≡ some (new_channel now addr mode tru.send_delay tru.max_len)
  unfolding get_channel open_channel
  get_channel-open_channel now addr mode tru = ground (
    arith,
    beq_self addr,
    lookup-insert addr addr (new_channel now addr mode tru.send_delay tru.max_len) tru.channels,
  )

  pub get_channel-update_channel :
      (addr : Bytes) (f : Channel → Channel) (tru : Tru p) {ch : Channel}
      → get_channel addr tru ≡ some ch
      → get_channel addr (update_channel addr f tru) ≡ some (f ch)
  unfolding get_channel update_channel
  get_channel-update_channel addr f tru {ch} h =
      ground (arith, h, beq_self addr, lookup-insert addr addr (f ch) tru.channels)

  pub update_channel_keeps :
      (addr : Bytes) (f : Channel → Channel) (tru : Tru p)
      → let tru' = update_channel addr f tru in
        (tru'.private_key ≡ tru.private_key)
        × (tru'.connects ≡ tru.connects)
        × (tru'.woken ≡ tru.woken)
  unfolding update_channel
  update_channel_keeps addr f tru = (ground arith, ground arith, ground arith)

  pub get_channel-destroy_channel :
      (addr other : Bytes) (tru : Tru p)
      → get_channel other (destroy_channel addr tru)
        ≡ (if bytes_eq addr other then none else get_channel other tru)
  unfolding get_channel destroy_channel update_channel
  get_channel-destroy_channel addr other tru = elim (Option-cases (lookup addr tru.channels)) [
    | inl e ↦ ground (arith, e, lookup-delete addr other tru.channels)
    | inr (ch, e) ↦ ground (
      arith,
      e,
      lookup-delete addr other (insert addr (Channel.destroy ch) tru.channels),
      lookup-insert addr other (Channel.destroy ch) tru.channels,
    )
  ]

  -- What is done at one address does not show at another.
  module _ (addr other : Bytes) (apart : bytes_eq addr other ≡ false) where
    pub elsewhere-open_channel :
        (now : ℕ) (mode : Bool) (tru : Tru p)
        → get_channel other (open_channel now addr mode tru) ≡ get_channel other tru
    unfolding get_channel open_channel
    elsewhere-open_channel now mode tru = ground (
      arith,
      apart,
      lookup-insert addr other (new_channel now addr mode tru.send_delay tru.max_len) tru.channels,
    )

    pub elsewhere-update_channel :
        (f : Channel → Channel) (tru : Tru p)
        → get_channel other (update_channel addr f tru) ≡ get_channel other tru
    unfolding get_channel update_channel
    elsewhere-update_channel f tru = elim (Option-cases (lookup addr tru.channels)) [
      | inl e ↦ ground (arith, e)
      | inr (ch, e) ↦ ground (arith, e, apart, lookup-insert addr other (f ch) tru.channels)
    ]

    pub elsewhere-destroy_channel :
        (tru : Tru p) → get_channel other (destroy_channel addr tru) ≡ get_channel other tru
    elsewhere-destroy_channel tru = rw (get_channel-destroy_channel addr other tru, apart) refl
