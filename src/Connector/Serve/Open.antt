-- ===== src/Connector/Serve/Open.antt =====
-- The channels of a connector are open, and stay so when one is opened, changed or destroyed
-- (channel.go).
use tru.Base.Map.{bytes_key, lookup, insert, lookup-insert}
use tru.Base.{
  ℕ, ◌≡◌, refl, subst, Bool, some, Bytes, arith, bytes_eq, bytes_eq_iff, Bool-cases, Option-cases,
  inl, inr,
}
use tru.Channel.Write.{write_to_sender}
use tru.Channel.{Channel, new_channel}
use tru.Connector.Handshake.{set_session_key}
use tru.Connector.Serve.Kept.{IsOpen}
use tru.Connector.Lookup.{get_channel-destroy_channel}
use tru.Connector.{Tru, open_channel, get_channel, update_channel, destroy_channel}
use tru.Crypt.Library.{Primitives}
use tru.Packet.{Packet}
use tru.SendQueue.Index.{init-IsValid}
use tru.Statistic

-- Every channel stands at its address, is not destroyed, and has a valid send queue.
abbrev pub AllOpen : {p : Primitives} → Tru p → Type 0
AllOpen tru = (addr : Bytes) (ch : Channel) → get_channel addr tru ≡ some ch → IsOpen addr ch

new_channel-IsOpen :
    (now : ℕ) (addr : Bytes) (mode : Bool) (delay limit : ℕ)
    → IsOpen addr (new_channel now addr mode delay limit)
unfolding new_channel Statistic.init Statistic.set_last_activity Statistic.set_send_delay
new_channel-IsOpen now addr mode delay limit = record {
  at = refl;
  alive = ground arith;
  queue = init-IsValid;
}

pub write_to_sender-IsOpen :
    (addr : Bytes) (pac : Packet) (ch : Channel)
    → IsOpen addr ch
    → IsOpen addr (write_to_sender pac ch)
unfolding write_to_sender
write_to_sender-IsOpen addr pac ch o = record { at = o.at; alive = o.alive; queue = o.queue }

pub set_session_key-IsOpen :
    (addr key : Bytes) (ch : Channel) → IsOpen addr ch → IsOpen addr (set_session_key key ch)
unfolding set_session_key
set_session_key-IsOpen addr key ch o = record { at = o.at; alive = o.alive; queue = o.queue }

module _ {p : Primitives} where
  pub open_channel-AllOpen :
      (now : ℕ) (addr : Bytes) (mode : Bool) (tru : Tru p)
      → AllOpen tru
      → AllOpen (open_channel now addr mode tru)
  unfolding open_channel get_channel
  open_channel-AllOpen now addr mode tru v other ch h =
      let made = new_channel now addr mode tru.send_delay tru.max_len in
      let h' = rw (lookup-insert addr other made tru.channels) at h in
      elim (Bool-cases (bytes_eq addr other)) [
        | inl e ↦
            let same : ch ≡ made = ground (arith, h', e) in
            subst (λ a. IsOpen a ch) ((bytes_eq_iff addr other).0 e)
              (rw same (new_channel-IsOpen now addr mode tru.send_delay tru.max_len))
        | inr e ↦ v other ch (ground (arith, h', e))
      ]

  pub update_channel-AllOpen :
      (addr : Bytes) (f : Channel → Channel) (tru : Tru p)
      → ((ch : Channel) → IsOpen addr ch → IsOpen addr (f ch))
      → AllOpen tru
      → AllOpen (update_channel addr f tru)
  unfolding update_channel get_channel
  update_channel-AllOpen addr f tru k v other ch h =
      elim (Option-cases (lookup addr tru.channels)) [
        | inl e ↦ v other ch (rw (e, update_channel) at h)
        | inr (c, e) ↦
            let there : lookup other (insert addr (f c) tru.channels) ≡ some ch =
              rw (e, update_channel) at h in
            let h' = rw (lookup-insert addr other (f c) tru.channels) at there in
            elim (Bool-cases (bytes_eq addr other)) [
              | inl same ↦
                  let is : ch ≡ f c = ground (arith, h', same) in
                  subst (λ a. IsOpen a ch) ((bytes_eq_iff addr other).0 same)
                    (rw is (k c (v addr c e)))
              | inr apart ↦ v other ch (ground (arith, h', apart))
            ]
      ]

  pub destroy_channel-AllOpen :
      (addr : Bytes) (tru : Tru p) → AllOpen tru → AllOpen (destroy_channel addr tru)
  destroy_channel-AllOpen addr tru v other ch h =
      let h' = rw (get_channel-destroy_channel addr other tru) at h in
      v other ch (ground (arith, h'))
