-- ===== src/Connector/Socket/Life.antt =====
-- What holds of a connector while it listens (tru.go).
use tru.Base.{
  ◌≡◌, ◌≢◌, refl, ◌∙◌, Bool, List, [], ◌∷◌, Bytes, ltb, length, arith, Bool-cases, inl, inr,
}
use tru.Channel.Write.{Env}
use tru.Connect.{Random}
use tru.Connector.Serve.Elsewhere.{serve-elsewhere}
use tru.Connector.Serve.Open.{AllOpen}
use tru.Connector.Serve.Valid.{serve-AllOpen}
use tru.Connector.Socket.{Event, stopped, read_failed, received, on_datagram, listen}
use tru.Connector.{Tru, get_channel}
use tru.Crypt.Library.{Primitives}

-- No datagram comes from an address before the loop stops.
abbrev pub IsSilent : Bytes → List Event → Type 0
IsSilent other [] = Unit
IsSilent other (stopped ∷ events) = Unit
IsSilent other (read_failed ∷ events) = IsSilent other events
IsSilent other (received env random addr bytes ∷ events) = (addr ≢ other) × IsSilent other events

module _ {p : Primitives} where
  on_datagram-AllOpen :
      (punching : Bool) (env : Env) (random : Random) (addr bytes : Bytes) (tru : Tru p)
      → AllOpen tru
      → AllOpen (on_datagram punching env random addr bytes tru)
  unfolding on_datagram
  on_datagram-AllOpen punching env random addr bytes tru v =
      elim (Bool-cases (ltb 0 (length bytes))) [
        | inl k ↦ rw (k, on_datagram) (serve-AllOpen env random punching addr bytes tru v)
        | inr k ↦ rw (k, on_datagram) v
      ]

  elsewhere-on_datagram :
      (other : Bytes) (punching : Bool) (env : Env) (random : Random) (addr bytes : Bytes)
      (tru : Tru p)
      → addr ≢ other
      → get_channel other (on_datagram punching env random addr bytes tru) ≡ get_channel other tru
  unfolding on_datagram
  elsewhere-on_datagram other punching env random addr bytes tru h =
      ground (arith, serve-elsewhere env random punching addr other bytes tru h)

  -- If every channel of a connector stands at its address, is not destroyed, and has a send queue
  -- whose index and list agree, then so it is however long the connector listens, whatever bytes
  -- come from whatever addresses.
  pub listen-AllOpen :
      (punching : Bool) (events : List Event) (tru : Tru p)
      → AllOpen tru
      → AllOpen (listen punching events tru).0
  unfolding listen
  listen-AllOpen punching [] tru v = v
  listen-AllOpen punching (stopped ∷ events) tru v = v
  listen-AllOpen punching (read_failed ∷ events) tru v = listen-AllOpen punching events tru v
  listen-AllOpen punching (received env random addr bytes ∷ events) tru v =
      listen-AllOpen punching events (on_datagram punching env random addr bytes tru)
        (on_datagram-AllOpen punching env random addr bytes tru v)

  -- While a connector listens, the channel of an address changes, opens and closes only through
  -- datagrams from that address: if none comes, it is as it was at the start, whatever comes from
  -- the others.
  pub listen-elsewhere :
      (other : Bytes) (punching : Bool) (events : List Event) (tru : Tru p)
      → IsSilent other events
      → get_channel other (listen punching events tru).0 ≡ get_channel other tru
  unfolding listen
  listen-elsewhere other punching [] tru h = refl
  listen-elsewhere other punching (stopped ∷ events) tru h = refl
  listen-elsewhere other punching (read_failed ∷ events) tru h =
      listen-elsewhere other punching events tru h
  listen-elsewhere other punching (received env random addr bytes ∷ events) tru (apart, h) =
      listen-elsewhere other punching events (on_datagram punching env random addr bytes tru) h
      ∙ elsewhere-on_datagram other punching env random addr bytes tru apart
