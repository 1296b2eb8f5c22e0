-- ===== src/Network/Queue.antt =====
-- What the steps of a sender do to its send queue (channel.go, send_queue.go, tru.go).
use tru.Base.Map.{nat_eq}
use tru.Base.{
  ◌⊎◌, ◌&&◌, ◌++◌, List, not, [], ◌∷◌, ℕ, ◌+◌, ◌%◌, ◌≡◌, refl, ap, ◌∙◌, false, none, some, Bytes,
  arith, if◌then◌else◌, Bool-cases, Option-cases, inl, inr, ◌==◌,
}
use tru.Channel.Retransmit.{retransmit_due}
use tru.Channel.Write.Laws.{queued, enqueue_fields, build_fields, write_data_queue}
use tru.Channel.Write.{
  Env, build, enqueue, write_data, write_to, write_to_delay, write_to_sender, clear_split,
  parse_delivery,
}
use tru.Channel.{Channel, new_id, set_trip_time}
use tru.Channel
use tru.Connector.Serve.Ack.{serve_ack_lem}
use tru.Connector.Serve.{serve_ack, serve_channel, set_active}
use tru.Crypt.Library.{Primitives, IsSound}
use tru.Crypt.{encrypt_packet_data}
use tru.Packet.{Packet, packet_id_limit, status_data, status_ack, default_delivery_timeout}
use tru.SendQueue.Index.{IsValid}
use tru.SendQueue.Renewal.{Alike, retransmit-IsValid, retransmit-get}
use tru.SendQueue.{SendQueue, retransmit}
use tru.SendQueue

module _ (p : Primitives) (s : IsSound p) where
  delay_keeps :
      (env : Env) (status : ℕ) (ch : Channel)
      → let r = write_to_delay env status ch in
        (r.id ≡ ch.id) × (r.session_key ≡ ch.session_key) × (r.send_queue ≡ ch.send_queue)
  unfolding write_to_delay
  delay_keeps env status ch = (ground arith, ground arith, ground arith)

  delay_sender :
      (env : Env) (status : ℕ) (ch : Channel)
      → (write_to_delay env status ch).sender_ch ≡ ch.sender_ch
  unfolding write_to_delay
  delay_sender env status ch = ground arith

  write_to_alive :
      (env : Env) (bytes : Bytes) (ch : Channel)
      → ch.stat.destroyed ≡ false
      → (write_to p env bytes status_data [] [] ch).1
        ≡ (write_data p env bytes status_data none default_delivery_timeout
            (write_to_delay env status_data ch)).0
  unfolding write_to parse_delivery clear_split
  write_to_alive env bytes ch h = ground (arith, h)

  write_data_fields :
      (env : Env) (bytes : Bytes) (stat : ℕ) (f t : ℕ) (ch : Channel) (n : ℕ)
      → ch.id ≡ n % packet_id_limit
      → let r = (write_data p env bytes stat none t ch).0 in
        (r.id ≡ (n + 1) % packet_id_limit) × (r.session_key ≡ ch.session_key)
  unfolding write_data enqueue new_id write_to_sender
  write_data_fields env bytes stat f t ch n h = (ground (arith, h), ground arith)

  pub write_fields :
      (env : Env) (bytes : Bytes) (ch : Channel) (n : ℕ)
      → ch.stat.destroyed ≡ false
      → ch.id ≡ n % packet_id_limit
      → let r = (write_to p env bytes status_data [] [] ch).1 in
        (pac : Packet) × (r.id ≡ (n + 1) % packet_id_limit)
        × (r.session_key ≡ ch.session_key)
        × (r.send_queue ≡ SendQueue.add pac ch.send_queue)
        × (pac.id ≡ n % packet_id_limit)
        × (pac.status ≡ status_data)
        × (pac.payload ≡ encrypt_packet_data p ch.session_key env.nonce (n % packet_id_limit) bytes)
        × ((r.sender_ch ≡ ch.sender_ch) ⊎ (r.sender_ch ≡ ch.sender_ch ++ pac ∷ []))
  unfolding new_id
  write_fields env bytes ch n alive h =
      let c = write_to_delay env status_data ch in
      let t = default_delivery_timeout in
      let k = delay_keeps env status_data ch in
      let same = write_to_alive env bytes ch alive in
      let at : c.id ≡ n % packet_id_limit = k.0 ∙ h in
      let boxed = encrypt_packet_data p c.session_key env.nonce c.id bytes in
      let q = write_data_queue p s env bytes status_data none t c in
      let e =
        enqueue_fields env status_data none t (build env.now c.id status_data boxed) (new_id c).1 in
      let f = build_fields env.now c.id status_data boxed (omega (arith, at)) in
      let g = write_data_fields env bytes status_data 0 t c n at in
      let pac = (queued p s env bytes status_data none t c).0 in
      rw same (
        pac,
        g.0,
        g.1 ∙ k.1,
        q.1 ∙ e.5 ∙ ap (SendQueue.add pac) k.2,
        e.0 ∙ f.0 ∙ at,
        e.1 ∙ f.1,
        e.2 ∙ f.2 ∙ rw (at, k.1) refl,
        elim (Bool-cases (env.dropped && not c.server_mode)) [
          | inl x ↦ inl (rw x at q.2 ∙ e.6 ∙ delay_sender env status_data ch)
          | inr x ↦ inr (
              rw x at q.2
              ∙ ap (λ (l : List Packet). l ++ pac ∷ []) (e.6 ∙ delay_sender env status_data ch))
        ],
      )

  ack_keeps_key : (now id : ℕ) (ch : Channel) → (serve_ack now id ch).0.session_key ≡ ch.session_key
  unfolding serve_ack set_trip_time
  ack_keeps_key now id ch = elim (Option-cases (SendQueue.get id ch.send_queue)) [
    | inl e ↦ ground (arith, e)
    | inr (x, e) ↦ ground (arith, e)
  ]

  -- An ack that comes takes its packet out of the send queue.
  pub serve_ack_fields :
      (env : Env) (q : Packet) (ch : Channel)
      → q.status ≡ status_ack
      → IsValid ch.send_queue
      → let r = (serve_channel p env q ch).0 in
        (r.id ≡ ch.id)
        × (r.session_key ≡ ch.session_key)
        × IsValid r.send_queue
        × ((j : ℕ)
            → SendQueue.get j r.send_queue
              ≡ (if q.id == j then none else SendQueue.get j ch.send_queue))
  unfolding serve_channel set_active
  serve_ack_fields env q ch h v =
      let a = serve_ack_lem env.now q.id 0 ch v in
      rw (h, serve_channel)
        (a.5, ack_keeps_key env.now q.id ch, a.0, λ j. (serve_ack_lem env.now q.id j ch v).1)

-- A run of the timer leaves the ids, the key, and what waits.
pub retransmit_fields :
    (now : ℕ) (ch : Channel)
    → IsValid ch.send_queue
    → let r = retransmit_due now ch in
      (r.id ≡ ch.id)
      × (r.session_key ≡ ch.session_key)
      × IsValid r.send_queue
      × ((j e : ℕ) (pac : Packet)
          → SendQueue.get j ch.send_queue ≡ some (e, pac)
          → (b : Packet) × (SendQueue.get j r.send_queue ≡ some (e, b)) × Alike pac b)
unfolding retransmit_due Channel.destroy SendQueue.destroy SendQueue.get
retransmit_fields now ch v =
    let trip = ch.stat.trip_time_midle in
    let w = retransmit-IsValid trip now ch.send_queue v in
    let g = λ (j : ℕ) (e : ℕ) (pac : Packet). retransmit-get trip now j e pac ch.send_queue in
    elim (Bool-cases (retransmit trip now ch.send_queue.queue).exhausted) [
      | inl x ↦
          rw (x, retransmit_due)
            (refl, refl, record { sound = w.sound; complete = w.complete; fresh = w.fresh }, g)
      | inr x ↦
          rw (x, retransmit_due)
            (refl, refl, record { sound = w.sound; complete = w.complete; fresh = w.fresh }, g)
    ]
