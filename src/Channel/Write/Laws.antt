-- ===== src/Channel/Write/Laws.antt =====
-- What a data write and a close do (channel.go).
use tru.Base.Map.{nat_eq}
use tru.Base.{
  ℕ, ◌+◌, ◌%◌, ◌≤◌, ◌<◌, ◌≡◌, refl, ap, ◌∙◌, [], ◌∷◌, ◌++◌, Option, none, some, Bytes, arith,
  length, if◌then◌else◌, ◌&&◌, not,
}
use tru.Channel.Write.{Env, build, enqueue, write_to_sender, write_data}
use tru.Channel.{Channel, new_id}
use tru.Channel
use tru.Crypt.Library.{Primitives, IsSound}
use tru.Crypt.Session.{decrypt_packet_data-encrypt_packet_data}
use tru.Crypt.{encrypt_packet_data, decrypt_packet_data}
use tru.Packet.{Packet, packet_id_limit, set_delivery, set_delivery_timeout, set_retransmit_time}
use tru.SendQueue.Get.{get-add}
use tru.SendQueue.Index.{IsValid}
use tru.SendQueue.{retransmit_after, min_rtt}
use tru.SendQueue.Retransmit.{retransmit_after_bounds}
use tru.SendQueue
use tru.Statistic

pub enqueue_fields :
    (env : Env) (stat : ℕ) (f : Option ℕ) (t : ℕ) (pac : Packet) (ch : Channel)
    → let r = enqueue env stat f t pac ch in
      (r.0.id ≡ pac.id)
      × (r.0.status ≡ pac.status)
      × (r.0.payload ≡ pac.payload)
      × (r.0.time ≡ env.now)
      × (env.now + min_rtt ≤ r.0.retransmit_time)
      × (r.1.send_queue ≡ SendQueue.add r.0 ch.send_queue)
      × (r.1.sender_ch ≡ ch.sender_ch)
unfolding enqueue set_retransmit_time set_delivery set_delivery_timeout
enqueue_fields env stat none t pac ch = ground (
  arith,
  retransmit_after_bounds ch.stat.trip_time_midle pac.retransmit_attempts pac.retransmit_attempts
      (omega arith),
)
enqueue_fields env stat (some f) t pac ch = ground (
  arith,
  retransmit_after_bounds ch.stat.trip_time_midle pac.retransmit_attempts pac.retransmit_attempts
      (omega arith),
)

pub build_fields :
    (now id stat : ℕ) (bytes : Bytes)
    → id < packet_id_limit
    → let pac = build now id stat bytes in
      (pac.id ≡ id) × (pac.status ≡ stat % 256) × (pac.payload ≡ bytes)
unfolding build
build_fields now id stat bytes h = (omega arith, refl, refl)

module _ (p : Primitives) (s : IsSound p) where
  -- The packet that a data write puts into the queue, and the channel with it.
  abbrev pub queued : Env → Bytes → ℕ → Option ℕ → ℕ → Channel → Packet × Channel
  queued env bytes stat f t ch =
      enqueue env stat f t
        (build env.now ch.id stat (encrypt_packet_data p ch.session_key env.nonce ch.id bytes))
        (new_id ch).1

  pub write_data_queue :
      (env : Env) (bytes : Bytes) (stat : ℕ) (f : Option ℕ) (t : ℕ) (ch : Channel)
      → let r = write_data p env bytes stat f t ch in
        let (pac, ch') = queued env bytes stat f t ch in
        (r.1 ≡ ch.id)
        × (r.0.send_queue ≡ ch'.send_queue)
        × (r.0.sender_ch ≡ (
            if env.dropped && not ch.server_mode then ch'.sender_ch else ch'.sender_ch ++ pac ∷ []))
  unfolding write_data write_to_sender new_id
  write_data_queue env bytes stat f t ch = (refl, ground arith, ground arith)

  -- On a valid send queue, with the next id in range, sound cryptography and a nonce of the
  -- cipher's size, a data write takes the channel's id, and the packet waits in the send queue
  -- under it: with its status, a payload that the session key opens to the data, and a wait of 30
  -- ms at least. It goes to the sender too, unless the testing flag drops it at a client.
  pub write_data_waits :
      (env : Env) (bytes : Bytes) (stat : ℕ) (f : Option ℕ) (t : ℕ) (ch : Channel)
      → IsValid ch.send_queue
      → ch.id < packet_id_limit
      → length env.nonce ≡ p.nonce_size
      → (pac : Packet) × ((write_data p env bytes stat f t ch).1 ≡ ch.id)
        × (SendQueue.get ch.id (write_data p env bytes stat f t ch).0.send_queue
            ≡ some (ch.send_queue.next_element, pac))
        × (pac.id ≡ ch.id)
        × (pac.status ≡ stat % 256)
        × (decrypt_packet_data p ch.session_key pac.id pac.payload ≡ some bytes)
        × (env.now + min_rtt ≤ pac.retransmit_time)
        × ((write_data p env bytes stat f t ch).0.sender_ch ≡ (
            if env.dropped && not ch.server_mode then ch.sender_ch else ch.sender_ch ++ pac ∷ []))
  unfolding new_id
  write_data_waits env bytes stat f t ch v h n =
      let boxed = encrypt_packet_data p ch.session_key env.nonce ch.id bytes in
      let pac = build env.now ch.id stat boxed in
      let b = build_fields env.now ch.id stat boxed h in
      let e = enqueue_fields env stat f t pac (new_id ch).1 in
      let q = write_data_queue env bytes stat f t ch in
      let whole = (queued env bytes stat f t ch).0 in
      (
        whole,
        q.0,
        ap (SendQueue.get ch.id) (q.1 ∙ e.5)
            ∙ get-add whole ch.id ch.send_queue v
            ∙ ground (arith, e.0, b.0),
        e.0 ∙ b.0,
        e.1 ∙ b.1,
        rw (e.0 ∙ b.0, e.2 ∙ b.2)
            (decrypt_packet_data-encrypt_packet_data p s ch.session_key env.nonce ch.id bytes n),
        e.4,
        q.2 ∙ ap (λ l. if env.dropped && not ch.server_mode then l else l ++ whole ∷ []) e.6,
      )
