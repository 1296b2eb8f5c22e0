-- ===== src/Network/Senders.antt =====
-- What the steps of a network hand to the sender processes (channel.go, send_queue.go, tru.go).
use tru.Base.Map.{Map, nat_eq, delete}
use tru.Base.{
  ℕ, zero, suc, ◌≡◌, refl, sym, ◌∙◌, subst, ◌⊎◌, inl, inr, not, ltb, List, [], ◌∷◌, ◌++◌, arith,
  Bool-cases, Option-cases, ◌==◌, All, All-append, ◌+◌,
}
use tru.Base.Int.{ℤ, pos, negsuc}
use tru.Channel.Retransmit.{retransmit_due}
use tru.Channel.Write.{
  Env, build, write_to, write_control, write_to_ack, write_to_delay, write_to_sender, clear_split,
  parse_delivery,
}
use tru.Channel.{Channel, new_expected_id, set_trip_time}
use tru.Channel
use tru.Connector.Serve.{serve_ack, serve_channel, set_active}
use tru.Crypt.Library.{Primitives}
use tru.Crypt.{decrypt_packet_data}
use tru.Packet.{Packet, status_ack, status_data, set_retransmit_attempts, distance}
use tru.Receive.{get, remove, len, deliver, send_to_reader, process, place, receive_data}
use tru.SendQueue.Renewal.{Alike, renew-Alike}
use tru.SendQueue.{SendQueue, retransmit, renew, max_retransmit_attempts}
use tru.SendQueue
use tru.Split.{packet}

-- What is passed to the reader changes nothing that is sent.
send_to_reader_sender :
    (now : ℕ) (pac : Packet) (ch : Channel) → (send_to_reader now pac ch).sender_ch ≡ ch.sender_ch
unfolding send_to_reader deliver new_expected_id
send_to_reader_sender now pac ch = elim (Option-cases (packet ch.combine pac).1) [
  | inl e ↦ ground (arith, e)
  | inr (q, e) ↦ ground (arith, e)
]

process_sender : (fuel now : ℕ) (ch : Channel) → (process fuel now ch).sender_ch ≡ ch.sender_ch
unfolding process
process_sender zero now ch = refl
process_sender (suc fuel) now ch = elim (Option-cases (get ch.expected_id ch.recv_queue)) [
  | inl e ↦ rw (e, process) refl
  | inr (pac, e) ↦
      let sent = send_to_reader now pac ch in
      let rest = record sent { recv_queue = (remove ch.expected_id sent.recv_queue).0 } in
      rw (e, process) (process_sender fuel now rest ∙ send_to_reader_sender now pac ch)
]

place_sender :
    (now : ℕ) (pac : Packet) (d : ℤ) (ch : Channel) → (place now pac d ch).sender_ch ≡ ch.sender_ch
unfolding place
place_sender now pac (negsuc d) ch = refl
place_sender now pac (pos (suc d)) ch = ground arith
place_sender now pac (pos zero) ch =
    let sent = send_to_reader now pac ch in
    process_sender (suc (len sent.recv_queue)) now sent ∙ send_to_reader_sender now pac ch

abbrev pub AddsAck : Env → Packet → Channel → List Packet → Type 0
AddsAck env q ch after =
    (after ≡ ch.sender_ch) ⊎ (after ≡ ch.sender_ch ++ build env.now q.id status_ack [] ∷ [])

module _ (p : Primitives) where
  ack_sender :
      (env : Env) (q : Packet) (ch : Channel) → AddsAck env q ch (write_to_ack p env q ch).sender_ch
  unfolding write_to_ack write_to write_control write_to_delay write_to_sender clear_split
      parse_delivery
  ack_sender env q ch = elim (Bool-cases ch.stat.destroyed) [
    | inl x ↦ inl (ground (arith, x))
    | inr x ↦ inr (ground (arith, x))
  ]

  receive_sender :
      (env : Env) (q : Packet) (ch : Channel) → AddsAck env q ch (receive_data p env q ch).sender_ch
  unfolding receive_data
  receive_sender env q ch =
      elim (Option-cases (decrypt_packet_data p ch.session_key q.id q.payload)) [
        | inl e ↦ inl (rw (e, receive_data) refl)
        | inr (bytes, e) ↦
            let plain = record q { payload = bytes } in
            let acked = write_to_ack p env plain ch in
            let placed = place_sender env.now plain (distance ch.expected_id q.id) acked in
            rw (e, receive_data)
              (elim (ack_sender env plain ch) [
                | inl a ↦ inl (placed ∙ a)
                | inr a ↦ inr (placed ∙ a)
              ])
      ]

  pub serve_data :
      (env : Env) (q : Packet) (ch : Channel)
      → q.status ≡ status_data
      → (serve_channel p env q ch).0 ≡ receive_data p env q ch
  unfolding serve_channel
  serve_data env q ch h = rw (h, serve_channel) refl

  -- A data packet is acked, if it opens and the channel is not destroyed.
  pub deliver_sender :
      (env : Env) (q : Packet) (ch : Channel)
      → q.status ≡ status_data
      → AddsAck env q ch (serve_channel p env q ch).0.sender_ch
  deliver_sender env q ch h =
      subst (λ (r : Channel). AddsAck env q ch r.sender_ch) (sym (serve_data env q ch h))
        (receive_sender env q ch)

abbrev pub OfEntry : (Packet → Type 0) → ℕ × Packet → Type 0
OfEntry P (e, pac) = P pac

-- A property of packets that are alike, along the list of a send queue.
module _ (P : Packet → Type 0) (alike : (a b : Packet) → Alike a b → P a → P b) where
  retransmit-All :
      (trip now : ℕ) (m : Map ℕ Packet)
      → All (OfEntry P) m
      → All (OfEntry P) (retransmit trip now m).queue × All P (retransmit trip now m).sent
  unfolding retransmit set_retransmit_attempts
  retransmit-All trip now [] h = (tt, tt)
  retransmit-All trip now ((e, pac) ∷ rest) (h, hs) =
      let (queue, sent) = retransmit-All trip now rest hs in
      let again = alike pac (renew trip now pac) (renew-Alike trip now pac) h in
      elim (Bool-cases (not (ltb pac.retransmit_time now))) [
        | inl i ↦ rw (i, retransmit) ((h, queue), sent)
        | inr i ↦ elim (Bool-cases (ltb max_retransmit_attempts (pac.retransmit_attempts + 1))) [
          | inl j ↦
              rw (i, j, retransmit)
                (
                  (
                    alike pac (set_retransmit_attempts (pac.retransmit_attempts + 1) pac)
                        (refl, refl, refl, refl) h,
                    hs,
                  ),
                  tt,
                )
          | inr j ↦ rw (i, j, retransmit) ((again, queue), (again, sent))
        ]
      ]

  pub retransmit_sender :
      (now : ℕ) (ch : Channel)
      → All (OfEntry P) ch.send_queue.queue
      → All P ch.sender_ch
      → let r = retransmit_due now ch in All (OfEntry P) r.send_queue.queue × All P r.sender_ch
  unfolding retransmit_due Channel.destroy SendQueue.destroy
  retransmit_sender now ch h k =
      let trip = ch.stat.trip_time_midle in
      let pass = retransmit trip now ch.send_queue.queue in
      let (queue, sent) = retransmit-All trip now ch.send_queue.queue h in
      let both = All-append P ch.sender_ch pass.sent k sent in
      elim (Bool-cases pass.exhausted) [
        | inl x ↦ rw (x, retransmit_due) (queue, both)
        | inr x ↦ rw (x, retransmit_due) (queue, both)
      ]

  delete-All : (e : ℕ) (m : Map ℕ Packet) → All (OfEntry P) m → All (OfEntry P) (delete e m)
  unfolding delete
  delete-All e [] h = tt
  delete-All e ((f, pac) ∷ m) (h, hs) = elim (Bool-cases (f == e)) [
    | inl i ↦ rw i (delete-All e m hs)
    | inr i ↦ rw i (h, delete-All e m hs)
  ]

  remove-All :
      (id : ℕ) (s : SendQueue)
      → All (OfEntry P) s.queue
      → All (OfEntry P) (SendQueue.remove id s).0.queue
  unfolding SendQueue.remove
  remove-All id s h = elim (Option-cases (SendQueue.get id s)) [
    | inl k ↦ rw (k, SendQueue.remove) h
    | inr ((e, pac), k) ↦ rw (k, SendQueue.remove) (delete-All e s.queue h)
  ]

  -- An ack only takes packets away.
  pub ack_taken :
      (p : Primitives) (env : Env) (q : Packet) (ch : Channel)
      → q.status ≡ status_ack
      → All (OfEntry P) ch.send_queue.queue
      → let r = (serve_channel p env q ch).0 in
        All (OfEntry P) r.send_queue.queue × (r.sender_ch ≡ ch.sender_ch)
  unfolding serve_channel serve_ack set_active set_trip_time
  ack_taken p env q ch h a = elim (Option-cases (SendQueue.get q.id ch.send_queue)) [
    | inl k ↦ rw (h, serve_channel) (rw (k, serve_ack) (a, refl))
    | inr (x, k) ↦ rw (h, serve_channel) (rw (k, serve_ack) (remove-All q.id ch.send_queue a, refl))
  ]
