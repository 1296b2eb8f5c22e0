-- ===== src/Network/Duplex/Untouched.antt =====
-- A step of one direction leaves what the other direction looks at (channel.go, tru.go).
use tru.Base.{
  ℕ, ◌≡◌, refl, sym, ap, ◌∙◌, inl, inr, some_eq, [], Bytes, arith, length, Option-cases, All-Mem,
}
use tru.Channel.Retransmit.{retransmit_due}
use tru.Channel.Write.{
  Env, write_to, write_to_delay, write_to_sender, write_data, write_control, clear_split,
  parse_delivery, enqueue,
}
use tru.Channel.{Channel, new_id, set_trip_time}
use tru.Channel
use tru.Connector.Serve.Kept.{receive_data-Kept}
use tru.Connector.Serve.{serve_ack, serve_channel, set_active}
use tru.Crypt.Library.{Primitives, IsSound}
use tru.Network.Invariant.{IsGood, AcksIt}
use tru.Network.Safety.{ack_read}
use tru.Network.Senders.{serve_data}
use tru.Network.{Net, Step, write, retransmit, deliver, ack}
use tru.Packet.Codec.{unmarshal_binary-marshal_binary}
use tru.Packet.{Packet, status_ack, status_data}
use tru.Receive.Steps.{Same}
use tru.SendQueue
use tru.Transfer.{Writes}

-- What a channel writes with.
abbrev pub SameSender : Channel → Channel → Type 0
SameSender a b = (b.id ≡ a.id) × (b.session_key ≡ a.session_key) × (b.send_queue ≡ a.send_queue)

module _ (p : Primitives) where
  write-Same :
      (env : Env) (bytes : Bytes) (ch : Channel)
      → Same ch (write_to p env bytes status_data [] [] ch).1
  unfolding write_to write_data write_control write_to_delay write_to_sender clear_split
      parse_delivery enqueue new_id
  write-Same env bytes ch = ground arith

  ack-Same :
      (env : Env) (q : Packet) (ch : Channel)
      → q.status ≡ status_ack
      → Same ch (serve_channel p env q ch).0
  unfolding serve_channel serve_ack set_active set_trip_time
  ack-Same env q ch h = elim (Option-cases (SendQueue.get q.id ch.send_queue)) [
    | inl k ↦ rw (h, serve_channel) (rw (k, serve_ack) (refl, refl, refl, refl, refl))
    | inr (x, k) ↦ rw (h, serve_channel) (rw (k, serve_ack) (refl, refl, refl, refl, refl))
  ]

  data-SameSender :
      (env : Env) (q : Packet) (ch : Channel)
      → q.status ≡ status_data
      → SameSender ch (serve_channel p env q ch).0
  data-SameSender env q ch h =
      let (_, _, queue, id, key) = receive_data-Kept p env q ch in
      rw (serve_data p env q ch h) (id, key, queue)

retransmit-Same : (now : ℕ) (ch : Channel) → Same ch (retransmit_due now ch)
unfolding retransmit_due Channel.destroy
retransmit-Same now ch = ground arith

module _ (p : Primitives) (s : IsSound p) (w : Writes)
    (nonces : (n : ℕ) → length (w.env n).nonce ≡ p.nonce_size) where
  -- The sender of a step still receives as before, and the receiver still writes as before.
  pub Step-untouched :
      (key : Bytes) (a b : Net)
      → Step p key w a b
      → IsGood p key w a
      → Same a.sender b.sender × SameSender a.receiver b.receiver
  Step-untouched key a _ (write _ alive free) v =
      (write-Same p (w.env a.written) (w.message a.written) a.sender, (refl, refl, refl))
  Step-untouched key a _ (retransmit _ now) v = (retransmit-Same now a.sender, (refl, refl, refl))
  Step-untouched key a _ (deliver _ env n pac q _ l c near read) v =
      let e = some_eq (
        sym read
        ∙ unmarshal_binary-marshal_binary env.now pac (omega (arith, c.id))
            (omega (arith, c.status))) in
      (
        (refl, refl, refl, refl, refl),
        data-SameSender p env q a.receiver (ap (λ (x : Packet). x.status) e ∙ c.status),
      )
  Step-untouched key a _ (ack _ env n pac q there fresh read) v =
      let (_, at, h) = All-Mem (AcksIt a.arrived) (n, pac) a.answered there v.acks in
      let (h', _) = ack_read p s w nonces env.now n pac q h at read in
      (ack-Same p env q a.sender h', (refl, refl, refl))
