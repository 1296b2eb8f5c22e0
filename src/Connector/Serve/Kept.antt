-- ===== src/Connector/Serve/Kept.antt =====
-- What a packet of a channel leaves as it was (tru.go, channel.go).
use tru.Base.Int.{ℤ, pos, negsuc}
use tru.Base.{
  if_holds, false, ℕ, zero, suc, ◌≡◌, refl, ◌∙◌, Option, Bytes, arith, Option-cases, inl, inr, ◌||◌,
  ◌==◌,
}
use tru.Channel.Write.{
  Env, write_to_ack, write_to_pong, write_to, write_control, write_to_delay, write_to_sender,
  clear_split, parse_delivery,
}
use tru.Channel.{Channel, new_expected_id, set_trip_time}
use tru.Connector.Serve.Ack.{serve_ack_lem}
use tru.Connector.Serve.{serve_ack, serve_channel, set_active}
use tru.Crypt.Library.{Primitives}
use tru.Crypt.{decrypt_packet_data}
use tru.Packet.{Packet, distance, status_ping, status_ack, status_data, status_data_next}
use tru.Receive.{deliver, send_to_reader, process, place, receive_data, get, remove, len}
use tru.SendQueue.Index.{IsValid}
use tru.SendQueue
use tru.Split.{packet}
use tru.Statistic.{set_recv, set_drop, set_last_activity, set_ack_received, set_ack_drop_received}

-- A channel stands at its address, is not destroyed, and its send queue is valid.
pub record IsOpen (addr : Bytes) (ch : Channel) : Type 0 where
  pub at : ch.addr ≡ addr
  pub alive : ch.stat.destroyed ≡ false
  pub queue : IsValid ch.send_queue

-- What `IsOpen` looks at, and what a channel writes with.
abbrev pub Kept : Channel → Channel → Type 0
Kept a b =
    (b.addr ≡ a.addr)
    × (b.stat.destroyed ≡ a.stat.destroyed)
    × (b.send_queue ≡ a.send_queue)
    × (b.id ≡ a.id)
    × (b.session_key ≡ a.session_key)

Kept-trans : (a b c : Channel) → Kept a b → Kept b c → Kept a c
Kept-trans a b c (h, i, j, k, l) (h', i', j', k', l') = (h' ∙ h, i' ∙ i, j' ∙ j, k' ∙ k, l' ∙ l)

pub IsOpen-Kept : (addr : Bytes) (a b : Channel) → Kept a b → IsOpen addr a → IsOpen addr b
IsOpen-Kept addr a b (k, d, q, _, _) o = record {
  at = k ∙ o.at;
  alive = d ∙ o.alive;
  queue = rw q o.queue;
}

ack-Kept :
    (p : Primitives) (env : Env) (pac : Packet) (ch : Channel) → Kept ch (write_to_ack p env pac ch)
unfolding write_to_ack write_to write_control write_to_delay write_to_sender clear_split
    parse_delivery
ack-Kept p env pac ch = ground arith

pong-Kept : (p : Primitives) (env : Env) (ch : Channel) → Kept ch (write_to_pong p env ch)
unfolding write_to_pong write_to write_control write_to_delay write_to_sender clear_split
    parse_delivery
pong-Kept p env ch = ground arith

sent-Kept : (now : ℕ) (pac : Packet) (ch : Channel) → Kept ch (send_to_reader now pac ch)
unfolding send_to_reader deliver new_expected_id set_recv
sent-Kept now pac ch = elim (Option-cases (packet (new_expected_id ch).combine pac).1) [
  | inl e ↦ ground (arith, e)
  | inr (q, e) ↦ ground (arith, e)
]

process-Kept : (fuel now : ℕ) (ch : Channel) → Kept ch (process fuel now ch)
unfolding process
process-Kept zero now ch = (refl, refl, refl, refl, refl)
process-Kept (suc fuel) now ch = elim (Option-cases (get ch.expected_id ch.recv_queue)) [
  | inl e ↦ ground (arith, e)
  | inr (pac, e) ↦
      let sent = send_to_reader now pac ch in
      let rest = record sent { recv_queue = (remove ch.expected_id sent.recv_queue).0 } in
      rw (e, process)
        (Kept-trans ch rest (process fuel now rest) (sent-Kept now pac ch)
          (process-Kept fuel now rest))
]

place-Kept : (now : ℕ) (pac : Packet) (d : ℤ) (ch : Channel) → Kept ch (place now pac d ch)
unfolding place set_drop
place-Kept now pac (negsuc d) ch = (refl, refl, refl, refl, refl)
place-Kept now pac (pos (suc d)) ch = ground arith
place-Kept now pac (pos zero) ch =
    let sent = send_to_reader now pac ch in
    Kept-trans ch sent (process (suc (len sent.recv_queue)) now sent) (sent-Kept now pac ch)
      (process-Kept (suc (len sent.recv_queue)) now sent)

pub receive_data-Kept :
    (p : Primitives) (env : Env) (pac : Packet) (ch : Channel) → Kept ch (receive_data p env pac ch)
unfolding receive_data set_last_activity
receive_data-Kept p env pac ch =
    elim (Option-cases (decrypt_packet_data p ch.session_key pac.id pac.payload)) [
      | inl e ↦ ground (arith, e)
      | inr (bytes, e) ↦
          let plain : Packet = record pac { payload = bytes } in
          let acked = write_to_ack p env plain ch in
          let d = distance ch.expected_id pac.id in
          rw (e, receive_data)
            (Kept-trans ch acked (place env.now plain d acked) (ack-Kept p env plain ch)
              (place-Kept env.now plain d acked))
    ]

ack_fields :
    (now id : ℕ) (ch : Channel)
    → let r = (serve_ack now id ch).0 in (r.addr ≡ ch.addr) × (r.stat.destroyed ≡ ch.stat.destroyed)
unfolding serve_ack set_trip_time set_ack_received set_ack_drop_received
ack_fields now id ch = elim (Option-cases (SendQueue.get id ch.send_queue)) [
  | inl e ↦ (ground (arith, e), ground (arith, e))
  | inr (w, e) ↦ (ground (arith, e), ground (arith, e))
]

serve_ack-IsOpen :
    (now id : ℕ) (addr : Bytes) (ch : Channel)
    → IsOpen addr ch
    → IsOpen addr (serve_ack now id ch).0
serve_ack-IsOpen now id addr ch o =
    let f = ack_fields now id ch in
    record {
      at = f.0 ∙ o.at;
      alive = f.1 ∙ o.alive;
      queue = (serve_ack_lem now id id ch o.queue).0;
    }

active-Kept : (now : ℕ) (ch : Channel) → Kept ch (set_active now ch)
unfolding set_active set_last_activity
active-Kept now ch = (refl, refl, refl, refl, refl)

-- Whatever packet comes, the channel stays open, and its send queue valid.
pub serve_channel-IsOpen :
    (p : Primitives) (env : Env) (pac : Packet) (addr : Bytes) (ch : Channel)
    → IsOpen addr ch
    → IsOpen addr (serve_channel p env pac ch).0
unfolding serve_channel
serve_channel-IsOpen p env pac addr ch o =
    let acked = serve_ack-IsOpen env.now pac.id addr ch o in
    let act = λ (c : Channel) (v : IsOpen addr c).
      IsOpen-Kept addr c (set_active env.now c) (active-Kept env.now c) v in
    let Q = λ (r : Channel × Option ℕ). IsOpen addr r.0 in
    if_holds Q (pac.status == status_ping)
      (act _ (IsOpen-Kept addr ch (write_to_pong p env ch) (pong-Kept p env ch) o))
      (if_holds Q (pac.status == status_ack) (act _ acked) (
        if_holds Q (pac.status == status_data || pac.status == status_data_next)
          (IsOpen-Kept addr ch (receive_data p env pac ch) (receive_data-Kept p env pac ch) o)
          (act _ o)))
