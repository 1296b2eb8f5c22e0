-- ===== src/Connector/Serve/Ack.antt =====
-- What an ack does to a channel (tru.go).
use tru.Base.{ℕ, ◌≡◌, Option, none, arith, ◌==◌, if◌then◌else◌, ◌>>=◌, Option-cases, inl, inr}
use tru.Channel.{Channel, set_trip_time}
use tru.Connector.Serve.{serve_ack}
use tru.SendQueue.Get.{get-remove, packet_of}
use tru.SendQueue.Index.{IsValid, remove-IsValid}
use tru.SendQueue

-- The callback of the packet that waits under an id.
abbrev pub callback_of : ℕ → Channel → Option ℕ
callback_of id ch = packet_of (SendQueue.get id ch.send_queue) >>= λ q. q.delivery

-- With a valid send queue, an ack takes its packet, and no other, out of the queue, which stays
-- valid, and calls the packet's callback; for a packet that does not wait it calls none and
-- leaves the queue. What goes to the sender or to the reader, and the next id, stay.
pub serve_ack_lem :
    (now id j : ℕ) (ch : Channel)
    → IsValid ch.send_queue
    → let r = serve_ack now id ch in
      IsValid r.0.send_queue
      × (SendQueue.get j r.0.send_queue ≡ (if id == j then none else SendQueue.get j ch.send_queue))
      × (r.1 ≡ callback_of id ch)
      × (r.0.sender_ch ≡ ch.sender_ch)
      × (r.0.reader_ch ≡ ch.reader_ch)
      × (r.0.id ≡ ch.id)
unfolding serve_ack set_trip_time
serve_ack_lem now id j ch v =
    let removed = get-remove id j ch.send_queue v in
    elim (Option-cases (SendQueue.get id ch.send_queue)) [
      | inl e ↦ (
        rw (e, serve_ack, set_trip_time) v,
        ground (arith, e, removed),
        ground (arith, e),
        ground (arith, e),
        ground (arith, e),
        ground (arith, e),
      )
      | inr (w, e) ↦ (
        rw (e, serve_ack, set_trip_time) (remove-IsValid id ch.send_queue v),
        ground (arith, e, removed),
        ground (arith, e, removed),
        ground (arith, e),
        ground (arith, e),
        ground (arith, e),
      )
    ]
