-- ===== src/Transfer.antt =====
-- From one end of a channel to the other: what `writeTo` queues at the sender (channel.go), over the
-- wire (packet.go), to the reader of the receiver (tru.go).
pub mod Whole
use tru.Base.Map.{nat_eq}
use tru.Base.{
  ℕ, zero, suc, ◌+◌, ◌%◌, ◌<◌, ◌≡◌, refl, ◌∙◌, ap, sym, List, [], ◌∷◌, ◌++◌, none, some, Bytes,
  arith, length, map,
}
use tru.Channel.Write.Laws.{queued, enqueue_fields, build_fields}
use tru.Channel.Write.{Env, build, enqueue, write_data, write_to_sender}
use tru.Channel.{Channel, new_channel, new_id}
use tru.Crypt.Library.{Primitives, IsSound}
use tru.Crypt.Session.{decrypt_packet_data-encrypt_packet_data}
use tru.Crypt.{encrypt_packet_data, decrypt_packet_data}
use tru.Packet.{Packet, packet_id_limit, new_packet, status_data, marshal_binary, unmarshal_binary}
use tru.Packet.Codec.{unmarshal_binary-marshal_binary}
use tru.Receive.Stream.{IsStream}

-- What the sender is given, write by write, and what it reads from outside.
pub record Writes : Type 0 where
  pub env : ℕ → Env
  pub message : ℕ → Bytes

module _ (p : Primitives) (s : IsSound p) (w : Writes) where
  -- The channel after its first `n` writes.
  unfoldable pub after_writes : ℕ → Channel → Channel
  after_writes zero ch = ch
  after_writes (suc n) ch =
      (write_data p (w.env n) (w.message n) status_data none 0 (after_writes n ch)).0

  -- The packet of the write `n`, as it waits in the send queue.
  unfoldable pub packet_of_write : ℕ → Channel → Packet
  packet_of_write n ch =
      (queued p s (w.env n) (w.message n) status_data none 0 (after_writes n ch)).0

  -- That packet at the other end, before and after it is opened.
  unfoldable pub wire : ℕ → Channel → ℕ → Packet
  unfolding new_packet
  wire now ch n = record (new_packet now) {
    id = n % packet_id_limit;
    status = status_data;
    payload = (packet_of_write n ch).payload;
  }

  unfoldable pub plain : ℕ → ℕ → Packet
  unfolding new_packet
  plain now n = record (new_packet now) {
    id = n % packet_id_limit;
    status = status_data;
    payload = w.message n;
  }

  after_writes_fields :
      (n : ℕ) (ch : Channel)
      → ch.id ≡ 0
      → ((after_writes n ch).id ≡ n % packet_id_limit)
        × ((after_writes n ch).session_key ≡ ch.session_key)
  unfolding after_writes write_data enqueue new_id write_to_sender
  after_writes_fields zero ch h = (ground (arith, h), refl)
  after_writes_fields (suc n) ch h =
      let (a, b) = after_writes_fields n ch h in (ground (arith, a), ground (arith, b))

  packet_of_write_fields :
      (n : ℕ) (ch : Channel)
      → ch.id ≡ 0
      → let pac = packet_of_write n ch in
        (pac.id ≡ n % packet_id_limit)
        × (pac.status ≡ status_data)
        × (pac.payload
            ≡ encrypt_packet_data p ch.session_key
                (w.env n).nonce
                (n % packet_id_limit)
                (w.message n))
  unfolding packet_of_write
  packet_of_write_fields n ch h =
      let (a, b) = after_writes_fields n ch h in
      let c = after_writes n ch in
      let boxed = encrypt_packet_data p c.session_key (w.env n).nonce c.id (w.message n) in
      let e =
        enqueue_fields (w.env n) status_data none 0 (build (w.env n).now c.id status_data boxed)
          (new_id c).1 in
      let f = build_fields (w.env n).now c.id status_data boxed (omega (arith, a)) in
      (e.0 ∙ f.0 ∙ a, e.1 ∙ f.1, e.2 ∙ f.2 ∙ rw (a, b) refl)

  -- What is read from the datagram of the packet is `wire`.
  pub wire_read :
      (now n : ℕ) (ch : Channel)
      → ch.id ≡ 0
      → unmarshal_binary (new_packet now) (marshal_binary (packet_of_write n ch))
        ≡ some (wire now ch n)
  unfolding wire
  wire_read now n ch h =
      let (a, b, c) = packet_of_write_fields n ch h in
      unmarshal_binary-marshal_binary now (packet_of_write n ch) (omega (arith, a))
        (omega (arith, b))
      ∙ rw (a, b) refl

  pub wire-IsStream :
      (now : ℕ) (ch : Channel)
      → ch.id ≡ 0
      → ((n : ℕ) → length (w.env n).nonce ≡ p.nonce_size)
      → IsStream p ch.session_key (wire now ch) (plain now)
  unfolding wire plain
  wire-IsStream now ch h size = record {
    id = λ n. refl;
    opens = λ n.
        ap (decrypt_packet_data p ch.session_key (n % packet_id_limit))
          (packet_of_write_fields n ch h).2
        ∙ decrypt_packet_data-encrypt_packet_data p s ch.session_key (w.env n).nonce
            (n % packet_id_limit) (w.message n) (size n);
    same = λ n. refl;
  }
