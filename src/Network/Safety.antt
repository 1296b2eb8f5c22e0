-- ===== src/Network/Safety.antt =====
-- What a network promises, in every state that it reaches.
use tru.Base.{
  ℕ, zero, suc, ◌+◌, ◌%◌, ◌≤◌, ◌<◌, ◌≡◌, refl, sym, ap, ◌∙◌, ◌⊎◌, inl, inr, Bool, [], ◌∷◌, ◌++◌,
  none, some, some_eq, Bytes, arith, length, Bool-cases, ltb, All-Mem,
}
use tru.Channel.{Channel, new_channel}
use tru.Channel.Write.{write_to}
use tru.Crypt.Library.{Primitives, IsSound}
use tru.Network.Acking.{ack-IsGood, retransmit-IsGood}
use tru.Network.Invariant.{plain_at, wire_at, wire_at-IsStream, IsGood, AcksIt}
use tru.Network.Queue.{write_fields}
use tru.Network.Receiving.{deliver-IsGood}
use tru.Network.Writing.{write-IsGood}
use tru.Network.{Net, Carries, Step, write, retransmit, deliver, ack, Reach, here, next}
use tru.Packet.Codec.{unmarshal_binary-marshal_binary}
use tru.Packet.{
  Packet, packet_id_limit, new_packet, status_data, status_ack, marshal_binary, unmarshal_binary,
}
use tru.Receive.Ordered.{start-Inv, IsNext-Inv}
use tru.Receive.Stream.{Seen, IsNext, prefix}
use tru.SendQueue.Index.{IsValid}
use tru.SendQueue
use tru.Split.Combine.{combine_all, combine_all-concat}
use tru.Split.{clear, packet}
use tru.Transfer.Whole.{messages, bytes_read, bytes_read-concat}
use tru.Transfer.{Writes}

-- Nothing has been written, and the receiver is a new channel with the session key of the sender.
abbrev pub start_net : Channel → ℕ → Bytes → Bool → ℕ → ℕ → Net
start_net sender now addr server_mode delay limit = record {
  sender = sender;
  receiver = record (new_channel now addr server_mode delay limit) {
    session_key = sender.session_key;
  };
  written = 0;
  arrived = [];
  answered = [];
}

combine_at :
    (w : Writes) (stamps : ℕ → ℕ) (n : ℕ)
    → combine_all clear (prefix (plain_at w stamps) n) ≡ (clear, prefix (plain_at w stamps) n)
unfolding plain_at packet combine_all
combine_at w stamps zero = refl
combine_at w stamps (suc n) =
    combine_all-concat clear (prefix (plain_at w stamps) n) (plain_at w stamps n)
    ∙ ground (arith, combine_at w stamps n)

read_at :
    (w : Writes) (stamps : ℕ → ℕ) (n : ℕ)
    → bytes_read (prefix (plain_at w stamps) n) ≡ messages w.message n
unfolding plain_at
read_at w stamps zero = refl
read_at w stamps (suc n) =
    bytes_read-concat (prefix (plain_at w stamps) n) (plain_at w stamps n)
    ∙ ap (λ ms. ms ++ w.message n ∷ []) (read_at w stamps n)

module _ (p : Primitives) (s : IsSound p) (w : Writes)
    (nonces : (n : ℕ) → length (w.env n).nonce ≡ p.nonce_size) where
  pub ack_read :
      (now n : ℕ) (pac q : Packet)
      → pac.status ≡ status_ack
      → pac.id ≡ n % packet_id_limit
      → unmarshal_binary (new_packet now) (marshal_binary pac) ≡ some q
      → (q.status ≡ status_ack) × (q.id ≡ n % packet_id_limit)
  ack_read now n pac q h at read =
      let e = some_eq (
        sym read
        ∙ unmarshal_binary-marshal_binary now pac (omega (arith, at)) (omega (arith, h))) in
      (ap (λ (x : Packet). x.status) e ∙ h, ap (λ (x : Packet). x.id) e ∙ at)

  pub Step-IsGood :
      (key : Bytes) (a b : Net) → Step p key w a b → IsGood p key w a → IsGood p key w b
  Step-IsGood key a _ (write _ alive free) v =
      let (pac, id, keyed, queue, at, st, pl, _) =
        write_fields p s (w.env a.written) (w.message a.written) a.sender a.written alive v.id in
      let c : Carries p key w a.written pac = record {
        id = at;
        status = st;
        payload = rw (sym v.keyed) pl;
      } in
      write-IsGood p s key w nonces a
        (write_to p (w.env a.written) (w.message a.written) status_data [] [] a.sender).1 pac free v
        id keyed queue c
  Step-IsGood key a _ (retransmit _ now) v = retransmit-IsGood p s key w nonces a now v
  Step-IsGood key a _ (deliver _ env n pac q _ l c near read) v =
      deliver-IsGood p s key w nonces a env n pac q l c near read v
  Step-IsGood key a _ (ack _ env n pac q there fresh read) v =
      let (came, at, h) = All-Mem (AcksIt a.arrived) (n, pac) a.answered there v.acks in
      let (h', at') = ack_read env.now n pac q h at read in
      ack-IsGood p s key w nonces a env n q h' at' came fresh v

  pub Reach-IsGood :
      (key : Bytes) (a b : Net) → Reach p key w a b → IsGood p key w a → IsGood p key w b
  Reach-IsGood key a _ here v = v
  Reach-IsGood key a b (next {a = c} r t) v = Step-IsGood key c b t (Reach-IsGood key a c r v)

  first_written :
      (key : Bytes) (net : Net) (first : ℕ)
      → IsGood p key w net
      → IsNext net.arrived first
      → first ≤ net.written
  first_written key net first v (below, _) = elim (Bool-cases (ltb net.written first)) [
    | inl l ↦ absurd (omega (arith, v.sent net.written (below net.written (ground arith))))
    | inr l ↦ ground arith
  ]

  read_Inv :
      (key : Bytes) (net : Net)
      → IsGood p key w net
      → (first : ℕ) × IsNext net.arrived first
        × (bytes_read net.receiver.reader_ch ≡ messages w.message first)
  read_Inv key net v =
      let (stamps, first, inv) = v.got in
      (
        first,
        IsNext-Inv p key (wire_at p key w stamps) (plain_at w stamps)
            (wire_at-IsStream p s key w nonces stamps) net.arrived first net.receiver inv,
        ap (λ r. bytes_read r.1) (sym inv.holds.read ∙ combine_at w stamps first)
            ∙ read_at w stamps first,
      )

  pub read_good :
      (key : Bytes) (net : Net)
      → IsGood p key w net
      → (first : ℕ) × IsNext net.arrived first
        × (first ≤ net.written)
        × (bytes_read net.receiver.reader_ch ≡ messages w.message first)
  read_good key net v =
      let (first, is_next, read) = read_Inv key net v in
      (first, is_next, first_written key net first v is_next, read)

  module _ (sender : Channel) (now : ℕ) (addr : Bytes) (server_mode : Bool) (delay limit : ℕ)
      (first_id : sender.id ≡ 0) (valid : IsValid sender.send_queue) where
    pub start-IsGood :
        IsGood p sender.session_key w (start_net sender now addr server_mode delay limit)
    start-IsGood = record {
      id = first_id;
      keyed = refl;
      queue = valid;
      sent = λ n x. absurd x;
      acks = tt;
      kept = λ n l. absurd (omega arith);
      got = (
        λ n. 0,
        0,
        start-Inv p sender.session_key (wire_at p sender.session_key w (λ n. 0))
            (plain_at w (λ n. 0)) (wire_at-IsStream p s sender.session_key w nonces (λ n. 0)) now
            addr server_mode delay limit,
      );
    }

    reached :
        (net : Net)
        → Reach p sender.session_key w (start_net sender now addr server_mode delay limit) net
        → IsGood p sender.session_key w net
    reached net r =
        Reach-IsGood sender.session_key (start_net sender now addr server_mode delay limit) net r
          start-IsGood

    -- A sender with sound cryptography, nonces of the cipher's size, its ids at 0 and an index that
    -- fits its send queue writes to a new channel with the same session key. In every state
    -- that writes, runs of the retransmit timer, acks and arrivals lead to, in any order, with what
    -- was sent arriving any number of times or never, the reader has exactly the messages before
    -- the first one that has not arrived, each once and in the order of writing. A write waits for
    -- its id to be free, a packet comes less than half the id space away from the first one
    -- missing, an ack before the ids have gone
    -- once around since its packet was written.
    pub reads_in_order :
        (net : Net)
        → Reach p sender.session_key w (start_net sender now addr server_mode delay limit) net
        → (first : ℕ) × IsNext net.arrived first
          × (first ≤ net.written)
          × (bytes_read net.receiver.reader_ch ≡ messages w.message first)
    reads_in_order net r = read_good sender.session_key net (reached net r)

    -- A sender with sound cryptography, nonces of the cipher's size, its ids at 0 and an index that
    -- fits its send queue writes to a new channel with the same session key. In every state that
    -- writes, runs of the retransmit timer, acks and arrivals lead to in any order, no message is
    -- lost: each one that was written has arrived, or its packet waits in the send queue under its
    -- id, encrypted for that id, and no more than one round of ids has been given since. A write
    -- waits for its id to be free, a packet comes less than half the id space away from the first
    -- one missing, an answer to a packet before the ids have gone once around since that was
    -- written.
    pub kept_until_arrival :
        (n : ℕ) (net : Net)
        → Reach p sender.session_key w (start_net sender now addr server_mode delay limit) net
        → n < net.written
        → Seen n net.arrived
          ⊎ ((e : ℕ) × (pac : Packet) × (SendQueue.get (n % packet_id_limit) net.sender.send_queue
                ≡ some (e, pac))
              × Carries p sender.session_key w n pac
              × (net.written ≤ n + packet_id_limit))
    kept_until_arrival n net r l = (reached net r).kept n l

    -- A sender with sound cryptography, nonces of the cipher's size, its ids at 0 and an index that
    -- fits its send queue writes to a new channel with the same session key. In every state that
    -- writes, runs of the retransmit timer, acks and arrivals lead to, and in which nothing waits in
    -- the send queue, the reader has exactly all messages that were written, in their order. A write
    -- waits for its id to be free, a packet comes less than half the id space away from the first
    -- one missing, an answer to a packet before the ids have gone once around since that was
    -- written.
    pub all_read :
        (net : Net)
        → Reach p sender.session_key w (start_net sender now addr server_mode delay limit) net
        → ((id : ℕ) → SendQueue.get id net.sender.send_queue ≡ none)
        → bytes_read net.receiver.reader_ch ≡ messages w.message net.written
    all_read net r quiet =
        let v = reached net r in
        let (first, (below, missing), read) = read_Inv sender.session_key net v in
        let most = first_written sender.session_key net first v (below, missing) in
        let least : net.written ≤ first = elim (Bool-cases (ltb first net.written)) [
          | inl l ↦ elim (v.kept first (ground arith)) [
            | inl came ↦ absurd (missing came)
            | inr (e, pac, there, _, _) ↦ cc (there, quiet (first % packet_id_limit))
          ]
          | inr l ↦ ground arith
        ] in
        let all : first ≡ net.written = omega (arith, most, least) in
        read ∙ ap (messages w.message) all
