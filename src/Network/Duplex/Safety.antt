-- ===== src/Network/Duplex/Safety.antt =====
-- What a channel promises in both directions (channel.go, send_queue.go, tru.go).
use tru.Base.{ℕ, ◌%◌, ◌≤◌, ◌≡◌, refl, ap, ◌∙◌, inl, inr, false, [], Bytes, length}
use tru.Channel.Fresh.{IsFresh}
use tru.Channel.{Channel, new_channel}
use tru.Crypt.Library.{Primitives, IsSound}
use tru.Network.Duplex.Untouched.{SameSender, Step-untouched}
use tru.Network.Duplex.{Duplex, rightward, leftward, Step, to_right, to_left, Reach, here, next}
use tru.Network.Invariant.{IsGood}
use tru.Network.Safety.{start_net, Step-IsGood, start-IsGood, read_good}
use tru.Network.{Net}
use tru.Packet.{packet_id_limit}
use tru.Receive.Places.{Inv-moved}
use tru.Receive.Steps.{Same}
use tru.Receive.Stream.{IsNext}
use tru.SendQueue.Index.{init-IsValid}
use tru.SendQueue
use tru.Transfer.Whole.{messages, bytes_read}
use tru.Transfer.{Writes}

-- A new channel with a session key.
abbrev new_with : Bytes → Channel
new_with key = record (new_channel 0 [] false 0 0) { session_key = key }

abbrev pub start_duplex : Channel → Channel → Duplex
start_duplex left right = record {
  left = left;
  right = right;
  left_written = 0;
  right_written = 0;
  at_left = [];
  at_right = [];
  answers_left = [];
  answers_right = [];
}

-- What holds of a network looks only at what its sender writes with and its receiver reads with.
IsGood-moved :
    (p : Primitives) (key : Bytes) (w : Writes) (net : Net) (sender receiver : Channel)
    → SameSender net.sender sender
    → Same net.receiver receiver
    → IsGood p key w net
    → IsGood p key w (record net { sender = sender; receiver = receiver })
unfolding SendQueue.get
IsGood-moved p key w net sender receiver (id, keyed, queue) same v =
    let (stamps, first, inv) = v.got in
    record {
      id = id ∙ v.id;
      keyed = keyed ∙ v.keyed;
      queue = rw queue v.queue;
      sent = v.sent;
      acks = v.acks;
      kept = λ n l. elim (v.kept n l) [
        | inl came ↦ inl came
        | inr (e, pac, there, c, near) ↦
            inr (e, pac, ap (SendQueue.get (n % packet_id_limit)) queue ∙ there, c, near)
      ];
      got = (stamps, first, Inv-moved key _ net.arrived first net.receiver receiver same inv);
    }

module _ (p : Primitives) (s : IsSound p) (key : Bytes) (from_left from_right : Writes)
    (left_nonces : (n : ℕ) → length (from_left.env n).nonce ≡ p.nonce_size)
    (right_nonces : (n : ℕ) → length (from_right.env n).nonce ≡ p.nonce_size) where
  abbrev pub BothGood : Duplex → Type 0
  BothGood d = IsGood p key from_left (rightward d) × IsGood p key from_right (leftward d)

  Step-BothGood : (a b : Duplex) → Step p key from_left from_right a b → BothGood a → BothGood b
  Step-BothGood a _ (to_right _ n t) (v, v') =
      let (same, writes) = Step-untouched p s from_left left_nonces key (rightward a) n t v in
      (
        Step-IsGood p s from_left left_nonces key (rightward a) n t v,
        IsGood-moved p key from_right (leftward a) n.receiver n.sender writes same v',
      )
  Step-BothGood a _ (to_left _ n t) (v, v') =
      let (same, writes) = Step-untouched p s from_right right_nonces key (leftward a) n t v' in
      (
        IsGood-moved p key from_left (rightward a) n.receiver n.sender writes same v,
        Step-IsGood p s from_right right_nonces key (leftward a) n t v',
      )

  pub Reach-BothGood :
      (a b : Duplex) → Reach p key from_left from_right a b → BothGood a → BothGood b
  Reach-BothGood a _ here v = v
  Reach-BothGood a b (next {a = c} r t) v = Step-BothGood c b t (Reach-BothGood a c r v)

  module _ (left right : Channel) (fresh : IsFresh key left) (fresh' : IsFresh key right) where
    start-BothGood : BothGood (start_duplex left right)
    unfolding new_channel
    start-BothGood =
        let sends : (ch : Channel) → IsFresh key ch → SameSender (new_with key) ch =
          λ ch f. (f.id, f.keyed, f.queue) in
        let reads : (ch : Channel) → IsFresh key ch → Same (new_with key) ch =
          λ ch f. (f.expected, f.combine, f.read, f.waiting, f.keyed) in
        (
          IsGood-moved p key from_left (start_net (new_with key) 0 [] false 0 0) left right
              (sends left fresh) (reads right fresh')
              (start-IsGood p s from_left left_nonces (new_with key) 0 [] false 0 0 refl
                init-IsValid),
          IsGood-moved p key from_right (start_net (new_with key) 0 [] false 0 0) right left
              (sends right fresh') (reads left fresh)
              (start-IsGood p s from_right right_nonces (new_with key) 0 [] false 0 0 refl
                init-IsValid),
        )

    -- With sound cryptography and nonces of the cipher's size, two channels that have a common
    -- session key and neither have written nor read a message write to each other. In every state
    -- that the steps of both directions lead to, writes, runs of the retransmit timers, arrivals
    -- and acks in any order, each end has read exactly the messages of the other before the
    -- first one that has not arrived, each once and in the order of writing. Each direction has
    -- the limits of one: a write waits for its id to be free, a packet comes less than half the
    -- id space away from the first one missing, an ack before the ids have gone once around since its packet was
    -- written.
    pub both_read_in_order :
        (d : Duplex)
        → Reach p key from_left from_right (start_duplex left right) d
        → ((first : ℕ) × IsNext d.at_right first
            × (first ≤ d.left_written)
            × (bytes_read d.right.reader_ch ≡ messages from_left.message first))
          × ((first : ℕ) × IsNext d.at_left first
              × (first ≤ d.right_written)
              × (bytes_read d.left.reader_ch ≡ messages from_right.message first))
    both_read_in_order d r =
        let (v, v') = Reach-BothGood (start_duplex left right) d r start-BothGood in
        (
          read_good p s from_left left_nonces key (rightward d) v,
          read_good p s from_right right_nonces key (leftward d) v',
        )
