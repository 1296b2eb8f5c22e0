-- ===== src/Network/Sent.antt =====
-- Whatever a network sends is a message or an ack (channel.go, send_queue.go, tru.go).
use tru.Base.{
  ℕ, ◌+◌, ◌%◌, ◌<◌, ◌≡◌, refl, sym, ap, ◌∙◌, subst, ◌⊎◌, inl, inr, Bool, List, [], ◌∷◌, ◌++◌, some,
  some_eq, Bytes, arith, length, All, All-map, All-append, All-Mem,
}
use tru.Channel.Write.Laws.{build_fields}
use tru.Channel.Write.{Env, build, write_to}
use tru.Channel.{Channel, new_channel}
use tru.Connector.Serve.{serve_channel}
use tru.Crypt.Library.{Primitives, IsSound}
use tru.Network.Invariant.{IsGood, AcksIt, Carries-Alike}
use tru.Network.Queue.{write_fields}
use tru.Network.Safety.{start_net, ack_read, Reach-IsGood, start-IsGood}
use tru.Network.Senders.{OfEntry, deliver_sender, retransmit_sender, ack_taken}
use tru.Network.{Net, arrive, Carries, Step, write, retransmit, deliver, ack, Reach, here, next}
use tru.Packet.Codec.{unmarshal_binary-marshal_binary}
use tru.Packet.{
  Packet, packet_id_limit, new_packet, status_ack, status_data, marshal_binary, unmarshal_binary,
}
use tru.Receive.Stream.{Seen}
use tru.SendQueue.Index.{IsValid, init-IsValid}
use tru.SendQueue.Renewal.{Alike}
use tru.SendQueue.{SendQueue, init, add}
use tru.Transfer.{Writes}

-- An ack of a packet that has arrived.
abbrev pub AcksOne : List ℕ → Packet → Type 0
AcksOne arrived pac =
    (n : ℕ) × Seen n arrived × (pac.id ≡ n % packet_id_limit) × (pac.status ≡ status_ack)

module _ (p : Primitives) (key : Bytes) (w : Writes) where
  -- A packet of a message that was written.
  abbrev pub CarriesOne : ℕ → Packet → Type 0
  CarriesOne written pac = (n : ℕ) × (n < written) × Carries p key w n pac

  record IsSent (net : Net) : Type 0 where
    queue : All (OfEntry (CarriesOne net.written)) net.sender.send_queue.queue
    sent : All (CarriesOne net.written) net.sender.sender_ch
    acks : All (AcksOne net.arrived) net.receiver.sender_ch

  later : (written : ℕ) (pac : Packet) → CarriesOne written pac → CarriesOne (written + 1) pac
  later written pac (n, l, c) = (n, omega (arith, l), c)

  alike : (written : ℕ) (a b : Packet) → Alike a b → CarriesOne written a → CarriesOne written b
  alike written a b h (n, l, c) = (n, l, Carries-Alike p key w n a b h c)

  write-IsSent :
      (net : Net) (sender : Channel) (pac : Packet)
      → sender.send_queue ≡ add pac net.sender.send_queue
      → (sender.sender_ch ≡ net.sender.sender_ch)
        ⊎ (sender.sender_ch ≡ net.sender.sender_ch ++ pac ∷ [])
      → Carries p key w net.written pac
      → IsSent net
      → IsSent (record net { sender = sender; written = net.written + 1 })
  unfolding add
  write-IsSent net sender pac queue sent c v =
      let P = CarriesOne (net.written + 1) in
      let this : P pac = (net.written, omega arith, c) in
      let old =
        All-map (CarriesOne net.written) P net.sender.sender_ch (later net.written) v.sent in
      let waiting =
        All-map (OfEntry (CarriesOne net.written)) (OfEntry P) net.sender.send_queue.queue
          (λ x. later net.written x.1) v.queue in
      record {
        queue =
            subst (λ (q : SendQueue). All (OfEntry P) q.queue) (sym queue)
              (All-append (OfEntry P) net.sender.send_queue.queue
                ((net.sender.send_queue.next_element, pac) ∷ []) waiting (this, tt));
        sent = elim sent [
          | inl e ↦ subst (All P) (sym e) old
          | inr e ↦
              subst (All P) (sym e) (All-append P net.sender.sender_ch (pac ∷ []) old (this, tt))
        ];
        acks = v.acks;
      }

  deliver-IsSent :
      (net : Net) (env : Env) (n : ℕ) (pac q : Packet)
      → Carries p key w n pac
      → unmarshal_binary (new_packet env.now) (marshal_binary pac) ≡ some q
      → IsSent net
      → IsSent (arrive n (serve_channel p env q net.receiver).0 net)
  deliver-IsSent net env n pac q c read v =
      let e = some_eq (
        sym read
        ∙ unmarshal_binary-marshal_binary env.now pac (omega (arith, c.id))
            (omega (arith, c.status))) in
      let at : q.id ≡ n % packet_id_limit = ap (λ (x : Packet). x.id) e ∙ c.id in
      let is_data : q.status ≡ status_data = ap (λ (x : Packet). x.status) e ∙ c.status in
      let answer = build env.now q.id status_ack [] in
      let fields = build_fields env.now q.id status_ack [] (omega (arith, at)) in
      let this : AcksOne (n ∷ net.arrived) answer = (n, inl refl, fields.0 ∙ at, fields.1) in
      let P = AcksOne (n ∷ net.arrived) in
      let old =
        All-map (AcksOne net.arrived) P net.receiver.sender_ch
          (λ x (m, came, i, st). (m, inr came, i, st)) v.acks in
      record {
        queue = v.queue;
        sent = v.sent;
        acks = elim (deliver_sender p env q net.receiver is_data) [
          | inl same ↦ subst (All P) (sym same) old
          | inr more ↦
              subst (All P) (sym more)
                (All-append P net.receiver.sender_ch (answer ∷ []) old (this, tt))
        ];
      }

module _ (p : Primitives) (s : IsSound p) (w : Writes)
    (nonces : (n : ℕ) → length (w.env n).nonce ≡ p.nonce_size) where
  Step-IsSent :
      (key : Bytes) (a b : Net)
      → Step p key w a b
      → IsGood p key w a
      → IsSent p key w a
      → IsSent p key w b
  Step-IsSent key a _ (write _ alive free) g v =
      let (pac, id, keyed, queue, at, st, pl, sent) =
        write_fields p s (w.env a.written) (w.message a.written) a.sender a.written alive g.id in
      let c : Carries p key w a.written pac = record {
        id = at;
        status = st;
        payload = rw (sym g.keyed) pl;
      } in
      write-IsSent p key w a
        (write_to p (w.env a.written) (w.message a.written) status_data [] [] a.sender).1 pac queue
        sent c v
  Step-IsSent key a _ (retransmit _ now) g v =
      let (queue, sent) =
        retransmit_sender (CarriesOne p key w a.written) (alike p key w a.written) now a.sender
          v.queue v.sent in
      record { queue = queue; sent = sent; acks = v.acks }
  Step-IsSent key a _ (deliver _ env n pac q _ l c near read) g v =
      deliver-IsSent p key w a env n pac q c read v
  Step-IsSent key a _ (ack _ env n pac q there fresh read) g v =
      let (_, at, h) = All-Mem (AcksIt a.arrived) (n, pac) a.answered there g.acks in
      let (h', at') = ack_read p s w nonces env.now n pac q h at read in
      let (queue, same) =
        ack_taken (CarriesOne p key w a.written) (alike p key w a.written) p env q a.sender h'
          v.queue in
      record {
        queue = queue;
        sent = subst (All (CarriesOne p key w a.written)) (sym same) v.sent;
        acks = v.acks;
      }

  Reach-IsSent :
      (key : Bytes) (a b : Net)
      → Reach p key w a b
      → IsGood p key w a
      → IsSent p key w a
      → IsSent p key w b
  Reach-IsSent key a _ here g v = v
  Reach-IsSent key a b (next {a = c} r t) g v =
      Step-IsSent key c b t (Reach-IsGood p s w nonces key a c r g) (Reach-IsSent key a c r g v)

  -- A sender with sound cryptography, nonces of the cipher's size, its ids at 0, and nothing sent
  -- or waiting writes to a new channel with the same session key. In every state that writes,
  -- retransmits, arrivals and acks lead to, everything that was handed to the sender's process is
  -- the packet of a message that was written, under its id, and everything that the receiver has
  -- handed to its own process is an ack of a packet that has arrived.
  pub sent_known :
      (sender : Channel) (now : ℕ) (addr : Bytes) (server_mode : Bool) (delay limit : ℕ) (net : Net)
      → sender.id ≡ 0
      → sender.send_queue ≡ init
      → sender.sender_ch ≡ []
      → Reach p sender.session_key w (start_net sender now addr server_mode delay limit) net
      → All (CarriesOne p sender.session_key w net.written) net.sender.sender_ch
        × All (AcksOne net.arrived) net.receiver.sender_ch
  unfolding new_channel
  sent_known sender now addr server_mode delay limit net first_id empty silent r =
      let key = sender.session_key in
      let start = start_net sender now addr server_mode delay limit in
      let good =
        start-IsGood p s w nonces sender now addr server_mode delay limit first_id
          (subst IsValid (sym empty) init-IsValid) in
      let fresh : IsSent p key w start = record {
        queue =
            subst (λ (q : SendQueue). All (OfEntry (CarriesOne p key w 0)) q.queue) (sym empty) tt;
        sent = subst (All (CarriesOne p key w 0)) (sym silent) tt;
        acks = tt;
      } in
      let v = Reach-IsSent key start net r good fresh in (v.sent, v.acks)
