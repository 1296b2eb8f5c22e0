-- ===== src/Receive/Steps.antt =====
-- What one packet does to what holds (tru.go, receive_queue.go).
use mathlib.Core.Path.{ap₂}
use tru.Base.{
  ℕ, suc, ◌+◌, ◌%◌, ◌≤◌, ◌<◌, ◌≡◌, ◌≢◌, refl, sym, ap, ◌∙◌, subst, ◌⊎◌, inl, inr, List, ◌∷◌, none,
  some, arith, ◌==◌, ltb, Bool-cases, ==_iff,
}
use tru.Channel.Write.{
  Env, write_to_ack, write_to, write_control, write_to_delay, write_to_sender, clear_split,
  parse_delivery,
}
use tru.Channel.{Channel}
use tru.Crypt.Library.{Primitives}
use tru.Packet.Distance.{half_limit}
use tru.Packet.{Packet, packet_id_limit}
use tru.Receive.Queue.{get-add}
use tru.Receive.Rounds.{Holds, sent_fields}
use tru.Receive.{add, get, send_to_reader}

-- What `Holds` looks at.
abbrev pub Same : Channel → Channel → Type 0
Same a b =
    (b.expected_id ≡ a.expected_id)
    × (b.combine ≡ a.combine)
    × (b.reader_ch ≡ a.reader_ch)
    × (b.recv_queue ≡ a.recv_queue)
    × (b.session_key ≡ a.session_key)

-- An ack goes to the sender and changes nothing that the receiving side reads.
pub ack_keeps :
    (p : Primitives) (env : Env) (pac : Packet) (ch : Channel) → Same ch (write_to_ack p env pac ch)
unfolding write_to_ack write_to write_control write_to_delay write_to_sender clear_split
    parse_delivery
ack_keeps p env pac ch = ground arith

module _ (plain : ℕ → Packet) where
  pub Holds-moved :
      (seen : List ℕ) (next : ℕ) (a b : Channel)
      → Same a b
      → Holds plain seen next a
      → Holds plain seen next b
  Holds-moved seen next a b (e, c, r, q, k) h = record {
    below = h.below;
    expected = e ∙ h.expected;
    read = h.read ∙ ap₂ (λ x y. (x, y)) (sym c) (sym r);
    waiting = λ id pac l. h.waiting id pac (ap (get id) (sym q) ∙ l);
    kept = λ n s. elim (h.kept n s) [
      | inl l ↦ inl l
      | inr (hi, found) ↦ inr (hi, ap (get (n % packet_id_limit)) q ∙ found)
    ];
  }

  -- A number that has come again, or whose packet has gone to the reader or waits already.
  pub Holds-again :
      (seen : List ℕ) (next n : ℕ) (ch : Channel)
      → Holds plain seen next ch
      → (n < next)
        ⊎ ((n < next + half_limit) × (get (n % packet_id_limit) ch.recv_queue ≡ some (plain n)))
      → Holds plain (n ∷ seen) next ch
  Holds-again seen next n ch h known = record {
    below = λ m l. inr (h.below m l);
    expected = h.expected;
    read = h.read;
    waiting = λ id pac l.
        let (m, lo, hi, at, fits, came) = h.waiting id pac l in (m, lo, hi, at, fits, inr came);
    kept = λ m s. elim s [
      | inl e ↦
          subst
            (λ (k : ℕ).
              (k < next)
              ⊎ ((k < next + half_limit)
                  × (get (k % packet_id_limit) ch.recv_queue ≡ some (plain k))))
            e known
      | inr came ↦ h.kept m came
    ];
  }

  -- A packet ahead of its turn is put by.
  pub Holds-ahead :
      (seen : List ℕ) (next n : ℕ) (ch : Channel)
      → Holds plain seen next ch
      → next < n
      → n < next + half_limit
      → (plain n).id ≡ n % packet_id_limit
      → Holds plain (n ∷ seen) next (record ch { recv_queue = add (plain n) ch.recv_queue })
  Holds-ahead seen next n ch h lo hi at = record {
    below = λ m l. inr (h.below m l);
    expected = h.expected;
    read = h.read;
    waiting = λ id pac l.
        let l' = rw (get-add (plain n) id ch.recv_queue) at l in
        elim (Bool-cases ((plain n).id == id)) [
          | inl k ↦ (n, omega arith, hi, ground (arith, at), ground (arith, l'), inl refl)
          | inr k ↦
              let (m, lo', hi', at', fits, came) = h.waiting id pac (ground (arith, l')) in
              (m, lo', hi', at', fits, inr came)
        ];
    kept = λ m s.
        let here : get (n % packet_id_limit) (add (plain n) ch.recv_queue) ≡ some (plain n) =
          get-add (plain n) (n % packet_id_limit) ch.recv_queue ∙ ground (arith, at) in
        let found = get-add (plain n) (m % packet_id_limit) ch.recv_queue in
        elim s [
          | inl e ↦ inr (
            omega arith,
            subst
                (λ (k : ℕ).
                  get (k % packet_id_limit) (add (plain n) ch.recv_queue) ≡ some (plain k))
                e here,
          )
          | inr came ↦ elim (h.kept m came) [
            | inl l ↦ inl l
            | inr (hi', there) ↦ elim (Bool-cases (ltb m next)) [
              | inl k ↦ inl (ground arith)
              | inr k ↦ inr (
                hi',
                elim (Bool-cases ((plain n).id == m % packet_id_limit)) [
                  | inl clash ↦
                      let late : next ≤ m = ground arith in
                      let one : n ≡ m = omega (arith, (==_iff _ _).0 clash) in
                      subst
                        (λ (k : ℕ).
                          get (k % packet_id_limit) (add (plain n) ch.recv_queue) ≡ some (plain k))
                        one here
                  | inr apart ↦ ground (arith, found, there)
                ],
              )
            ]
          ]
        ];
  }

  -- The packet in its turn goes to the reader.
  pub Holds-turn :
      (seen : List ℕ) (now next : ℕ) (ch : Channel)
      → Holds plain seen next ch
      → get ch.expected_id ch.recv_queue ≡ none
      → Holds plain (next ∷ seen) (suc next) (send_to_reader now (plain next) ch)
  Holds-turn seen now next ch h stop =
      let f = sent_fields plain now (plain next) next ch h.expected h.read refl in
      record {
        below = λ m l. elim (Bool-cases (ltb m next)) [
          | inl k ↦ inr (h.below m (ground arith))
          | inr k ↦ inl (ground arith)
        ];
        expected = f.0 ∙ ap (λ (k : ℕ). k % packet_id_limit) (omega arith);
        read = f.1;
        waiting = λ id pac l.
            let there : get id ch.recv_queue ≡ some pac = ap (get id) (sym f.2) ∙ l in
            let (m, lo, hi, at, fits, came) = h.waiting id pac there in
            let other : next ≢ m = λ e. cc (
              there,
              stop,
              ap (λ (k : ℕ). get k ch.recv_queue)
                  (h.expected ∙ ap (λ (k : ℕ). k % packet_id_limit) e ∙ sym at),
            ) in
            (m, omega arith, omega arith, at, fits, inr came);
        kept = λ m s. elim s [
          | inl e ↦ inl (omega arith)
          | inr came ↦ elim (h.kept m came) [
            | inl l ↦ inl (omega arith)
            | inr (hi, there) ↦ inr (omega arith, ap (get (m % packet_id_limit)) f.2 ∙ there)
          ]
        ];
      }
