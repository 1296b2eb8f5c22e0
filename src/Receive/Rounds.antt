-- ===== src/Receive/Rounds.antt =====
-- One packet in its turn (tru.go, receive_queue.go).
use tru.Base.Map.{nat_eq, length-delete-lt}
use mathlib.Core.Path.{ap₂}
use tru.Base.{
  ℕ, zero, suc, ◌+◌, ◌%◌, ◌≤◌, ◌<◌, ◌≡◌, refl, sym, ap, ◌∙◌, subst, append-nil, ◌⊎◌, inl, inr, List,
  [], ◌∷◌, ◌++◌, Option, none, some, arith, length, Option-cases, Bool-cases, ltb, ◌≢◌,
}
use tru.Channel.Ids.{new_expected_id_next}
use tru.Channel.{Channel, new_expected_id}
use tru.Packet.Distance.{half_limit}
use tru.Packet.{Packet, packet_id_limit}
use tru.Receive.Queue.{get-remove}
use tru.Receive.Stream.{Seen, prefix}
use tru.Receive.{ReceiveQueue, get, remove, deliver, send_to_reader, process}
use tru.Split.Combine.{combine_all, combine_all-concat, out_list}
use tru.Split.{clear, packet}

module _ (plain : ℕ → Packet) where
  -- `next` packets have gone to the reader. What waits are packets of the stream from `next` on,
  -- and every number that has come has gone to the reader or waits.
  pub record Holds (seen : List ℕ) (next : ℕ) (ch : Channel) : Type 0 where
    pub below : (n : ℕ) → n < next → Seen n seen
    pub expected : ch.expected_id ≡ next % packet_id_limit
    pub read : combine_all clear (prefix plain next) ≡ (ch.combine, ch.reader_ch)
    pub waiting :
        (id : ℕ) (pac : Packet)
        → get id ch.recv_queue ≡ some pac
        → (n : ℕ) × (next ≤ n)
          × (n < next + half_limit)
          × (id ≡ n % packet_id_limit)
          × (pac ≡ plain n)
          × Seen n seen
    pub kept :
        (n : ℕ)
        → Seen n seen
        → (n < next)
          ⊎ ((n < next + half_limit) × (get (n % packet_id_limit) ch.recv_queue ≡ some (plain n)))

  deliver_fields :
      (now : ℕ) (out : Option Packet) (ch : Channel)
      → let r = deliver now out ch in
        (r.expected_id ≡ ch.expected_id)
        × (r.combine ≡ ch.combine)
        × (r.reader_ch ≡ ch.reader_ch ++ out_list out)
        × (r.recv_queue ≡ ch.recv_queue)
        × (r.session_key ≡ ch.session_key)
  unfolding deliver
  deliver_fields now none ch = (refl, refl, sym (append-nil ch.reader_ch), refl, refl)
  deliver_fields now (some q) ch = (refl, refl, refl, refl, refl)

  pub sent_fields :
      (now : ℕ) (pac : Packet) (next : ℕ) (ch : Channel)
      → ch.expected_id ≡ next % packet_id_limit
      → combine_all clear (prefix plain next) ≡ (ch.combine, ch.reader_ch)
      → pac ≡ plain next
      → let r = send_to_reader now pac ch in
        (r.expected_id ≡ (next + 1) % packet_id_limit)
        × (combine_all clear (prefix plain (suc next)) ≡ (r.combine, r.reader_ch))
        × (r.recv_queue ≡ ch.recv_queue)
        × (r.session_key ≡ ch.session_key)
  unfolding send_to_reader new_expected_id
  sent_fields now pac next ch e r same =
      let (c, out) = packet ch.combine pac in
      let f = deliver_fields now out (record (new_expected_id ch) { combine = c }) in
      let row = rw r at (combine_all-concat clear (prefix plain next) pac) in
      (
        f.0 ∙ new_expected_id_next next ch e,
        ap (λ q. combine_all clear (prefix plain next ++ q ∷ [])) (sym same)
            ∙ row
            ∙ ap₂ (λ a b. (a, b)) (sym f.1) (sym f.2),
        f.3,
        f.4,
      )

  -- What waits at the expected id is the expected packet.
  waits_expected :
      (seen : List ℕ) (next : ℕ) (ch : Channel) (pac : Packet)
      → Holds seen next ch
      → get ch.expected_id ch.recv_queue ≡ some pac
      → (pac ≡ plain next) × Seen next seen
  waits_expected seen next ch pac h e =
      let (n, lo, hi, at, same, came) = h.waiting ch.expected_id pac e in
      let here : n ≡ next = omega (arith, h.expected) in
      (same ∙ ap plain here, subst (λ (k : ℕ). Seen k seen) here came)

  -- One round of `process` keeps what holds, with one packet more gone to the reader.
  pub round-Holds :
      (seen : List ℕ) (now next : ℕ) (ch : Channel) (pac : Packet)
      → Holds seen next ch
      → get ch.expected_id ch.recv_queue ≡ some pac
      → let sent = send_to_reader now pac ch in
        Holds seen
          (suc next)
          (record sent { recv_queue = (remove ch.expected_id sent.recv_queue).0 })
  round-Holds seen now next ch pac h e =
      let (same, came) = waits_expected seen next ch pac h e in
      let sent = send_to_reader now pac ch in
      let f = sent_fields now pac next ch h.expected h.read same in
      record {
        below = λ n l. elim (Bool-cases (ltb n next)) [
          | inl k ↦ h.below n (ground arith)
          | inr k ↦ let last : next ≡ n = ground arith in subst (λ (k : ℕ). Seen k seen) last came
        ];
        expected = f.0 ∙ ap (λ (k : ℕ). k % packet_id_limit) (omega arith);
        read = f.1;
        waiting = λ id q l.
            let l' = rw (get-remove ch.expected_id id sent.recv_queue).1 at l in
            let found : get id ch.recv_queue ≡ some q = ground (arith, l', f.2) in
            let (n, lo, hi, at, fits, seen_n) = h.waiting id q found in
            let other : ch.expected_id ≢ id = ground (arith, l') in
            (n, omega (arith, h.expected), omega arith, at, fits, seen_n);
        kept = λ n s. elim (h.kept n s) [
          | inl l ↦ inl (omega arith)
          | inr (hi, found) ↦ elim (Bool-cases (ltb n (suc next))) [
            | inl k ↦ inl (ground arith)
            | inr k ↦ inr (
              omega arith,
              (get-remove ch.expected_id (n % packet_id_limit) sent.recv_queue).1
                  ∙ ground (arith, f.2, found, h.expected),
            )
          ]
        ];
      }

  pub round_key :
      (now : ℕ) (pac : Packet) (ch : Channel)
      → (send_to_reader now pac ch).session_key ≡ ch.session_key
  unfolding send_to_reader new_expected_id
  round_key now pac ch =
      let (c, out) = packet ch.combine pac in
      (deliver_fields now out (record (new_expected_id ch) { combine = c })).4

  pub round_queue :
      (now : ℕ) (pac : Packet) (ch : Channel)
      → (send_to_reader now pac ch).recv_queue ≡ ch.recv_queue
  unfolding send_to_reader new_expected_id
  round_queue now pac ch =
      let (c, out) = packet ch.combine pac in
      (deliver_fields now out (record (new_expected_id ch) { combine = c })).3

  length-remove :
      (id : ℕ) (r : ReceiveQueue) (pac : Packet)
      → get id r ≡ some pac
      → length (remove id r).0 < length r
  unfolding remove get
  length-remove id r pac e = ground (arith, length-delete-lt id r)

  -- `process` ends by itself: what holds is kept, and the packet that is then expected does not
  -- wait.
  pub process-Holds :
      (fuel now : ℕ) (seen : List ℕ) (next : ℕ) (ch : Channel)
      → length ch.recv_queue < fuel
      → Holds seen next ch
      → (next' : ℕ) × (next ≤ next')
        × Holds seen next' (process fuel now ch)
        × (get (process fuel now ch).expected_id (process fuel now ch).recv_queue ≡ none)
        × ((process fuel now ch).session_key ≡ ch.session_key)
  unfolding process
  process-Holds zero now seen next ch l h = absurd (omega arith)
  process-Holds (suc fuel) now seen next ch l h =
      elim (Option-cases (get ch.expected_id ch.recv_queue)) [
        | inl e ↦ (next, omega arith, rw (e, process) h, rw (e, process) e, rw (e, process) refl)
        | inr (pac, e) ↦
            let sent = send_to_reader now pac ch in
            let ch' = record sent { recv_queue = (remove ch.expected_id sent.recv_queue).0 } in
            let shorter = length-remove ch.expected_id ch.recv_queue pac e in
            let q = round_queue now pac ch in
            let (next', lo, holds, stop, key) =
              process-Holds fuel now seen (suc next) ch' (rw q (omega arith))
                (round-Holds seen now next ch pac h e) in
            (
              next',
              omega arith,
              rw (e, process) holds,
              rw (e, process) stop,
              rw (e, process) (key ∙ round_key now pac ch),
            )
      ]
