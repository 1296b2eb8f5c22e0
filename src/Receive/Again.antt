-- ===== src/Receive/Again.antt =====
-- A packet that comes once more, whenever it was read (tru.go, receive_queue.go).
use mathlib.Core.Path.{ap₂}
use tru.Base.Int.{sub_ℕ, pos, negsuc}
use tru.Base.{
  ℕ, zero, suc, [], ◌++◌, ◌+◌, ◌-◌, ◌%◌, ◌≤◌, ◌<◌, ◌≡◌, refl, ap, ◌∙◌, sym, inl, inr, ◌∷◌, List,
  some, Bytes, arith, Bool-cases, ltb,
}
use tru.Channel.Write.{Env, write_to_ack}
use tru.Channel.{Channel}
use tru.Crypt.Library.{Primitives}
use tru.Crypt.{decrypt_packet_data}
use tru.Packet.Distance.{half_limit, distance-stream}
use tru.Packet.{Packet, packet_id_limit, distance}
use tru.Receive.Ordered.{receive_opened}
use tru.Receive.Places.{Inv, Inv-moved}
use tru.Receive.Steps.{Same, ack_keeps, Holds-moved, Holds-again}
use tru.Receive.Stream.{Seen, prefix}
use tru.Split.Combine.{combine_all}
use tru.Split.{clear}
use tru.Receive.{get, place, receive_data}
use tru.Statistic.{set_drop, set_last_activity}

module _ (key : Bytes) (plain : ℕ → Packet) where
  dropped-Inv :
      (n : ℕ) (seen : List ℕ) (next : ℕ) (ch : Channel)
      → Seen n seen
      → Inv key plain seen next ch
      → Inv key plain (n ∷ seen) next (record ch { stat = set_drop ch.stat })
  dropped-Inv n seen next ch came v =
      let dropped = record ch { stat = set_drop ch.stat } in
      let same : Same ch dropped = (refl, refl, refl, refl, refl) in
      record {
        holds =
            Holds-again plain seen next n dropped
              (Holds-moved plain seen next ch dropped same v.holds) (v.holds.kept n came);
        stop = v.stop;
        keyed = v.keyed;
      }

  place_again :
      (now n : ℕ) (q : Packet) (seen : List ℕ) (next : ℕ) (ch : Channel)
      → Seen n seen
      → next ≤ n + half_limit
      → q.id ≡ n % packet_id_limit
      → Inv key plain seen next ch
      → place now q (distance ch.expected_id q.id) ch ≡ record ch { stat = set_drop ch.stat }
  unfolding place
  place_again now n q seen next ch came lo at v = elim (v.holds.kept n came) [
    | inl l ↦
        let e : sub_ℕ n next ≡ negsuc (next - n - 1) = ground arith in
        let d = ap₂ distance v.holds.expected at ∙ distance-stream next n lo (omega arith) ∙ e in
        rw d refl
    | inr (hi, there) ↦
        let d = ap₂ distance v.holds.expected at ∙ distance-stream next n lo hi in
        let waits : get q.id ch.recv_queue ≡ some (plain n) =
          ap (λ (k : ℕ). get k ch.recv_queue) at ∙ there in
        elim (Bool-cases (ltb next n)) [
          | inl g ↦
              let e : sub_ℕ n next ≡ pos (suc (n - next - 1)) = ground arith in
              rw (d ∙ e) (rw waits refl)
          | inr l ↦ elim (Bool-cases (ltb n next)) [
            | inl k ↦ let e : sub_ℕ n next ≡ negsuc (next - n - 1) = ground arith in rw (d ∙ e) refl
            | inr k ↦
                let same : n ≡ next = ground arith in
                absurd (
                  cc (
                    there,
                    v.stop,
                    ap (λ (k : ℕ). get k ch.recv_queue)
                        (v.holds.expected ∙ ap (λ (k : ℕ). k % packet_id_limit) (sym same)),
                  ))
          ]
        ]
  ]

  -- It changes nothing of what the reader got or what is expected.
  pub receive_again :
      (p : Primitives) (env : Env) (n : ℕ) (u : Packet) (bytes : Bytes) (seen : List ℕ) (next : ℕ)
      (ch : Channel)
      → Seen n seen
      → next ≤ n + half_limit
      → u.id ≡ n % packet_id_limit
      → decrypt_packet_data p key u.id u.payload ≡ some bytes
      → Inv key plain seen next ch
      → Inv key plain (n ∷ seen) next (receive_data p env u ch)
  receive_again p env n u bytes seen next ch came lo at opens v =
      let q : Packet = record u { payload = bytes } in
      let acked = write_to_ack p env q ch in
      let same = ack_keeps p env q ch in
      let w = Inv-moved key plain seen next ch acked same v in
      let dropped = record acked { stat = set_drop acked.stat } in
      let placed : place env.now q (distance ch.expected_id q.id) acked ≡ dropped =
        ap (λ (x : ℕ). place env.now q (distance x q.id) acked) (sym same.0)
        ∙ place_again env.now n q seen next acked came lo at w in
      rw
        (receive_opened p env u q bytes ch
          (ap (λ (k : Bytes). decrypt_packet_data p k u.id u.payload) v.keyed ∙ opens) refl)
        (rw placed (
          Inv-moved key plain (n ∷ seen) next dropped
            (record dropped { stat = set_last_activity env.now dropped.stat })
            (refl, refl, refl, refl, refl) (dropped-Inv n seen next acked came w)))

-- Only the packets of numbers that have come matter.
pub Inv-agree :
    (key : Bytes) (plain plain' : ℕ → Packet) (seen : List ℕ) (next : ℕ) (ch : Channel)
    → ((n : ℕ) → Seen n seen → plain n ≡ plain' n)
    → Inv key plain seen next ch
    → Inv key plain' seen next ch
Inv-agree key plain plain' seen next ch same v = record {
  holds = record {
    below = v.holds.below;
    expected = v.holds.expected;
    read =
        ap (combine_all clear) (sym (prefix-agree next (λ n l. same n (v.holds.below n l))))
        ∙ v.holds.read;
    waiting = λ id pac l.
        let (n, lo, hi, at, fits, came) = v.holds.waiting id pac l in
        (n, lo, hi, at, fits ∙ same n came, came);
    kept = λ n came. elim (v.holds.kept n came) [
      | inl l ↦ inl l
      | inr (hi, there) ↦ inr (hi, there ∙ ap some (same n came))
    ];
  };
  stop = v.stop;
  keyed = v.keyed;
}
  where
    prefix-agree :
        (next : ℕ)
        → ((n : ℕ) → n < next → plain n ≡ plain' n)
        → prefix plain next ≡ prefix plain' next
    prefix-agree zero h = refl
    prefix-agree (suc next) h =
        ap₂ (λ ps q. ps ++ q ∷ []) (prefix-agree next (λ n l. h n (omega arith)))
          (h next (omega arith))
