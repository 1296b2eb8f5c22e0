-- ===== src/Receive/Places.antt =====
-- Where a packet goes by its distance (tru.go, receive_queue.go).
use mathlib.Core.Path.{ap₂}
use tru.Base.Int.{sub_ℕ, pos, negsuc}
use tru.Base.{
  ℕ, zero, suc, ◌+◌, ◌-◌, ◌%◌, ◌≤◌, ◌<◌, ◌≡◌, refl, sym, ap, ◌∙◌, subst, ◌⊎◌, inl, inr, List, ◌∷◌,
  none, some, Bytes, arith, ltb, Option-cases, Bool-cases,
}
use tru.Channel.{Channel}
use tru.Packet.Distance.{half_limit, distance-stream}
use tru.Packet.{Packet, packet_id_limit, distance}
use tru.Receive.Queue.{get-add}
use tru.Receive.Rounds.{Holds, round_key, process-Holds}
use tru.Receive.Steps.{Same, Holds-moved, Holds-again, Holds-ahead, Holds-turn}
use tru.Receive.{get, len, send_to_reader, place}
use tru.Statistic.{set_drop}

compare-cases : (m n : ℕ) → (m < n) ⊎ ((n < m) ⊎ (n ≡ m))
compare-cases m n = elim (Bool-cases (ltb m n)) [
  | inl l ↦ inl (ground arith)
  | inr k ↦ elim (Bool-cases (ltb n m)) [
    | inl g ↦ inr (inl (ground arith))
    | inr l ↦ inr (inr (ground arith))
  ]
]

module _ (key : Bytes) (plain : ℕ → Packet) where
  -- What holds between two packets: the expected one does not wait.
  pub record Inv (seen : List ℕ) (next : ℕ) (ch : Channel) : Type 0 where
    pub holds : Holds plain seen next ch
    pub stop : get ch.expected_id ch.recv_queue ≡ none
    pub keyed : ch.session_key ≡ key

  pub Inv-moved :
      (seen : List ℕ) (next : ℕ) (a b : Channel) → Same a b → Inv seen next a → Inv seen next b
  Inv-moved seen next a b s v = record {
    holds = Holds-moved plain seen next a b s v.holds;
    stop = ap₂ get s.0 s.3 ∙ v.stop;
    keyed = s.4 ∙ v.keyed;
  }

  abbrev pub Placed : List ℕ → ℕ → ℕ → Channel → Type 0
  Placed seen next n ch = (next' : ℕ) × (next ≤ next') × Inv (n ∷ seen) next' ch

  place_early :
      (now n : ℕ) (seen : List ℕ) (next : ℕ) (ch : Channel)
      → n < next
      → Inv seen next ch
      → Placed seen next n (place now (plain n) (sub_ℕ n next) ch)
  unfolding place
  place_early now n seen next ch l v =
      let e : sub_ℕ n next ≡ negsuc (next - n - 1) = ground arith in
      let dropped = record ch { stat = set_drop ch.stat } in
      let same : Same ch dropped = (refl, refl, refl, refl, refl) in
      rw e (
        next,
        omega arith,
        record {
          holds =
              Holds-again plain seen next n dropped
                (Holds-moved plain seen next ch dropped same v.holds) (inl l);
          stop = v.stop;
          keyed = v.keyed;
        },
      )

  place_ahead :
      (now n : ℕ) (seen : List ℕ) (next : ℕ) (ch : Channel)
      → next < n
      → n < next + half_limit
      → (plain n).id ≡ n % packet_id_limit
      → Inv seen next ch
      → Placed seen next n (place now (plain n) (sub_ℕ n next) ch)
  unfolding place
  place_ahead now n seen next ch lo hi at v =
      let e : sub_ℕ n next ≡ pos (suc (n - next - 1)) = ground arith in
      elim (Option-cases (get (plain n).id ch.recv_queue)) [
        | inl new ↦ rw e (
            rw new (
              next,
              omega arith,
              record {
                holds = Holds-ahead plain seen next n ch v.holds lo hi at;
                stop =
                    get-add (plain n) ch.expected_id ch.recv_queue
                    ∙ ground (arith, v.stop, at, v.holds.expected);
                keyed = v.keyed;
              },
            ))
        | inr (pac, old) ↦
            let dropped = record ch { stat = set_drop ch.stat } in
            let same : Same ch dropped = (refl, refl, refl, refl, refl) in
            let (m, lo', hi', at', fits, came) = v.holds.waiting (plain n).id pac old in
            let one : m ≡ n = omega (arith, at) in
            let there : get (n % packet_id_limit) ch.recv_queue ≡ some (plain n) =
              ap (λ (k : ℕ). get k ch.recv_queue) (sym at) ∙ old ∙ ap some (fits ∙ ap plain one) in
            rw e (
              rw old (
                next,
                omega arith,
                record {
                  holds =
                      Holds-again plain seen next n dropped
                        (Holds-moved plain seen next ch dropped same v.holds) (inr (hi, there));
                  stop = v.stop;
                  keyed = v.keyed;
                },
              ))
      ]

  place_turn :
      (now : ℕ) (seen : List ℕ) (next : ℕ) (ch : Channel)
      → Inv seen next ch
      → Placed seen next next (place now (plain next) (sub_ℕ next next) ch)
  unfolding place len
  place_turn now seen next ch v =
      let e : sub_ℕ next next ≡ pos zero = ground arith in
      let sent = send_to_reader now (plain next) ch in
      let (next', lo, holds, stop, same) =
        process-Holds plain (suc (len sent.recv_queue)) now (next ∷ seen) (suc next) sent
          (omega arith) (Holds-turn plain seen now next ch v.holds v.stop) in
      rw e (
        next',
        omega arith,
        record {
          holds = holds;
          stop = stop;
          keyed = same ∙ round_key plain now (plain next) ch ∙ v.keyed;
        },
      )

  pub place-Inv :
      (now n : ℕ) (seen : List ℕ) (next : ℕ) (ch : Channel)
      → next ≤ n + half_limit
      → n < next + half_limit
      → (plain n).id ≡ n % packet_id_limit
      → Inv seen next ch
      → Placed seen next n (place now (plain n) (distance ch.expected_id (plain n).id) ch)
  place-Inv now n seen next ch lo hi at v =
      let e : distance ch.expected_id (plain n).id ≡ sub_ℕ n next =
        ap₂ distance v.holds.expected at ∙ distance-stream next n lo hi in
      rw e (elim (compare-cases n next) [
        | inl l ↦ place_early now n seen next ch l v
        | inr (inl g) ↦ place_ahead now n seen next ch g hi at v
        | inr (inr same) ↦
            subst (λ (k : ℕ). Placed seen next k (place now (plain k) (sub_ℕ k next) ch)) same
              (place_turn now seen next ch v)
      ])
