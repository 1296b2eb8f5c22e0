-- ===== src/Receive/Ordered.antt =====
-- A channel passes a stream on in order, each packet once (tru.go, receive_queue.go).
use tru.Base.Map.{lookup}
use tru.Base.{
  ℕ, ◌+◌, ◌%◌, ◌≤◌, ◌<◌, ◌≡◌, refl, ap, ◌∙◌, subst, inl, inr, Bool, List, [], ◌∷◌, Bytes, some,
  arith,
}
use tru.Channel.Write.{Env, write_to_ack}
use tru.Channel.{Channel, new_channel}
use tru.Crypt.Library.{Primitives}
use tru.Crypt.{decrypt_packet_data}
use tru.Packet.Distance.{half_limit}
use tru.Packet.{Packet, packet_id_limit, distance}
use tru.Receive.Places.{Inv, Inv-moved, Placed, place-Inv}
use tru.Receive.Steps.{ack_keeps}
use tru.Receive.Stream.{IsNext, prefix, InWindow, seen_after, receive_all, IsStream}
use tru.Receive.{get, place, receive_data}
use tru.Split.Combine.{combine_all}
use tru.Split.{clear}
use tru.Statistic.{set_last_activity}

-- A packet that opens, in terms of what it holds.
pub receive_opened :
    (p : Primitives) (env : Env) (pac q : Packet) (bytes : Bytes) (ch : Channel)
    → decrypt_packet_data p ch.session_key pac.id pac.payload ≡ some bytes
    → q ≡ record pac { payload = bytes }
    → let placed = place env.now q (distance ch.expected_id q.id) (write_to_ack p env q ch) in
      receive_data p env pac ch ≡ record placed { stat = set_last_activity env.now placed.stat }
unfolding receive_data
receive_opened p env pac q bytes ch e same = rw (e, receive_data) (rw same)

module _ (p : Primitives) (key : Bytes) (wire plain : ℕ → Packet)
    (s : IsStream p key wire plain) where
  plain_id : (n : ℕ) → (plain n).id ≡ n % packet_id_limit
  plain_id n = ap (λ (q : Packet). q.id) (s.same n) ∙ s.id n

  pub receive-Inv :
      (env : Env) (n : ℕ) (seen : List ℕ) (next : ℕ) (ch : Channel)
      → next ≤ n + half_limit
      → n < next + half_limit
      → Inv key plain seen next ch
      → Placed key plain seen next n (receive_data p env (wire n) ch)
  receive-Inv env n seen next ch lo hi v =
      let acked = write_to_ack p env (plain n) ch in
      let same = ack_keeps p env (plain n) ch in
      let (next', l, v') =
        place-Inv key plain env.now n seen next acked lo hi (plain_id n)
          (Inv-moved key plain seen next ch acked same v) in
      let placed = place env.now (plain n) (distance ch.expected_id (plain n).id) acked in
      let moved =
        subst
          (λ (x : ℕ).
            Inv key plain (n ∷ seen) next'
              (place env.now (plain n) (distance x (plain n).id) acked))
          same.0 v' in
      let opens =
        ap (λ (k : Bytes). decrypt_packet_data p k (wire n).id (wire n).payload) v.keyed in
      rw
        (receive_opened p env (wire n) (plain n) (plain n).payload ch (opens ∙ s.opens n)
          (s.same n))
        (
          next',
          l,
          Inv-moved key plain (n ∷ seen) next' placed
              (record placed { stat = set_last_activity env.now placed.stat })
              (refl, refl, refl, refl, refl) moved,
        )

  pub IsNext-Inv :
      (seen : List ℕ) (next : ℕ) (ch : Channel) → Inv key plain seen next ch → IsNext seen next
  IsNext-Inv seen next ch v = (
    v.holds.below,
    λ came. elim (v.holds.kept next came) [
      | inl l ↦ absurd (omega arith)
      | inr (hi, there) ↦ cc (there, v.stop, ap (λ (k : ℕ). get k ch.recv_queue) v.holds.expected)
    ],
  )

  receive_all-Inv :
      (arrivals : List (Env × ℕ)) (seen : List ℕ) (next : ℕ) (ch : Channel)
      → InWindow seen arrivals
      → Inv key plain seen next ch
      → (next' : ℕ) × Inv key plain
          (seen_after seen arrivals)
          next'
          (receive_all p wire arrivals ch)
  unfolding receive_all
  receive_all-Inv [] seen next ch w v = (next, v)
  receive_all-Inv ((env, n) ∷ rest) seen next ch w v =
      let near = w.0 next (IsNext-Inv seen next ch v) in
      let (next', l, v') = receive-Inv env n seen next ch near.0 near.1 v in
      receive_all-Inv rest (n ∷ seen) next' (receive_data p env (wire n) ch) w.1 v'

  pub start-Inv :
      (now : ℕ) (addr : Bytes) (server_mode : Bool) (delay limit : ℕ)
      → Inv key plain [] 0
          (record (new_channel now addr server_mode delay limit) { session_key = key })
  unfolding new_channel get lookup combine_all
  start-Inv now addr server_mode delay limit = record {
    holds = record {
      below = λ n l. absurd (omega arith);
      expected = refl;
      read = refl;
      waiting = λ id pac l. cc;
      kept = λ n came. absurd came;
    };
    stop = refl;
    keyed = refl;
  }

  -- However the packets of a stream are reordered and repeated on the way, as long as each comes
  -- less than half the id space away from the first one missing: a new channel has passed exactly
  -- the packets before the first missing one to its combiner, in order and each once, and what
  -- came out of the combiner is what the reader got. It expects the first missing one next.
  pub receive_all_ordered :
      (now : ℕ) (addr : Bytes) (server_mode : Bool) (delay limit : ℕ) (arrivals : List (Env × ℕ))
      → InWindow [] arrivals
      → let start = record (new_channel now addr server_mode delay limit) { session_key = key } in
        let end = receive_all p wire arrivals start in
        (next : ℕ) × IsNext (seen_after [] arrivals) next
        × (end.expected_id ≡ next % packet_id_limit)
        × (combine_all clear (prefix plain next) ≡ (end.combine, end.reader_ch))
  receive_all_ordered now addr server_mode delay limit arrivals w =
      let start = record (new_channel now addr server_mode delay limit) { session_key = key } in
      let (next, v) =
        receive_all-Inv arrivals [] 0 start w (start-Inv now addr server_mode delay limit) in
      (
        next,
        IsNext-Inv (seen_after [] arrivals) next (receive_all p wire arrivals start) v,
        v.holds.expected,
        v.holds.read,
      )
