-- ===== src/Net/Trunet/Shared.antt =====
-- Listeners of one process share the first connector (tru_net.go).
use tru.Base.Decimal.{decimal, decimal_on, atoi-decimal}
use tru.Base.Int.{ℤ, pos}
use tru.Base.Text.{codes, split_at-pair, Lacks, Lacks-append}
use tru.Base.{
  ℕ, zero, suc, ◌+◌, ◌%◌, ◌/◌, ◌^◌, ◌<◌, ◌≡◌, refl, ap, ◌∙◌, ◌⊎◌, inl, inr, Bool, true, false, List,
  [], ◌∷◌, ◌++◌, Option, none, some, Bytes, arith, ltb, Bool-cases, All, get_elem?,
  get_elem?-append_last, length,
}
use tru.Channel.{Channel}
use tru.Net.{Conn}
use tru.Net.Trunet.{
  Node, Trunet, World, TrunetError, parse_port, port_of, create, new_trunet, listen, dial, dialled,
  close, update_at,
}

decimal_on-Lacks : (fuel n : ℕ) → Lacks b':' (decimal_on fuel n)
unfolding decimal_on
decimal_on-Lacks zero n = tt
decimal_on-Lacks (suc fuel) n = elim (Bool-cases (ltb n 10)) [
  | inl k ↦ rw k (ground (arith, k), tt)
  | inr k ↦ rw k (
      Lacks-append b':' (decimal_on fuel (n / 10)) ((48 + n % 10) ∷ [])
        (decimal_on-Lacks fuel (n / 10)) (ground arith, tt))
]

-- The port in an address of a host without a colon, a colon and a number is that number, if it is
-- one of an int.
pub parse_port-decimal :
    (host : Bytes) (n : ℕ)
    → Lacks b':' host
    → n < 2 ^ 63
    → parse_port (host ++ b':' ∷ decimal n) ≡ inr (pos n)
unfolding parse_port port_of decimal
parse_port-decimal host n h k =
    ap port_of (split_at-pair b':' host (decimal n) h (decimal_on-Lacks (suc n) n))
    ∙ rw (atoi-decimal n k, port_of) refl

-- What a process does with the package.
pub data Call : Type 0 where
  listens : Bytes → Bool → Call
  dials : Option Channel → Bool → Call
  closes : Trunet → Call

abbrev opened : TrunetError ⊎ Trunet → List Trunet → List Trunet
opened (inl e) ts = ts
opened (inr t) ts = t ∷ ts

abbrev trunet_of : TrunetError ⊎ (Trunet × Conn) → TrunetError ⊎ Trunet
trunet_of (inl e) = inl e
trunet_of (inr (t, c)) = inr t

-- The listeners and the dialled connections that calls give, and what is left.
unfoldable pub run : List Call → World → List Trunet × World
run [] w = ([], w)
run (listens address made ∷ calls) w =
    let (t, w') = listen address made w in let (ts, last) = run calls w' in (opened t ts, last)
run (dials ch made ∷ calls) w =
    let (t, w') = dial ch made w in let (ts, last) = run calls w' in (opened (trunet_of t) ts, last)
run (closes t ∷ calls) w = run calls (close t w)

-- The connector at a number is the common one, with a port and an accept channel.
pub record IsCommon (tru accept : ℕ) (port : ℤ) (w : World) : Type 0 where
  pub common : w.common ≡ some tru
  pub node :
      (closed : Bool) × (get_elem? w.nodes tru
        ≡ some (record { port = port; accept = accept; closed = closed }))
  pub earlier : accept < w.accepts

abbrev pub Uses : ℕ → ℕ → Trunet → Type 0
Uses tru accept t = (t.tru ≡ tru) × ¬ (t.accept ≡ accept)

sum_cases : (x : TrunetError ⊎ ℤ) → ((e : TrunetError) × (x ≡ inl e)) ⊎ ((n : ℤ) × (x ≡ inr n))
sum_cases (inl e) = inl (e, refl)
sum_cases (inr n) = inr (n, refl)

abbrev pub Results : ℕ → ℕ → TrunetError ⊎ Trunet → Type 0
Results tru accept (inl e) = Unit
Results tru accept (inr t) = Uses tru accept t

module _ (tru accept : ℕ) (port : ℤ) where
  new_trunet-IsCommon :
      (address : Bytes) (made : Bool) (w : World)
      → IsCommon tru accept port w
      → IsCommon tru accept port (new_trunet address true made w).1
        × Results tru accept (new_trunet address true made w).0
  unfolding new_trunet
  new_trunet-IsCommon address made w v = elim (sum_cases (parse_port address)) [
    | inl (e, k) ↦ rw (k, new_trunet) (v, tt)
    | inr (n, k) ↦
        rw (k, new_trunet)
          (rw (v.common, new_trunet)
            (
              record { common = v.common; node = v.node; earlier = omega (arith, v.earlier) },
              (refl, λ e. omega (arith, e, v.earlier)),
            ))
  ]

  dialled-Results :
      (ch : Option Channel) (t : TrunetError ⊎ Trunet)
      → Results tru accept t
      → Results tru accept (trunet_of (dialled ch t))
  dialled-Results ch (inl e) r = tt
  dialled-Results none (inr t) r = tt
  dialled-Results (some c) (inr t) r = r

  close_at :
      (i j : ℕ) (ns : List Node) (closed : Bool)
      → get_elem? ns j ≡ some (record { port = port; accept = accept; closed = closed })
      → (c : Bool) × (get_elem? (update_at i (λ n. record n { closed = true }) ns) j
          ≡ some (record { port = port; accept = accept; closed = c }))
  close_at i j [] closed h = cc
  close_at zero zero (n ∷ ns) closed h = (
    true,
    ap (λ (m : Option Node). elim m [ none ↦ none | some k ↦ some (record k { closed = true }) ]) h,
  )
  close_at zero (suc j) (n ∷ ns) closed h = (closed, h)
  close_at (suc i) zero (n ∷ ns) closed h = (closed, h)
  close_at (suc i) (suc j) (n ∷ ns) closed h = close_at i j ns closed h

  opened-Results :
      (t : TrunetError ⊎ Trunet) (ts : List Trunet)
      → Results tru accept t
      → All (Uses tru accept) ts
      → All (Uses tru accept) (opened t ts)
  opened-Results (inl e) ts r a = a
  opened-Results (inr t) ts r a = (r, a)

  run-IsCommon :
      (calls : List Call) (w : World)
      → IsCommon tru accept port w
      → All (Uses tru accept) (run calls w).0 × IsCommon tru accept port (run calls w).1
  unfolding run listen dial close
  run-IsCommon [] w v = (tt, v)
  run-IsCommon (listens address made ∷ calls) w v =
      let (v', r) = new_trunet-IsCommon address made w v in
      let (a, last) = run-IsCommon calls (listen address made w).1 v' in
      (opened-Results (listen address made w).0 (run calls (listen address made w).1).0 r a, last)
  run-IsCommon (dials ch made ∷ calls) w v =
      let (v', r) = new_trunet-IsCommon (codes ":0") made w v in
      let (a, last) = run-IsCommon calls (dial ch made w).1 v' in
      let t = (new_trunet (codes ":0") true made w).0 in
      (
        opened-Results (trunet_of (dialled ch t)) (run calls (dial ch made w).1).0
            (dialled-Results ch t r) a,
        last,
      )
  run-IsCommon (closes t ∷ calls) w v =
      let (closed, at) = v.node in
      run-IsCommon calls (close t w) (record {
        common = v.common;
        node = close_at t.tru tru w.nodes closed at;
        earlier = v.earlier;
      })

-- The first listener of a process gets a new connector on the port of its address. Whatever the
-- process listens to, dials and closes afterwards, everything it gets uses that same connector,
-- whatever port it asks for and even when the connector has been closed, and the connector goes on
-- sending its connections to the accept channel of the first listener, which no other one reads.
pub first_connector :
    (address : Bytes) (port : ℤ) (calls : List Call) (w : World)
    → parse_port address ≡ inr port
    → w.common ≡ none
    → let tru = length w.nodes in
      let (first, w') = listen address true w in
      let (later, last) = run calls w' in
      (first ≡ inr (record { tru = tru; accept = w.accepts }))
      × All (Uses tru w.accepts) later
      × IsCommon tru w.accepts port last
unfolding listen new_trunet create
first_connector address port calls w at new =
    let tru = length w.nodes in
    let (first, w') = listen address true w in
    let start : (first ≡ inr (record { tru = tru; accept = w.accepts }))
        × IsCommon tru w.accepts port w' =
      rw (at, new_trunet)
        (rw (new, new_trunet)
          (
            refl,
            record {
              common = refl;
              node = (
                false,
                get_elem?-append_last w.nodes
                    (record { port = port; accept = w.accepts; closed = false }),
              );
              earlier = omega arith;
            },
          )) in
    let (a, last) = run-IsCommon tru w.accepts port calls w' start.1 in (start.0, a, last)
