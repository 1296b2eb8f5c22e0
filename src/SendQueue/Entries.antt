-- ===== src/SendQueue/Entries.antt =====
-- The elements of the send queue's list against its index (send_queue.go).
use tru.Base.Map.{nat_eq, Map, lookup, insert, delete, lookup-insert, lookup-delete}
use tru.Base.{
  ℕ, ◌≡◌, refl, ap, false, List, [], ◌∷◌, ◌++◌, Option, none, some, arith, ◌==◌, if◌then◌else◌,
  Bool-cases, inl, inr,
}
use tru.Packet.{Packet}
use tru.SendQueue.Index.{IsValid}
use tru.SendQueue.{SendQueue}

-- A list of packets: a packet is put behind the others, and found or taken out by its id.
abbrev pub find : ℕ → List Packet → Option Packet
find id [] = none
find id (pac ∷ ps) = if pac.id == id then some pac else find id ps

abbrev pub without : ℕ → List Packet → List Packet
without id [] = []
without id (pac ∷ ps) = let rest = without id ps in if pac.id == id then rest else pac ∷ rest

abbrev pub packets : Map ℕ Packet → List Packet
packets [] = []
packets ((e, pac) ∷ q) = pac ∷ packets q

-- Every element of the list stands in the index, even one that a lookup would not come to.
abbrev pub Exact : Map ℕ ℕ → Map ℕ Packet → Type 0
Exact index [] = Unit
Exact index ((e, pac) ∷ q) = (lookup pac.id index ≡ some e) × Exact index q

-- An element of the list is the one at `e` just when its packet has the id.
abbrev pub Tells : ℕ → ℕ → Map ℕ Packet → Type 0
Tells id e [] = Unit
Tells id e ((f, pac) ∷ q) = ((f == e) ≡ (pac.id == id)) × Tells id e q

abbrev pub Lacks : ℕ → Map ℕ Packet → Type 0
Lacks id [] = Unit
Lacks id ((f, pac) ∷ q) = ((pac.id == id) ≡ false) × Lacks id q

pub tells :
    (id e : ℕ) (s : SendQueue) (q : Map ℕ Packet)
    → IsValid s
    → lookup id s.index ≡ some e
    → Exact s.index q
    → Tells id e q
tells id e s [] v at x = tt
tells id e s ((f, pac) ∷ q) v at (here, x) =
    let (p, found, same) = v.sound id e at in
    let (p', found', same') = v.sound pac.id f here in
    (
      elim (Bool-cases (f == e)) [
        | inl k ↦ ground (arith, k, same, same', found, found')
        | inr k ↦ ground (arith, k, at, here)
      ],
      tells id e s q v at x,
    )

pub lacks :
    (id : ℕ) (index : Map ℕ ℕ) (q : Map ℕ Packet)
    → lookup id index ≡ none
    → Exact index q
    → Lacks id q
lacks id index [] at x = tt
lacks id index ((f, pac) ∷ q) at (here, x) = (ground (arith, at, here), lacks id index q at x)

pub find-Tells : (id e : ℕ) (q : Map ℕ Packet) → Tells id e q → find id (packets q) ≡ lookup e q
unfolding lookup
find-Tells id e [] t = refl
find-Tells id e ((f, pac) ∷ q) (h, t) = ground (arith, h, find-Tells id e q t)

pub without-Tells :
    (id e : ℕ) (q : Map ℕ Packet) → Tells id e q → packets (delete e q) ≡ without id (packets q)
unfolding delete
without-Tells id e [] t = refl
without-Tells id e ((f, pac) ∷ q) (h, t) = ground (arith, h, without-Tells id e q t)

pub find-Lacks : (id : ℕ) (q : Map ℕ Packet) → Lacks id q → find id (packets q) ≡ none
find-Lacks id [] t = refl
find-Lacks id ((f, pac) ∷ q) (h, t) = ground (arith, h, find-Lacks id q t)

pub without-Lacks : (id : ℕ) (q : Map ℕ Packet) → Lacks id q → without id (packets q) ≡ packets q
without-Lacks id [] t = refl
without-Lacks id ((f, pac) ∷ q) (h, t) = ground (arith, h, without-Lacks id q t)

pub packets-append :
    (e : ℕ) (pac : Packet) (q : Map ℕ Packet) → packets (q ++ (e, pac) ∷ []) ≡ packets q ++ pac ∷ []
packets-append e pac [] = refl
packets-append e pac ((f, p) ∷ q) = ap (◌∷◌ p) (packets-append e pac q)

pub Exact-insert :
    (id e : ℕ) (index : Map ℕ ℕ) (q : Map ℕ Packet)
    → lookup id index ≡ none
    → Exact index q
    → Exact (insert id e index) q
Exact-insert id e index [] new x = tt
Exact-insert id e index ((f, pac) ∷ q) new (here, x) =
    (ground (arith, lookup-insert id pac.id e index, new, here), Exact-insert id e index q new x)

pub Exact-append :
    (e : ℕ) (pac : Packet) (index : Map ℕ ℕ) (q : Map ℕ Packet)
    → lookup pac.id index ≡ some e
    → Exact index q
    → Exact index (q ++ (e, pac) ∷ [])
Exact-append e pac index [] at x = (at, tt)
Exact-append e pac index ((f, p) ∷ q) at (here, x) = (here, Exact-append e pac index q at x)

pub Exact-delete :
    (id e : ℕ) (index : Map ℕ ℕ) (q : Map ℕ Packet)
    → Tells id e q
    → Exact index q
    → Exact (delete id index) (delete e q)
unfolding delete
Exact-delete id e index [] t x = tt
Exact-delete id e index ((f, pac) ∷ q) (h, t) (here, x) = elim (Bool-cases (f == e)) [
  | inl k ↦ rw k (Exact-delete id e index q t x)
  | inr k ↦
      rw k
        (ground (arith, h, k, here, lookup-delete id pac.id index), Exact-delete id e index q t x)
]
