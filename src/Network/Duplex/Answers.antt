-- ===== src/Network/Duplex/Answers.antt =====
-- A program that answers each message it reads, at the right end of a channel (channel.go, tru.go).
use mathlib.Core.List.{map-append}
use tru.Base.{
  ℕ, zero, suc, ◌+◌, ◌≤◌, ◌<◌, ◌≡◌, refl, sym, ap, ◌∙◌, ◌⊎◌, inl, inr, List, [], ◌∷◌, ◌++◌, map,
  some, some_eq, Bytes, arith, length, get_elem?, Bool-cases, length-append, ◌==◌, ==_iff,
}
use tru.Channel.Fresh.{IsFresh}
use tru.Channel.{Channel}
use tru.Crypt.Library.{Primitives, IsSound}
use tru.Network.Duplex.Safety.{start_duplex, both_read_in_order}
use tru.Network.Duplex.{Duplex, Step, Reach, here, next}
use tru.Receive.Stream.{IsNext}
use tru.Transfer.Whole.{messages, bytes_read}
use tru.Transfer.{Writes}

pub length-messages : (message : ℕ → Bytes) (n : ℕ) → length (messages message n) ≡ n
length-messages message zero = refl
length-messages message (suc n) =
    omega (arith, length-append (messages message n) (message n ∷ []), length-messages message n)

get_elem?-append_one :
    (xs : List Bytes) (x m : Bytes) (i : ℕ)
    → get_elem? (xs ++ x ∷ []) i ≡ some m
    → (get_elem? xs i ≡ some m) ⊎ ((i ≡ length xs) × (m ≡ x))
get_elem?-append_one [] x m zero h = inr (refl, sym (some_eq h))
get_elem?-append_one [] x m (suc i) h = cc
get_elem?-append_one (y ∷ xs) x m zero h = inl h
get_elem?-append_one (y ∷ xs) x m (suc i) h = elim (get_elem?-append_one xs x m i h) [
  | inl old ↦ inl old
  | inr (at, same) ↦ inr (ap suc at, same)
]

get_elem?-messages :
    (message : ℕ → Bytes) (n i : ℕ) (m : Bytes)
    → get_elem? (messages message n) i ≡ some m
    → (i < n) × (m ≡ message i)
get_elem?-messages message zero i m h = cc
get_elem?-messages message (suc n) i m h =
    elim (get_elem?-append_one (messages message n) (message n) m i h) [
      | inl old ↦ let (l, same) = get_elem?-messages message n i m old in (omega (arith, l), same)
      | inr (at, same) ↦
          let e : i ≡ n = at ∙ length-messages message n in
          (omega (arith, e), same ∙ ap message (sym e))
    ]

messages-map :
    (f : Bytes → Bytes) (asked answered : ℕ → Bytes) (n : ℕ)
    → ((i : ℕ) → i < n → answered i ≡ f (asked i))
    → messages answered n ≡ map f (messages asked n)
messages-map f asked answered zero h = refl
messages-map f asked answered (suc n) h =
    let before = messages-map f asked answered n (λ i l. h i (omega (arith, l))) in
    ap (λ (l : List Bytes). l ++ answered n ∷ []) before
    ∙ ap (λ (m : Bytes). map f (messages asked n) ++ m ∷ []) (h n (omega arith))
    ∙ sym (map-append f (messages asked n) (asked n ∷ []))

module _ (p : Primitives) (s : IsSound p) (key : Bytes) (asked answered : Writes)
    (left_nonces : (n : ℕ) → length (asked.env n).nonce ≡ p.nonce_size)
    (right_nonces : (n : ℕ) → length (answered.env n).nonce ≡ p.nonce_size)
    (answer : Bytes → Bytes) where
  -- What the right end writes in a step is the answer to the message that it has read as its next.
  abbrev pub Answers : Duplex → Duplex → Type 0
  Answers a b =
      (b.right_written ≡ a.right_written)
      ⊎ ((m : Bytes) × (b.right_written ≡ a.right_written + 1)
          × (get_elem? (bytes_read a.right.reader_ch) a.right_written ≡ some m)
          × (answered.message a.right_written ≡ answer m))

  pub data Talk (from : Duplex) : Duplex → Type 0 where
    silent : Talk from from
    then_ : {a b : Duplex} → Talk from a → Step p key asked answered a b → Answers a b → Talk from b

  pub Talk-Reach : (a b : Duplex) → Talk a b → Reach p key asked answered a b
  Talk-Reach a _ silent = here
  Talk-Reach a b (then_ {a = c} t st _) = next (Talk-Reach a c t) st

  module _ (left right : Channel) (fresh : IsFresh key left) (fresh' : IsFresh key right) where
    answered_as_read :
        (d : Duplex)
        → Talk (start_duplex left right) d
        → (n : ℕ) → n < d.right_written
        → answered.message n ≡ answer (asked.message n)
    answered_as_read _ silent n l = absurd (omega arith)
    answered_as_read d (then_ {a = c} t st h) n l = elim h [
      | inl same ↦ answered_as_read c t n (omega (arith, same))
      | inr (m, one, there, written) ↦ elim (Bool-cases (n == c.right_written)) [
        | inl e ↦
            let at = (==_iff n c.right_written).0 e in
            let ((first, _, _, read), _) =
              both_read_in_order p s key asked answered left_nonces right_nonces left right fresh
                fresh' c (Talk-Reach (start_duplex left right) c t) in
            let (_, same) =
              get_elem?-messages asked.message first c.right_written m
                (ap (λ (r : List Bytes). get_elem? r c.right_written) (sym read) ∙ there) in
            ap answered.message at ∙ written ∙ ap answer (same ∙ ap asked.message (sym at))
        | inr e ↦ answered_as_read c t n (ground (arith, l, one, e))
      ]
    ]

    -- The left end has read the answers to its first messages, in the order of these.
    pub left_reads :
        (d : Duplex)
        → Talk (start_duplex left right) d
        → (first : ℕ) × IsNext d.at_left first
          × (first ≤ d.right_written)
          × (bytes_read d.left.reader_ch ≡ map answer (messages asked.message first))
    left_reads d t =
        let (_, (first, is_next, l, read)) =
          both_read_in_order p s key asked answered left_nonces right_nonces left right fresh fresh'
            d (Talk-Reach (start_duplex left right) d t) in
        (
          first,
          is_next,
          l,
          read
              ∙ messages-map answer asked.message answered.message first
                  (λ i k. answered_as_read d t i (omega (arith, k, l))),
        )
