-- ===== src/Net/Conversation.antt =====
-- A program that writes to a connection and reads the answers (tru_net.go, tru.go, channel.go).
use mathlib.Core.List.{map-append}
use tru.Base.{
  false, ℕ, zero, suc, ◌+◌, ◌≤◌, ◌<◌, ◌≡◌, refl, sym, ap, ◌∙◌, List, [], ◌∷◌, map, some, Bytes,
  arith, length, All, All-append, length-append, append-nil,
}
use tru.Channel.Fresh.{IsFresh}
use tru.Channel.{Channel}
use tru.Crypt.Library.{Primitives, IsSound}
use tru.Net.Delivery.{delivered, delivered_lem, read_each, read_each_lem}
use tru.Net.{new_conn}
use tru.Network.Duplex.Answers.{Talk, left_reads}
use tru.Network.Duplex.Safety.{start_duplex}
use tru.Network.Duplex.{Duplex}
use tru.Receive.Stream.{IsNext}
use tru.Transfer.Whole.{messages}
use tru.Transfer.{Writes}

All-messages :
    (P : Bytes → Type 0) (f : Bytes → Bytes) (message : ℕ → Bytes) (n : ℕ)
    → ((i : ℕ) → i < n → P (f (message i)))
    → All P (map f (messages message n))
All-messages P f message zero h = tt
All-messages P f message (suc n) h = rw (map-append f (messages message n) (message n ∷ [])) (
    All-append P (map f (messages message n)) (f (message n) ∷ [])
      (All-messages P f message n (λ i l. h i (omega (arith, l)))) (h n (omega arith), tt))

length-map-messages :
    (f : Bytes → Bytes) (message : ℕ → Bytes) (n : ℕ) → length (map f (messages message n)) ≡ n
length-map-messages f message zero = refl
length-map-messages f message (suc n) =
    ap (length {A = Bytes}) (map-append f (messages message n) (message n ∷ []))
    ∙ omega (
      arith,
      length-append (map f (messages message n)) (f (message n) ∷ []),
      length-map-messages f message n,
    )

module _ (p : Primitives) (s : IsSound p) (key : Bytes) (asked answered : Writes)
    (left_nonces : (n : ℕ) → length (asked.env n).nonce ≡ p.nonce_size)
    (right_nonces : (n : ℕ) → length (answered.env n).nonce ≡ p.nonce_size)
    (answer : Bytes → Bytes) where
  -- With sound cryptography and nonces of the cipher's size, two channels that have a common session
  -- key and neither have written nor read a message write to each other: the left end messages,
  -- and the right end, for each message that it reads, an answer, which is a function of the
  -- message. In every state that this leads to, within the limits of each direction, and in which the
  -- left channel is not destroyed, what has reached a new connection over it is read, by slices of any lengths over 0 and with fuel for each
  -- answer, as the answers to the first messages that were written, one at a time and in their
  -- order, up to the first answer that has not arrived and no more than the right end has
  -- written. The connection is then between two messages.
  pub read_answers :
      (left right : Channel) (d : Duplex) (fuel : ℕ) (sizes : ℕ → ℕ)
      → IsFresh key left
      → IsFresh key right
      → Talk p s key asked answered left_nonces right_nonces answer (start_duplex left right) d
      → d.left.stat.destroyed ≡ false
      → ((k : ℕ) → 0 < sizes k)
      → ((n : ℕ) → n < d.right_written → length (answer (asked.message n)) + 2 ≤ fuel)
      → (first : ℕ) × IsNext d.at_left first
        × (first ≤ d.right_written)
        × (read_each first fuel sizes (delivered d.left d.left.reader_ch (new_conn d.left))
            ≡ some (new_conn d.left, map answer (messages asked.message first)))
  unfolding new_conn
  read_answers left right d fuel sizes fresh fresh' t alive positive enough =
      let (first, is_next, l, read) =
        left_reads p s key asked answered left_nonces right_nonces answer left right fresh fresh' d
          t in
      let ms = map answer (messages asked.message first) in
      let c = new_conn d.left in
      let has : delivered d.left d.left.reader_ch c ≡ record c { read_ch = ms } =
        delivered_lem d.left.reader_ch d.left c refl alive
        ∙ ap (λ (r : List Bytes). record c { read_ch = r }) read in
      let all =
        All-messages (λ m. length m + 2 ≤ fuel) answer asked.message first
          (λ i k. enough i (omega (arith, k, l))) in
      (
        first,
        is_next,
        l,
        ap (read_each first fuel sizes) has
            ∙ ap (λ (k : ℕ). read_each k fuel sizes (record c { read_ch = ms }))
                (sym (length-map-messages answer asked.message first))
            ∙ ap (λ (r : List Bytes). read_each (length ms) fuel sizes (record c { read_ch = r }))
                (sym (append-nil ms))
            ∙ read_each_lem ms [] fuel sizes c positive all,
      )
