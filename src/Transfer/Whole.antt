-- ===== src/Transfer/Whole.antt =====
-- The messages that are written to a channel reach the reader of the other end (channel.go, tru.go).
use tru.Base.{
  ℕ, zero, suc, ◌≡◌, refl, ◌∙◌, ap, sym, Bool, List, [], ◌∷◌, ◌++◌, Bytes, arith, length, some,
}
use tru.Channel.Write.{Env}
use tru.Channel.{Channel, new_channel}
use tru.Crypt.Library.{Primitives, IsSound}
use tru.Packet.{Packet, new_packet, marshal_binary, unmarshal_binary}
use tru.Receive.Ordered.{receive_all_ordered}
use tru.Receive.Stream.{IsNext, prefix, InWindow, seen_after, receive_all}
use tru.Split.Combine.{combine_all, combine_all-concat}
use tru.Split.{clear, packet}
use tru.Transfer.{Writes, wire, plain, packet_of_write, wire_read, wire-IsStream}

-- The first `n` messages, and what the reader was given.
abbrev pub messages : (ℕ → Bytes) → ℕ → List Bytes
messages message zero = []
messages message (suc n) = messages message n ++ message n ∷ []

abbrev pub bytes_read : List Packet → List Bytes
bytes_read [] = []
bytes_read (q ∷ qs) = q.payload ∷ bytes_read qs

pub bytes_read-concat :
    (qs : List Packet) (q : Packet) → bytes_read (qs ++ q ∷ []) ≡ bytes_read qs ++ q.payload ∷ []
bytes_read-concat [] q = refl
bytes_read-concat (p ∷ qs) q = ap (◌∷◌ p.payload) (bytes_read-concat qs q)

module _ (p : Primitives) (s : IsSound p) (w : Writes) where
  -- Packets that are not split pass the combiner as they are.
  combine_plain :
      (now n : ℕ)
      → combine_all clear (prefix (plain p s w now) n) ≡ (clear, prefix (plain p s w now) n)
  unfolding plain packet combine_all
  combine_plain now zero = refl
  combine_plain now (suc n) =
      combine_all-concat clear (prefix (plain p s w now) n) (plain p s w now n)
      ∙ ground (arith, combine_plain now n)

  read_plain : (now n : ℕ) → bytes_read (prefix (plain p s w now) n) ≡ messages w.message n
  unfolding plain
  read_plain now zero = refl
  read_plain now (suc n) =
      bytes_read-concat (prefix (plain p s w now) n) (plain p s w now n)
      ∙ ap (λ ms. ms ++ w.message n ∷ []) (read_plain now n)

  -- Messages are written one by one to a channel whose ids start at 0, with nonces of the
  -- cipher's size and sound cryptography, and come out of their datagrams at a new channel with
  -- the same session key, in any order and any number of times, each less than half the id space
  -- away from the first one missing. Then the reader is given exactly the messages before the
  -- first missing one, in the order of writing, each once and decrypted. The packet that comes
  -- out of a datagram has the id, status and payload of the one that waits in the send queue.
  pub received_in_order :
      (now : ℕ) (addr : Bytes) (server_mode : Bool) (delay limit : ℕ) (ch : Channel)
      (arrivals : List (Env × ℕ))
      → ch.id ≡ 0
      → ((n : ℕ) → length (w.env n).nonce ≡ p.nonce_size)
      → InWindow [] arrivals
      → let start = record (new_channel now addr server_mode delay limit) {
        session_key = ch.session_key;
      } in
        (next : ℕ) × IsNext (seen_after [] arrivals) next
        × (bytes_read (receive_all p (wire p s w now ch) arrivals start).reader_ch
            ≡ messages w.message next)
        × ((n : ℕ)
            → unmarshal_binary (new_packet now) (marshal_binary (packet_of_write p s w n ch))
              ≡ some (wire p s w now ch n))
  received_in_order now addr server_mode delay limit ch arrivals h size window =
      let stream = wire-IsStream p s w now ch h size in
      let (next, first, expected, combined) =
        receive_all_ordered p ch.session_key (wire p s w now ch) (plain p s w now) stream now addr
          server_mode delay limit arrivals window in
      (
        next,
        first,
        ap (λ r. bytes_read r.1) (sym combined ∙ combine_plain now next) ∙ read_plain now next,
        λ n. wire_read p s w now n ch h,
      )
