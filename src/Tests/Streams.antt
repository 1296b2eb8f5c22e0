-- ===== src/Tests/Streams.antt =====
-- A stream of three packets, of which the second comes first and twice.
use tru.Base.{ℕ, zero, suc, ◌%◌, ◌≤◌, ◌≡◌, refl, inl, inr, false, List, [], ◌∷◌, Bytes, arith}
use tru.Channel.Write.{Env}
use tru.Channel.{Channel, new_channel}
use tru.Crypt.Session.{decrypt_packet_data-encrypt_packet_data}
use tru.Crypt.{encrypt_packet_data}
use tru.Packet.{Packet, new_packet, packet_id_limit, status_data}
use tru.Receive.Ordered.{receive_all_ordered}
use tru.Receive.Stream.{IsNext, prefix, InWindow, receive_all, IsStream}
use tru.Split.Combine.{combine_all}
use tru.Split.{clear}
use tru.Tests.Channels.{env, client}
use tru.Transfer.{Writes}
use tru.Tests.Toy.{toy, toy-IsSound, zeros}

abbrev pub key : Bytes
key = 3 ∷ 1 ∷ 4 ∷ []

abbrev plain : ℕ → Packet
plain n = record (new_packet 0) {
  id = n % packet_id_limit;
  status = status_data;
  payload = n % 256 ∷ [];
}

abbrev boxed : ℕ → Packet
boxed n = record (plain n) {
  payload = encrypt_packet_data toy key (zeros 12) (n % packet_id_limit) (n % 256 ∷ []);
}

stream : IsStream toy key boxed plain
stream = record {
  id = λ n. refl;
  opens = λ n.
      decrypt_packet_data-encrypt_packet_data toy toy-IsSound key (zeros 12) (n % packet_id_limit)
        (n % 256 ∷ []) refl;
  same = λ n. refl;
}

abbrev arrivals : List (Env × ℕ)
arrivals = (env, 1) ∷ (env, 0) ∷ (env, 1) ∷ []

pub none_come : (next : ℕ) → IsNext [] next → next ≤ 0
none_come zero h = omega arith
none_come (suc k) h = absurd (h.0 0 (omega arith))

one_come : (next : ℕ) → IsNext (1 ∷ []) next → next ≤ 0
one_come zero h = omega arith
one_come (suc k) h = elim (h.0 0 (omega arith)) [ inl e ↦ absurd (omega arith) | inr b ↦ absurd b ]

two_come : (next : ℕ) → IsNext (0 ∷ 1 ∷ []) next → next ≤ 2
two_come zero h = omega arith
two_come (suc zero) h = omega arith
two_come (suc (suc zero)) h = omega arith
two_come (suc (suc (suc k))) h = elim (h.0 2 (omega arith)) [
  | inl e ↦ absurd (omega arith)
  | inr (inl e) ↦ absurd (omega arith)
  | inr (inr b) ↦ absurd b
]

arrivals-InWindow : InWindow [] arrivals
arrivals-InWindow = (
  λ next h. (omega (arith, none_come next h), omega arith),
  (
    λ next h. (omega (arith, one_come next h), omega arith),
    (λ next h. (omega (arith, two_come next h), omega arith), tt),
  ),
)

receive_all_ordered_example :
    let start = record (new_channel 0 (1 ∷ []) false 15 0) { session_key = key } in
    let end = receive_all toy boxed arrivals start in
    (next : ℕ) × IsNext (1 ∷ 0 ∷ 1 ∷ []) next
    × (end.expected_id ≡ next % packet_id_limit)
    × (combine_all clear (prefix plain next) ≡ (end.combine, end.reader_ch))
receive_all_ordered_example =
    receive_all_ordered toy key boxed plain stream 0 (1 ∷ []) false 15 0 arrivals arrivals-InWindow

abbrev pub writes : Writes
writes = record { env = λ n. env; message = λ n. n % 256 ∷ [] }

abbrev pub sender : Channel
sender = record client { session_key = key }
