-- ===== src/Channel/Ids.antt =====
-- Packet ids and trip times of a channel (channel.go).
use tru.Base.{ℕ, zero, suc, ◌+◌, ◌%◌, ◌≡◌, refl, List, [], ◌∷◌, arith}
use mathlib.Core.Path.{ap₂}
use tru.Packet.{packet_id_limit}
use tru.Channel.{Channel, new_id, new_expected_id}

-- The ids of `k` packets, one after the other.
pub new_ids : ℕ → Channel → List ℕ
new_ids zero ch = []
new_ids (suc k) ch = let (id, ch') = new_id ch in id ∷ new_ids k ch'

-- The numbers from `n` on as packet ids.
abbrev pub ids_from : ℕ → ℕ → List ℕ
ids_from n zero = []
ids_from n (suc k) = (n % packet_id_limit) ∷ ids_from (n + 1) k

-- A channel whose next id is that of the number n gives its packets the ids of n, n + 1 and so
-- on, which wrap around to zero at the limit.
pub new_ids_stream :
    (k n : ℕ) (ch : Channel) → ch.id ≡ n % packet_id_limit → new_ids k ch ≡ ids_from n k
unfolding new_ids new_id
new_ids_stream zero n ch h = refl
new_ids_stream (suc k) n ch h = ap₂ ◌∷◌ h (new_ids_stream k (n + 1) (new_id ch).1 (ground arith))

-- The expected id follows the number of packets taken.
pub new_expected_id_next :
    (n : ℕ) (ch : Channel)
    → ch.expected_id ≡ n % packet_id_limit
    → (new_expected_id ch).expected_id ≡ (n + 1) % packet_id_limit
unfolding new_expected_id
new_expected_id_next n ch h = ground arith
