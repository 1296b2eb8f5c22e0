-- ===== src/Receive/Stream.antt =====
-- What has to come of the packets of one sender. They are numbered from zero, and the wire carries
-- the numbers modulo the id limit.
use tru.Base.{ℕ, zero, suc, ◌+◌, ◌%◌, ◌≤◌, ◌<◌, ◌≡◌, ◌⊎◌, List, [], ◌∷◌, ◌++◌, some}
use tru.Crypt.Library.{Primitives}
use tru.Crypt.{decrypt_packet_data}
use tru.Channel.Write.{Env}
use tru.Channel.{Channel}
use tru.Packet.Distance.{half_limit}
use tru.Packet.{Packet, packet_id_limit}
use tru.Receive.{receive_data}

-- The numbers that have come, latest first.
abbrev pub Seen : ℕ → List ℕ → Type 0
Seen n [] = ⊥
Seen n (m ∷ ms) = (m ≡ n) ⊎ Seen n ms

-- The first number that has not come.
abbrev pub IsNext : List ℕ → ℕ → Type 0
IsNext seen next = ((n : ℕ) → n < next → Seen n seen) × (¬ Seen next seen)

-- The first `n` packets of a stream.
abbrev pub prefix : (ℕ → Packet) → ℕ → List Packet
prefix plain zero = []
prefix plain (suc n) = prefix plain n ++ plain n ∷ []

-- A packet that comes is less than half the id space away from the first one that is missing.
abbrev pub Near : List ℕ → ℕ → Type 0
Near seen n = (next : ℕ) → IsNext seen next → (next ≤ n + half_limit) × (n < next + half_limit)

abbrev pub InWindow : List ℕ → List (Env × ℕ) → Type 0
InWindow seen [] = Unit
InWindow seen ((env, n) ∷ rest) = Near seen n × InWindow (n ∷ seen) rest

abbrev pub seen_after : List ℕ → List (Env × ℕ) → List ℕ
seen_after seen [] = seen
seen_after seen ((env, n) ∷ rest) = seen_after (n ∷ seen) rest

-- The packets as they come, in any order and any number of times.
unfoldable pub receive_all : Primitives → (ℕ → Packet) → List (Env × ℕ) → Channel → Channel
receive_all p wire [] ch = ch
receive_all p wire ((env, n) ∷ rest) ch = receive_all p wire rest (receive_data p env (wire n) ch)

-- `wire` is a stream of packets as it is sent, `plain` what they hold: the ids count up, and the
-- session key opens each packet.
pub record IsStream (p : Primitives) (session_key : List ℕ) (wire plain : ℕ → Packet) : Type 0 where
  pub id : (n : ℕ) → (wire n).id ≡ n % packet_id_limit
  pub opens :
      (n : ℕ)
      → decrypt_packet_data p session_key (wire n).id (wire n).payload ≡ some (plain n).payload
  pub same : (n : ℕ) → plain n ≡ record (wire n) { payload = (plain n).payload }
