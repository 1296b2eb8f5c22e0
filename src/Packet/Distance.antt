-- ===== src/Packet/Distance.antt =====
-- What `distance` (packet.go) says of two packets of one stream.
use tru.Base.Int.{sub_ℕ}
use tru.Base.{ℕ, ◌+◌, ◌%◌, ◌<◌, ◌≤◌, ◌≡◌, arith}
use tru.Packet.{packet_id_limit, distance}

-- Half the id space.
abbrev pub half_limit : ℕ
half_limit = 0x80000

-- Two numbers of a stream that are less than half the id space apart are told apart by the
-- distance of their packet ids, wrap-around included: it is the difference of the numbers.
pub distance-stream :
    (expected seq : ℕ)
    → expected ≤ seq + half_limit
    → seq < expected + half_limit
    → distance (expected % packet_id_limit) (seq % packet_id_limit) ≡ sub_ℕ seq expected
unfolding distance
distance-stream expected seq h k = ground arith
