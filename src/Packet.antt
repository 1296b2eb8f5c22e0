-- ===== src/Packet.antt =====
-- packet.go: the packet, its header and its accessors. Times and durations are nanoseconds, a
-- uint32 or uint8 is a number with its wrap-around written out, and the locks, which only order
-- the accesses, are left out.
pub mod Codec
pub mod Distance
use Prim.Native.Nat.{bit_and, bit_or}
use tru.Base.Endian.{put_u32, get_u32}
use tru.Base.Int.{ℤ, pos, sub_ℕ}
use tru.Base.{
  ℕ, ◌+◌, ◌-◌, ◌*◌, ◌/◌, ◌%◌, ◌^◌, List, [], ◌++◌, Option, none, some, Bytes, ltb, ◌==◌,
  if◌then◌else◌, length,
}

-- Packet status.
abbrev pub status_connect : ℕ
status_connect = 0

abbrev pub status_connect_server_answer : ℕ
status_connect_server_answer = 1

abbrev pub status_connect_client_answer : ℕ
status_connect_client_answer = 2

abbrev pub status_connect_done : ℕ
status_connect_done = 3

abbrev pub status_data : ℕ
status_data = 4

abbrev pub status_ack : ℕ
status_ack = 5

abbrev pub status_ping : ℕ
status_ping = 6

abbrev pub status_pong : ℕ
status_pong = 7

abbrev pub status_disconnect : ℕ
status_disconnect = 8

abbrev pub status_punch : ℕ
status_punch = 9

abbrev pub status_split : ℕ
status_split = 0x80

abbrev pub status_data_next : ℕ
status_data_next = status_data + status_split

abbrev pub max_udp_data_length : ℕ
max_udp_data_length = 65535 - 8

abbrev pub crypt_aes_length : ℕ
crypt_aes_length = 28

abbrev pub packet_id_limit : ℕ
packet_id_limit = 0x100000

-- 5 * time.Second
abbrev pub default_delivery_timeout : ℕ
default_delivery_timeout = 5_000_000_000

-- `data` is a reserved word here, so that field is `payload`. A callback is named by a number,
-- and a timer is the time at which it fires, if it runs.
pub record Packet : Type 0 where
  pub id : ℕ
  pub status : ℕ
  pub payload : Bytes
  pub time : ℕ
  pub retransmit_time : ℕ
  pub retransmit_attempts : ℕ
  pub delivery : Option ℕ
  pub delivery_timeout : ℕ
  pub delivery_timer : Option ℕ

unfoldable pub new_packet : ℕ → Packet
new_packet now = record {
  id = 0;
  status = 0;
  payload = [];
  time = now;
  retransmit_time = 0;
  retransmit_attempts = 0;
  delivery = none;
  delivery_timeout = 0;
  delivery_timer = none;
}

-- `p.id & (packetIDLimit - 1) | uint32(p.status) << 24`
unfoldable pub pack_stat_id : Packet → ℕ
pack_stat_id p = bit_or (bit_and p.id (packet_id_limit - 1)) (p.status * 2 ^ 24)

-- `uint8(statid >> 24)` is the whole top byte.
unfoldable pub unpack_stat_id : Packet → ℕ → Packet
unpack_stat_id p statid = record p {
  id = bit_and statid (packet_id_limit - 1);
  status = statid / 2 ^ 24 % 256;
}

unfoldable pub marshal_binary : Packet → Bytes
marshal_binary p = put_u32 (pack_stat_id p) ++ p.payload

-- What is read behind the header; with nothing left `p.data` stays as it was.
abbrev pub read_rest : Packet → Bytes → Packet
read_rest p [] = p
read_rest p rest = record p { payload = rest }

-- `none` is the error of `binary.Read`.
unfoldable pub unmarshal_binary : Packet → Bytes → Option Packet
unmarshal_binary p bytes = elim (get_u32 bytes) [
  | none ↦ none
  | some (statid, rest) ↦ some (read_rest (unpack_stat_id p statid) rest)
]

abbrev pub header_len : ℕ
header_len = 4

unfoldable pub max_data_len : ℕ
max_data_len = max_udp_data_length - header_len - crypt_aes_length

unfoldable pub len : Packet → ℕ
len p = header_len + length p.payload

unfoldable pub set_data : Bytes → Packet → Packet
set_data d p = record p { payload = d }

-- uint32(id)
unfoldable pub set_id : ℕ → Packet → Packet
set_id id p = record p { id = id % 2 ^ 32 }

-- uint8(status)
unfoldable pub set_status : ℕ → Packet → Packet
set_status s p = record p { status = s % 256 }

-- The timer is armed with the timeout that the packet has at this moment.
unfoldable pub set_delivery : ℕ → Option ℕ → Packet → Packet
set_delivery now none p = p
set_delivery now (some f) p = record p {
  delivery = some f;
  delivery_timer = some (now + p.delivery_timeout);
}

unfoldable pub set_delivery_timeout : ℕ → Packet → Packet
set_delivery_timeout timeout p = record p { delivery_timeout = timeout }

-- `modSubU`; in uint64 nothing overflows.
unfoldable pub mod_sub_u : ℕ → ℕ → ℕ → ℕ
mod_sub_u a b mod' = (a % mod' + mod' - b % mod') % mod'

-- Below zero for an id before the expected one, above zero for one behind it.
unfoldable pub distance : ℕ → ℕ → ℤ
unfolding mod_sub_u
distance expected_id id =
    let diff = mod_sub_u id expected_id packet_id_limit in
    if expected_id == id
    then pos 0
    else if ltb diff (packet_id_limit / 2)
    then pos diff
    else sub_ℕ diff packet_id_limit

unfoldable pub set_retransmit_attempts : ℕ → Packet → Packet
set_retransmit_attempts rta p = record p { retransmit_attempts = rta }

unfoldable pub set_retransmit_time : ℕ → ℕ → Packet → Packet
set_retransmit_time now rtt p = record p { retransmit_time = now + rtt; time = now }
