-- ===== src/Connect.antt =====
-- connect.go, crypt.go: the data of the packets that open a channel, and the session key.
pub mod Codec
pub mod Answers
use tru.Base.{
  ℕ, ◌+◌, ◌-◌, ◌%◌, List, [], ◌∷◌, ◌++◌, map, Option, none, some, Bytes, ltb, leb, if◌then◌else◌,
  length, take, drop, ◌>>=◌,
}
use tru.Crypt.Library.{Primitives}
use tru.Crypt.{encrypt, decrypt, public_key_to_bytes, bytes_to_public_key}

-- connectPacketData. `payload` is the field `data`.
pub record ConnectPacketData : Type 0 where
  pub uuid : Bytes
  pub payload : Bytes

-- `uint8(len(c.uuid))`
unfoldable pub marshal_data : ConnectPacketData → Bytes
marshal_data c = length c.uuid % 256 ∷ c.uuid ++ c.payload

-- `none` is the error of `binary.Read`.
unfoldable pub unmarshal_data : Bytes → Option ConnectPacketData
unmarshal_data [] = none
unmarshal_data (l ∷ rest) =
    if leb l (length rest)
    then some (record { uuid = take l rest; payload = drop l rest })
    else none

-- `characterRunes[i]`: the small letters, the capitals and the digits.
abbrev pub character_rune : ℕ → ℕ
character_rune i = if ltb i 26 then 97 + i else if ltb i 52 then 65 + (i - 26) else 48 + (i - 52)

-- `RandomString`, from the numbers that `rnd.Intn` gives.
unfoldable pub random_string : List ℕ → Bytes
random_string picks = map character_rune picks

-- What a step of the handshake draws: the seeds of the boxes and the picks of the session key.
pub record Random : Type 0 where
  pub seed : ℕ → ℕ
  pub picks : List ℕ

module _ (p : Primitives) where
  open p use {PrivateKey, public_key, sha256}

  unfoldable pub make_session_key : List ℕ → Bytes
  make_session_key picks = sha256 (random_string picks)

  -- The client's packet: its public key under a new uuid.
  unfoldable pub hello : PrivateKey → Bytes → Bytes
  hello key uuid =
      marshal_data (record { uuid = uuid; payload = public_key_to_bytes p (public_key key) })

  -- The server's answer: its public key, boxed for the client's.
  unfoldable pub server_answer : Random → PrivateKey → ConnectPacketData → Option Bytes
  server_answer random key cp = do
    let pub_key = public_key_to_bytes p (public_key key)
    client ← bytes_to_public_key p cp.payload
    boxed ← encrypt p (length pub_key) random.seed client pub_key
    some (marshal_data (record cp { payload = boxed }))

  -- The client's answer: a new session key, boxed for the server's public key; and the key itself.
  unfoldable pub client_answer : Random → PrivateKey → ConnectPacketData → Option (Bytes × Bytes)
  client_answer random key cp = do
    let session_key = make_session_key random.picks
    opened ← decrypt p (length cp.payload) key cp.payload
    server ← bytes_to_public_key p opened
    boxed ← encrypt p (length session_key) random.seed server session_key
    some (marshal_data (record cp { payload = boxed }), session_key)

  -- What the server makes of it: the session key and the packet that ends the handshake.
  unfoldable pub done_answer : PrivateKey → ConnectPacketData → Option (Bytes × Bytes)
  done_answer key cp = do
    session_key ← decrypt p (length cp.payload) key cp.payload
    some (marshal_data (record cp { payload = [] }), session_key)
