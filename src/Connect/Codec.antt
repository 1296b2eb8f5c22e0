-- ===== src/Connect/Codec.antt =====
-- The format of the connection packets (connect.go).
use tru.Base.{
  ℕ, ◌%◌, ◌<◌, ◌≡◌, refl, [], ◌∷◌, some, Bytes, arith, length, length-append, length-take,
  take-append, drop-append, take-append-drop,
}
use tru.Connect.{ConnectPacketData, marshal_data, unmarshal_data}

-- A connection packet whose uuid has less than 256 bytes is read back as it was written.
pub unmarshal_data-marshal_data :
    (c : ConnectPacketData) → length c.uuid < 256 → unmarshal_data (marshal_data c) ≡ some c
unfolding unmarshal_data marshal_data
unmarshal_data-marshal_data c h = ground (
  arith,
  take-append (length c.uuid) c.uuid c.payload refl,
  drop-append (length c.uuid) c.uuid c.payload refl,
  length-append c.uuid c.payload,
)

-- Bytes that a connection packet is read from have its uuid's length in front, and the packet is
-- written as the same bytes, the first one modulo 256.
pub marshal_data-unmarshal_data :
    (bytes : Bytes) (c : ConnectPacketData)
    → unmarshal_data bytes ≡ some c
    → (n : ℕ) × (rest : Bytes) × (bytes ≡ n ∷ rest)
      × (length c.uuid ≡ n)
      × (marshal_data c ≡ n % 256 ∷ rest)
unfolding unmarshal_data marshal_data
marshal_data-unmarshal_data [] c h = absurd (ground (arith, h))
marshal_data-unmarshal_data (l ∷ rest) c h = (
  l,
  rest,
  refl,
  ground (arith, h, length-take l rest),
  ground (arith, h, length-take l rest, take-append-drop l rest),
)
