-- ===== src/Net/Messages.antt =====
-- A message is read in pieces (tru_net.go), as `io.ReadAll` and `io.Copy` of Go do it.
use tru.Base.{
  ℕ, zero, suc, ◌+◌, ◌≤◌, ◌<◌, ◌≡◌, refl, true, false, List, [], ◌∷◌, ◌++◌, Option, none, some,
  Bytes, arith, length, drop, length-drop, take-append-drop,
}
use tru.Net.{eof, Conn, Copied, copy, read}

abbrev behind : Bytes → Option (Conn × Copied) → Option (Conn × Copied)
behind bytes none = none
behind bytes (some (c, r)) = some (c, record r { bytes = bytes ++ r.bytes })

-- Repeated calls of `Read` up to the end of a message, which is no error, or to an error. The length
-- of the slice may change from call to call. `none` when a call waits, or when the fuel is out.
unfoldable pub read_all : ℕ → (ℕ → ℕ) → Conn → Option (Conn × Copied)
read_all zero sizes c = none
read_all (suc fuel) sizes c = elim (read (sizes fuel) c) [
  | none ↦ none
  | some (c', r) ↦
      let more = read_all fuel sizes c' in
      elim r.err [
        | none ↦ behind r.bytes more
        | some eof ↦ some (c', record { bytes = []; err = none })
        | some e ↦ some (c', record { bytes = []; err = some e })
      ]
]

read_all_rest :
    (fuel : ℕ) (sizes : ℕ → ℕ) (bytes : Bytes) (c : Conn)
    → ((k : ℕ) → 0 < sizes k)
    → length bytes < fuel
    → read_all fuel sizes (record c { buf = bytes; cont = true })
      ≡ some (record c { buf = []; cont = false }, record { bytes = bytes; err = none })
unfolding read_all read copy
read_all_rest zero sizes bytes c h l = absurd (omega arith)
read_all_rest (suc fuel) sizes [] c h l = refl
read_all_rest (suc fuel) sizes (b ∷ bytes) c h l =
    let n = sizes fuel in
    let shorter : length (drop n (b ∷ bytes)) < fuel =
      omega (arith, h fuel, length-drop n (b ∷ bytes)) in
    ground (
      arith,
      read_all_rest fuel sizes (drop n (b ∷ bytes)) c h shorter,
      take-append-drop n (b ∷ bytes),
    )

-- A message that waits at a connection that is between two messages is read in pieces, by slices of
-- any lengths over 0: the pieces make the message, the end of the message is told once, and
-- the connection is between two messages again. As many calls as the message has bytes, and
-- two, are enough.
pub read_message :
    (fuel : ℕ) (sizes : ℕ → ℕ) (message : Bytes) (rest : List Bytes) (c : Conn)
    → ((k : ℕ) → 0 < sizes k)
    → length message + 2 ≤ fuel
    → read_all fuel sizes (record c { buf = []; cont = false; read_ch = message ∷ rest })
      ≡ some (
        record c { buf = []; cont = false; read_ch = rest },
        record { bytes = message; err = none },
      )
unfolding read_all read copy
read_message zero sizes message rest c h l = absurd (omega arith)
read_message (suc fuel) sizes message rest c h l =
    let n = sizes fuel in
    let shorter : length (drop n message) < fuel = omega (arith, length-drop n message) in
    ground (
      arith,
      read_all_rest fuel sizes (drop n message) (record c { read_ch = rest }) h shorter,
      take-append-drop n message,
    )
