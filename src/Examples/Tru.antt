-- ===== src/Examples/Tru.antt =====
-- examples/tru/main.go: a connector that answers what it reads, and a sender.
pub mod Reading
use tru.Base.Decimal.{decimal}
use tru.Base.Text.{codes}
use tru.Base.{
  ℕ, zero, suc, ◌+◌, Bool, true, false, List, [], ◌∷◌, ◌++◌, Option, none, some, Bytes, ◌==◌, ltb,
  if◌then◌else◌, length,
}
use tru.Channel.Write.{Env, write}
use tru.Channel.{Channel}
use tru.Connector.New.{
  Param, reader_func, logger, level, filter, hotkey, stat, Parsed, NewError, new,
}
use tru.Crypt.Library.{Primitives}
use tru.Packet.{Packet}
use tru.Packet
use tru.Teolog.Names.{log_filter}
use tru.Teolog.{Teolog}

-- The flags that `main` gives to `New`.
pub record Flags : Type 0 where
  pub stat : Bool
  pub hotkey : Bool
  pub log_level : Bytes
  pub log_filter : Bytes
  pub data_len : ℕ

-- The parameters of `New`; the reader is the callback number 0.
unfoldable pub new_params : Flags → Teolog → List Param
new_params f log =
    reader_func 0
    ∷ Param.stat f.stat
    ∷ Param.hotkey f.hotkey
    ∷ logger log
    ∷ level f.log_level
    ∷ filter (log_filter f.log_filter)
    ∷ []

-- The connector of `main`, or the error with which it ends: what `New` gives, and then
-- `SetMaxDataLen`, which keeps what a packet cannot take.
unfoldable pub created : Flags → Teolog → Bool → Bool → Parsed × Option NewError
created f log listens has_key =
    let (s, err) = new (new_params f log) none listens has_key in
    elim err [
      | some e ↦ (s, some e)
      | none ↦ (
        record s {
          tru = record (s.tru) {
            max_data_len =
                if ltb f.data_len Packet.max_data_len then f.data_len else s.tru.max_data_len;
          };
        },
        none,
      )
    ]

-- `append([]byte("answer to "), pac.Data()...)`
unfoldable pub answer_to : Bytes → Bytes
answer_to bytes = codes "answer to " ++ bytes

-- The data of a message: its number, or what `rand.Read` gives when a length is set.
unfoldable pub message : ℕ → (ℕ → Bytes) → ℕ → Bytes
message send_len random i = if send_len == 0 then codes "data " ++ decimal i else random i

-- What a sender has done with a channel.
pub record Session : Type 0 where
  pub ch : Channel
  pub sent : List Bytes
  pub failed : Bool

-- The reader that `Sender` gives to its channel, with an error or with a packet.
unfoldable pub channel_reader : Bool → Packet → Bool
channel_reader true pac = false
channel_reader false pac = true

module _ (p : Primitives) where
  -- `Reader`, with an error or with a packet; the result says that the packet is not processed.
  -- `none` is a split out of fuel.
  unfoldable pub reader : Bool → Env → Packet → Channel → Option (Channel × Bool)
  reader true env pac ch = some (ch, false)
  reader false env pac ch = elim (write p env (answer_to pac.payload) [] ch) [
    | none ↦ none
    | some (_, ch') ↦ some (ch', false)
  ]

  -- The loop that sends, until a write fails; what each round reads from outside is in the list.
  unfoldable pub send_loop : (ℕ → Bytes) → List Env → ℕ → Channel → Option Session
  send_loop message_at [] i ch = some (record { ch = ch; sent = []; failed = false })
  send_loop message_at (env ∷ envs) i ch = elim (write p env (message_at i) [] ch) [
    | none ↦ none
    | some (done, ch') ↦
        let later = send_loop message_at envs (i + 1) ch' in
        elim done.err [
          | some e ↦ some (record { ch = ch'; sent = []; failed = true })
          | none ↦ elim later [
            | none ↦ none
            | some s ↦ some (record s { sent = message_at i ∷ s.sent })
          ]
        ]
  ]

  -- `Sender`: what each `Connect` gives. After an error it connects again, and after a write that fails
  -- too, from the number 0.
  unfoldable pub sender :
      Bytes → (ℕ → Bytes) → List Env → List (Option Channel) → Option (List Session)
  sender addr message_at envs [] = some []
  sender addr message_at envs (c ∷ connects) =
      let later = sender addr message_at envs connects in
      if length addr == 0 then some [] else elim c [
        | none ↦ later
        | some ch ↦ elim (send_loop message_at envs 0 ch) [
          | none ↦ none
          | some s ↦
              if s.failed
              then elim later [ none ↦ none | some rest ↦ some (s ∷ rest) ]
              else some (s ∷ [])
        ]
      ]
