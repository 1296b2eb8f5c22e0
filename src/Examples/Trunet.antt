-- ===== src/Examples/Trunet.antt =====
-- examples/trunet/main.go: a server that answers each message, and its client.
pub mod Answering
pub mod Asking
use tru.Base.Decimal.{decimal}
use tru.Base.Text.{codes}
use tru.Base.{
  ℕ, zero, suc, ◌+◌, Bool, true, false, List, [], ◌∷◌, ◌++◌, Option, none, some, Bytes,
  if◌then◌else◌, ltb, length, inl, inr, ◌⊎◌,
}
use tru.Channel.Write.{Env}
use tru.Channel.{Channel}
use tru.Crypt.Library.{Primitives}
use tru.Net.Messages.{read_all}
use tru.Net.Trunet.{Trunet, World, TrunetError, listen, accept_conn}
use tru.Net.{Conn, ConnError, Copied, new_conn, write_conn, close_conn}

-- `fmt.Sprintf("done: %s", buf)`
unfoldable pub done : Bytes → Bytes
done message = codes "done: " ++ message

-- `fmt.Sprintf("Hello message # %d", i)`
unfoldable pub hello : ℕ → Bytes
hello i = codes "Hello message # " ++ decimal i

-- `logmsg`: the line that is logged, if there is one.
unfoldable pub log_msg : Bool → Bytes → Bytes → Option Bytes
log_msg no_msg msg bytes = if no_msg then none else some (msg ++ (codes " " ++ bytes))

pub data Mode : Type 0 where
  client_mode : Bytes → Mode
  server_mode : Bytes → Mode

-- `main`, by its flags -a and -addr.
unfoldable pub mode : Bytes → Bytes → Mode
mode remote local = if ltb 0 (length remote) then client_mode remote else server_mode local

-- A handler of a connection: it runs, or it has closed the connection, and with it the channel.
pub record Handler : Type 0 where
  pub conn : Conn
  pub running : Bool
  pub closed_channel : Option Channel

-- What a client has logged as answers, its connection, and whether it still sends.
pub record Client : Type 0 where
  pub conn : Conn
  pub running : Bool
  pub answers : List Bytes

module _ (p : Primitives) (fuel : ℕ) (sizes : ℕ → ℕ) where
  -- `defer conn.Close()`
  unfoldable pub stop : Env → Conn → Handler
  stop env c =
      let (c', ch, _) = close_conn p env c in
      record { conn = c'; running = false; closed_channel = ch }

  -- The loop of a connection, with what each round reads from outside: it stops at an error of the
  -- reading, and goes on after an error of the writing. It runs when it waits for a message.
  unfoldable pub handle : List Env → Conn → Handler
  unfolding stop
  handle [] c = record { conn = c; running = true; closed_channel = none }
  handle (env ∷ envs) c = elim (read_all fuel sizes c) [
    | none ↦ record { conn = c; running = true; closed_channel = none }
    | some (c', got) ↦ elim got.err [
      | some e ↦ stop env c'
      | none ↦ elim (write_conn p env (done got.bytes) c') [
        | none ↦ record { conn = c'; running = true; closed_channel = none }
        | some (c'', _, _) ↦ handle envs c''
      ]
    ]
  ]

  -- The loop that sends the messages, from the number `i`. `arrive` is what comes to the connection
  -- while the program waits for the answer.
  unfoldable pub send_messages : (ℕ → Conn → Conn) → Bool → List Env → ℕ → Conn → Client
  send_messages arrive no_wait [] i c = record { conn = c; running = true; answers = [] }
  send_messages arrive no_wait (env ∷ envs) i c = elim (write_conn p env (hello i) c) [
    | none ↦ record { conn = c; running = true; answers = [] }
    | some (c', _, some e) ↦ record { conn = c'; running = false; answers = [] }
    | some (c', _, none) ↦
        let unread = send_messages arrive no_wait envs (i + 1) c' in
        if no_wait then unread else elim (read_all fuel sizes (arrive i c')) [
          | none ↦ record { conn = arrive i c'; running = true; answers = [] }
          | some (c'', got) ↦ elim got.err [
            | some e ↦ record { conn = c''; running = false; answers = [] }
            | none ↦
                let later = send_messages arrive no_wait envs (i + 1) c'' in
                record later { answers = got.bytes ∷ later.answers }
          ]
        ]
  ]

  -- The loop of `client`: what each `Dial` gives, and what comes to that connection. After an error of
  -- a dial it dials again; a connection that has stopped is closed.
  unfoldable pub client :
      Bool → Env → List Env → List (TrunetError ⊎ (Conn × (ℕ → Conn → Conn))) → List Client
  client no_wait env envs [] = []
  client no_wait env envs (inl e ∷ dials) = client no_wait env envs dials
  client no_wait env envs (inr (c, arrive) ∷ dials) =
      let session = send_messages arrive no_wait envs 0 c in
      let (closed, _, _) = close_conn p env session.conn in
      let later = client no_wait env envs dials in
      if session.running then session ∷ [] else record session { conn = closed } ∷ later

-- The loop of `server`, for a number of connections: one handler each. At `none` it waits.
unfoldable pub accept_all : ℕ → Trunet → World → List Conn × World
accept_all zero listener w = ([], w)
accept_all (suc n) listener w = elim (accept_conn listener w) [
  | none ↦ ([], w)
  | some (c, w') ↦ let (later, end) = accept_all n listener w' in (c ∷ later, end)
]

-- `server`: the connections that are handled, or the error of `Listen`.
unfoldable pub server : ℕ → Bytes → Bool → World → (TrunetError ⊎ List Conn) × World
unfolding accept_all
server n addr made w =
    let (listener, w') = listen addr made w in
    elim listener [
      | inl e ↦ (inl e, w')
      | inr t ↦ let (conns, end) = accept_all n t w' in (inr conns, end)
    ]
