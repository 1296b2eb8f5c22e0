-- ===== src/Examples/Trunet/Asking.antt =====
-- What the client of examples/trunet/main.go asks and reads.
use tru.Base.{
  ℕ, zero, suc, ◌+◌, ◌≤◌, ◌<◌, ◌≡◌, refl, sym, subst, true, false, List, [], ◌∷◌, ◌++◌, some, Bytes,
  arith, length,
}
use tru.Channel.Write.Whole.{write_to-max_data_len, write_to_err}
use tru.Channel.Write.{Env, write_to}
use tru.Channel.{Channel}
use tru.Crypt.Library.{Primitives}
use tru.Examples.Trunet.{done, hello, send_messages}
use tru.Net.Writing.{write_conn_alive}
use tru.Net.Messages.{read_message}
use tru.Net.{Conn}
use tru.Packet.{status_data}
use tru.Split.{split_len}

-- The server's answer to a message comes while the client waits for it.
abbrev pub answered : ℕ → Conn → Conn
answered i c = record c { read_ch = c.read_ch ++ done (hello i) ∷ [] }

abbrev pub dialogue : ℕ → ℕ → List Bytes
dialogue zero i = []
dialogue (suc n) i = done (hello i) ∷ dialogue n (i + 1)

module _ (p : Primitives) where
  -- The messages, written one by one.
  unfoldable pub hello_each : List Env → ℕ → Channel → Channel
  hello_each [] i ch = ch
  hello_each (env ∷ envs) i ch =
      hello_each envs (i + 1) (write_to p env (hello i) status_data [] [] ch).1

  -- The client of the example, at a connection that is open and between two messages, with nothing
  -- that waits, and with the server's answer to each message coming before the next is sent: it sends
  -- its messages, numbered from where it is, and has as answers theirs, in order, each whole. It is
  -- ready for the next message at the end. Messages and answers fit a packet of the
  -- channel and the fuel, and slices have any lengths over 0.
  pub send_messages-answered :
      (fuel : ℕ) (sizes : ℕ → ℕ) (envs : List Env) (i : ℕ) (ch : Channel) (c : Conn)
      → ((k : ℕ) → 0 < sizes k)
      → ch.stat.destroyed ≡ false
      → ((k : ℕ)
          → i ≤ k
          → k < i + length envs
          → (length (done (hello k)) + 2 ≤ fuel) × (length (hello k) ≤ split_len ch.max_data_len))
      → send_messages p fuel sizes answered false envs i
          (record c { ch = some ch; buf = []; cont = false; read_ch = [] })
        ≡ record {
          conn = record c {
            ch = some (hello_each envs i ch);
            buf = [];
            cont = false;
            read_ch = [];
          };
          running = true;
          answers = dialogue (length envs) i;
        }
  unfolding send_messages hello_each
  send_messages-answered fuel sizes [] i ch c positive alive fits = refl
  send_messages-answered fuel sizes (env ∷ envs) i ch c positive alive fits =
      let (enough, fit) = fits i (omega arith) (omega arith) in
      let c₁ = record c { ch = some ch; buf = []; cont = false; read_ch = [] } in
      let ch' = (write_to p env (hello i) status_data [] [] ch).1 in
      let c₂ = record c₁ { ch = some ch' } in
      let limit = write_to-max_data_len p env (hello i) ch in
      let alive' = (write_to_err p env (hello i) ch alive).1 in
      let rest = send_messages-answered fuel sizes envs (i + 1) ch' c positive alive' (λ k lo hi.
        let (enough', fit') = fits k (omega (arith, lo)) (omega (arith, hi)) in
        (enough', subst (λ (n : ℕ). length (hello k) ≤ split_len n) (sym limit) fit')) in
      rw (write_conn_alive p env (hello i) ch c₁ refl fit alive, send_messages)
        (rw (read_message fuel sizes (done (hello i)) [] c₂ positive enough) (rw rest refl))
