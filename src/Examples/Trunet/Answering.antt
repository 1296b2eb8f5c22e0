-- ===== src/Examples/Trunet/Answering.antt =====
-- What the server of examples/trunet/main.go answers.
use tru.Base.{
  ℕ, zero, suc, ◌+◌, ◌≤◌, ◌<◌, ◌≡◌, refl, sym, subst, ◌∙◌, true, false, List, [], ◌∷◌, none, some,
  Bytes, arith, length, All,
}
use tru.Channel.Write.Whole.{write_to-max_data_len}
use tru.Channel.Write.{Env, write_to}
use tru.Channel.{Channel}
use tru.Crypt.Library.{Primitives}
use tru.Examples.Trunet.{done, handle}
use tru.Net.Writing.{write_conn_whole}
use tru.Net.Messages.{read_all, read_message}
use tru.Net.{Conn, read}
use tru.Packet.{status_data}
use tru.Split.{split_len}

module _ (p : Primitives) where
  -- The answers, written one by one.
  unfoldable pub answer_each : List Env → List Bytes → Channel → Channel
  answer_each (env ∷ envs) (m ∷ ms) ch =
      answer_each envs ms (write_to p env (done m) status_data [] [] ch).1
  answer_each _ _ ch = ch

  answer_each-nil : (envs : List Env) (ch : Channel) → answer_each envs [] ch ≡ ch
  unfolding answer_each
  answer_each-nil [] ch = refl
  answer_each-nil (env ∷ envs) ch = refl

  -- A message can be read with the fuel, and its answer fits a packet of the channel.
  abbrev pub Small : ℕ → ℕ → Bytes → Type 0
  Small fuel limit m = (length m + 2 ≤ fuel) × (length (done m) ≤ split_len limit)

  handle_waits :
      (fuel : ℕ) (sizes : ℕ → ℕ) (envs : List Env) (c : Conn)
      → c.closed ≡ false
      → handle p fuel sizes envs (record c { buf = []; cont = false; read_ch = [] }) ≡ record {
        conn = record c { buf = []; cont = false; read_ch = [] };
        running = true;
        closed_channel = none;
      }
  unfolding handle read_all read
  handle_waits fuel sizes [] c h = refl
  handle_waits zero sizes (env ∷ envs) c h = refl
  handle_waits (suc fuel) sizes (env ∷ envs) c h = rw h refl

  -- The server of the example, at a connection with an open channel that is between two messages,
  -- answers each message that waits there, in order, with "done: " in front of it, and then
  -- waits for the next one. Each message can be read with the fuel, by slices of any lengths over 0,
  -- and each answer fits a packet of the channel. The channel is as the writes of the answers leave it, also
  -- when it is destroyed and they fail.
  pub handle_answers :
      (fuel : ℕ) (sizes : ℕ → ℕ) (envs : List Env) (ms : List Bytes) (ch : Channel) (c : Conn)
      → ((k : ℕ) → 0 < sizes k)
      → c.closed ≡ false
      → length ms ≤ length envs
      → All (Small fuel ch.max_data_len) ms
      → handle p fuel sizes envs (record c { ch = some ch; buf = []; cont = false; read_ch = ms })
        ≡ record {
          conn = record c {
            ch = some (answer_each envs ms ch);
            buf = [];
            cont = false;
            read_ch = [];
          };
          running = true;
          closed_channel = none;
        }
  unfolding handle answer_each
  handle_answers fuel sizes envs [] ch c positive h l small =
      handle_waits fuel sizes envs (record c { ch = some ch }) h ∙ rw (answer_each-nil envs ch) refl
  handle_answers fuel sizes [] (m ∷ ms) ch c positive h l small = absurd (omega arith)
  handle_answers fuel sizes (env ∷ envs) (m ∷ ms) ch c positive h l ((enough, fits), small) =
      let c₁ = record c { ch = some ch; buf = []; cont = false; read_ch = ms } in
      let ch' = (write_to p env (done m) status_data [] [] ch).1 in
      let (_, written) = write_conn_whole p env (done m) ch c₁ refl fits in
      let read = read_message fuel sizes m ms (record c { ch = some ch }) positive enough in
      rw (read, handle)
        (rw written (
          handle_answers fuel sizes envs ms ch' c positive h (omega (arith, l)) (
            subst (λ (k : ℕ). All (Small fuel k) ms) (sym (write_to-max_data_len p env (done m) ch))
              small)))
