-- ===== src/Examples/Tru/Reading.antt =====
-- What the connectors of examples/tru/main.go make of what they read.
use tru.Base.{
  ℕ, ◌≤◌, ◌≡◌, refl, sym, subst, Bool, true, false, List, [], ◌∷◌, Option, none, some, Bytes, arith,
  length, All,
}
use tru.Channel.Write.Whole.{write_whole, write_to-max_data_len}
use tru.Channel.Write.{Env, write_to}
use tru.Channel.{Channel}
use tru.Connector.Loops.{ReaderData, ReaderCall, reader_process}
use tru.Connector.Loops
use tru.Crypt.Library.{Primitives}
use tru.Examples.Tru.{answer_to, reader, channel_reader}
use tru.Packet.{Packet, status_data}
use tru.Split.{split_len}
use tru.Transfer.Whole.{bytes_read}

-- Packets of one channel for the reader's process, with the reader of that channel, if it has one.
abbrev pub handed : Option (Packet → Bool) → List Packet → List ReaderData
handed f [] = []
handed f (pac ∷ rest) = record { destroyed = false; reader = f; pac = pac } ∷ handed f rest

module _ (p : Primitives) where
  -- What the calls write to the channel: only `Reader` writes.
  unfoldable pub run_calls : List Env → List ReaderCall → Channel → Option Channel
  run_calls envs [] ch = some ch
  run_calls envs (Loops.channel_reader pac ∷ calls) ch = run_calls envs calls ch
  run_calls [] (Loops.global_reader pac ∷ calls) ch = none
  run_calls (env ∷ envs) (Loops.global_reader pac ∷ calls) ch = elim (reader p false env pac ch) [
    | none ↦ none
    | some (ch', _) ↦ run_calls envs calls ch'
  ]

  -- The answers, written one by one.
  unfoldable pub answer_each : List Env → List Bytes → Channel → Channel
  answer_each (env ∷ envs) (m ∷ ms) ch =
      answer_each envs ms (write_to p env (answer_to m) status_data [] [] ch).1
  answer_each _ _ ch = ch

  abbrev pub FitsAnswer : ℕ → Packet → Type 0
  FitsAnswer limit pac = length (answer_to pac.payload) ≤ split_len limit

  answers :
      (envs : List Env) (pacs : List Packet) (ch : Channel)
      → length pacs ≤ length envs
      → All (FitsAnswer ch.max_data_len) pacs
      → run_calls envs (reader_process true (handed none pacs)) ch
        ≡ some (answer_each envs (bytes_read pacs) ch)
  unfolding run_calls answer_each reader_process reader
  answers [] [] ch l fits = refl
  answers (env ∷ envs) [] ch l fits = refl
  answers [] (pac ∷ pacs) ch l fits = absurd (omega arith)
  answers (env ∷ envs) (pac ∷ pacs) ch l (fit, fits) =
      let ch' = (write_to p env (answer_to pac.payload) status_data [] [] ch).1 in
      rw (write_whole p env (answer_to pac.payload) ch fit, run_calls)
        (answers envs pacs ch' (omega (arith, l)) (
          subst (λ (k : ℕ). All (FitsAnswer k) pacs)
            (sym (write_to-max_data_len p env (answer_to pac.payload) ch)) fits))

  silent :
      (envs : List Env) (pacs : List Packet) (ch : Channel)
      → run_calls envs (reader_process true (handed (some (channel_reader false)) pacs)) ch
        ≡ some ch
  unfolding run_calls reader_process channel_reader
  silent envs [] ch = refl
  silent envs (pac ∷ pacs) ch = silent envs pacs ch

  -- With the reader of the sample program, each packet of a channel without a reader of its own is
  -- answered once, in order, with "answer to " in front of it, where each answer fits a packet of
  -- the channel. Nothing is written for the packets of a channel with the reader of `Sender`.
  pub answered_once :
      (envs : List Env) (pacs : List Packet) (ch : Channel)
      → length pacs ≤ length envs
      → All (FitsAnswer ch.max_data_len) pacs
      → (run_calls envs (reader_process true (handed none pacs)) ch
          ≡ some (answer_each envs (bytes_read pacs) ch))
        × (run_calls envs (reader_process true (handed (some (channel_reader false)) pacs)) ch
            ≡ some ch)
  answered_once envs pacs ch l fits = (answers envs pacs ch l fits, silent envs pacs ch)
