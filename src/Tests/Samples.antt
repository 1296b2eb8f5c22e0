-- ===== src/Tests/Samples.antt =====
-- The sample programs, and a terminal.
use Prim.Native.Nat.{bit_and, bit_or}
use tru.Base.Decimal.{decimal, decimal_on}
use tru.Base.{
  ℕ, ◌+◌, ◌-◌, ◌≤◌, ◌<◌, ◌≡◌, refl, inl, inr, true, false, List, [], ◌∷◌, none, some, Bytes, arith,
  length, ◌⊎◌, ap, sym, some_eq, subst, Bool-cases, ==_iff, ◌==◌,
}
use tru.Channel.{new_channel}
use tru.Examples.Trunet.Answering.{answer_each, handle_answers}
use tru.Examples.Trunet.Asking.{hello_each, answered, dialogue, send_messages-answered}
use tru.Examples.Trunet.{done, hello, handle, send_messages}
use tru.Net.{Conn}
use tru.Packet.{max_data_len}
use tru.Split.{split_len}
use tru.Statistic
use tru.Terminal.System.Attributes.{IsTty}
use tru.Terminal.System.Unix.{Termios, UnixCalls, termios, unix, getch_restores_unix}
use tru.Terminal.System.{getch, panicked, pressed}
use tru.Tests.Channels.{env, client}
use tru.Tests.Toy.{toy}

abbrev conn : Conn
conn = record { ch = some client; read_ch = []; closed = false; buf = []; cont = false }

abbrev two_messages : List Bytes
two_messages = (1 ∷ 2 ∷ []) ∷ (3 ∷ []) ∷ []

handle_answers_example :
    handle toy 10 (λ k. k + 1) (env ∷ env ∷ env ∷ []) (record conn { read_ch = two_messages })
    ≡ record {
      conn = record conn { ch = some (answer_each toy (env ∷ env ∷ env ∷ []) two_messages client) };
      running = true;
      closed_channel = none;
    }
unfolding done split_len new_channel max_data_len
handle_answers_example =
    handle_answers toy 10 (λ k. k + 1) (env ∷ env ∷ env ∷ []) two_messages client conn
      (λ k. omega arith) refl (omega arith)
      ((omega arith, omega arith), ((omega arith, omega arith), tt))

-- Messages and answers are small.
abbrev IsSmall : ℕ → Type 0
IsSmall k = (length (done (hello k)) + 2 ≤ 40) × (length (hello k) ≤ split_len client.max_data_len)

seven-IsSmall : IsSmall 7
unfolding done hello decimal decimal_on split_len new_channel max_data_len
seven-IsSmall = (omega arith, omega arith)

eight-IsSmall : IsSmall 8
unfolding done hello decimal decimal_on split_len new_channel max_data_len
eight-IsSmall = (omega arith, omega arith)

both-IsSmall : (k : ℕ) → 7 ≤ k → k < 7 + 2 → IsSmall k
both-IsSmall k lo hi = elim (Bool-cases (k == 7)) [
  | inl e ↦ subst IsSmall (sym ((==_iff k 7).0 e)) seven-IsSmall
  | inr e ↦ let same : k ≡ 8 = ground (arith, lo, hi, e) in subst IsSmall (sym same) eight-IsSmall
]

alive : client.stat.destroyed ≡ false
unfolding new_channel Statistic.set_send_delay Statistic.init
alive = refl

send_messages-answered_example :
    send_messages toy 40 (λ k. k + 1) answered false (env ∷ env ∷ []) 7 conn ≡ record {
      conn = record conn { ch = some (hello_each toy (env ∷ env ∷ []) 7 client) };
      running = true;
      answers = dialogue 2 7;
    }
send_messages-answered_example =
    send_messages-answered toy 40 (λ k. k + 1) (env ∷ env ∷ []) 7 client conn (λ k. omega arith)
      alive both-IsSmall

-- One terminal, and what is typed there.
abbrev tty : UnixCalls
tty = record {
  Os = Termios × Bytes;
  echo = 8;
  icanon = 2;
  isig = 1;
  get_termios = λ fd os. some os.0;
  set_termios = λ fd t os. some (t, os.1);
  get_winsize = λ fd os. some (80, 25);
}

tty-IsTty : (fd : ℕ) → IsTty (termios tty) fd
tty-IsTty fd = record {
  get-set = λ t os os' e. ap (λ (o : Termios × Bytes). some o.0) (sym (some_eq e));
  settable = λ t t' os e. ((t', os.1), refl);
}

abbrev typed : Termios × Bytes
typed = (record { lflag = 8 + 2 + 1 + 16; vmin = 4; vtime = 5; others = [] }, 97 ∷ [])

getch_restores_unix_example :
    let (result, end) = getch (unix tty) 0 (λ os. (some os.1, (os.0, []))) typed in
    (some end.0 ≡ some typed.0)
    × ((some typed.0 ≡ none) × (result ≡ panicked)
        ⊎ ((t : Termios) × (mid : Termios × Bytes) × (some typed.0 ≡ some t)
            × (some mid.0
                ≡ some (record {
                  lflag = t.lflag - bit_and t.lflag (bit_or (bit_or 8 2) 1);
                  vmin = 1;
                  vtime = 0;
                  others = t.others;
                }))
            × (result ≡ pressed (some mid.1))))
getch_restores_unix_example =
    getch_restores_unix tty 0 (λ os. (some os.1, (os.0, []))) (tty-IsTty 0) (λ os. refl) typed
