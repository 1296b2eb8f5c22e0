-- ===== src/Channel/Fresh.antt =====
-- A channel that has neither written nor read a message (channel.go, connect.go).
use tru.Base.{ℕ, ◌≡◌, refl, Bool, [], Bytes}
use tru.Channel.Write.{write_to_sender}
use tru.Channel.{Channel, new_channel}
use tru.Packet.{Packet}
use tru.SendQueue.{init}
use tru.Split.{clear}

-- What a new channel has for its messages, with a session key.
pub record IsFresh (key : Bytes) (ch : Channel) : Type 0 where
  pub id : ch.id ≡ 0
  pub keyed : ch.session_key ≡ key
  pub queue : ch.send_queue ≡ init
  pub expected : ch.expected_id ≡ 0
  pub combine : ch.combine ≡ clear
  pub read : ch.reader_ch ≡ []
  pub waiting : ch.recv_queue ≡ []

-- Fresh under the key that it has.
abbrev pub Fresh : Channel → Type 0
Fresh ch = IsFresh ch.session_key ch

pub new-Fresh :
    (now : ℕ) (addr : Bytes) (server_mode : Bool) (delay limit : ℕ)
    → Fresh (new_channel now addr server_mode delay limit)
unfolding new_channel
new-Fresh now addr server_mode delay limit = record {
  id = refl;
  keyed = refl;
  queue = refl;
  expected = refl;
  combine = refl;
  read = refl;
  waiting = refl;
}

-- A packet of the handshake goes to the sender, and the session key is set.
pub write_to_sender-Fresh :
    (pac : Packet) (ch : Channel) → Fresh ch → Fresh (write_to_sender pac ch)
unfolding write_to_sender
write_to_sender-Fresh pac ch f = record {
  id = f.id;
  keyed = refl;
  queue = f.queue;
  expected = f.expected;
  combine = f.combine;
  read = f.read;
  waiting = f.waiting;
}

pub keyed-Fresh : (key : Bytes) (ch : Channel) → Fresh ch → Fresh (record ch { session_key = key })
keyed-Fresh key ch f = record {
  id = f.id;
  keyed = refl;
  queue = f.queue;
  expected = f.expected;
  combine = f.combine;
  read = f.read;
  waiting = f.waiting;
}
