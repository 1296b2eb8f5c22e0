-- ===== src/Network/Duplex.antt =====
-- A channel in both directions (channel.go, send_queue.go, tru.go): both ends write, send again, and
-- ack what comes from the other, in any order.
pub mod Untouched
pub mod Safety
pub mod Answers
use tru.Base.{ℕ, List, Bytes}
use tru.Channel.{Channel}
use tru.Crypt.Library.{Primitives}
use tru.Network.{Net}
use tru.Network
use tru.Packet.{Packet}
use tru.Transfer.{Writes}

-- The number of messages that each end has written, and the numbers of those that have come to the
-- other end, and what each end has answered them with.
pub record Duplex : Type 0 where
  pub left : Channel
  pub right : Channel
  pub left_written : ℕ
  pub right_written : ℕ
  pub at_left : List ℕ
  pub at_right : List ℕ
  pub answers_left : List (ℕ × Packet)
  pub answers_right : List (ℕ × Packet)

-- One direction of the two.
abbrev pub rightward : Duplex → Net
rightward d = record {
  sender = d.left;
  receiver = d.right;
  written = d.left_written;
  arrived = d.at_right;
  answered = d.answers_right;
}

abbrev pub leftward : Duplex → Net
leftward d = record {
  sender = d.right;
  receiver = d.left;
  written = d.right_written;
  arrived = d.at_left;
  answered = d.answers_left;
}

abbrev pub moved_right : Net → Duplex → Duplex
moved_right n d = record d {
  left = n.sender;
  right = n.receiver;
  left_written = n.written;
  at_right = n.arrived;
  answers_right = n.answered;
}

abbrev pub moved_left : Net → Duplex → Duplex
moved_left n d = record d {
  left = n.receiver;
  right = n.sender;
  right_written = n.written;
  at_left = n.arrived;
  answers_left = n.answered;
}

module _ (p : Primitives) (key : Bytes) (from_left from_right : Writes) where
  -- A step of one direction, on the ends that both share.
  pub data Step : Duplex → Duplex → Type 0 where
    to_right :
        (d : Duplex) (n : Net)
        → Network.Step p key from_left (rightward d) n
        → Step d (moved_right n d)
    to_left :
        (d : Duplex) (n : Net)
        → Network.Step p key from_right (leftward d) n
        → Step d (moved_left n d)

  pub data Reach (start : Duplex) : Duplex → Type 0 where
    here : Reach start start
    next : {a b : Duplex} → Reach start a → Step a b → Reach start b
