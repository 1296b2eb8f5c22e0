-- ===== src/Channel/Write.antt =====
-- Writing to a channel (channel.go). What the code reads from outside is an argument: the time,
-- the random nonce, the readings of the send queue while it waits, and whether the testing flag
-- `drop` drops the packet.
pub mod Delay
pub mod Laws
pub mod Whole
use Prim.Native.Nat.{bit_or}
use tru.Base.{
  ℕ, zero, suc, ◌+◌, ◌-◌, ◌*◌, ◌/◌, ◌%◌, Bool, true, false, not, ◌&&◌, List, [], ◌∷◌, ◌++◌, Option,
  none, some, Bytes, ltb, ◌==◌, if◌then◌else◌,
}
use tru.Channel.{Channel, new_id}
use tru.Channel
use tru.Crypt.Library.{Primitives}
use tru.Crypt.{encrypt_packet_data}
use tru.Packet.{
  Packet, status_data, status_ack, status_ping, status_pong, status_disconnect, status_split,
  default_delivery_timeout, new_packet, set_id, set_status, set_data, set_delivery,
  set_delivery_timeout, set_retransmit_time, marshal_binary,
}
use tru.SendQueue.{retransmit_after}
use tru.SendQueue
use tru.Split.{Written, split_packet}
use tru.Statistic.{Statistic}
use tru.Statistic

pub record Env : Type 0 where
  pub now : ℕ
  pub nonce : Bytes
  pub polls : List ℕ
  pub dropped : Bool

pub data WriteError : Type 0 where
  channel_destroyed wrong_delivery : WriteError

-- A delivery parameter: a callback, a timeout, or something of a wrong type.
pub data Param : Type 0 where
  func : ℕ → Param
  timeout : ℕ → Param
  other : Param

unfoldable pub parse_delivery : List Param → Option ℕ → ℕ → Option (Option ℕ × ℕ)
parse_delivery [] f t = some (f, t)
parse_delivery (func v ∷ rest) f t = parse_delivery rest (some v) t
parse_delivery (timeout v ∷ rest) f t = parse_delivery rest f v
parse_delivery (other ∷ rest) f t = none

-- `stat &^ statusSplit`
unfoldable pub clear_split : ℕ → ℕ
clear_split stat = if stat / status_split % 2 == 1 then stat - status_split else stat

-- The rounds of the wait loop: at most `k`, while the first packet has been sent again.
unfoldable pub delay_rounds : ℕ → ℕ → List ℕ → ℕ
delay_rounds zero rta polls = 0
delay_rounds (suc k) zero polls = 0
delay_rounds (suc k) (suc rta) [] = 1
delay_rounds (suc k) (suc rta) (p ∷ polls) = 1 + delay_rounds k p polls

abbrev pub min_send_delay : ℕ
min_send_delay = 15

unfoldable pub next_send_delay : ℕ → ℕ → ℕ
next_send_delay rounds delay =
    if rounds == 0
    then (if ltb 100 delay
        then delay - 10
        else if ltb min_send_delay delay
        then delay - 1
        else delay)
    else delay + 10

-- 30 ms
abbrev pub delay_check_after : ℕ
delay_check_after = 30_000_000

-- `writeToDelay`, without the sleep at its end.
unfoldable pub write_to_delay : Env → ℕ → Channel → Channel
unfolding delay_rounds next_send_delay
write_to_delay env status ch =
    let rounds = delay_rounds 20 (SendQueue.get_retransmit_attempts ch.send_queue) env.polls in
    let s = ch.stat in
    if not (not ch.server_mode && status == status_data)
    then ch
    else if ltb delay_check_after (env.now - s.last_delay_check)
    then record ch {
      stat = record s {
        last_delay_check = env.now;
        send_delay = next_send_delay rounds s.send_delay;
      };
    }
    else ch

abbrev pub first_id : List ℕ → ℕ
first_id [] = 0
first_id (id ∷ ids) = id

unfoldable pub write_to_sender : Packet → Channel → Channel
write_to_sender pac ch = record ch { sender_ch = ch.sender_ch ++ pac ∷ [] }

-- The packet that `writeTo` builds.
unfoldable pub build : ℕ → ℕ → ℕ → Bytes → Packet
unfolding new_packet set_id set_status set_data
build now id stat bytes = set_data bytes (set_status stat (set_id id (new_packet now)))

-- The send queue holds a pointer to the packet, so the retransmit time and the delivery that are
-- set around the call of `add` are those of the packet in the queue.
unfoldable pub enqueue : Env → ℕ → Option ℕ → ℕ → Packet → Channel → Packet × Channel
enqueue env stat f t pac ch =
    let timed =
      set_retransmit_time env.now (retransmit_after ch.stat.trip_time_midle pac.retransmit_attempts)
        pac in
    let whole =
      if stat == status_data
      then set_delivery env.now f (set_delivery_timeout t timed)
      else timed in
    let s = if stat == status_data then Statistic.set_send env.now ch.stat else ch.stat in
    (
      whole,
      record ch {
        send_queue = SendQueue.add whole ch.send_queue;
        stat = Statistic.set_last_send env.now s;
      },
    )

module _ (p : Primitives) where
  -- The data branch: a new id, the encrypted data, and the packet in the send queue.
  unfoldable pub write_data : Env → Bytes → ℕ → Option ℕ → ℕ → Channel → Channel × ℕ
  write_data env bytes stat f t ch =
      let (id, ch') = new_id ch in
      let boxed = encrypt_packet_data p ch.session_key env.nonce id bytes in
      let (pac, ch'') = enqueue env stat f t (build env.now id stat boxed) ch' in
      (if env.dropped && not ch.server_mode then ch'' else write_to_sender pac ch'', id)

  -- The other statuses: disconnect is written at once.
  unfoldable pub write_control : Env → Bytes → ℕ → List ℕ → Channel → Channel × ℕ
  write_control env bytes stat ids ch =
      let pac = build env.now (first_id ids) stat bytes in
      (
        if clear_split stat == status_disconnect
            then record ch { datagrams = ch.datagrams ++ marshal_binary pac ∷ [] }
            else write_to_sender pac ch,
        first_id ids,
      )

  -- `writeTo`; a failed call leaves the channel as it was.
  unfoldable pub write_to :
      Env → Bytes → ℕ → List Param → List ℕ → Channel → Written WriteError × Channel
  write_to env bytes stat delivery ids ch =
      if ch.stat.destroyed
      then (record { id = 0; err = some channel_destroyed }, ch)
      else elim (parse_delivery delivery none default_delivery_timeout) [
        | none ↦ (record { id = 0; err = some wrong_delivery }, ch)
        | some (f, t) ↦
            let ch' = write_to_delay env (clear_split stat) ch in
            let (done, id) =
              if clear_split stat == status_data
              then write_data env bytes stat f t ch'
              else write_control env bytes stat ids ch' in
            (record { id = id; err = none }, done)
      ]

  -- `WriteTo`: the data is split for the channel.
  unfoldable pub write : Env → Bytes → List Param → Channel → Option (Written WriteError × Channel)
  write env bytes delivery ch =
      split_packet (λ part split. write_to env part (bit_or status_data split) delivery [])
        ch.max_data_len bytes ch

  unfoldable pub write_to_ping : Env → Channel → Channel
  write_to_ping env ch = (write_to env [] status_ping [] [] ch).1

  unfoldable pub write_to_pong : Env → Channel → Channel
  write_to_pong env ch = (write_to env [] status_pong [] [] ch).1

  unfoldable pub write_to_ack : Env → Packet → Channel → Channel
  write_to_ack env pac ch = (write_to env [] status_ack [] (pac.id ∷ []) ch).1

  unfoldable pub write_to_disconnect : Env → Channel → Channel
  write_to_disconnect env ch = (write_to env [] status_disconnect [] [] ch).1

  -- `Close`
  unfoldable pub close : Env → Channel → Channel
  close env ch = if ch.stat.destroyed then ch else Channel.destroy (write_to_disconnect env ch)
