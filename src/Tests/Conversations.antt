-- ===== src/Tests/Conversations.antt =====
-- A message and its answer over a channel, and the sample programs.
use mathlib.Core.List.{mem-cons_self, mem-cons_of_mem}
use tru.Base.Endian.{get_u32, put_u32}
use tru.Base.Map.{lookup, insert}
use tru.Base.{
  ℕ, ◌+◌, ◌%◌, ◌≤◌, ◌<◌, length, ◌≡◌, refl, inl, inr, true, false, List, [], ◌∷◌, map, some, Bytes,
  arith,
}
use tru.Channel.Write.{
  write_to, write_to_delay, parse_delivery, clear_split, delay_rounds, write_data, enqueue, build,
  write_to_sender, write_to_ack, write_control,
}
use tru.Channel.Fresh.{IsFresh, keyed-Fresh, new-Fresh}
use tru.Channel.{Channel, new_channel, new_id, new_expected_id}
use tru.Connector.Serve.{serve_channel}
use tru.Crypt.{
  encrypt_packet_data, decrypt_packet_data, ison, xor_encrypt_decrypt, xor_from, key_byte,
  packet_key,
}
use tru.Examples.Trunet.{done}
use tru.Net.Conversation.{read_answers}
use tru.Net.Delivery.{delivered, read_each}
use tru.Net.{new_conn}
use tru.Network.Duplex.Answers.{Talk, Talk-Reach, silent, then_}
use tru.Network.Duplex.Safety.{start_duplex, both_read_in_order}
use tru.Network.Duplex.{Duplex, rightward, leftward, moved_right, moved_left, to_right, to_left}
use tru.Network.{Net, arrive, write, deliver}
use tru.Packet.{
  Packet, new_packet, marshal_binary, unmarshal_binary, status_data, distance, mod_sub_u,
  set_delivery, set_delivery_timeout, set_retransmit_time, set_data, set_id, set_status,
  pack_stat_id, unpack_stat_id,
}
use tru.Receive.Stream.{IsNext}
use tru.Receive.{receive_data, place, send_to_reader, process}
use tru.Receive
use tru.SendQueue
use tru.Split.{packet}
use tru.Statistic
use tru.Tests.Channels.{env}
use tru.Tests.Streams.{key, writes, none_come}
use tru.Tests.Toy.{toy, toy-IsSound, zeros, pad}
use tru.Transfer.Whole.{messages, bytes_read}
use tru.Transfer.{Writes}

abbrev answers : Writes
answers = record { env = λ n. env; message = λ n. done (n % 256 ∷ []) }

abbrev left : Channel
left = record (new_channel 0 (1 ∷ []) false 15 0) { session_key = key }

abbrev right : Channel
right = record (new_channel 0 (2 ∷ []) true 15 0) { session_key = key }

left-IsFresh : IsFresh key left
left-IsFresh = keyed-Fresh key (new_channel 0 (1 ∷ []) false 15 0) (new-Fresh 0 (1 ∷ []) false 15 0)

right-IsFresh : IsFresh key right
right-IsFresh = keyed-Fresh key (new_channel 0 (2 ∷ []) true 15 0) (new-Fresh 0 (2 ∷ []) true 15 0)

abbrev start_state : Duplex
start_state = start_duplex left right

abbrev first_of : List Packet → Packet
first_of [] = new_packet 0
first_of (pac ∷ rest) = pac

abbrev last_of : List Packet → Packet
last_of [] = new_packet 0
last_of (pac ∷ []) = pac
last_of (pac ∷ q ∷ rest) = last_of (q ∷ rest)

abbrev wire : Bytes → Packet
wire bytes = record (new_packet env.now) {
  id = 0;
  status = status_data;
  payload = encrypt_packet_data toy key (zeros 12) 0 bytes;
}

abbrev asked_net : Net
asked_net = record (rightward start_state) {
  sender = (write_to toy env (0 ∷ []) status_data [] [] start_state.left).1;
  written = 1;
}

abbrev asked : Duplex
asked = moved_right asked_net start_state

abbrev heard_net : Net
heard_net = arrive 0 (serve_channel toy env (wire (0 ∷ [])) asked.right).0 (rightward asked)

abbrev heard : Duplex
heard = moved_right heard_net asked

abbrev told_net : Net
told_net = record (leftward heard) {
  sender = (write_to toy env (done (0 ∷ [])) status_data [] [] heard.right).1;
  written = 1;
}

abbrev told : Duplex
told = moved_left told_net heard

abbrev read_net : Net
read_net = arrive 0 (serve_channel toy env (wire (done (0 ∷ []))) told.left).0 (leftward told)

abbrev answered : Duplex
answered = moved_left read_net told

talk : Talk toy toy-IsSound key writes answers (λ n. refl) (λ n. refl) done start_state answered
unfolding write_to write_to_delay parse_delivery clear_split delay_rounds write_data enqueue build
    new_id write_to_sender new_channel Statistic.set_send_delay Statistic.init
    Statistic.set_last_send Statistic.set_send SendQueue.get SendQueue.add lookup insert
    encrypt_packet_data set_delivery set_delivery_timeout set_retransmit_time set_data set_id
    set_status new_packet serve_channel receive_data write_to_ack place distance mod_sub_u
    Receive.deliver send_to_reader process decrypt_packet_data ison xor_encrypt_decrypt xor_from
    Receive.get packet new_expected_id write_control unmarshal_binary marshal_binary get_u32 put_u32
    pack_stat_id unpack_stat_id done Statistic.set_recv key_byte packet_key pad
talk =
    then_
      (then_
        (then_
          (then_ silent (to_right start_state asked_net (write (rightward start_state) refl refl))
            (inl refl))
          (to_right asked heard_net (
            deliver (rightward asked) env 0 (first_of asked.left.sender_ch) (wire (0 ∷ []))
              mem-cons_self (omega arith) (record { id = refl; status = refl; payload = refl })
              (λ first h. (omega (arith, none_come first h), omega arith)) refl))
          (inl refl))
        (to_left heard told_net (write (leftward heard) refl refl))
        (inr (0 ∷ [], refl, refl, refl)))
      (to_left told read_net (
        deliver (leftward told) env 0 (last_of told.right.sender_ch) (wire (done (0 ∷ [])))
          (mem-cons_of_mem _ mem-cons_self) (omega arith)
          (record { id = refl; status = refl; payload = refl })
          (λ first h. (omega (arith, none_come first h), omega arith)) refl))
      (inl refl)

both_read_in_order_example :
    ((first : ℕ) × IsNext (0 ∷ []) first
      × (first ≤ 1)
      × (bytes_read answered.right.reader_ch ≡ messages writes.message first))
    × ((first : ℕ) × IsNext (0 ∷ []) first
        × (first ≤ 1)
        × (bytes_read answered.left.reader_ch ≡ messages answers.message first))
both_read_in_order_example =
    both_read_in_order toy toy-IsSound key writes answers (λ n. refl) (λ n. refl) left right
      left-IsFresh right-IsFresh answered
      (Talk-Reach toy toy-IsSound key writes answers (λ n. refl) (λ n. refl) done start_state
        answered talk)

fits : (n : ℕ) → n < 1 → length (done (n % 256 ∷ [])) + 2 ≤ 20
unfolding done
fits n l = omega arith

answered_alive : answered.left.stat.destroyed ≡ false
unfolding write_to write_to_delay parse_delivery clear_split delay_rounds write_data enqueue build
    new_id write_to_sender new_channel Statistic.set_send_delay Statistic.init
    Statistic.set_last_send Statistic.set_send SendQueue.get SendQueue.add lookup insert
    encrypt_packet_data set_delivery set_delivery_timeout set_retransmit_time set_data set_id
    set_status new_packet serve_channel receive_data write_to_ack place distance mod_sub_u
    Receive.deliver send_to_reader process decrypt_packet_data ison xor_encrypt_decrypt xor_from
    Receive.get packet new_expected_id write_control unmarshal_binary marshal_binary get_u32 put_u32
    pack_stat_id unpack_stat_id done Statistic.set_recv key_byte packet_key pad
answered_alive = refl

read_answers_example :
    (first : ℕ) × IsNext (0 ∷ []) first
    × (first ≤ 1)
    × (read_each first 20
          (λ k. k + 1)
          (delivered answered.left answered.left.reader_ch (new_conn answered.left))
        ≡ some (new_conn answered.left, map done (messages writes.message first)))
read_answers_example =
    read_answers toy toy-IsSound key writes answers (λ n. refl) (λ n. refl) done left right answered
      20 (λ k. k + 1) left-IsFresh right-IsFresh talk answered_alive (λ k. omega arith) fits
