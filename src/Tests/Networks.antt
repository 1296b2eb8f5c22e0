-- ===== src/Tests/Networks.antt =====
-- One message that is written, arrives and is acked.
use tru.Base.{
  ℕ, ◌+◌, ◌%◌, ◌≤◌, ◌≡◌, refl, ◌⊎◌, true, List, [], ◌∷◌, none, some, arith, All, ◌<◌, inr,
}
use mathlib.Core.List.Memᴰ
use mathlib.Core.List.{mem-cons_self}
use tru.Base.Map.{insert, delete, lookup}
use tru.Statistic
use tru.Channel.Write.{
  write_to, write_to_delay, parse_delivery, clear_split, delay_rounds, write_data, enqueue, build,
  write_to_sender, write_to_ack, write_control,
}
use tru.Channel.{new_channel, new_id, new_expected_id, set_trip_time, middle}
use tru.Connector.Serve.{serve_channel, set_active, serve_ack}
use tru.Crypt.{encrypt_packet_data, decrypt_packet_data, ison, xor_encrypt_decrypt, xor_from}
use tru.Split.{packet}
use tru.Network.Safety.{start_net, reads_in_order, kept_until_arrival, all_read}
use tru.Channel.Retransmit.{retransmit_due}
use tru.Network.{arrive, Step, Net, Carries, write, deliver, ack, Reach, here, next}
use tru.Packet.{
  Packet, new_packet, marshal_binary, unmarshal_binary, packet_id_limit, status_data, status_ack,
  distance, mod_sub_u, set_delivery, set_delivery_timeout, set_retransmit_time, set_data, set_id,
  set_status, pack_stat_id, unpack_stat_id,
}
use tru.Receive.Stream.{Seen, IsNext}
use tru.Base.Endian.{get_u32, put_u32}
use tru.SendQueue
use tru.SendQueue.Retransmit.{HasAttempts, is_due}
use tru.Network.Sent.{AcksOne, CarriesOne, sent_known}
use tru.Network.Progress.{retransmit_progress}
use tru.Receive.{receive_data, place, send_to_reader, process}
use tru.Receive
use tru.SendQueue.Index.{IsValid, init-IsValid}
use tru.Tests.Channels.{env}
use tru.Tests.Streams.{key, writes, none_come, sender}
use tru.Tests.Toy.{toy, toy-IsSound, zeros}
use tru.Transfer.Whole.{messages, bytes_read}

abbrev start : Net
start = start_net sender 0 (1 ∷ []) true 15 0

abbrev after_write : Net
after_write = record start {
  sender = (write_to toy (writes.env 0) (writes.message 0) status_data [] [] start.sender).1;
  written = 1;
}

abbrev wire : Packet
wire = record (new_packet env.now) {
  id = 0;
  status = status_data;
  payload = encrypt_packet_data toy key (zeros 12) 0 (0 ∷ []);
}

abbrev after_delivery : Net
after_delivery = arrive 0 (serve_channel toy env wire after_write.receiver).0 after_write

abbrev ack_wire : Packet
ack_wire = record (new_packet env.now) { id = 0; status = status_ack; payload = [] }

abbrev after_ack : Net
after_ack = record after_delivery {
  sender = (serve_channel toy env ack_wire after_delivery.sender).0;
}

abbrev first_of : List Packet → Packet
first_of [] = new_packet 0
first_of (pac ∷ rest) = pac

write_once : Reach toy key writes start after_write
unfolding write_to write_to_delay parse_delivery clear_split delay_rounds write_data enqueue build
    new_id write_to_sender new_channel Statistic.set_send_delay Statistic.init
    Statistic.set_last_send Statistic.set_send SendQueue.get SendQueue.add lookup insert
    encrypt_packet_data set_delivery set_delivery_timeout set_retransmit_time set_data set_id
    set_status new_packet
write_once = next here (write start refl refl)

deliver_once : Reach toy key writes start after_delivery
unfolding write_to write_to_delay parse_delivery clear_split delay_rounds write_data enqueue build
    new_id write_to_sender new_channel Statistic.set_send_delay Statistic.init
    Statistic.set_last_send Statistic.set_send SendQueue.get SendQueue.add lookup insert
    encrypt_packet_data set_delivery set_delivery_timeout set_retransmit_time set_data set_id
    set_status new_packet ison xor_encrypt_decrypt xor_from unmarshal_binary marshal_binary get_u32
    put_u32 pack_stat_id unpack_stat_id
deliver_once = next write_once (
    deliver after_write env 0 (first_of after_write.sender.sender_ch) wire mem-cons_self
      (omega arith) (record { id = refl; status = refl; payload = refl })
      (λ first h. (omega (arith, none_come first h), omega arith)) refl)

ack_once : Reach toy key writes start after_ack
unfolding write_to write_to_delay parse_delivery clear_split delay_rounds write_data enqueue build
    new_id write_to_sender new_channel Statistic.set_send_delay Statistic.init
    Statistic.set_last_send Statistic.set_send SendQueue.get SendQueue.add lookup insert
    encrypt_packet_data set_delivery set_delivery_timeout set_retransmit_time set_data set_id
    set_status new_packet serve_channel set_active receive_data write_to_ack place distance
    mod_sub_u Receive.deliver send_to_reader process serve_ack decrypt_packet_data ison
    xor_encrypt_decrypt xor_from Receive.get packet new_expected_id write_control set_trip_time
    SendQueue.remove delete middle Statistic.set_ack_received unmarshal_binary marshal_binary
    get_u32 put_u32 pack_stat_id unpack_stat_id
ack_once = next deliver_once (
    ack after_delivery env 0 (first_of after_delivery.receiver.sender_ch) ack_wire (Memᴰ.head refl)
      (omega arith) refl)

none_waits : (id : ℕ) → SendQueue.get id after_ack.sender.send_queue ≡ none
unfolding write_to write_to_delay parse_delivery clear_split delay_rounds write_data enqueue build
    new_id write_to_sender new_channel Statistic.set_send_delay Statistic.init
    Statistic.set_last_send Statistic.set_send SendQueue.get SendQueue.add lookup insert
    encrypt_packet_data set_delivery set_delivery_timeout set_retransmit_time set_data set_id
    set_status new_packet serve_channel set_active receive_data write_to_ack place distance
    mod_sub_u Receive.deliver send_to_reader process serve_ack decrypt_packet_data ison
    xor_encrypt_decrypt xor_from Receive.get packet new_expected_id write_control set_trip_time
    SendQueue.remove delete middle Statistic.set_ack_received
none_waits id = refl

sender-IsValid : IsValid sender.send_queue
unfolding new_channel
sender-IsValid = init-IsValid

reads_in_order_example :
    (first : ℕ) × IsNext (0 ∷ []) first
    × (first ≤ 1)
    × (bytes_read after_delivery.receiver.reader_ch ≡ messages writes.message first)
unfolding new_channel
reads_in_order_example =
    reads_in_order toy toy-IsSound writes (λ n. refl) sender 0 (1 ∷ []) true 15 0 refl
      sender-IsValid after_delivery deliver_once

kept_until_arrival_example :
    Seen 0 []
    ⊎ ((e : ℕ) × (pac : Packet) × (SendQueue.get (0 % packet_id_limit) after_write.sender.send_queue
          ≡ some (e, pac))
        × Carries toy key writes 0 pac
        × (1 ≤ 0 + packet_id_limit))
unfolding new_channel
kept_until_arrival_example =
    kept_until_arrival toy toy-IsSound writes (λ n. refl) sender 0 (1 ∷ []) true 15 0 refl
      sender-IsValid 0 after_write write_once (omega arith)

all_read_example : bytes_read after_ack.receiver.reader_ch ≡ (0 ∷ []) ∷ []
unfolding new_channel
all_read_example =
    all_read toy toy-IsSound writes (λ n. refl) sender 0 (1 ∷ []) true 15 0 refl sender-IsValid
      after_ack ack_once none_waits

abbrev first_packet : Packet
first_packet = first_of after_write.sender.sender_ch

waits_due :
    SendQueue.get (0 % packet_id_limit) after_write.sender.send_queue ≡ some (0, first_packet)
unfolding write_to write_to_delay parse_delivery clear_split delay_rounds write_data enqueue build
    new_id write_to_sender new_channel Statistic.set_send_delay Statistic.init
    Statistic.set_last_send Statistic.set_send SendQueue.get SendQueue.add lookup insert
    encrypt_packet_data set_delivery set_delivery_timeout set_retransmit_time set_data set_id
    set_status new_packet
waits_due = refl

is_due_first : is_due 1_000_000_000_000 first_packet ≡ true
unfolding write_to write_to_delay parse_delivery clear_split delay_rounds write_data enqueue build
    new_id write_to_sender new_channel Statistic.set_send_delay Statistic.init
    Statistic.set_last_send Statistic.set_send SendQueue.get SendQueue.add lookup insert
    encrypt_packet_data set_delivery set_delivery_timeout set_retransmit_time set_data set_id
    set_status new_packet SendQueue.retransmit_after
is_due_first = refl

have_attempts : All (HasAttempts 1_000_000_000_000) after_write.sender.send_queue.queue
unfolding write_to write_to_delay parse_delivery clear_split delay_rounds write_data enqueue build
    new_id write_to_sender new_channel Statistic.set_send_delay Statistic.init
    Statistic.set_last_send Statistic.set_send SendQueue.get SendQueue.add lookup insert
    encrypt_packet_data set_delivery set_delivery_timeout set_retransmit_time set_data set_id
    set_status new_packet
have_attempts = (inr (omega arith), tt)

retransmit_progress_example :
    let sent = record after_write {
      sender = retransmit_due 1_000_000_000_000 after_write.sender;
    } in
    (later : Net) × Step toy key writes after_write sent
    × Step toy key writes sent later
    × (later.sender ≡ sent.sender)
    × (later.written ≡ 1)
    × (later.arrived ≡ 0 ∷ [])
    × (first' : ℕ) × IsNext (0 ∷ []) first'
    × (0 < first')
    × (bytes_read later.receiver.reader_ch ≡ messages writes.message first')
unfolding new_channel
retransmit_progress_example =
    retransmit_progress toy toy-IsSound writes (λ n. refl) sender 0 (1 ∷ []) true 15 0 refl
      sender-IsValid after_write 0 1_000_000_000_000 0 first_packet env write_once
      ((λ n l. absurd (omega arith)), λ b. b) (omega arith) have_attempts waits_due is_due_first

sent_known_example :
    All (CarriesOne toy key writes 1) after_ack.sender.sender_ch
    × All (AcksOne (0 ∷ [])) after_ack.receiver.sender_ch
unfolding new_channel
sent_known_example =
    sent_known toy toy-IsSound writes (λ n. refl) sender 0 (1 ∷ []) true 15 0 after_ack refl refl
      refl ack_once
