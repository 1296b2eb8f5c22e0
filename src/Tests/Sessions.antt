-- ===== src/Tests/Sessions.antt =====
-- A handshake and a message over its channels.
use tru.Base.{Bytes, bytes_eq, ◌≤◌, ℕ, ◌≡◌, refl, true, false, List, [], ◌∷◌, none, some, arith}
use tru.Channel.{Channel, new_channel, new_id, new_expected_id}
use mathlib.Core.List.{mem-cons_self, mem-cons_of_mem}
use tru.Base.Endian.{get_u32, put_u32}
use tru.Channel.Fresh.{IsFresh}
use tru.Channel.Write.{
  write_to, write_to_delay, parse_delivery, clear_split, delay_rounds, write_data, enqueue, build,
  write_to_ack, write_control, write_to_sender,
}
use tru.Connector.Serve.{serve_channel}
use tru.Crypt.{
  encrypt_packet_data, decrypt_packet_data, ison, packet_key, encrypt_aes, decrypt_aes,
  xor_encrypt_decrypt, xor_from, encrypt, decrypt, public_key_to_bytes, bytes_to_public_key,
}
use tru.Network.Duplex.{Duplex, Reach, here, next, rightward, moved_right, to_right}
use tru.Network.Duplex.Safety.{start_duplex}
use tru.Network.{Net, arrive, write, deliver}
use tru.Packet.{
  marshal_binary, unmarshal_binary, status_data, distance, mod_sub_u, set_delivery,
  set_delivery_timeout, set_retransmit_time, set_id, pack_stat_id, unpack_stat_id, Packet,
  new_packet, set_status, set_data,
}
use tru.Receive.Stream.{IsNext}
use tru.Receive.{receive_data, place, send_to_reader, process}
use tru.Receive
use tru.SendQueue
use tru.Split.{packet}
use tru.Statistic
use tru.Tests.Channels.{env}
use tru.Tests.Streams.{writes, none_come}
use tru.Tests.Toy.{zeros, toy, toy-IsSound, pad, unseal, unbox}
use tru.Transfer.Whole.{messages, bytes_read}
use tru.Base.Map.{lookup, insert}
use tru.Connect.{
  hello, make_session_key, marshal_data, unmarshal_data, random_string, server_answer,
  client_answer, done_answer,
}
use tru.Connector.Handshake.Steps.{outbox}
use tru.Connector.Handshake.{
  answer, connect, serve_packet, set_session_key, serve_connect, serve_server_answer,
  serve_client_answer, serve_done,
}
use tru.Connector.{Tru, get_channel, open_channel, update_channel, add_connect, get_connect}
use tru.Network.Session.{IsSession, session_opens, session_reads_in_order}
use tru.Tests.Connections.{node, random}

abbrev first_of : List Packet → Packet
first_of [] = new_packet 0
first_of (pac ∷ rest) = pac

abbrev last_of : List Packet → Packet
last_of [] = new_packet 0
last_of (pac ∷ []) = pac
last_of (pac ∷ q ∷ rest) = last_of (q ∷ rest)

abbrev client₁ : Packet → Tru toy
client₁ pac = (serve_packet 100 random (2 ∷ []) pac (connect 100 (65 ∷ []) (2 ∷ []) node)).0

abbrev server₁ : Tru toy
server₁ = (serve_packet 100 random (1 ∷ []) (answer 100 0 (hello toy tt (65 ∷ []))) node).0

abbrev p₁ : Packet
p₁ = first_of (outbox (1 ∷ []) server₁)

abbrev p₂ : Packet
p₂ = first_of (outbox (2 ∷ []) (client₁ p₁))

abbrev server₂ : Tru toy
server₂ = (serve_packet 100 random (1 ∷ []) p₂ server₁).0

abbrev p₃ : Packet
p₃ = last_of (outbox (1 ∷ []) server₂)

abbrev client₂ : Tru toy
client₂ = (serve_packet 100 random (2 ∷ []) p₃ (client₁ p₁)).0

session : IsSession 100 random random (1 ∷ []) (2 ∷ []) (65 ∷ []) node node client₂ server₂
unfolding serve_packet serve_connect serve_server_answer serve_client_answer serve_done connect
    answer hello new_packet set_status set_data new_channel open_channel update_channel get_channel
    write_to_sender add_connect get_connect unmarshal_data marshal_data server_answer client_answer
    done_answer make_session_key random_string encrypt decrypt public_key_to_bytes
    bytes_to_public_key pad unseal unbox lookup insert set_session_key bytes_eq
session = record {
  client₁ = client₁ p₁;
  server₁ = server₁;
  p₁ = p₁;
  p₂ = p₂;
  p₃ = p₃;
  asks = refl;
  sent₁ = refl;
  answers = refl;
  sent₂ = refl;
  agrees = refl;
  sent₃ = refl;
  ends = refl;
}

node_knows_none : (addr : Bytes) → get_channel addr node ≡ none
unfolding get_channel lookup
node_knows_none addr = refl

abbrev key : Bytes
key = make_session_key toy random.picks

abbrev left : Channel
left = record (new_channel 100 (2 ∷ []) false 15 0) { session_key = key; sender_ch = p₂ ∷ [] }

abbrev right : Channel
right = record (new_channel 100 (1 ∷ []) true 15 0) { session_key = key; sender_ch = p₁ ∷ p₃ ∷ [] }

has_left : get_channel (2 ∷ []) client₂ ≡ some left
unfolding serve_packet serve_connect serve_server_answer serve_client_answer serve_done connect
    answer hello new_packet set_status set_data new_channel open_channel update_channel get_channel
    write_to_sender add_connect get_connect unmarshal_data marshal_data server_answer client_answer
    done_answer make_session_key random_string encrypt decrypt public_key_to_bytes
    bytes_to_public_key pad unseal unbox lookup insert set_session_key bytes_eq
has_left = refl

has_right : get_channel (1 ∷ []) server₂ ≡ some right
unfolding serve_packet serve_connect serve_server_answer serve_client_answer serve_done connect
    answer hello new_packet set_status set_data new_channel open_channel update_channel get_channel
    write_to_sender add_connect get_connect unmarshal_data marshal_data server_answer client_answer
    done_answer make_session_key random_string encrypt decrypt public_key_to_bytes
    bytes_to_public_key pad unseal unbox lookup insert set_session_key bytes_eq
has_right = refl

abbrev asked_net : Net
asked_net = record (rightward (start_duplex left right)) {
  sender = (write_to toy env (0 ∷ []) status_data [] [] left).1;
  written = 1;
}

abbrev asked : Duplex
asked = moved_right asked_net (start_duplex left right)

abbrev wire : Packet
wire = record (new_packet env.now) {
  id = 0;
  status = status_data;
  payload = encrypt_packet_data toy key (zeros 12) 0 (0 ∷ []);
}

abbrev heard_net : Net
heard_net = arrive 0 (serve_channel toy env wire right).0 (rightward asked)

abbrev heard : Duplex
heard = moved_right heard_net asked

heard-Reach : Reach toy key writes writes (start_duplex left right) heard
unfolding serve_packet serve_connect serve_server_answer serve_client_answer serve_done connect
    answer hello new_packet set_status set_data new_channel open_channel update_channel get_channel
    write_to_sender add_connect get_connect unmarshal_data marshal_data server_answer client_answer
    done_answer make_session_key random_string encrypt decrypt public_key_to_bytes
    bytes_to_public_key pad unseal unbox lookup insert set_session_key bytes_eq write_to
    write_to_delay parse_delivery clear_split delay_rounds write_data enqueue build new_id
    Statistic.set_send_delay Statistic.init Statistic.set_last_send Statistic.set_send SendQueue.get
    SendQueue.add encrypt_packet_data encrypt_aes decrypt_aes set_delivery set_delivery_timeout
    set_retransmit_time set_id serve_channel receive_data write_to_ack place distance mod_sub_u
    Receive.deliver send_to_reader process decrypt_packet_data ison Receive.get packet
    new_expected_id write_control unmarshal_binary marshal_binary get_u32 put_u32 pack_stat_id
    unpack_stat_id Statistic.set_recv packet_key xor_encrypt_decrypt xor_from
heard-Reach =
    next
      (next here (
        to_right (start_duplex left right) asked_net
          (write (rightward (start_duplex left right)) refl refl)))
      (to_right asked heard_net (
        deliver (rightward asked) env 0 (last_of asked.left.sender_ch) wire
          (mem-cons_of_mem _ mem-cons_self) (omega arith)
          (record { id = refl; status = refl; payload = refl })
          (λ first h. (omega (arith, none_come first h), omega arith)) refl))

session_reads_in_order_example :
    ((first : ℕ) × IsNext (0 ∷ []) first
      × (first ≤ 1)
      × (bytes_read heard.right.reader_ch ≡ messages writes.message first))
    × ((first : ℕ) × IsNext [] first
        × (first ≤ 0)
        × (bytes_read heard.left.reader_ch ≡ messages writes.message first))
session_reads_in_order_example =
    session_reads_in_order toy-IsSound 100 random random (1 ∷ []) (2 ∷ []) (65 ∷ []) node node
      client₂ server₂ (omega arith) session writes writes left right heard (λ n. refl) (λ n. refl)
      (node_knows_none (2 ∷ [])) (node_knows_none (1 ∷ [])) has_left has_right heard-Reach

session_opens_example :
    (client' server' : Tru toy) × IsSession 100 random random
      (1 ∷ [])
      (2 ∷ [])
      (65 ∷ [])
      node
      node
      client'
      server'
    × (left right : Channel) × (get_channel (2 ∷ []) client' ≡ some left)
    × (get_channel (1 ∷ []) server' ≡ some right)
    × IsFresh key left
    × IsFresh key right
session_opens_example =
    session_opens toy-IsSound 100 random random (1 ∷ []) (2 ∷ []) (65 ∷ []) node node (omega arith)
      (node_knows_none (2 ∷ [])) (node_knows_none (1 ∷ []))
