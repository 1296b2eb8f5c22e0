-- ===== src/Tests/Connections.antt =====
-- Connecting and serving.
use tru.Base.{◌≡◌, refl, true, [], ◌∷◌, none, some, arith, List}
use tru.Base.Map.{bytes_key, nat_eq, lookup, insert}
use tru.Channel.{Channel, new_channel}
use tru.Connect.Codec.{unmarshal_data-marshal_data}
use tru.Connect.{ConnectPacketData, Random, marshal_data, unmarshal_data, hello, make_session_key}
use tru.Connector.Handshake.Agree.{handshake}
use tru.Connector.Handshake.Steps.{outbox, session_key_at}
use tru.Connector.Handshake.{answer, connect, serve_packet}
use tru.Connector.Serve.Ack.{serve_ack_lem}
use tru.Connector.Serve.Open.{AllOpen}
use tru.Connector.Socket.{Event, read_failed, received, listen}
use tru.Connector.Socket.Life.{listen-AllOpen, listen-elsewhere}
use tru.Connector.Serve.{serve_ack}
use tru.Connector.{Tru, get_channel}
use tru.Packet.{Packet}
use tru.SendQueue.Index.{IsValid, init-IsValid, add-IsValid}
use tru.SendQueue
use tru.Tests.Channels.{client, env}
use tru.Tests.Toy.{toy, toy-IsSound}

abbrev hello_data : ConnectPacketData
hello_data = record { uuid = 65 ∷ 66 ∷ []; payload = 7 ∷ [] }

unmarshal_data-marshal_data_example : unmarshal_data (marshal_data hello_data) ≡ some hello_data
unmarshal_data-marshal_data_example = unmarshal_data-marshal_data hello_data (omega arith)

abbrev pub node : Tru toy
node = record {
  private_key = tt;
  channels = [];
  connects = [];
  send_delay = 15;
  max_len = 0;
  calls = [];
  datagrams = [];
  woken = [];
}

abbrev pub random : Random
random = record { seed = λ n. n; picks = 1 ∷ 2 ∷ 3 ∷ [] }

handshake_example :
    let client₀ = connect 100 (65 ∷ []) (2 ∷ []) node in
    let server₁ =
      (serve_packet 100 random (1 ∷ []) (answer 100 0 (hello toy tt (65 ∷ []))) node).0 in
    (p₁ p₂ p₃ : Packet) × (outbox (1 ∷ []) server₁ ≡ p₁ ∷ [])
    × (let client₁ = (serve_packet 100 random (2 ∷ []) p₁ client₀).0 in
        let server₂ = (serve_packet 100 random (1 ∷ []) p₂ server₁).0 in
        let client₂ = (serve_packet 100 random (2 ∷ []) p₃ client₁).0 in
        (outbox (2 ∷ []) client₁ ≡ p₂ ∷ [])
        × (outbox (1 ∷ []) server₂ ≡ p₁ ∷ p₃ ∷ [])
        × (session_key_at (2 ∷ []) client₂ ≡ make_session_key toy random.picks)
        × (session_key_at (1 ∷ []) server₂ ≡ make_session_key toy random.picks)
        × (client₂.woken ≡ record { uuid = 65 ∷ []; ch = some (2 ∷ []) } ∷ []))
handshake_example =
    handshake toy toy-IsSound 100 random random (1 ∷ []) (2 ∷ []) (65 ∷ []) node node (omega arith)

abbrev pub waiting : Packet
waiting = record {
  id = 0;
  status = 4;
  payload = 9 ∷ [];
  time = 100;
  retransmit_time = 300;
  retransmit_attempts = 0;
  delivery = some 8;
  delivery_timeout = 5;
  delivery_timer = none;
}

abbrev queued : Channel
queued = record client { send_queue = SendQueue.add waiting client.send_queue }

serve_ack_lem_example :
    let r = serve_ack 150 0 queued in
    IsValid r.0.send_queue
    × (SendQueue.get 0 r.0.send_queue ≡ none)
    × (r.1 ≡ some 8)
    × (r.0.sender_ch ≡ [])
    × (r.0.reader_ch ≡ [])
    × (r.0.id ≡ 0)
unfolding new_channel SendQueue.add SendQueue.get lookup insert
serve_ack_lem_example =
    serve_ack_lem 150 0 0 queued (add-IsValid waiting client.send_queue refl init-IsValid)

abbrev events : List Event
events =
    read_failed
    ∷ received env random (1 ∷ []) (0 ∷ 0 ∷ 0 ∷ 8 ∷ [])
    ∷ received env random (1 ∷ []) (0 ∷ 0 ∷ 0 ∷ 0 ∷ 0 ∷ 7 ∷ [])
    ∷ []

listen-elsewhere_example : get_channel (2 ∷ []) (listen true events node).0 ≡ none
unfolding get_channel lookup
listen-elsewhere_example = listen-elsewhere (2 ∷ []) true events node ((λ e. cc), ((λ e. cc), tt))

pub node-AllOpen : AllOpen node
unfolding get_channel lookup
node-AllOpen addr ch h = cc

listen-AllOpen_example : AllOpen (listen true events node).0
listen-AllOpen_example = listen-AllOpen true events node node-AllOpen
