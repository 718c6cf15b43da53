-- ===== src/Client.antt =====
-- src/MqttClient.h and MqttClient.cpp: the client's state. The outbox is the sequence with a cursor
-- that src/Outbox.h implements. The callbacks that the client calls are recorded in `events`, the
-- latest first; a callback that calls the client again is a further operation in between.
pub mod Queueing
pub mod Requests
pub mod Sending
pub mod Incoming
pub mod Loop
pub mod Always
pub mod Ids
pub mod Asking
pub mod Outcomes
pub mod Plain
pub mod Keeping
pub mod Reading
pub mod Fine
pub mod Adding
pub mod Sound
pub mod LoopSound
pub mod Asked
pub mod Reach
pub mod Clear
pub mod Handshake
pub mod Looping
pub mod Handling
pub mod Receiving
pub mod Delivery
pub mod Accepting
pub mod Connection
pub mod Transitions
pub mod States
pub mod Outgoing
pub mod SendError
pub mod Advancing
pub mod Pending
pub mod Draining
pub mod Wire
pub mod PartialAck
pub mod InOrder
pub mod Serving
pub mod Streaming
pub mod ChunkedPublish
pub mod Watching
pub mod KeepAlive
use esp_mqtt_client.Prelude.{
  ℕ, zero, suc, ◌+◌, ◌%◌, ◌^◌, List, [], ◌∷◌, ◌++◌, Option, none, some, Bool, true, false, ◌==◌,
  if◌then◌else◌, ltb, length, ◌-◌,
}
use esp_mqtt_client.Packet.{
  Packet, Error, success, out_of_memory, max_retries, malformed_parameter, misc_error, Memory,
  packet_type,
}
use esp_mqtt_client.Packet.Connect.{ConnectArgs}
use esp_mqtt_client.Parser.{Parser, new_parser}
use esp_mqtt_client.Outbox.Queue
use esp_mqtt_client.Outbox.Queue.{Queue}

-- MqttClient::State
pub data State : Type 0 where
  disconnected connecting_tcp1 connecting_tcp2 connecting_mqtt connected : State
  disconnecting_mqtt1 disconnecting_mqtt2 disconnecting_tcp1 disconnecting_tcp2 : State

-- The number of a state, by which the code compares them.
abbrev pub number : State → ℕ
number disconnected = 0
number connecting_tcp1 = 1
number connecting_tcp2 = 2
number connecting_mqtt = 3
number connected = 4
number disconnecting_mqtt1 = 5
number disconnecting_mqtt2 = 6
number disconnecting_tcp1 = 7
number disconnecting_tcp2 = 8

-- DisconnectReason
abbrev pub user_ok : ℕ
user_ok = 0

abbrev pub tcp_disconnected : ℕ
tcp_disconnected = 7

-- MqttClient::OutgoingPacket
pub record OutgoingPacket : Type 0 where
  pub time_sent : ℕ
  pub packet : Packet

-- A message as the message callback is given it.
pub record Message : Type 0 where
  pub qos : ℕ
  pub dup : Bool
  pub retain : Bool
  pub packet_id : ℕ
  pub topic : List ℕ
  pub payload : List ℕ
  pub index : ℕ
  pub total : ℕ

-- The calls of the user's callbacks.
pub data Event : Type 0 where
  on_connect : Bool → Event
  on_disconnect : ℕ → Event
  on_subscribe : ℕ → List ℕ → Event
  on_unsubscribe : ℕ → Event
  on_message : Message → Event
  on_publish : ℕ → Event
  on_error : ℕ → Error → Event

-- The members that the operations use. `connect_args` holds the credentials, the will and the client
-- identifier.
pub record Client : Type 0 where
  pub state : State
  pub connect_args : ConnectArgs
  pub keep_alive : ℕ
  pub timeout : ℕ
  pub packet_id : ℕ
  pub outbox : Queue OutgoingPacket
  pub bytes_sent : ℕ
  pub parser : Parser
  pub last_client_activity : ℕ
  pub last_server_activity : ℕ
  pub ping_sent : Bool
  pub disconnect_reason : ℕ
  pub events : List Event

-- The constructor's client, with what the setters may have set.
abbrev pub new_client : ConnectArgs → ℕ → ℕ → Client
new_client connect_args keep_alive timeout = record {
  state = disconnected;
  connect_args = connect_args;
  keep_alive = keep_alive;
  timeout = timeout;
  packet_id = 0;
  outbox = Queue.empty_queue;
  bytes_sent = 0;
  parser = new_parser;
  last_client_activity = 0;
  last_server_activity = 0;
  ping_sent = false;
  disconnect_reason = tcp_disconnected;
  events = [];
}

abbrev pub set_state : State → Client → Client
set_state s c = record c { state = s }

abbrev pub emit : Event → Client → Client
emit e c = record c { events = e ∷ c.events }

abbrev pub is_state : State → Client → Bool
is_state s c = number c.state == number s

-- _getNextPacketId: the client with the new identifier, which is also the result.
unfoldable pub get_next_packet_id : Client → Client
get_next_packet_id c =
    let next = (c.packet_id + 1) % 2 ^ 16 in record c { packet_id = if next == 0 then 1 else next }
