-- ===== src/Client/Loop.antt =====
-- MqttClient::loop of src/MqttClient.cpp (EMC_WAIT_FOR_CONNACK is 1).
use esp_mqtt_client.Prelude.{
  ℕ, List, [], ◌∷◌, Option, some, Bool, true, false, if◌then◌else◌, ◌>>=◌,
}
use esp_mqtt_client.Config.{disconnect_type}
use esp_mqtt_client.Packet.{out_of_memory}
use esp_mqtt_client.Packet.Create.{create_simple}
use esp_mqtt_client.Parser.{reset_parser}
use esp_mqtt_client.Outbox.Queue
use esp_mqtt_client.Client.{
  Client, State, disconnected, connecting_tcp1, connecting_tcp2, connecting_mqtt, connected,
  disconnecting_mqtt1, disconnecting_mqtt2, disconnecting_tcp1, disconnecting_tcp2, set_state, emit,
  on_error, on_disconnect, tcp_disconnected,
}
use esp_mqtt_client.Client.Queueing.{Alloc, add_packet, clear_queue}
use esp_mqtt_client.Client.Sending.{Answer, send_packet, check_outbox, check_ping, check_timeout}
use esp_mqtt_client.Client.Incoming.{check_incoming}

-- What the transport, the clock and the memory answer during one call of loop(). `writes` answers the
-- turns of _checkOutbox behind the first; `now`, `ping_time` and `timeout_time` are what millis() returns
-- to the branch that reads first, to _checkPing and to _checkTimeout.
pub record Environment : Type 0 where
  pub connects : Bool
  pub is_connected : Bool
  pub is_disconnected : Bool
  pub first_write : Answer
  pub writes : List Answer
  pub received : List ℕ
  pub now : ℕ
  pub ping_time : ℕ
  pub timeout_time : ℕ
  pub ping : Alloc
  pub disconnect : Alloc
  pub acks : ℕ → Alloc

-- The branches for a lost connection
abbrev pub lose_connection : Client → Client
lose_connection c = record c { state = disconnecting_tcp1; disconnect_reason = tcp_disconnected }

-- _checkOutbox, _checkIncoming, _checkPing and _checkTimeout
abbrev pub check_all : Environment → Client → Option Client
check_all e c = do
  c1 ← check_outbox (e.first_write ∷ e.writes) c
  c2 ← check_incoming e.now e.acks e.received c1
  c3 ← check_ping e.ping e.ping_time c2
  some (check_timeout e.timeout_time c3)

-- State::connectingTcp2
unfoldable pub tcp_connecting : Environment → Client → Client
tcp_connecting e c =
    if e.is_connected
    then record c {
      parser = reset_parser c.parser;
      last_client_activity = e.now;
      last_server_activity = e.now;
      state = connecting_mqtt;
    }
    else if e.is_disconnected
    then lose_connection c
    else c

-- State::connectingMqtt with a connection
unfoldable pub mqtt_connecting : Environment → Client → Option Client
mqtt_connecting e c = do
  (c1, _) ← send_packet e.first_write c
  c2 ← check_incoming e.now e.acks e.received c1
  check_ping e.ping e.ping_time c2

-- State::disconnectingMqtt1 with an empty outbox
unfoldable pub leave : Environment → Client → Option Client
leave e c = do
  (c', added) ← add_packet e.disconnect (λ mem. create_simple mem disconnect_type) c
  some (if added then set_state disconnecting_mqtt2 c' else emit (on_error 0 out_of_memory) c')

abbrev pub empty : Client → Bool
empty c = elim (Queue.items c.outbox) [ [] ↦ true | o ∷ os ↦ false ]

-- State::disconnectingTcp2 without a connection
unfoldable pub closed : Client → Client
closed c =
    emit (on_disconnect c.disconnect_reason)
      (record (clear_queue 0 c) { bytes_sent = 0; state = disconnected })

-- MqttClient::loop by state
unfoldable pub loop_in : State → Environment → Client → Option Client
unfolding tcp_connecting mqtt_connecting leave closed
loop_in disconnected e c = some c
loop_in connecting_tcp1 e c =
    some (if e.connects then tcp_connecting e (set_state connecting_tcp2 c) else lose_connection c)
loop_in connecting_tcp2 e c = some (tcp_connecting e c)
loop_in connecting_mqtt e c =
    if e.is_connected then mqtt_connecting e c else some (lose_connection c)
loop_in connected e c = if e.is_connected then check_all e c else some (lose_connection c)
loop_in disconnecting_mqtt1 e c = (if empty c then leave e c else some c) >>= check_all e
loop_in disconnecting_mqtt2 e c = if e.is_connected then check_all e c else some (lose_connection c)
loop_in disconnecting_tcp1 e c = some (set_state disconnecting_tcp2 c)
loop_in disconnecting_tcp2 e c = some (if e.is_disconnected then closed c else c)

-- MqttClient::loop
unfoldable pub loop : Environment → Client → Option Client
unfolding loop_in tcp_connecting mqtt_connecting leave closed
loop e c = loop_in c.state e c
