-- ===== src/Client/Requests.antt =====
-- The calls that a user makes on the client of src/MqttClient.cpp.
use esp_mqtt_client.Prelude.{
  ℕ, ◌/◌, List, Option, some, Bool, true, false, not, ◌&&◌, if◌then◌else◌, length, ltb, take, ◌>>=◌,
}
use esp_mqtt_client.Packet.{Packet, Error, out_of_memory, Memory, PayloadCallback}
use esp_mqtt_client.Packet.Create.{
  create_publish, create_chunked_publish, create_subscribe, create_unsubscribe, SubscribeItem,
}
use esp_mqtt_client.Packet.Connect.{create_connect, strlen}
use esp_mqtt_client.Outbox.Queue
use esp_mqtt_client.Client.{
  Client, disconnected, connecting_tcp1, connected, disconnecting_mqtt1, disconnecting_tcp1,
  disconnecting_tcp2, number, set_state, emit, is_state, on_error, get_next_packet_id,
}
use esp_mqtt_client.Client.Queueing.{Alloc, add_packet, add_packet_front, clear_queue}

-- MqttClient::connect; the result and the client
unfoldable pub connect : Alloc → Client → Option (Client × Bool)
connect a c = if not (is_state disconnected c) then some (c, false) else do
  (c', added) ←
      add_packet_front a
        (λ mem. create_connect mem (record c.connect_args { keep_alive = c.keep_alive / 1000 })) c
  some (
      if added
      then (set_state connecting_tcp1 c', true)
      else (emit (on_error 0 out_of_memory) c', false))

-- MqttClient::disconnect
unfoldable pub disconnect : Bool → Client → Client × Bool
disconnect force c =
    if force
      && (not (is_state disconnected c)
          && (not (is_state disconnecting_tcp1 c) && not (is_state disconnecting_tcp2 c)))
    then (set_state disconnecting_tcp1 c, true)
    else if not force && is_state connected c
    then (set_state disconnecting_mqtt1 c, true)
    else (c, false)

-- The packet id that publish takes: 1 stands for success at QoS 0.
abbrev pub publish_id : ℕ → Client → Client × ℕ
publish_id qos c =
    if ltb 0 qos then (get_next_packet_id c, (get_next_packet_id c).packet_id) else (c, 1)

-- publish behind the guard, for a constructor that is given the packet id
unfoldable pub publish_with :
    Alloc → ℕ → (ℕ → Memory → Option (Packet × Error)) → Client → Option (Client × ℕ)
publish_with a qos make c =
    let (c', packet_id) = publish_id qos c in
    do
      (c'', added) ← add_packet a (make packet_id) c'
      some (if added then (c'', packet_id) else (emit (on_error packet_id out_of_memory) c'', 0))

-- MqttClient::publish with a payload (EMC_ALLOW_NOT_CONNECTED_PUBLISH is 1); the packet id, 0 on failure
unfoldable pub publish : Alloc → List ℕ → ℕ → Bool → List ℕ → Client → Option (Client × ℕ)
unfolding publish_with
publish a topic qos retain payload c =
    if ltb (number connected) (number c.state)
    then some (c, 0)
    else publish_with a qos (λ packet_id mem. create_publish mem packet_id topic payload qos retain)
        c

-- MqttClient::publish with a C string: the memory behind the pointer
unfoldable pub publish_string : Alloc → List ℕ → ℕ → Bool → List ℕ → Client → Option (Client × ℕ)
unfolding publish
publish_string a topic qos retain payload c =
    publish a topic qos retain (take (strlen payload) payload) c

-- MqttClient::publish with a callback
unfoldable pub publish_chunked :
    Alloc → List ℕ → ℕ → Bool → PayloadCallback → ℕ → Client → Option (Client × ℕ)
unfolding publish_with
publish_chunked a topic qos retain callback length c =
    if ltb (number connected) (number c.state)
    then some (c, 0)
    else publish_with a qos
        (λ packet_id mem. create_chunked_publish mem packet_id topic callback length qos retain) c

-- subscribe and unsubscribe behind the guard
unfoldable pub request_with :
    Alloc → (ℕ → Memory → Option (Packet × Error)) → Client → Option (Client × ℕ)
request_with a make c =
    let c' = get_next_packet_id c in
    do
      (c'', added) ← add_packet a (make c'.packet_id) c'
      some (c'', if added then c'.packet_id else 0)

-- MqttClient::subscribe
unfoldable pub subscribe : Alloc → List SubscribeItem → Client → Option (Client × ℕ)
unfolding request_with
subscribe a list c =
    if not (is_state connected c)
    then some (c, 0)
    else request_with a (λ packet_id mem. create_subscribe mem packet_id list) c

-- MqttClient::unsubscribe
unfoldable pub unsubscribe : Alloc → List (List ℕ) → Client → Option (Client × ℕ)
unfolding request_with
unsubscribe a list c =
    if not (is_state connected c)
    then some (c, 0)
    else request_with a (λ packet_id mem. create_unsubscribe mem packet_id list) c

-- MqttClient::clearQueue
unfoldable pub clear_queue_request : Bool → Client → Client
clear_queue_request delete_session_data c = clear_queue (if delete_session_data then 2 else 0) c

-- MqttClient::queueSize
unfoldable pub queue_size : Client → ℕ
queue_size c = length (Queue.items c.outbox)

-- MqttClient::connected and disconnected
unfoldable pub is_connected : Client → Bool
is_connected c = is_state connected c

unfoldable pub is_disconnected : Client → Bool
is_disconnected c = is_state disconnected c

-- MqttClient::~MqttClient, up to the end of the members
unfoldable pub destroy : Client → Client
unfolding disconnect
destroy c = clear_queue 2 (disconnect true c).0
