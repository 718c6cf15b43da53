-- ===== src/Setup/Connecting.antt =====
-- From the setters of src/MqttClientSetup.h to the CONNECT packet of MqttClient::connect.
use esp_mqtt_client.Prelude.{
  ℕ, ◌*◌, ◌/◌, ◌%◌, ◌^◌, ◌≤◌, ◌<◌, List, Option, some, Bool, true, ◌≡◌, refl, arith, length, ◌∙◌,
  ap,
}
use esp_mqtt_client.Outbox.Queue
use esp_mqtt_client.Packet.{success}
use esp_mqtt_client.Packet.Frame.{frame, packet_of}
use esp_mqtt_client.Packet.Connect.{ConnectArgs, create_connect}
use esp_mqtt_client.Packet.Connect.Body.{connect_body, IsShort}
use esp_mqtt_client.Packet.Connect.Frame.{create_connect-frame}
use esp_mqtt_client.Client.{disconnected, connecting_tcp1}
use esp_mqtt_client.Client.Queueing.{Alloc, new_packet, add_packet_front}
use esp_mqtt_client.Client.Requests.{connect}
use esp_mqtt_client.Client.Handshake.{HasAlloc}
use esp_mqtt_client.Setup.{Setup}
use esp_mqtt_client.Setup.Settings.{
  set_keep_alive, set_client_id, set_clean_session, set_credentials, set_will,
}

-- A user's choice of what CONNECT carries.
pub record Options : Type 0 where
  pub keep_alive : ℕ
  pub client_id : List ℕ
  pub clean_session : Bool
  pub username : Option (List ℕ)
  pub password : Option (List ℕ)
  pub will_topic : List ℕ
  pub will_qos : ℕ
  pub will_retain : Bool
  pub will_payload : List ℕ

-- The setters, each called once.
unfoldable pub configure : Options → Setup → Setup
unfolding set_keep_alive set_client_id set_clean_session set_credentials set_will
configure o s =
    set_will (some o.will_topic) o.will_qos o.will_retain (some o.will_payload)
      (length o.will_payload)
      (set_credentials o.username o.password (
        set_clean_session o.clean_session
          (set_client_id (some o.client_id) (set_keep_alive o.keep_alive s))))

-- What the protocol's CONNECT packet is made from.
abbrev pub requested : Options → ConnectArgs
requested o = record {
  clean_session = o.clean_session;
  username = o.username;
  password = o.password;
  will_topic = some o.will_topic;
  will_retain = o.will_retain;
  will_qos = o.will_qos;
  will_payload = some o.will_payload;
  will_payload_length = length o.will_payload;
  keep_alive = o.keep_alive;
  client_id = some o.client_id;
}

abbrev pub connect_packet : Options → List ℕ
connect_packet o =
    frame 0x10 (connect_body (requested o) o.client_id (some (o.will_topic, o.will_payload)))

-- The options are in the range of the setters' and the protocol's types.
pub record IsAllowed (o : Options) : Type 0 where
  pub keep_alive_word : o.keep_alive < 2 ^ 16
  pub client_id_some : 0 < length o.client_id
  pub client_id_short : length o.client_id ≤ 65535
  pub username_short : IsShort o.username
  pub password_short : IsShort o.password
  pub will_topic_short : length o.will_topic ≤ 65535
  pub will_qos_low : o.will_qos ≤ 2
  pub will_payload_some : 0 < length o.will_payload
  pub will_payload_short : length o.will_payload ≤ 65535

configured_args :
    (o : Options) (s : Setup)
    → IsAllowed o
    → (record (configure o s).client.connect_args {
      keep_alive = (configure o s).client.keep_alive / 1000;
    })
      ≡ requested o
unfolding configure
configured_args o s h =
    let seconds : o.keep_alive * 1000 % 2 ^ 32 / 1000 ≡ o.keep_alive =
      omega (arith, h.keep_alive_word) in
    let short : length o.will_payload % 2 ^ 16 ≡ length o.will_payload =
      omega (arith, h.will_payload_short) in
    rw (seconds, short)

requested-frame :
    (a : Alloc) (o : Options)
    → HasAlloc a
    → IsAllowed o
    → create_connect a.memory (requested o) ≡ some (packet_of 0 (connect_packet o), success)
requested-frame a o ok h =
    create_connect-frame a.memory (requested o) o.client_id (some (o.will_topic, o.will_payload))
      ok.memory refl h.client_id_some h.client_id_short h.username_short h.password_short
      h.will_qos_low
      (refl, refl, refl, h.will_payload_some, h.will_payload_short, h.will_topic_short)

-- With memory, whatever was set before, a disconnected client that is configured by the setters and
-- then connects returns true, is in State::connectingTcp1, and has the protocol's CONNECT packet with
-- exactly those options in front of all the packets that it had.
pub connect-configure :
    (a : Alloc) (o : Options) (s : Setup)
    → HasAlloc a
    → IsAllowed o
    → s.client.state ≡ disconnected
    → connect a (configure o s).client
      ≡ some (
        record (configure o s).client {
          state = connecting_tcp1;
          outbox = Queue.push_front (new_packet (packet_of 0 (connect_packet o))) s.client.outbox;
        },
        true,
      )
unfolding connect configure add_packet_front
connect-configure a o s ok h down =
    let made = ap (create_connect a.memory) (configured_args o s h) ∙ requested-frame a o ok h in
    rw (down, ok.node, made)
