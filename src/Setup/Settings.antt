-- ===== src/Setup/Settings.antt =====
-- setKeepAlive to setTimeout of src/MqttClientSetup.h, and what MqttClient::connect and loop read.
use esp_mqtt_client.Prelude.{ℕ, ◌*◌, ◌%◌, ◌^◌, List, Option, none, some, Bool, true, false}
use esp_mqtt_client.Packet.Connect.{ConnectArgs, strlen}
use esp_mqtt_client.Setup.{Setup}

-- The argument of one of CONNECT's members
abbrev pub with_args : ConnectArgs → Setup → Setup
with_args args s = record s { client = record s.client { connect_args = args } }

-- The product is an int of 32 bits, kept in a uint32_t.
unfoldable pub set_keep_alive : ℕ → Setup → Setup
set_keep_alive keep_alive s = record s {
  client = record s.client { keep_alive = keep_alive * 1000 % 2 ^ 32 };
}

unfoldable pub set_client_id : Option (List ℕ) → Setup → Setup
set_client_id client_id s = with_args (record s.client.connect_args { client_id = client_id }) s

unfoldable pub set_clean_session : Bool → Setup → Setup
set_clean_session clean_session s =
    with_args (record s.client.connect_args { clean_session = clean_session }) s

unfoldable pub set_credentials : Option (List ℕ) → Option (List ℕ) → Setup → Setup
set_credentials username password s =
    with_args (record s.client.connect_args { username = username; password = password }) s

-- A payload's length, as the member's uint16_t keeps it
abbrev pub payload_length : Option (List ℕ) → ℕ → ℕ
payload_length none length = 0
payload_length (some bytes) length = length % 2 ^ 16

-- setWill with a length; the payload is the memory behind the pointer.
unfoldable pub set_will : Option (List ℕ) → ℕ → Bool → Option (List ℕ) → ℕ → Setup → Setup
set_will topic qos retain payload length s =
    with_args
      (record s.client.connect_args {
        will_topic = topic;
        will_qos = qos;
        will_retain = retain;
        will_payload = payload;
        will_payload_length = payload_length payload length;
      })
      s

-- setWill with a C string; `none` is strlen of nullptr.
unfoldable pub set_will_string : Option (List ℕ) → ℕ → Bool → Option (List ℕ) → Setup → Option Setup
unfolding set_will
set_will_string topic qos retain payload s = elim payload [
  | none ↦ none
  | some bytes ↦ some (set_will topic qos retain (some bytes) (strlen bytes) s)
]

unfoldable pub set_server_ip : ℕ → ℕ → Setup → Setup
set_server_ip ip port s = record s { ip = ip; port = port; use_ip = true }

unfoldable pub set_server_host : Option (List ℕ) → ℕ → Setup → Setup
set_server_host host port s = record s { host = host; port = port; use_ip = false }

unfoldable pub set_timeout : ℕ → Setup → Setup
set_timeout timeout s = record s { client = record s.client { timeout = timeout * 1000 % 2 ^ 32 } }

-- Where loop() connects to in State::connectingTcp1
pub data Server : Type 0 where
  by_ip : ℕ → ℕ → Server
  by_host : Option (List ℕ) → ℕ → Server

unfoldable pub server : Setup → Server
server s = elim s.use_ip [ true ↦ by_ip s.ip s.port | false ↦ by_host s.host s.port ]

-- MqttClient::getClientId
unfoldable pub get_client_id : Setup → Option (List ℕ)
get_client_id s = s.client.connect_args.client_id
