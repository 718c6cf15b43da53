-- ===== src/Setup.antt =====
-- src/MqttClientSetup.h: what the user sets before connecting, and the registered callbacks.
pub mod Slots
pub mod Handlers
pub mod Kinds
pub mod Settings
pub mod Connecting
pub mod Session
pub mod Removing
pub mod Dispatch
use esp_mqtt_client.Prelude.{ℕ, List, Option, none, Bool, true, false}
use esp_mqtt_client.Config.{emc_tx_timeout}
use esp_mqtt_client.Packet.Connect.{ConnectArgs}
use esp_mqtt_client.Client.{Client, new_client}
use esp_mqtt_client.Setup.Slots.{Callbacks, no_callbacks}

-- A client class: MqttClientSetup over MqttClient. `ip`, `host`, `port` and `use_ip` are the members of
-- MqttClient that only connecting reads.
pub record Setup : Type 0 where
  pub client : Client
  pub ip : ℕ
  pub host : Option (List ℕ)
  pub port : ℕ
  pub use_ip : Bool
  pub callbacks : Callbacks

-- The constructors' values for the arguments of CONNECT, with the generated client identifier.
abbrev pub default_args : List ℕ → ConnectArgs
default_args generated = record {
  clean_session = true;
  username = none;
  password = none;
  will_topic = none;
  will_retain = false;
  will_qos = 0;
  will_payload = none;
  will_payload_length = 0;
  keep_alive = 15;
  client_id = Option.some generated;
}

-- The client that the constructors make; `multiple` is EMC_MULTIPLE_CALLBACKS.
abbrev pub new_setup : (multiple : Bool) (generated : List ℕ) → Setup
new_setup multiple generated = record {
  client = new_client (default_args generated) 15000 emc_tx_timeout;
  ip = 0;
  host = none;
  port = 1883;
  use_ip = false;
  callbacks = no_callbacks multiple;
}
