-- ===== src/Client/InOrder.antt =====
-- The order of the bytes that the loop of _checkOutbox (src/MqttClient.cpp) sends.
use esp_mqtt_client.Prelude.{ℕ, ◌≡◌, List, ◌++◌, Option, none, some}
use esp_mqtt_client.Client.{Client}
use esp_mqtt_client.Client.Wire.{unsent}

-- What was accepted, followed by what is still to be sent, is what was to be sent before.
abbrev OnWire : List ℕ → List ℕ → Option Client → Type 0
OnWire sent before none = ⊥
OnWire sent before (some c) = sent ++ unsent c.outbox.pending c.bytes_sent ≡ before
