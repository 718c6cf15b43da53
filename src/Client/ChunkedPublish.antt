-- ===== src/Client/ChunkedPublish.antt =====
-- MqttClient::publish with a callback (src/MqttClient.cpp) and then _checkOutbox: the payload in portions.
use esp_mqtt_client.Prelude.{ℕ, List, Bool, length}
use esp_mqtt_client.Packet.{PayloadCallback}
use esp_mqtt_client.Packet.Chunked.Created.{created, head_bytes, whole_length}
use esp_mqtt_client.Outbox.Queue
use esp_mqtt_client.Client.{Client}
use esp_mqtt_client.Client.Queueing.{new_packet}
use esp_mqtt_client.Client.Asking.{taken, id_of}

-- The client with the packet at the end of its outbox
abbrev pub with_chunked : List ℕ → ℕ → Bool → PayloadCallback → ℕ → Client → Client
with_chunked topic qos retain callback n c = record (taken qos c) {
  outbox =
      Queue.push_back (new_packet (created (id_of qos c) topic callback n qos retain)) c.outbox;
}

-- The bytes in front of the payload
abbrev pub head_of : ℕ → List ℕ → List ℕ → ℕ → Bool → List ℕ
head_of id topic payload qos retain =
    head_bytes id topic (whole_length id topic (length payload) qos) qos retain
