-- ===== src/Tests/ChunkedTests.antt =====
-- The theorem on payloads in portions (src/MqttClient.cpp, src/Packets/Packet.cpp) at a concrete callback.
use esp_mqtt_client.Prelude.{◌-◌, min, take, drop}
use esp_mqtt_client.Packet.{PayloadCallback}
use esp_mqtt_client.Client.{Client}
use esp_mqtt_client.Tests.{payload_three}

-- A callback that copies two bytes at most; the head has eight.
abbrev two_bytes_each : PayloadCallback
two_bytes_each = λ room index. take (min room 2) (drop (index - 8) payload_three)
