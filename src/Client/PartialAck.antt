-- ===== src/Client/PartialAck.antt =====
-- An acknowledgement that comes while its packet is being sent again (_onPuback of src/MqttClient.cpp).
use esp_mqtt_client.Prelude.{List, [], ◌∷◌}
use esp_mqtt_client.Client.{Client, OutgoingPacket, on_publish}

-- The client once the current packet, the first of the outbox, has been acknowledged
abbrev pub acknowledged : List OutgoingPacket → Client → Client
acknowledged os c = record c {
  outbox = record { sent = []; pending = os };
  events = on_publish c.parser.incoming.fixed ∷ c.events;
}
