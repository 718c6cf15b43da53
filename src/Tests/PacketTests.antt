-- ===== src/Tests/PacketTests.antt =====
-- The theorems on src/Packets/Packet.cpp at concrete inputs.
use esp_mqtt_client.Prelude.{
  ℕ, [], ◌∷◌, ◌++◌, none, some, true, false, refl, arith, ◌≡◌, ◌<◌, length, ◌+◌, ◌*◌, replicate,
  length-replicate,
}
use esp_mqtt_client.RemainingLength.{remaining_length_length}
use esp_mqtt_client.Packet.{Packet, PayloadCallback, success, packet_type, set_dup}
use esp_mqtt_client.Packet.Buffer.{two_bytes}
use esp_mqtt_client.Packet.Create.{
  create_chunked_publish, create_publish, create_subscribe, create_unsubscribe, SubscribeItem,
}
use esp_mqtt_client.Packet.Frame.{frame, packet_of}
use esp_mqtt_client.Packet.Publish.{
  publish_frame, publish_body, kept_id, retain_bit, create_publish-frame,
}
use esp_mqtt_client.Packet.Subscribe.{
  create_subscribe-frame, create_unsubscribe-frame, topics_with_qos, topics_only,
}
use esp_mqtt_client.Packet.Connect.{ConnectArgs, create_connect}
use esp_mqtt_client.Packet.Connect.Body.{connect_body}
use esp_mqtt_client.Packet.Connect.Frame.{create_connect-frame}
use esp_mqtt_client.Packet.Dup.{set_dup-publish}
use esp_mqtt_client.Packet.Chunked.{available}
use esp_mqtt_client.Packet.Chunked.Created.{whole_length, kept_length}
use esp_mqtt_client.Packet.Chunked.Overflow.{available_overflow}
use esp_mqtt_client.Tests.{memory, memory-HasMemory, topic_ab, payload_three}

create_publish-frame_example :
    create_publish memory 7 topic_ab payload_three 2 false
    ≡ some (packet_of (kept_id 2 7) (publish_frame 7 topic_ab payload_three 2 false), success)
create_publish-frame_example =
    create_publish-frame memory 7 topic_ab payload_three 2 false memory-HasMemory (omega arith)
      (omega arith) (omega arith)

abbrev item : SubscribeItem
item = record { topic = topic_ab; qos = 1 }

create_subscribe-frame_example :
    create_subscribe memory 9 (item ∷ item ∷ [])
    ≡ some (packet_of 9 (frame 0x82 (two_bytes 9 ++ topics_with_qos (item ∷ item ∷ []))), success)
create_subscribe-frame_example =
    create_subscribe-frame memory 9 (item ∷ item ∷ []) memory-HasMemory
      (omega arith, (omega arith, tt)) (omega arith)

create_unsubscribe-frame_example :
    create_unsubscribe memory 9 (topic_ab ∷ [])
    ≡ some (packet_of 9 (frame 0xa2 (two_bytes 9 ++ topics_only (topic_ab ∷ []))), success)
create_unsubscribe-frame_example =
    create_unsubscribe-frame memory 9 (topic_ab ∷ []) memory-HasMemory (omega arith, tt)
      (omega arith)

abbrev args : ConnectArgs
args = record {
  clean_session = true;
  username = some (117 ∷ []);
  password = none;
  will_topic = some topic_ab;
  will_retain = true;
  will_qos = 1;
  will_payload = some payload_three;
  will_payload_length = 3;
  keep_alive = 15;
  client_id = some (99 ∷ []);
}

create_connect-frame_example :
    create_connect memory args
    ≡ some (
      packet_of 0 (frame 0x10 (connect_body args (99 ∷ []) (some (topic_ab, payload_three)))),
      success,
    )
create_connect-frame_example =
    create_connect-frame memory args (99 ∷ []) (some (topic_ab, payload_three)) memory-HasMemory
      refl (omega arith) (omega arith) (omega arith) tt (omega arith)
      (refl, refl, refl, omega arith, omega arith, omega arith)

set_dup-publish_example :
    (set_dup (packet_of 7 (publish_frame 7 topic_ab payload_three 1 true))
      ≡ packet_of 7
          (frame (0x38 + 2 * 1 + retain_bit true) (publish_body 7 topic_ab payload_three 1)))
    × (packet_type (set_dup (packet_of 7 (publish_frame 7 topic_ab payload_three 1 true))) ≡ 0x30)
    × (set_dup (set_dup (packet_of 7 (publish_frame 7 topic_ab payload_three 1 true)))
        ≡ set_dup (packet_of 7 (publish_frame 7 topic_ab payload_three 1 true)))
set_dup-publish_example =
    set_dup-publish 7 1 topic_ab payload_three true (omega arith) (omega arith) (omega arith)

-- A callback that fills the room it is given.
abbrev filler : PayloadCallback
filler room index = replicate room 0

filler-fills : length (filler 1440 0) ≡ 1440
filler-fills = length-replicate {A = ℕ} 1440 0

longer :
    remaining_length_length (kept_length 7 topic_ab 16384 1)
    < remaining_length_length (whole_length 7 topic_ab 16384 1)
unfolding remaining_length_length
longer = omega arith

available_overflow_example :
    (p : Packet) × (create_chunked_publish memory 7 topic_ab filler 16384 1 false
      ≡ some (p, success))
    × (available p 0 ≡ none)
available_overflow_example =
    available_overflow memory 7 topic_ab filler 16384 1 false memory-HasMemory (omega arith)
      (omega arith) (omega arith) (omega arith) longer filler-fills
