-- ===== src/Tests/ClientTests.antt =====
-- The client's theorems (src/MqttClient.cpp) at concrete inputs.
use esp_mqtt_client.Prelude.{
  ℕ, List, [], ◌∷◌, none, true, false, some, refl, arith, ◌≡◌, ◌≢◌, ◌≤◌, if◌then◌else◌, ◌==◌,
}
use esp_mqtt_client.Config.{publish_type, pubrec_type, pubrel_type, pubcomp_type}
use esp_mqtt_client.Packet.{packet_type}
use esp_mqtt_client.Packet.Frame.{packet_of}
use esp_mqtt_client.Packet.Connect.{ConnectArgs}
use esp_mqtt_client.Packet.Publish.{ack_frame}
use esp_mqtt_client.Parser.{new_parser, qos}
use esp_mqtt_client.Parser.Total.{new_parser-Invariant}
use esp_mqtt_client.Outbox.Queue
use esp_mqtt_client.Client.{Client, OutgoingPacket, new_client, on_publish}
use esp_mqtt_client.Client.Ids.{after_ids, next_ids-differ}
use esp_mqtt_client.Client.Queueing.{Alloc, clear_queue, keeps, new_packet}
use esp_mqtt_client.Client.Clear.{filter, clear_queue-filter}
use esp_mqtt_client.Client.Incoming.{
  on_puback, on_pubcomp, on_pubrec, on_pubrel, on_publish_packet, is_delivered, check_incoming,
}
use esp_mqtt_client.Client.Handshake.{
  FirstOf, acknowledged_items, answer, HasAlloc, on_puback-FirstOf, on_pubcomp-FirstOf,
  on_pubrec-FirstOf, on_pubrel-FirstOf,
}
use esp_mqtt_client.Client.Receiving.{check_incoming-returns}
use esp_mqtt_client.Client.Delivery.{HasQos2, answered_again, received_once, on_publish-once}
use esp_mqtt_client.Client.{connecting_mqtt, connected, set_state}
use esp_mqtt_client.Parser.Parse.{parse}
use esp_mqtt_client.Parser.FixedHeader.{step_fixed_header, step_remaining_length_fixed}
use esp_mqtt_client.Parser.Step.{step_connack1, step_connack2}
use esp_mqtt_client.Client.Incoming.{on_connack}
use esp_mqtt_client.Client.Sending.{send_packet, advance_outbox, check_ping}
use esp_mqtt_client.Client.Loop.{Environment, loop}
use esp_mqtt_client.Client.Transitions.{Leaves}
use esp_mqtt_client.Client.States.{Follows, loop-Follows}
use esp_mqtt_client.Prelude.{◌>>=◌, length}
use esp_mqtt_client.Tests.{memory, memory-HasMemory, topic_ab}

abbrev pub args : ConnectArgs
args = record {
  clean_session = true;
  username = none;
  password = none;
  will_topic = none;
  will_retain = false;
  will_qos = 0;
  will_payload = none;
  will_payload_length = 0;
  keep_alive = 15;
  client_id = some topic_ab;
}

abbrev pub client : Client
client = new_client args 15000 10000

abbrev pub alloc : Alloc
alloc = record { node_allocated = true; memory = memory }

pub alloc-HasAlloc : HasAlloc alloc
alloc-HasAlloc = record { node = refl; memory = memory-HasMemory }

-- A client that has just read a packet of a type with an id.
abbrev reading : ℕ → ℕ → Client
reading type id = record client {
  parser = record new_parser {
    incoming = record new_parser.incoming { packet_type = type; fixed = id };
  };
}

abbrev pub stored : ℕ → ℕ → OutgoingPacket
stored type id = new_packet (packet_of id (ack_frame type id))

abbrev with_items : List OutgoingPacket → Client → Client
with_items xs c = record c { outbox = record { sent = xs; pending = [] } }

next_ids-differ_example :
    (1 ≤ (after_ids 3 client).packet_id)
    × ((after_ids 3 client).packet_id ≤ 65535)
    × ((after_ids 1 client).packet_id ≢ (after_ids 3 client).packet_id)
next_ids-differ_example = next_ids-differ 0 2 client (omega arith) (omega arith) (omega arith)

abbrev three : List OutgoingPacket
three = stored pubrec_type 5 ∷ stored publish_type 6 ∷ stored pubrel_type 7 ∷ []

clear_queue-filter_example :
    clear_queue 1 (with_items three client) ≡ record (with_items three client) {
      outbox = record { sent = filter (keeps 1) three; pending = filter (keeps 1) [] };
    }
clear_queue-filter_example = clear_queue-filter 1 (with_items three client)

first_publish :
    FirstOf publish_type
      (with_items three (reading 0x40 6))
      (stored pubrec_type 5 ∷ [])
      (stored publish_type 6)
      (stored pubrel_type 7 ∷ [])
unfolding packet_type
first_publish = record { items = refl; not_before = (refl, tt); has = refl }

on_puback-FirstOf_example :
    (Queue.items (on_puback (with_items three (reading 0x40 6))).outbox
      ≡ acknowledged_items 6
          (stored pubrec_type 5 ∷ [])
          (stored publish_type 6)
          (stored pubrel_type 7 ∷ [])
          [])
    × ((on_puback (with_items three (reading 0x40 6))).events
        ≡ (if 6 == 6 then on_publish 6 ∷ [] else []))
on_puback-FirstOf_example =
    on_puback-FirstOf (with_items three (reading 0x40 6)) (stored pubrec_type 5 ∷ [])
      (stored publish_type 6) (stored pubrel_type 7 ∷ []) first_publish

first_pubrel :
    FirstOf pubrel_type
      (with_items three (reading 0x70 7))
      (stored pubrec_type 5 ∷ stored publish_type 6 ∷ [])
      (stored pubrel_type 7)
      []
unfolding packet_type
first_pubrel = record { items = refl; not_before = (refl, (refl, tt)); has = refl }

on_pubcomp-FirstOf_example :
    (Queue.items (on_pubcomp (with_items three (reading 0x70 7))).outbox
      ≡ acknowledged_items 7
          (stored pubrec_type 5 ∷ stored publish_type 6 ∷ [])
          (stored pubrel_type 7)
          []
          [])
    × ((on_pubcomp (with_items three (reading 0x70 7))).events
        ≡ (if 7 == 7 then on_publish 7 ∷ [] else []))
on_pubcomp-FirstOf_example =
    on_pubcomp-FirstOf (with_items three (reading 0x70 7))
      (stored pubrec_type 5 ∷ stored publish_type 6 ∷ []) (stored pubrel_type 7) [] first_pubrel

first_publish_again :
    FirstOf publish_type
      (with_items three (reading 0x50 6))
      (stored pubrec_type 5 ∷ [])
      (stored publish_type 6)
      (stored pubrel_type 7 ∷ [])
unfolding packet_type
first_publish_again = record { items = refl; not_before = (refl, tt); has = refl }

on_pubrec-FirstOf_example :
    (c' : Client) × (on_pubrec alloc (with_items three (reading 0x50 6)) ≡ some c')
    × (Queue.items c'.outbox
        ≡ acknowledged_items 6
            (stored pubrec_type 5 ∷ [])
            (stored publish_type 6)
            (stored pubrel_type 7 ∷ [])
            (answer pubrel_type 6 ∷ []))
    × (c'.events ≡ [])
on_pubrec-FirstOf_example =
    on_pubrec-FirstOf alloc (with_items three (reading 0x50 6)) (stored pubrec_type 5 ∷ [])
      (stored publish_type 6) (stored pubrel_type 7 ∷ []) alloc-HasAlloc first_publish_again

first_pubrec :
    FirstOf pubrec_type
      (with_items three (reading 0x62 5))
      []
      (stored pubrec_type 5)
      (stored publish_type 6 ∷ stored pubrel_type 7 ∷ [])
unfolding packet_type
first_pubrec = record { items = refl; not_before = tt; has = refl }

on_pubrel-FirstOf_example :
    (c' : Client) × (on_pubrel alloc (with_items three (reading 0x62 5)) ≡ some c')
    × (Queue.items c'.outbox
        ≡ acknowledged_items 5 []
            (stored pubrec_type 5)
            (stored publish_type 6 ∷ stored pubrel_type 7 ∷ [])
            (answer pubcomp_type 5 ∷ []))
    × (c'.events ≡ [])
on_pubrel-FirstOf_example =
    on_pubrel-FirstOf alloc (with_items three (reading 0x62 5)) [] (stored pubrec_type 5)
      (stored publish_type 6 ∷ stored pubrel_type 7 ∷ []) alloc-HasAlloc first_pubrec

reading-HasQos2 : HasQos2 (reading 0x34 9)
unfolding qos
reading-HasQos2 = record { has_qos2 = refl; at_end = refl }

is_pubrec : is_delivered 9 (stored pubrec_type 9) ≡ true
unfolding packet_type
is_pubrec = refl

-- The second packet comes when the PUBREC for the first has been sent.
on_publish-once_example :
    (on_publish_packet alloc (reading 0x34 9) ≡ some (received_once (reading 0x34 9)))
    × (on_publish_packet alloc
          (with_items (stored pubrec_type 9 ∷ stored publish_type 6 ∷ []) (reading 0x34 9))
        ≡ some (
            answered_again
              (with_items (stored pubrec_type 9 ∷ stored publish_type 6 ∷ []) (reading 0x34 9))))
on_publish-once_example =
    on_publish-once alloc alloc (reading 0x34 9)
      (with_items (stored pubrec_type 9 ∷ stored publish_type 6 ∷ []) (reading 0x34 9)) []
      (stored pubrec_type 9) (stored publish_type 6 ∷ []) alloc-HasAlloc alloc-HasAlloc
      reading-HasQos2 (record { has_qos2 = reading-HasQos2.has_qos2; at_end = refl }) tt refl refl
      is_pubrec

check_incoming-returns_example :
    (c' : Client) × (check_incoming 5 (λ n. alloc) (0x20 ∷ 2 ∷ 0 ∷ 0 ∷ 0xd0 ∷ 0 ∷ []) client
      ≡ some c')
check_incoming-returns_example =
    check_incoming-returns 5 (λ n. alloc) (0x20 ∷ 2 ∷ 0 ∷ 0 ∷ 0xd0 ∷ 0 ∷ []) client
      new_parser-Invariant (omega arith)

abbrev pub environment : Environment
environment = record {
  connects = true;
  is_connected = true;
  is_disconnected = false;
  first_write = record { accepts = λ bytes. length bytes; time_sent = 5; time_active = 5 };
  writes = [];
  received = 0x20 ∷ 2 ∷ 0 ∷ 0 ∷ [];
  now = 5;
  ping_time = 6;
  timeout_time = 7;
  ping = alloc;
  disconnect = alloc;
  acks = λ n. alloc;
}

loop-Follows_example :
    Leaves (Follows connecting_mqtt) (loop environment (set_state connecting_mqtt client))
loop-Follows_example = loop-Follows environment (set_state connecting_mqtt client)

-- The CONNACK in the buffer makes the client connected.
loop_connects :
    (loop environment (set_state connecting_mqtt client) >>= (λ c. some c.state)) ≡ some connected
unfolding loop send_packet check_incoming parse step_fixed_header step_remaining_length_fixed
    step_connack1 step_connack2 on_connack clear_queue advance_outbox check_ping
loop_connects = refl
