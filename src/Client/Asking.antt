-- ===== src/Client/Asking.antt =====
-- What publish, subscribe and unsubscribe of src/MqttClient.cpp and MqttClient.h queue and return.
use esp_mqtt_client.Prelude.{
  ℕ, zero, suc, ◌+◌, ◌≤◌, ◌≡◌, refl, List, ◌++◌, some, Bool, true, false, length, arith, All, ltb,
}
use esp_mqtt_client.Outbox.Queue
use esp_mqtt_client.Packet.Create.{SubscribeItem}
use esp_mqtt_client.Packet.Frame.{frame, packet_of}
use esp_mqtt_client.Packet.Buffer.{two_bytes}
use esp_mqtt_client.Packet.Publish.{publish_frame, publish_body, kept_id, create_publish-frame}
use esp_mqtt_client.Packet.Subscribe.{
  topics_with_qos, topics_only, create_subscribe-frame, create_unsubscribe-frame,
}
use esp_mqtt_client.Client.{Client, connected, number, get_next_packet_id}
use esp_mqtt_client.Client.Queueing.{Alloc, add_packet, new_packet}
use esp_mqtt_client.Client.Requests.{publish, publish_with, subscribe, unsubscribe, request_with}
use esp_mqtt_client.Client.Handshake.{HasAlloc}

-- The packet identifier of a message, and the client that has taken it
abbrev pub taken : ℕ → Client → Client
taken zero c = c
taken (suc qos) c = get_next_packet_id c

abbrev pub id_of : ℕ → Client → ℕ
id_of zero c = 1
id_of (suc qos) c = (get_next_packet_id c).packet_id

-- With memory, a topic of at most 65535 bytes, a QoS of at most 2, a body that fits the packet format,
-- and unless the client is disconnecting: publish appends the PUBLISH packet of the protocol to the
-- outbox and returns its identifier, the next one, or 1 at QoS 0; nothing else changes.
pub publish-queues :
    (a : Alloc) (topic : List ℕ) (qos : ℕ) (retain : Bool) (payload : List ℕ) (c : Client)
    → HasAlloc a
    → number c.state ≤ 4
    → length topic ≤ 65535
    → qos ≤ 2
    → length (publish_body (id_of qos c) topic payload qos) ≤ 268435455
    → publish a topic qos retain payload c
      ≡ some (
        record (taken qos c) {
          outbox =
              Queue.push_back
                (new_packet (
                  packet_of
                    (kept_id qos (id_of qos c))
                    (publish_frame (id_of qos c) topic payload qos retain)))
                c.outbox;
        },
        id_of qos c,
      )
unfolding publish publish_with add_packet get_next_packet_id
publish-queues a topic zero retain payload c ok state t q h =
    let test : ltb 4 (number c.state) ≡ false = ground arith in
    let made = create_publish-frame a.memory 1 topic payload 0 retain ok.memory t q h in
    rw (test, ok.node, made) refl
publish-queues a topic (suc n) retain payload c ok state t q h =
    let test : ltb 4 (number c.state) ≡ false = ground arith in
    let id = (get_next_packet_id c).packet_id in
    let made = create_publish-frame a.memory id topic payload (suc n) retain ok.memory t q h in
    let some_qos : ltb 0 (suc n) ≡ true = ground arith in rw (test, some_qos, ok.node, made) refl

-- What subscribe and unsubscribe leave: the packet at the end of the outbox, and its identifier.
abbrev pub requested : ℕ → List ℕ → Client → Client × ℕ
requested first body c =
    let c' = get_next_packet_id c in
    (
      record c' {
        outbox =
            Queue.push_back
              (new_packet (packet_of c'.packet_id (frame first (two_bytes c'.packet_id ++ body))))
              c.outbox;
      },
      c'.packet_id,
    )

-- While connected and with memory, for topics of at most 65535 bytes and a body that fits the packet
-- format: subscribe appends the SUBSCRIBE packet of the protocol for the list, under the next packet
-- identifier, and returns the identifier; nothing else changes.
pub subscribe-queues :
    (a : Alloc) (list : List SubscribeItem) (c : Client)
    → HasAlloc a
    → c.state ≡ connected
    → All (λ item. length item.topic ≤ 65535) list
    → 2 + length (topics_with_qos list) ≤ 268435455
    → subscribe a list c ≡ some (requested 0x82 (topics_with_qos list) c)
unfolding subscribe request_with add_packet get_next_packet_id
subscribe-queues a list c ok state short h =
    let id = (get_next_packet_id c).packet_id in
    rw (state, ok.node, create_subscribe-frame a.memory id list ok.memory short h) refl

-- Likewise for unsubscribe and the UNSUBSCRIBE packet.
pub unsubscribe-queues :
    (a : Alloc) (list : List (List ℕ)) (c : Client)
    → HasAlloc a
    → c.state ≡ connected
    → All (λ topic. length topic ≤ 65535) list
    → 2 + length (topics_only list) ≤ 268435455
    → unsubscribe a list c ≡ some (requested 0xa2 (topics_only list) c)
unfolding unsubscribe request_with add_packet get_next_packet_id
unsubscribe-queues a list c ok state short h =
    let id = (get_next_packet_id c).packet_id in
    rw (state, ok.node, create_unsubscribe-frame a.memory id list ok.memory short h) refl
