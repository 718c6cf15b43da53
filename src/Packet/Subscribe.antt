-- ===== src/Packet/Subscribe.antt =====
-- _createSubscribe and _createUnsubscribe of src/Packets/Packet.cpp write the packets of the
-- protocol.
use esp_mqtt_client.Prelude.{
  ℕ, ◌+◌, ◌%◌, ◌^◌, ◌≤◌, ◌≡◌, refl, ◌∙◌, List, [], ◌∷◌, ◌++◌, some, true, length, length-append,
  arith, All,
}
use esp_mqtt_client.Packet.{success, Memory}
use esp_mqtt_client.Packet.Buffer.{encode_string-short, two_bytes, concat}
use esp_mqtt_client.Packet.Create.{
  SubscribeItem, create_subscribe, create_unsubscribe, subscribe_payload, subscribe_chunks,
  unsubscribe_payload, unsubscribe_chunks,
}
use esp_mqtt_client.Packet.Frame.{frame, HasMemory, packet_of, build-frame}

-- The payload of SUBSCRIBE: each topic with its length and its QoS.
abbrev pub topics_with_qos : List SubscribeItem → List ℕ
topics_with_qos [] = []
topics_with_qos (item ∷ list) =
    two_bytes (length item.topic) ++ (item.topic ++ (item.qos ∷ topics_with_qos list))

abbrev pub topics_only : List (List ℕ) → List ℕ
topics_only [] = []
topics_only (topic ∷ list) = two_bytes (length topic) ++ (topic ++ topics_only list)

subscribe_chunks-concat :
    (list : List SubscribeItem)
    → All (λ item. length item.topic ≤ 65535) list
    → concat (subscribe_chunks list) ≡ topics_with_qos list
unfolding subscribe_chunks
subscribe_chunks-concat [] h = refl
subscribe_chunks-concat (item ∷ list) h =
    rw (encode_string-short item.topic h.0, subscribe_chunks-concat list h.1)

subscribe_payload-length :
    (list : List SubscribeItem) (n : ℕ)
    → n + length (topics_with_qos list) ≤ 268435455
    → subscribe_payload list n ≡ n + length (topics_with_qos list)
unfolding subscribe_payload
subscribe_payload-length [] n h = omega arith
subscribe_payload-length (item ∷ list) n h =
    let whole : length (topics_with_qos (item ∷ list))
        ≡ 2 + length item.topic + 1 + length (topics_with_qos list) =
      omega (arith, length-append item.topic (item.qos ∷ topics_with_qos list)) in
    let step : (n + (2 + length item.topic + 1)) % 2 ^ 32 ≡ n + (2 + length item.topic + 1) =
      omega arith in
    rw step
      (subscribe_payload-length list (n + (2 + length item.topic + 1)) (omega arith) ∙ omega arith)

-- With memory, topics of at most 65535 bytes and a body that fits the packet format, _createSubscribe
-- succeeds on any list of topics and its buffer holds exactly the SUBSCRIBE packet.
pub create_subscribe-frame :
    (mem : Memory) (packet_id : ℕ) (list : List SubscribeItem)
    → HasMemory mem
    → All (λ item. length item.topic ≤ 65535) list
    → 2 + length (topics_with_qos list) ≤ 268435455
    → create_subscribe mem packet_id list
      ≡ some
          (packet_of packet_id (frame 0x82 (two_bytes packet_id ++ topics_with_qos list)), success)
unfolding create_subscribe
create_subscribe-frame mem packet_id list ok short h =
    let e : subscribe_payload list 0 ≡ 0 + length (topics_with_qos list) =
      subscribe_payload-length list 0 (omega arith) in
    let rl : (2 + subscribe_payload list 0) % 2 ^ 32
        ≡ length (two_bytes packet_id ++ topics_with_qos list) =
      omega arith in
    build-frame mem packet_id _ 0x82 (two_bytes packet_id ++ topics_with_qos list) true _ ok rl
      (omega arith) (rw (rl, subscribe_chunks-concat list short))

unsubscribe_chunks-concat :
    (list : List (List ℕ))
    → All (λ topic. length topic ≤ 65535) list
    → concat (unsubscribe_chunks list) ≡ topics_only list
unfolding unsubscribe_chunks
unsubscribe_chunks-concat [] h = refl
unsubscribe_chunks-concat (topic ∷ list) h =
    rw (encode_string-short topic h.0, unsubscribe_chunks-concat list h.1)

unsubscribe_payload-length :
    (list : List (List ℕ)) (n : ℕ)
    → n + length (topics_only list) ≤ 268435455
    → unsubscribe_payload list n ≡ n + length (topics_only list)
unfolding unsubscribe_payload
unsubscribe_payload-length [] n h = omega arith
unsubscribe_payload-length (topic ∷ list) n h =
    let whole : length (topics_only (topic ∷ list)) ≡ 2 + length topic + length (topics_only list) =
      omega (arith, length-append topic (topics_only list)) in
    let step : (n + (2 + length topic)) % 2 ^ 32 ≡ n + (2 + length topic) = omega arith in
    rw step (unsubscribe_payload-length list (n + (2 + length topic)) (omega arith) ∙ omega arith)

-- Under the same conditions _createUnsubscribe succeeds and its buffer holds exactly the UNSUBSCRIBE
-- packet.
pub create_unsubscribe-frame :
    (mem : Memory) (packet_id : ℕ) (list : List (List ℕ))
    → HasMemory mem
    → All (λ topic. length topic ≤ 65535) list
    → 2 + length (topics_only list) ≤ 268435455
    → create_unsubscribe mem packet_id list
      ≡ some (packet_of packet_id (frame 0xa2 (two_bytes packet_id ++ topics_only list)), success)
unfolding create_unsubscribe
create_unsubscribe-frame mem packet_id list ok short h =
    let e : unsubscribe_payload list 0 ≡ 0 + length (topics_only list) =
      unsubscribe_payload-length list 0 (omega arith) in
    let rl : (2 + unsubscribe_payload list 0) % 2 ^ 32
        ≡ length (two_bytes packet_id ++ topics_only list) =
      omega arith in
    build-frame mem packet_id _ 0xa2 (two_bytes packet_id ++ topics_only list) true _ ok rl
      (omega arith) (rw (rl, unsubscribe_chunks-concat list short))
