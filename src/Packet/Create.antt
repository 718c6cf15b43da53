-- ===== src/Packet/Create.antt =====
-- The constructors of src/Packets/Packet.cpp. The chunks of each are the writes of the C++ code in
-- order.
use esp_mqtt_client.Prelude.{
  ℕ, ◌+◌, List, [], ◌∷◌, ◌++◌, Option, none, some, Bool, true, ltb, ◌==◌, if◌then◌else◌, bit_or,
  length, min, ◌>>=◌,
}
use esp_mqtt_client.Config.{
  emc_rx_buffer_size, publish_type, pubrel_type, subscribe_type, unsubscribe_type, reserved_flag,
  publish_qos1, publish_qos2, publish_retain,
}
use esp_mqtt_client.RemainingLength.{encode_remaining_length}
use esp_mqtt_client.Packet.{
  Packet, PayloadCallback, Error, success, out_of_memory, Memory, allocate, fresh_packet, add_size,
  sub_size,
}
use esp_mqtt_client.Packet.Buffer.{serialize, encode_string, two_bytes, concat}

-- Allocate, then write the chunks; the body that the constructors share.
unfoldable pub build : Memory → Packet → ℕ → Bool → List (List ℕ) → Option (Packet × Error)
build mem p remaining_length check chunks =
    let (p', allocated) = allocate mem remaining_length check p in
    if allocated
    then (do bytes ← serialize p'.size chunks; some (record p' { contents = some bytes }, success))
    else some (p', out_of_memory)

-- The first byte of PUBLISH. For a QoS above 2 the C++ code does not step over the byte, and the
-- next write replaces it.
unfoldable pub publish_byte : ℕ → Bool → List ℕ
publish_byte qos retain =
    let base : ℕ = if retain then bit_or publish_type publish_retain else publish_type in
    if qos == 0
    then base ∷ []
    else if qos == 1
    then bit_or base publish_qos1 ∷ []
    else if qos == 2
    then bit_or base publish_qos2 ∷ []
    else []

-- Packet::_fillPublishHeader
unfoldable pub publish_header : ℕ → List ℕ → ℕ → ℕ → Bool → List (List ℕ)
publish_header packet_id topic remaining_length qos retain =
    publish_byte qos retain
    ∷ encode_remaining_length remaining_length
    ∷ encode_string topic
    ∷ (if ltb 0 qos then two_bytes packet_id else [])
    ∷ []

unfoldable pub publish_length : List ℕ → ℕ → ℕ → ℕ
publish_length topic payload_length qos =
    let whole = add_size (2 + length topic + 2) payload_length in
    if qos == 0 then sub_size whole 2 else whole

-- PUBLISH with the payload at hand
unfoldable pub create_publish : Memory → ℕ → List ℕ → List ℕ → ℕ → Bool → Option (Packet × Error)
unfolding build
create_publish mem packet_id topic payload qos retain =
    let remaining_length = publish_length topic (length payload) qos in
    build mem (fresh_packet (if qos == 0 then 0 else packet_id) none) remaining_length true
      (publish_header packet_id topic remaining_length qos retain ++ (payload ∷ []))

-- PUBLISH with a callback for the payload: the body behind the remaining length and the header. The
-- buffer has room for the header and one portion.
unfoldable pub chunked_from :
    Memory
    → ℕ
    → PayloadCallback
    → (payload_length remaining_length : ℕ) → List (List ℕ)
    → Option (Packet × Error)
chunked_from mem packet_id callback payload_length remaining_length header = do
  (p, error) ←
      build mem (fresh_packet packet_id (some callback))
        (add_size (sub_size remaining_length payload_length)
          (min payload_length emc_rx_buffer_size))
        true header
  elim error [
    | success ↦ some (
      record p {
        size = add_size (length (concat header)) payload_length;
        payload_index = length (concat header);
        payload_start_index = length (concat header);
        payload_end_index = length (concat header);
      },
      success,
    )
    | failed ↦ some (p, failed)
  ]

unfoldable pub create_chunked_publish :
    Memory → ℕ → List ℕ → PayloadCallback → ℕ → ℕ → Bool → Option (Packet × Error)
create_chunked_publish mem packet_id topic callback payload_length qos retain =
    let remaining_length = publish_length topic payload_length qos in
    chunked_from mem (if qos == 0 then 0 else packet_id) callback payload_length remaining_length
      (publish_header packet_id topic remaining_length qos retain)

-- Packet::SubscribeItem
pub record SubscribeItem : Type 0 where
  pub topic : List ℕ
  pub qos : ℕ

-- The first loop of _createSubscribe, and the chunks of the second.
unfoldable pub subscribe_payload : List SubscribeItem → ℕ → ℕ
subscribe_payload [] payload = payload
subscribe_payload (item ∷ list) payload =
    subscribe_payload list (add_size payload (2 + length item.topic + 1))

unfoldable pub subscribe_chunks : List SubscribeItem → List (List ℕ)
subscribe_chunks [] = []
subscribe_chunks (item ∷ list) = encode_string item.topic ∷ (item.qos ∷ []) ∷ subscribe_chunks list

-- SUBSCRIBE: _createSubscribe on the packet of its constructors
unfoldable pub create_subscribe : Memory → ℕ → List SubscribeItem → Option (Packet × Error)
unfolding build
create_subscribe mem packet_id list =
    let remaining_length = add_size 2 (subscribe_payload list 0) in
    build mem (fresh_packet packet_id none) remaining_length true (
      (bit_or subscribe_type reserved_flag ∷ [])
      ∷ encode_remaining_length remaining_length
      ∷ two_bytes packet_id
      ∷ subscribe_chunks list)

unfoldable pub unsubscribe_payload : List (List ℕ) → ℕ → ℕ
unsubscribe_payload [] payload = payload
unsubscribe_payload (topic ∷ list) payload =
    unsubscribe_payload list (add_size payload (2 + length topic))

unfoldable pub unsubscribe_chunks : List (List ℕ) → List (List ℕ)
unsubscribe_chunks [] = []
unsubscribe_chunks (topic ∷ list) = encode_string topic ∷ unsubscribe_chunks list

-- UNSUBSCRIBE: _createUnsubscribe on the packet of its constructors
unfoldable pub create_unsubscribe : Memory → ℕ → List (List ℕ) → Option (Packet × Error)
unfolding build
create_unsubscribe mem packet_id list =
    let remaining_length = add_size 2 (unsubscribe_payload list 0) in
    build mem (fresh_packet packet_id none) remaining_length true (
      (bit_or unsubscribe_type reserved_flag ∷ [])
      ∷ encode_remaining_length remaining_length
      ∷ two_bytes packet_id
      ∷ unsubscribe_chunks list)

-- PUBACK, PUBREC, PUBREL, PUBCOMP
unfoldable pub create_ack : Memory → ℕ → ℕ → Option (Packet × Error)
unfolding build
create_ack mem type packet_id = build mem (fresh_packet packet_id none) 2 true (
    ((if type == pubrel_type then bit_or type reserved_flag else type) ∷ [])
    ∷ encode_remaining_length 2
    ∷ two_bytes packet_id
    ∷ [])

-- PINGREQ, DISCONNECT
unfoldable pub create_simple : Memory → ℕ → Option (Packet × Error)
unfolding build
create_simple mem type = build mem (fresh_packet 0 none) 0 true ((type ∷ []) ∷ [])
