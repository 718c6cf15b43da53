-- ===== src/Packet/Chunked/Overflow.antt =====
-- A portion that does not fit the buffer of a PUBLISH packet with a callback
-- (src/Packets/Packet.cpp: the constructor and _chunkedAvailable).
use esp_mqtt_client.Prelude.{
  ℕ, ◌+◌, ◌-◌, ◌≤◌, ◌<◌, ◌≡◌, List, ◌++◌, some, none, Bool, true, false, length, length-append,
  length-replicate, replicate, arith, ◌==◌, ltb, leb, if◌then◌else◌, min,
}
use esp_mqtt_client.RemainingLength.{remaining_length_length}
use esp_mqtt_client.RemainingLength.Encode.{length-encode}
use esp_mqtt_client.Packet.{Packet, PayloadCallback, Memory, success, sub_size, packet_size}
use esp_mqtt_client.Packet.Create.{create_chunked_publish}
use esp_mqtt_client.Packet.Frame.{HasMemory}
use esp_mqtt_client.Packet.Chunked.{available, chunked_available, chunked_refresh, fetch, fill}
use esp_mqtt_client.Packet.Chunked.Created.{
  chunked_packet, created, whole_length, kept_length, head_bytes, length-head_bytes,
  create_chunked_publish-created,
}

chunked_packet-overflow :
    (packet_id : ℕ) (head : List ℕ) (room : ℕ) (callback : PayloadCallback) (n : ℕ)
    → 0 < length head
    → 1440 ≤ n
    → length head + n ≤ 4294967295
    → room < 1440
    → length (callback 1440 0) ≡ 1440
    → available (chunked_packet packet_id head room callback n) 0 ≡ none
unfolding available chunked_available chunked_refresh fetch fill
chunked_packet-overflow packet_id head room callback n pos large fits short fills =
    let a : leb (length head + n) 0 ≡ false = ground arith in
    let b : ltb 0 (length head) ≡ true = ground arith in
    let c : ltb (length head) (length head + n) ≡ true = ground arith in
    let d : (length head == 0) ≡ false = ground arith in
    let e : min 1440 (sub_size (length head + n) (length head)) ≡ 1440 = omega arith in
    let f : leb (length head + 1440) (length (head ++ replicate room 0)) ≡ false =
      ground (arith, length-append head (replicate room 0), length-replicate {A = ℕ} room 0) in
    rw (a, b, c, d, e, fills, f)

-- With memory, a topic of at most 65535 bytes, a QoS of at most 2, a body that fits the packet format and
-- a payload of at least a full portion (1440 bytes), the constructor of a PUBLISH packet with a callback
-- succeeds; but if the length field of the whole packet needs more bytes than that of the
-- packet that the buffer is allocated for, and the callback fills the room it is offered, then the first
-- call of `available` on the packet that the constructor returns lets the callback write behind the end
-- of the buffer.
pub available_overflow :
    (mem : Memory) (packet_id : ℕ) (topic : List ℕ) (callback : PayloadCallback) (n qos : ℕ)
    (retain : Bool)
    → HasMemory mem
    → length topic ≤ 65535
    → qos ≤ 2
    → whole_length packet_id topic n qos ≤ 268435455
    → 1440 ≤ n
    → remaining_length_length (kept_length packet_id topic n qos)
      < remaining_length_length (whole_length packet_id topic n qos)
    → length (callback 1440 0) ≡ 1440
    → (p : Packet) × (create_chunked_publish mem packet_id topic callback n qos retain
        ≡ some (p, success))
      × (available p 0 ≡ none)
available_overflow mem packet_id topic callback n qos retain ok t q small large longer fills =
    let whole = whole_length packet_id topic n qos in
    let kept = kept_length packet_id topic n qos in
    let head = head_bytes packet_id topic whole qos retain in
    let size = length-head_bytes packet_id topic whole qos retain small in
    (
      created packet_id topic callback n qos retain,
      create_chunked_publish-created mem packet_id topic callback n qos retain ok t q small,
      chunked_packet-overflow (if qos == 0 then 0 else packet_id) head
          (packet_size kept - length head) callback n (omega (arith, length-encode whole small))
          large (omega (arith, length-encode whole small)) (omega (arith, size)) fills,
    )
