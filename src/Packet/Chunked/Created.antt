-- ===== src/Packet/Chunked/Created.antt =====
-- What the callback constructor of PUBLISH (src/Packets/Packet.cpp) allocates and writes.
use esp_mqtt_client.Prelude.{
  ℕ, zero, suc, ◌+◌, ◌-◌, ◌*◌, ◌≤◌, ◌≡◌, ap, ◌∙◌, sym, List, ◌∷◌, ◌++◌, some, Bool, true, length,
  length-append, replicate, arith, subst, ◌==◌, ltb, if◌then◌else◌, min, leb, Bool-cases, inl, inr,
  append-nil,
}
use esp_mqtt_client.Config.{emc_rx_buffer_size, publish_type}
use esp_mqtt_client.RemainingLength.{encode_remaining_length, remaining_length_length}
use esp_mqtt_client.RemainingLength.Encode.{length-encode}
use esp_mqtt_client.Packet.{
  Packet, PayloadCallback, success, Memory, fresh_packet, packet_size, add_size, sub_size,
}
use esp_mqtt_client.Packet.Buffer.{concat, serialize-room, encode_string-short, two_bytes}
use esp_mqtt_client.Packet.Create.{build, chunked_from, create_chunked_publish, publish_header}
use esp_mqtt_client.Packet.Frame.{HasMemory, allocate-HasMemory}
use esp_mqtt_client.Packet.Publish.{id_bytes, retain_bit, publish_length_lem, publish_byte_lem}

-- The bytes in front of the payload.
abbrev pub head_bytes : ℕ → List ℕ → ℕ → ℕ → Bool → List ℕ
head_bytes packet_id topic rl qos retain =
    (publish_type + 2 * qos + retain_bit retain)
    ∷ (encode_remaining_length rl
        ++ (two_bytes (length topic) ++ (topic ++ id_bytes qos packet_id)))

-- The length of the body but for the payload.
abbrev pub head_length : ℕ → List ℕ → ℕ → ℕ
head_length packet_id topic qos = 2 + length topic + length (id_bytes qos packet_id)

pub publish_header-head :
    (packet_id : ℕ) (topic : List ℕ) (rl qos : ℕ) (retain : Bool)
    → qos ≤ 2
    → length topic ≤ 65535
    → concat (publish_header packet_id topic rl qos retain)
      ≡ head_bytes packet_id topic rl qos retain
unfolding publish_header
publish_header-head packet_id topic rl zero retain q t =
    simp (publish_byte_lem zero retain q, encode_string-short topic t, append-nil)
publish_header-head packet_id topic rl (suc n) retain q t =
    let sent : ltb 0 (suc n) ≡ true = ground arith in
    rw (sent, publish_byte_lem (suc n) retain q, encode_string-short topic t)

pub length-head_bytes :
    (packet_id : ℕ) (topic : List ℕ) (rl qos : ℕ) (retain : Bool)
    → rl ≤ 268435455
    → length (head_bytes packet_id topic rl qos retain)
      ≡ 1 + remaining_length_length rl + head_length packet_id topic qos
length-head_bytes packet_id topic rl qos retain h = omega (
  arith,
  length-encode rl h,
  length-append (encode_remaining_length rl)
      (two_bytes (length topic) ++ (topic ++ id_bytes qos packet_id)),
  length-append topic (id_bytes qos packet_id),
)

-- The remaining lengths: of the whole packet, and of what the buffer is allocated for.
abbrev pub whole_length : ℕ → List ℕ → ℕ → ℕ → ℕ
whole_length packet_id topic n qos = head_length packet_id topic qos + n

abbrev pub kept_length : ℕ → List ℕ → ℕ → ℕ → ℕ
kept_length packet_id topic n qos = head_length packet_id topic qos + min n emc_rx_buffer_size

-- The packet that the constructor makes: the head, room for one portion, and the payload to come.
abbrev pub chunked_packet : ℕ → List ℕ → ℕ → PayloadCallback → ℕ → Packet
chunked_packet packet_id head room callback n = record {
  packet_id = packet_id;
  contents = some (head ++ replicate room 0);
  size = length head + n;
  payload_index = length head;
  payload_start_index = length head;
  payload_end_index = length head;
  get_payload = some callback;
}

build-room :
    (mem : Memory) (p : Packet) (rl : ℕ) (chunks : List (List ℕ))
    → HasMemory mem
    → length (concat chunks) ≤ packet_size rl
    → build mem p rl true chunks
      ≡ some (
        record p {
          size = packet_size rl;
          contents = some (concat chunks ++ replicate (packet_size rl - length (concat chunks)) 0);
        },
        success,
      )
unfolding build
build-room mem p rl chunks ok h =
    rw (allocate-HasMemory mem rl true p ok, serialize-room (packet_size rl) chunks h)

-- The buffer has room for the head.
pub head-fits :
    (packet_id : ℕ) (topic : List ℕ) (n qos : ℕ) (retain : Bool)
    → whole_length packet_id topic n qos ≤ 268435455
    → length (head_bytes packet_id topic (whole_length packet_id topic n qos) qos retain)
      ≤ packet_size (kept_length packet_id topic n qos)
head-fits packet_id topic n qos retain h = elim (Bool-cases (leb n emc_rx_buffer_size)) [
  | inl small ↦
      let same : min n emc_rx_buffer_size ≡ n = ground arith in
      rw same (
        omega (
          arith,
          length-head_bytes packet_id topic (whole_length packet_id topic n qos) qos retain h,
          length-encode (whole_length packet_id topic n qos) h,
        ))
  | inr large ↦
      let cut : min n emc_rx_buffer_size ≡ emc_rx_buffer_size = ground arith in
      let less : head_length packet_id topic qos + emc_rx_buffer_size ≤ 268435455 = ground arith in
      rw cut (
        omega (
          arith,
          length-head_bytes packet_id topic (whole_length packet_id topic n qos) qos retain h,
          length-encode (whole_length packet_id topic n qos) h,
          length-encode (head_length packet_id topic qos + emc_rx_buffer_size) less,
        ))
]

size-fits :
    (packet_id : ℕ) (topic : List ℕ) (n qos : ℕ) (retain : Bool)
    → whole_length packet_id topic n qos ≤ 268435455
    → add_size
        (length (head_bytes packet_id topic (whole_length packet_id topic n qos) qos retain))
        n
      ≡ length (head_bytes packet_id topic (whole_length packet_id topic n qos) qos retain) + n
size-fits packet_id topic n qos retain h = omega (
  arith,
  length-head_bytes packet_id topic (whole_length packet_id topic n qos) qos retain h,
  length-encode (whole_length packet_id topic n qos) h,
)

chunked_from_lem :
    (mem : Memory) (packet_id : ℕ) (callback : PayloadCallback) (n rl kept : ℕ)
    (header : List (List ℕ))
    → HasMemory mem
    → add_size (sub_size rl n) (min n emc_rx_buffer_size) ≡ kept
    → length (concat header) ≤ packet_size kept
    → add_size (length (concat header)) n ≡ length (concat header) + n
    → chunked_from mem packet_id callback n rl header
      ≡ some (
        chunked_packet packet_id
            (concat header)
            (packet_size kept - length (concat header))
            callback
            n,
        success,
      )
unfolding chunked_from
chunked_from_lem mem packet_id callback n rl kept header ok e fits whole =
    rw (e, build-room mem (fresh_packet packet_id (some callback)) kept header ok fits, whole)

-- What the constructor makes when it succeeds.
abbrev pub created : ℕ → List ℕ → PayloadCallback → ℕ → ℕ → Bool → Packet
created packet_id topic callback n qos retain =
    let head = head_bytes packet_id topic (whole_length packet_id topic n qos) qos retain in
    chunked_packet (if qos == 0 then 0 else packet_id) head
      (packet_size (kept_length packet_id topic n qos) - length head) callback n

-- With memory the constructor succeeds, and the head of the protocol stands in front of the room for
-- the portions.
pub create_chunked_publish-created :
    (mem : Memory) (packet_id : ℕ) (topic : List ℕ) (callback : PayloadCallback) (n qos : ℕ)
    (retain : Bool)
    → HasMemory mem
    → length topic ≤ 65535
    → qos ≤ 2
    → whole_length packet_id topic n qos ≤ 268435455
    → create_chunked_publish mem packet_id topic callback n qos retain
      ≡ some (created packet_id topic callback n qos retain, success)
unfolding create_chunked_publish
create_chunked_publish-created mem packet_id topic callback n qos retain ok t q h =
    let whole = whole_length packet_id topic n qos in
    let header = publish_header packet_id topic whole qos retain in
    let head : concat header ≡ head_bytes packet_id topic whole qos retain =
      publish_header-head packet_id topic whole qos retain q t in
    let small = size-fits packet_id topic n qos retain h in
    rw (publish_length_lem packet_id topic n qos h) (
      chunked_from_lem mem (if qos == 0 then 0 else packet_id) callback n whole
        (kept_length packet_id topic n qos) header ok (omega arith)
        (subst (λ l. length l ≤ packet_size (kept_length packet_id topic n qos)) (sym head)
          (head-fits packet_id topic n qos retain h))
        (subst (λ l. add_size (length l) n ≡ length l + n) (sym head) small)
      ∙ ap
          (λ l. some (
            chunked_packet (if qos == 0 then 0 else packet_id) l
                (packet_size (kept_length packet_id topic n qos) - length l) callback n,
            success,
          ))
          head)
