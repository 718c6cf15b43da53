-- ===== src/Parser/PublishRoundTrip.antt =====
-- src/Packets/Parser.cpp reads what the PUBLISH constructor of src/Packets/Packet.cpp writes.
use esp_mqtt_client.Prelude.{
  ℕ, suc, ◌+◌, ◌≤◌, ◌≡◌, List, [], ◌∷◌, ◌++◌, length, arith, leb, set, refl, true, false, Bool, ap,
  ◌∙◌, take, bit_and, length-set, length-append, ◌||◌, take-set,
}
use esp_mqtt_client.Config.{publish_type}
use esp_mqtt_client.RemainingLength.{encode_remaining_length}
use esp_mqtt_client.RemainingLength.Encode.{length-encode}
use esp_mqtt_client.Packet.Publish.{kept_id}
use esp_mqtt_client.Parser.{
  Parser, IncomingPacket, reset_packet, qos, retain, dup, var_header_topic_length1,
  remaining_length_variable, fixed_header,
}
use esp_mqtt_client.Parser.FixedHeader.{step_fixed_header, fixed_header_switch}
use esp_mqtt_client.Parser.Parse.{call, parse_loop}
use esp_mqtt_client.Parser.Feed.{parser_at, Left, next, advance}
use esp_mqtt_client.Parser.Runs.{
  write_from, skip, length-write_from, take-write_from, decode-write_from, encode-Encoded,
  remaining_length_run,
}
use esp_mqtt_client.Parser.ReadPayload.{Read, payload_of}
use esp_mqtt_client.Parser.PublishBody.{FirstByte}

pub topic_stored_lem :
    (ts : List ℕ) (b : ℕ) (xs : List ℕ)
    → length xs ≡ 129
    → length ts + 1 ≤ 128
    → take
        (length (ts ++ (b ∷ [])) + 1)
        (set (set (write_from 0 ts xs) (length ts) b) (length ts + 1) 0)
      ≡ (ts ++ (b ∷ [])) ++ (0 ∷ [])
topic_stored_lem ts b xs e k =
    let stored = write_from 0 ts xs in
    let same : length (ts ++ (b ∷ [])) + 1 ≡ suc (length ts + 1) =
      omega (arith, length-append ts (b ∷ [])) in
    let last : length ts + 1 ≡ suc (length ts) = omega arith in
    ap (λ n. take n (set (set stored (length ts) b) (length ts + 1) 0)) same
    ∙ take-set (set stored (length ts) b) (length ts + 1) 0
        (omega (arith, length-set stored (length ts) b, length-write_from 0 ts xs))
    ∙ ap (λ n. take n (set stored (length ts) b) ++ (0 ∷ [])) last
    ∙ ap (λ ys. ys ++ (0 ∷ []))
        (take-set stored (length ts) b (omega (arith, length-write_from 0 ts xs)))
    ∙ ap (λ ys. (ys ++ (b ∷ [])) ++ (0 ∷ []))
        (take-write_from 0 ts xs (length ts) (omega arith) (omega arith))

-- A packet as the parser delivers it after one call: `bytes` is the input.
pub record Delivered (bytes topic payload : List ℕ) (packet_id q : ℕ) (r : Bool) (p : Parser)
    : Type 0 where
  pub all_read : p.bytes_read ≡ length bytes
  pub starts_over : p.state ≡ fixed_header
  pub quality : qos p.incoming ≡ q
  pub retained : retain p.incoming ≡ r
  pub first_time : dup p.incoming ≡ false
  pub id : p.incoming.fixed ≡ kept_id q packet_id
  pub topic_string : take (length topic + 1) p.incoming.topic ≡ topic ++ (0 ∷ [])
  pub at_once : p.incoming.payload_index ≡ 0
  pub total : p.incoming.payload_total ≡ length payload
  pub payload_bytes : payload_of p ≡ payload

pub Read-Delivered :
    (bytes topic payload array : List ℕ) (packet_id q : ℕ) (r : Bool) (b : ℕ) (p : Parser)
    → FirstByte q r b
    → Read bytes b (kept_id q packet_id) array payload p
    → take (length topic + 1) array ≡ topic ++ (0 ∷ [])
    → Delivered bytes topic payload packet_id q r p
unfolding qos retain dup
Read-Delivered bytes topic payload array packet_id q r b p f d t = record {
  all_read = d.all_read;
  starts_over = d.starts_over;
  quality = rw (d.type, f.is_publish) f.qos_bits;
  retained = rw (d.type, f.is_publish) f.retain_flag;
  first_time = rw (d.type, f.is_publish, f.no_dup) refl;
  id = d.id;
  topic_string = rw d.topic_array t;
  at_once = d.at_once;
  total = d.total;
  payload_bytes = d.payload_bytes;
}

-- The fixed header takes the parser to the length of the topic.
pub header_read :
    (buffer : List ℕ) (pos : ℕ) (i : IncomingPacket) (first v : ℕ) (rest : List ℕ)
    → bit_and first 0xf0 ≡ publish_type
    → (leb (bit_and first 0x0f) 0x05 || leb 0x0a (bit_and first 0x0f)) ≡ true
    → Left
        (first ∷ (encode_remaining_length v ++ rest))
        0
        (first ∷ (encode_remaining_length v ++ rest))
    → length i.remaining_length_raw ≡ 4
    → v ≤ 268435455
    → (pos' : ℕ) × (parse_loop
          (length (first ∷ (encode_remaining_length v ++ rest)))
          (parser_at (first ∷ (encode_remaining_length v ++ rest)) buffer 0 pos fixed_header i)
        ≡ parse_loop (length rest) (
            parser_at
              (first ∷ (encode_remaining_length v ++ rest))
              buffer
              (skip (encode_remaining_length v) 1)
              pos'
              var_header_topic_length1
              (record (reset_packet i) {
                packet_type = first;
                remaining_length_raw =
                    write_from 0 (encode_remaining_length v) i.remaining_length_raw;
                remaining_length = v;
              })))
unfolding call step_fixed_header fixed_header_switch
header_read buffer pos i first v rest t a l raw h =
    let i1 = record (reset_packet i) { packet_type = first } in
    let one = advance buffer pos 0 fixed_header remaining_length_variable i i1 l (rw (t, a) refl) in
    let bs = encode_remaining_length v in
    let others =
      remaining_length_run buffer 0 v i1 bs rest (next l) (encode-Encoded v h) t raw
        (omega (arith, length-encode v h)) (decode-write_from v i.remaining_length_raw h raw)
        (omega arith) in
    (others.0, one ∙ others.1)
