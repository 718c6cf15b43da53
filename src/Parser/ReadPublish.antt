-- ===== src/Parser/ReadPublish.antt =====
-- src/Packets/Parser.cpp reads a PUBLISH packet: the part from the last byte of the topic on.
use esp_mqtt_client.Prelude.{
  ℕ, zero, suc, ◌+◌, ◌*◌, ◌/◌, ◌%◌, ◌≤◌, ◌<◌, ◌≡◌, List, [], ◌∷◌, ◌++◌, some, length, arith, set,
  refl, true, false, ◌∙◌, bit_and, bit_or, ◌==◌, length-set, bit_or_bytes, zero-bit_or,
}
use esp_mqtt_client.Config.{publish_type}
use esp_mqtt_client.Packet.{sub_size}
use esp_mqtt_client.Packet.Buffer.{two_bytes}
use esp_mqtt_client.Packet.Publish.{id_bytes, kept_id}
use esp_mqtt_client.Parser.{
  Parser, IncomingPacket, packet, var_header_topic, var_header_packet_id1, var_header_packet_id2,
  payload_publish, fixed_header,
}
use esp_mqtt_client.Parser.Step.{
  step_topic, topic_stored, topic_complete, step_packet_id1, step_packet_id2, packet_id_complete,
}
use esp_mqtt_client.Parser.Parse.{call, parse_loop}
use esp_mqtt_client.Parser.PublishSafety.{store_inside}
use esp_mqtt_client.Parser.Feed.{parser_at, Left, next, advance, finish}
use esp_mqtt_client.Parser.Runs.{Left-length}
use esp_mqtt_client.Parser.ReadPayload.{Read, Fresh, no_payload, payload-Read}

-- A packet that ends where its payload would begin.
Read-empty :
    {bytes : List ℕ} (buffer : List ℕ) (n pos id : ℕ) (i : IncomingPacket)
    → n ≡ length bytes
    → i.fixed ≡ id
    → i.payload_index ≡ 0
    → i.payload_length ≡ 0
    → i.payload_total ≡ 0
    → Read bytes i.packet_type id i.topic [] (parser_at bytes buffer n pos fixed_header i)
Read-empty {bytes} buffer n pos id i e w x z t = record {
  all_read = e;
  starts_over = refl;
  type = refl;
  id = w;
  topic_array = refl;
  at_once = x;
  total = t;
  available = z;
  payload_bytes = no_payload i.payload_data buffer bytes i.payload_length z;
}

-- The second byte of the packet id and what follows.
second_id-Read :
    {bytes : List ℕ} (buffer : List ℕ) {n : ℕ} (pos hi lo id : ℕ) (i : IncomingPacket)
    (payload : List ℕ)
    → Left bytes n (lo ∷ payload)
    → bit_and i.packet_type 0xf0 ≡ publish_type
    → bit_or i.fixed lo ≡ id
    → 1 ≤ id
    → i.payload_index ≡ 0
    → i.payload_length ≡ 0
    → i.payload_total ≡ 2 + length payload
    → (q : Parser) × (parse_loop
          (length (lo ∷ payload))
          (parser_at bytes buffer n pos var_header_packet_id2 i)
        ≡ some (packet, q))
      × Read bytes i.packet_type id i.topic payload q
unfolding call step_packet_id2 packet_id_complete
second_id-Read {bytes} buffer {n} pos hi lo id i [] l y w o x z t =
    let there : (id == 0) ≡ false = ground arith in
    let i' = record i { fixed = id; payload_total = 0 } in
    let ends : suc n ≡ length bytes = omega (arith, Left-length l) in
    (
      parser_at bytes buffer (suc n) pos fixed_header i',
      finish buffer pos n pos var_header_packet_id2 fixed_header i i' l (omega (arith, l.in_range))
          (rw (w, there, y, t) refl),
      Read-empty buffer (suc n) pos id i' ends refl x z refl,
    )
second_id-Read {bytes} buffer {n} pos hi lo id i (b ∷ rest) l y w o x z t =
    let there : (id == 0) ≡ false = ground arith in
    let less : sub_size (2 + length (b ∷ rest)) 2 ≡ length (b ∷ rest) =
      omega (arith, Left-length l, l.in_range) in
    let more : (length (b ∷ rest) == 0) ≡ false = ground arith in
    let i' = record i { fixed = id; payload_total = length (b ∷ rest) } in
    let read = payload-Read buffer pos i.packet_type id i' (next l) refl refl x z refl in
    (
      read.0,
      advance buffer pos pos var_header_packet_id2 payload_publish i i' l
            (rw (w, there, y, t, less, more) refl)
          ∙ read.1,
      read.2,
    )

-- The two bytes of the packet id and what follows.
id-Read :
    {bytes : List ℕ} (buffer : List ℕ) {n : ℕ} (pos id : ℕ) (i : IncomingPacket) (payload : List ℕ)
    → Left bytes n (two_bytes id ++ payload)
    → Fresh i
    → 1 ≤ id
    → id < 65536
    → i.payload_total ≡ 2 + length payload
    → (q : Parser) × (parse_loop
          (length (two_bytes id ++ payload))
          (parser_at bytes buffer n pos var_header_packet_id1 i)
        ≡ some (packet, q))
      × Read bytes i.packet_type id i.topic payload q
unfolding call step_packet_id1
id-Read {bytes} buffer {n} pos id i payload l f o m t =
    let hi = id / 256 % 256 in
    let lo = id % 256 in
    let i1 = record i { fixed = hi * 256 } in
    let word : bit_or (hi * 256) lo ≡ id = omega (arith, bit_or_bytes hi lo) in
    let read =
      second_id-Read buffer pos hi lo id i1 payload (next l) f.is_publish word o f.no_index
        f.no_length t in
    (
      read.0,
      advance buffer pos pos var_header_packet_id1 var_header_packet_id2 i i1 l
            (rw (f.no_id, zero-bit_or (hi * 256)) refl)
          ∙ read.1,
      read.2,
    )

-- The last byte of the topic, and the delimiter behind it.
topic_ends :
    (b : ℕ) (p : Parser)
    → p.byte_pos + 1 ≡ p.incoming.topic_length
    → p.byte_pos + 1 ≤ 128
    → length p.incoming.topic ≡ 129
    → step_topic b p
      ≡ some (
          topic_complete (record p {
            byte_pos = p.byte_pos + 1;
            incoming = record p.incoming {
              topic = set (set p.incoming.topic p.byte_pos b) (p.byte_pos + 1) 0;
            };
          }))
unfolding step_topic topic_stored
topic_ends b p k e a =
    let i = p.incoming in
    let one = store_inside i.topic p.byte_pos b (omega arith) in
    let two =
      store_inside (set i.topic p.byte_pos b) (p.byte_pos + 1) 0
        (omega (arith, length-set i.topic p.byte_pos b)) in
    let ending : (p.byte_pos + 1 == i.topic_length) ≡ true = ground arith in
    rw (one, ending, two) refl

-- The last byte of the topic and what follows.
pub last_topic_byte-Read :
    {bytes : List ℕ} (buffer : List ℕ) {n : ℕ} (pos b qos id : ℕ) (i : IncomingPacket)
    (payload : List ℕ)
    → Left bytes n (b ∷ (id_bytes qos id ++ payload))
    → Fresh i
    → bit_and i.packet_type 6 == 0 ≡ (qos == 0)
    → 1 ≤ id
    → id < 65536
    → pos + 1 ≡ i.topic_length
    → pos + 1 ≤ 128
    → length i.topic ≡ 129
    → i.payload_total ≡ length (id_bytes qos id) + length payload
    → (q : Parser) × (parse_loop
          (length (b ∷ (id_bytes qos id ++ payload)))
          (parser_at bytes buffer n pos var_header_topic i)
        ≡ some (packet, q))
      × Read bytes i.packet_type (kept_id qos id) (set (set i.topic pos b) (pos + 1) 0) payload q
unfolding call topic_complete
last_topic_byte-Read {bytes} buffer {n} pos b zero id i [] l f g o m e k a t =
    let i' = record i { topic = set (set i.topic pos b) (pos + 1) 0 } in
    let ends : suc n ≡ length bytes = omega (arith, Left-length l) in
    (
      parser_at bytes buffer (suc n) (pos + 1) fixed_header i',
      finish buffer pos n (pos + 1) var_header_topic fixed_header i i' l (omega (arith, l.in_range))
          (topic_ends b (parser_at bytes buffer n pos var_header_topic i) e k a ∙ rw (g, t) refl),
      Read-empty buffer (suc n) (pos + 1) 0 i' ends f.no_id f.no_index f.no_length t,
    )
last_topic_byte-Read {bytes} buffer {n} pos b zero id i (c ∷ cs) l f g o m e k a t =
    let i' = record i { topic = set (set i.topic pos b) (pos + 1) 0 } in
    let more : (i.payload_total == 0) ≡ false = ground arith in
    let read =
      payload-Read buffer (pos + 1) i.packet_type 0 i' (next l) refl f.no_id f.no_index f.no_length
        (omega arith) in
    (
      read.0,
      advance buffer pos (pos + 1) var_header_topic payload_publish i i' l (
            topic_ends b (parser_at bytes buffer n pos var_header_topic i) e k a
            ∙ rw (g, more) refl)
          ∙ read.1,
      read.2,
    )
last_topic_byte-Read {bytes} buffer {n} pos b (suc q) id i payload l f g o m e k a t =
    let i' = record i { topic = set (set i.topic pos b) (pos + 1) 0 } in
    let has_id : (bit_and i.packet_type 6 == 0) ≡ false = ground (arith, g) in
    let read =
      id-Read buffer (pos + 1) id i' payload (next l)
        (record {
          is_publish = f.is_publish;
          no_id = f.no_id;
          no_index = f.no_index;
          no_length = f.no_length;
        })
        o m (omega arith) in
    (
      read.0,
      advance buffer pos (pos + 1) var_header_topic var_header_packet_id1 i i' l
            (topic_ends b (parser_at bytes buffer n pos var_header_topic i) e k a ∙ rw has_id refl)
          ∙ read.1,
      read.2,
    )
