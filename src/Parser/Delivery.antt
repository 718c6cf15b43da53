-- ===== src/Parser/Delivery.antt =====
-- Whole packets through Parser::parse (src/Packets/Parser.cpp).
use esp_mqtt_client.Prelude.{
  ℕ, ◌+◌, ◌≤◌, ◌<◌, ◌≡◌, List, [], ◌∷◌, ◌++◌, some, length, arith, refl, Bool, ap, sym, subst, ◌∙◌,
  length-append, append_assoc,
}
use esp_mqtt_client.RemainingLength.{encode_remaining_length}
use esp_mqtt_client.RemainingLength.Encode.{length-encode}
use esp_mqtt_client.Packet.Buffer.{two_bytes}
use esp_mqtt_client.Packet.Publish.{id_bytes, publish_frame, publish_body, length-publish_body}
use esp_mqtt_client.Packet.{Packet, Memory, success}
use esp_mqtt_client.Packet.Create.{create_publish}
use esp_mqtt_client.Packet.Frame.{HasMemory}
use esp_mqtt_client.Packet.Publish.{create_publish-frame}
use esp_mqtt_client.Parser.{
  Parser, IncomingPacket, packet, fixed_header, reset_packet, var_header_topic_length1,
}
use esp_mqtt_client.Parser.Invariant.{Arrays}
use esp_mqtt_client.Parser.Parse.{parse_loop, parse}
use esp_mqtt_client.Parser.Feed.{parser_at, Left, next}
use esp_mqtt_client.Parser.Runs.{write_from, skip, skip-Left}
use esp_mqtt_client.Parser.PublishBody.{publish_first, publish_first-FirstByte, body-Read}
use esp_mqtt_client.Parser.PublishRoundTrip.{
  Delivered, Read-Delivered, topic_stored_lem, header_read,
}

pub parse-at :
    (bytes : List ℕ) (p : Parser)
    → p.state ≡ fixed_header
    → parse bytes p
      ≡ parse_loop
          (length bytes)
          (parser_at bytes p.payload_bytes 0 p.byte_pos fixed_header p.incoming)
unfolding parse
parse-at bytes p s =
    ap (λ f. parse_loop (length bytes) (parser_at bytes p.payload_bytes 0 p.byte_pos f p.incoming))
      s

snoc_body :
    (id : ℕ) (ts : List ℕ) (b : ℕ) (payload : List ℕ) (q : ℕ)
    → publish_body id (ts ++ (b ∷ [])) payload q
      ≡ two_bytes (length ts + 1) ++ (ts ++ (b ∷ (id_bytes q id ++ payload)))
snoc_body id ts b payload q =
    let e : length (ts ++ (b ∷ [])) ≡ length ts + 1 = omega (arith, length-append ts (b ∷ [])) in
    ap (λ n. two_bytes n ++ ((ts ++ (b ∷ [])) ++ (id_bytes q id ++ payload))) e
    ∙ ap (λ ys. two_bytes (length ts + 1) ++ ys)
        (append_assoc ts (b ∷ []) (id_bytes q id ++ payload))

snoc_read :
    (p : Parser) (packet_id q : ℕ) (ts : List ℕ) (b : ℕ) (payload : List ℕ) (r : Bool)
    → p.state ≡ fixed_header
    → Arrays p
    → q ≤ 2
    → length ts + 1 ≤ 128
    → 1 ≤ packet_id
    → packet_id < 65536
    → length (publish_body packet_id (ts ++ (b ∷ [])) payload q) ≤ 268435455
    → (p' : Parser) × (parse (publish_frame packet_id (ts ++ (b ∷ [])) payload q r) p
        ≡ some (packet, p'))
      × Delivered
          (publish_frame packet_id (ts ++ (b ∷ [])) payload q r)
          (ts ++ (b ∷ []))
          payload
          packet_id
          q
          r
          p'
snoc_read p packet_id q ts b payload r s a k t o u h =
    let topic = ts ++ (b ∷ []) in
    let body = publish_body packet_id topic payload q in
    let v = length body in
    let first = publish_first q r in
    let bytes = publish_frame packet_id topic payload q r in
    let facts = publish_first-FirstByte q r k in
    let whole : Left bytes 0 bytes = record {
      behind = refl;
      in_range = omega (arith, length-append (encode_remaining_length v) body, length-encode v h);
    } in
    let head =
      header_read p.payload_bytes p.byte_pos p.incoming first v body facts.is_publish facts.accepted
        whole a.raw h in
    let i : IncomingPacket = record (reset_packet p.incoming) {
      packet_type = first;
      remaining_length_raw =
          write_from 0 (encode_remaining_length v) p.incoming.remaining_length_raw;
      remaining_length = v;
    } in
    let left = skip-Left (encode_remaining_length v) (next whole) in
    let e = snoc_body packet_id ts b payload q in
    let size : v ≡ 2 + (length ts + 1) + length (id_bytes q packet_id) + length payload =
      omega (arith, length-publish_body packet_id topic payload q, length-append ts (b ∷ [])) in
    let read =
      body-Read p.payload_bytes head.0 q packet_id ts b payload i
        (subst (Left bytes (skip (encode_remaining_length v) 1)) e left)
        (record { is_publish = facts.is_publish; no_id = refl; no_index = refl; no_length = refl })
        facts.with_id size (omega arith) t a.topic o u in
    (
      read.0,
      parse-at bytes p s
          ∙ head.1
          ∙ ap
              (λ ys. parse_loop (length ys) (
                parser_at bytes p.payload_bytes (skip (encode_remaining_length v) 1) head.0
                  var_header_topic_length1 i))
              e
          ∙ read.1,
      Read-Delivered bytes topic payload _ packet_id q r first read.0 facts read.2
          (topic_stored_lem ts b p.incoming.topic a.topic t),
    )

unsnoc : (x : ℕ) (xs : List ℕ) → (ts : List ℕ) × (b : ℕ) × (x ∷ xs ≡ ts ++ (b ∷ []))
unsnoc x [] = ([], x, refl)
unsnoc x (y ∷ ys) = let rest = unsnoc y ys in (x ∷ rest.0, rest.1, ap (◌∷◌ x) rest.2)

-- A parser at the start of a packet, given a whole PUBLISH packet of the protocol in one call, with a
-- topic of 1 to 128 bytes and a packet id other than 0, returns that packet: the same topic, QoS,
-- retain flag, packet id and payload. It has read all the bytes and is at the start of a packet.
pub parse-publish_frame :
    (p : Parser) (packet_id : ℕ) (topic payload : List ℕ) (q : ℕ) (r : Bool)
    → p.state ≡ fixed_header
    → Arrays p
    → q ≤ 2
    → 1 ≤ length topic
    → length topic ≤ 128
    → 1 ≤ packet_id
    → packet_id < 65536
    → length (publish_body packet_id topic payload q) ≤ 268435455
    → (p' : Parser) × (parse (publish_frame packet_id topic payload q r) p ≡ some (packet, p'))
      × Delivered (publish_frame packet_id topic payload q r) topic payload packet_id q r p'
parse-publish_frame p packet_id [] payload q r s a k n t o u h = absurd (omega arith)
parse-publish_frame p packet_id (x ∷ xs) payload q r s a k n t o u h =
    let last = unsnoc x xs in
    let bound : length last.0 + 1 ≤ 128 =
      omega (arith, ap length last.2, length-append last.0 (last.1 ∷ [])) in
    subst
      (λ ys.
        (p' : Parser) × (parse (publish_frame packet_id ys payload q r) p ≡ some (packet, p'))
        × Delivered (publish_frame packet_id ys payload q r) ys payload packet_id q r p')
      (sym last.2)
      (snoc_read p packet_id q last.0 last.1 payload r s a k bound o u
        (subst (λ ys. length (publish_body packet_id ys payload q) ≤ 268435455) last.2 h))

-- What the PUBLISH constructor builds, sent in one piece, is what the parser delivers: with memory, a
-- topic of 1 to 128 bytes, a QoS of at most 2 and a packet id other than 0, the constructor succeeds,
-- and a parser at the start of a packet reads the same topic, QoS, retain flag, packet id and payload
-- from the bytes that it has built.
pub publish-parse :
    (mem : Memory) (p : Parser) (packet_id : ℕ) (topic payload : List ℕ) (q : ℕ) (r : Bool)
    → HasMemory mem
    → p.state ≡ fixed_header
    → Arrays p
    → q ≤ 2
    → 1 ≤ length topic
    → length topic ≤ 128
    → 1 ≤ packet_id
    → packet_id < 65536
    → length (publish_body packet_id topic payload q) ≤ 268435455
    → (sent : Packet) × (bytes : List ℕ) × (p' : Parser) × (create_publish mem packet_id topic
          payload q r
        ≡ some (sent, success))
      × (sent.contents ≡ some bytes)
      × (parse bytes p ≡ some (packet, p'))
      × Delivered bytes topic payload packet_id q r p'
publish-parse mem p packet_id topic payload q r ok s a k n t o u h =
    let read = parse-publish_frame p packet_id topic payload q r s a k n t o u h in
    (
      _,
      _,
      read.0,
      create_publish-frame mem packet_id topic payload q r ok (omega arith) k h,
      refl,
      read.1,
      read.2,
    )
