-- ===== src/Parser/Acks.antt =====
-- The acknowledgements of src/Packets/Packet.cpp through Parser::parse of src/Packets/Parser.cpp.
use esp_mqtt_client.Prelude.{
  ℕ, zero, suc, ◌+◌, ◌*◌, ◌/◌, ◌%◌, ◌≤◌, ◌<◌, ◌≡◌, List, ◌∷◌, some, length, arith, bit_and, refl,
  false, ap, ◌∙◌, ◌==◌, bit_or, bit_or_bytes, zero-bit_or,
}
use esp_mqtt_client.Config.{publish_type, suback_type, connack_type}
use esp_mqtt_client.Packet.Buffer.{two_bytes}
use esp_mqtt_client.Packet.Publish.{ack_frame}
use esp_mqtt_client.Packet.{Packet, Memory, success}
use esp_mqtt_client.Packet.Create.{create_ack}
use esp_mqtt_client.Packet.Frame.{HasMemory}
use esp_mqtt_client.Packet.Publish.{create_ack-frame}
use esp_mqtt_client.Parser.FixedHeader.{
  step_fixed_header, fixed_header_switch, step_remaining_length_fixed,
}
use esp_mqtt_client.Parser.Step.{step_packet_id1, step_packet_id2, packet_id_complete}
use esp_mqtt_client.Parser.{
  Parser, packet, await_data, fixed_header, reset_packet, remaining_length_fixed,
  var_header_packet_id1, var_header_packet_id2,
}
use esp_mqtt_client.Parser.Parse.{call, parse}
use esp_mqtt_client.Parser.Feed.{Left, next, advance, finish}
use esp_mqtt_client.Parser.Delivery.{parse-at}

-- An acknowledgement as the parser delivers it.
pub record Acknowledged (bytes : List ℕ) (type packet_id : ℕ) (p : Parser) : Type 0 where
  pub all_read : p.bytes_read ≡ length bytes
  pub starts_over : p.state ≡ fixed_header
  pub same_type : bit_and p.incoming.packet_type 0xf0 ≡ type
  pub id : p.incoming.fixed ≡ packet_id

-- The first byte of an acknowledgement.
record AckByte (first type : ℕ) : Type 0 where
  accepted :
      (p : Parser)
      → step_fixed_header first p ≡ (
        await_data,
        record p {
          state = remaining_length_fixed;
          incoming = record (reset_packet p.incoming) { packet_type = first };
        },
      )
  type_bits : bit_and first 0xf0 ≡ type
  not_connack : (type == connack_type) ≡ false
  not_suback : (type == suback_type) ≡ false
  not_publish : (type == publish_type) ≡ false

ack_read :
    (p : Parser) (first type id : ℕ)
    → p.state ≡ fixed_header
    → AckByte first type
    → 1 ≤ id
    → id < 65536
    → (p' : Parser) × (parse (first ∷ 2 ∷ two_bytes id) p ≡ some (packet, p'))
      × Acknowledged (first ∷ 2 ∷ two_bytes id) type id p'
unfolding call step_remaining_length_fixed step_packet_id1 step_packet_id2 packet_id_complete
ack_read p first type id s f o u =
    let bytes = first ∷ 2 ∷ two_bytes id in
    let buffer = p.payload_bytes in
    let pos = p.byte_pos in
    let hi = id / 256 % 256 in
    let whole : Left bytes 0 bytes = record { behind = refl; in_range = omega arith } in
    let i1 = record (reset_packet p.incoming) { packet_type = first } in
    let i2 = record i1 { remaining_length = 2 } in
    let i3 = record i2 { fixed = hi * 256 } in
    let i4 = record i2 { fixed = id } in
    let word : bit_or (hi * 256) (id % 256) ≡ id = omega (arith, bit_or_bytes hi (id % 256)) in
    let there : (id == 0) ≡ false = ground arith in
    let one =
      advance buffer pos pos fixed_header remaining_length_fixed p.incoming i1 whole
        (ap some (f.accepted _)) in
    let two =
      advance buffer pos pos remaining_length_fixed var_header_packet_id1 i1 i2 (next whole)
        (rw (f.type_bits, f.not_connack) refl) in
    let three =
      advance buffer pos pos var_header_packet_id1 var_header_packet_id2 i2 i3 (next (next whole))
        (rw (zero-bit_or (hi * 256)) refl) in
    let four =
      finish buffer pos 3 pos var_header_packet_id2 fixed_header i3 i4 (next (next (next whole)))
        (omega arith) (rw (word, there, f.type_bits, f.not_suback, f.not_publish) refl) in
    (
      _,
      parse-at bytes p s ∙ one ∙ two ∙ three ∙ four,
      record { all_read = refl; starts_over = refl; same_type = f.type_bits; id = refl },
    )

puback-AckByte : AckByte 0x40 0x40
unfolding step_fixed_header fixed_header_switch
puback-AckByte = record {
  accepted = λ p. refl;
  type_bits = refl;
  not_connack = refl;
  not_suback = refl;
  not_publish = refl;
}

pubrec-AckByte : AckByte 0x50 0x50
unfolding step_fixed_header fixed_header_switch
pubrec-AckByte = record {
  accepted = λ p. refl;
  type_bits = refl;
  not_connack = refl;
  not_suback = refl;
  not_publish = refl;
}

pubrel-AckByte : AckByte 0x62 0x60
unfolding step_fixed_header fixed_header_switch
pubrel-AckByte = record {
  accepted = λ p. refl;
  type_bits = refl;
  not_connack = refl;
  not_suback = refl;
  not_publish = refl;
}

pubcomp-AckByte : AckByte 0x70 0x70
unfolding step_fixed_header fixed_header_switch
pubcomp-AckByte = record {
  accepted = λ p. refl;
  type_bits = refl;
  not_connack = refl;
  not_suback = refl;
  not_publish = refl;
}

-- What the acknowledgement constructor builds is what the parser delivers, for each of PUBACK, PUBREC,
-- PUBREL and PUBCOMP and a packet id other than 0: with memory, the constructor succeeds, and a
-- parser at the start of a packet reads the same type and packet id from the bytes that it has built.
pub ack-parse :
    (mem : Memory) (p : Parser) (n packet_id : ℕ)
    → HasMemory mem
    → p.state ≡ fixed_header
    → n < 4
    → 1 ≤ packet_id
    → packet_id < 65536
    → (sent : Packet) × (bytes : List ℕ) × (p' : Parser) × (create_ack mem ((4 + n) * 16) packet_id
        ≡ some (sent, success))
      × (sent.contents ≡ some bytes)
      × (parse bytes p ≡ some (packet, p'))
      × Acknowledged bytes ((4 + n) * 16) packet_id p'
ack-parse mem p n packet_id ok s k o u =
    let read = frame_read n k in
    (_, _, read.0, create_ack-frame mem n packet_id ok k, refl, read.1, read.2)
  where
    frame_read :
        (m : ℕ)
        → m < 4
        → (p' : Parser) × (parse (ack_frame ((4 + m) * 16) packet_id) p ≡ some (packet, p'))
          × Acknowledged (ack_frame ((4 + m) * 16) packet_id) ((4 + m) * 16) packet_id p'
    frame_read zero h = ack_read p 0x40 0x40 packet_id s puback-AckByte o u
    frame_read (suc zero) h = ack_read p 0x50 0x50 packet_id s pubrec-AckByte o u
    frame_read (suc (suc zero)) h = ack_read p 0x62 0x60 packet_id s pubrel-AckByte o u
    frame_read (suc (suc (suc zero))) h = ack_read p 0x70 0x70 packet_id s pubcomp-AckByte o u
    frame_read (suc (suc (suc (suc m)))) h = absurd (omega arith)
