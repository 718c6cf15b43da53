-- ===== src/Parser/FixedHeader.antt =====
-- The parser functions of src/Packets/Parser.cpp for the fixed header. Each is given the
-- byte `_data[_bytesRead]`. `none` is an access outside an array.
use esp_mqtt_client.Prelude.{
  ℕ, ◌+◌, ◌-◌, ◌%◌, ◌^◌, List, Option, none, some, Bool, ◌&&◌, ◌||◌, not, ltb, leb, ◌==◌,
  if◌then◌else◌, bit_and, bit_or, length, set, ◌>>=◌,
}
use esp_mqtt_client.Config.{
  size_mod, emc_payload_buffer_size, connack_type, publish_type, puback_type, pubrec_type,
  pubrel_type, pubcomp_type, suback_type, unsuback_type, pingresp_type, reserved_flag, publish_qos1,
  publish_qos2,
}
use esp_mqtt_client.RemainingLength.{
  Decoded, decoded, malformed, out_of_bounds, decode_remaining_length,
}
use esp_mqtt_client.Packet.{sub_size}
use esp_mqtt_client.Parser.{
  Parser, IncomingPacket, ParserResult, ParserFunc, payload_buffer, reset_packet, await_data,
  packet, protocol_error, fixed_header, remaining_length_fixed, remaining_length_none,
  remaining_length_variable, var_header_connack1, var_header_packet_id1, var_header_topic_length1,
}

-- A store into an array.
unfoldable pub store : List ℕ → ℕ → ℕ → Option (List ℕ)
store xs i v = if ltb i (length xs) then some (set xs i v) else none

abbrev pub Stepped : Type 0
Stepped = Option (ParserResult × Parser)

abbrev pub goto : Parser → ParserFunc → Parser
goto p f = record p { state = f }

abbrev pub type_of : Parser → ℕ
type_of p = bit_and p.incoming.packet_type 0xf0

abbrev pub has_qos : Parser → Bool
has_qos p = not (bit_and p.incoming.packet_type (bit_or publish_qos1 publish_qos2) == 0)

-- _fixedHeader behind the reset of the packet and the store of the type byte
unfoldable pub fixed_header_switch : ℕ → Parser → ParserResult × Parser
fixed_header_switch b p =
    if bit_and b 0xf0 == publish_type
    then if leb (bit_and b 0x0f) 0x05 || leb 0x0a (bit_and b 0x0f)
      then (await_data, record p { state = remaining_length_variable; byte_pos = 0 })
      else (protocol_error, p)
    else if b == connack_type
        || (b == puback_type
            || (b == pubrec_type
                || (b == bit_or pubrel_type reserved_flag
                    || (b == pubcomp_type || b == unsuback_type))))
    then (await_data, goto p remaining_length_fixed)
    else if b == suback_type
    then (await_data, record p { state = remaining_length_variable; byte_pos = 0 })
    else if b == pingresp_type
    then (await_data, goto p remaining_length_none)
    else (protocol_error, p)

unfoldable pub step_fixed_header : ℕ → Parser → ParserResult × Parser
unfolding fixed_header_switch
step_fixed_header b p =
    fixed_header_switch b
      (record p { incoming = record (reset_packet p.incoming) { packet_type = b } })

abbrev pub with_packet : Parser → IncomingPacket → Parser
with_packet p i = record p { incoming = i }

-- The result of a parser function that has gone back to the start of a packet.
abbrev pub failed : Parser → ParserResult × Parser
failed p = (protocol_error, goto p fixed_header)

unfoldable pub step_remaining_length_fixed : ℕ → Parser → ParserResult × Parser
step_remaining_length_fixed b p =
    let read = with_packet p (record p.incoming { remaining_length = b }) in
    if b == 2
    then if not (type_of read == connack_type)
      then (await_data, goto read var_header_packet_id1)
      else (await_data, goto read var_header_connack1)
    else failed read

-- The int32_t of decodeRemainingLength as a size_t.
unfoldable pub as_size : Decoded → Option ℕ
as_size (decoded n) = some (n % size_mod)
as_size malformed = some (size_mod - 1)
as_size out_of_bounds = none

-- _remainingLengthVariable behind the decoding: int32_t `payloadSize` is positive below 2 ^ 31.
unfoldable pub remaining_length_decoded : Parser → ParserResult × Parser
remaining_length_decoded p =
    let payload_size = sub_size p.incoming.remaining_length 2 in
    if type_of p == publish_type
    then (await_data, goto p var_header_topic_length1)
    else if ltb 0 payload_size
        && (ltb payload_size (2 ^ 31) && ltb payload_size emc_payload_buffer_size)
    then (
      await_data,
      record p {
        byte_pos = 0;
        state = var_header_packet_id1;
        incoming = record p.incoming {
          payload_data = payload_buffer;
          payload_index = 0;
          payload_length = payload_size;
          payload_total = payload_size;
        };
      },
    )
    else failed p

-- _remainingLengthVariable behind the store of the byte: `raw` is the array with the byte.
unfoldable pub remaining_length_stored : ℕ → Parser → List ℕ → Stepped
unfolding remaining_length_decoded as_size
remaining_length_stored b p raw =
    let q = with_packet p (record p.incoming { remaining_length_raw = raw }) in
    if not (bit_and b 0x80 == 0)
    then some (
        if p.byte_pos + 1 == 4
        then (protocol_error, record q { byte_pos = p.byte_pos + 1 })
        else (await_data, record q { byte_pos = p.byte_pos + 1 }))
    else elim (as_size (decode_remaining_length raw)) [
      | none ↦ none
      | some n ↦
          some
            (remaining_length_decoded (with_packet q (record q.incoming { remaining_length = n })))
    ]

unfoldable pub step_remaining_length_variable : ℕ → Parser → Stepped
unfolding remaining_length_stored store
step_remaining_length_variable b p =
    store p.incoming.remaining_length_raw p.byte_pos b >>= remaining_length_stored b p

unfoldable pub step_remaining_length_none : ℕ → Parser → ParserResult × Parser
step_remaining_length_none b p =
    let q = goto (with_packet p (record p.incoming { remaining_length = b })) fixed_header in
    if b == 0 then (packet, q) else (protocol_error, q)
