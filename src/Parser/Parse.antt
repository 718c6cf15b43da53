-- ===== src/Parser/Parse.antt =====
-- Parser::parse of src/Packets/Parser.cpp.
use esp_mqtt_client.Prelude.{ℕ, zero, suc, List, none, some, ltb, if◌then◌else◌, length, get_elem?}
use esp_mqtt_client.Packet.{add_size}
use esp_mqtt_client.Parser.{
  Parser, ParserFunc, await_data, packet, protocol_error, fixed_header, remaining_length_fixed,
  remaining_length_none, remaining_length_variable, var_header_connack1, var_header_connack2,
  var_header_packet_id1, var_header_packet_id2, var_header_topic_length1, var_header_topic_length2,
  var_header_topic, payload_suback, payload_publish,
}
use esp_mqtt_client.Parser.FixedHeader.{
  Stepped, step_fixed_header, step_remaining_length_fixed, step_remaining_length_none,
  step_remaining_length_variable,
}
use esp_mqtt_client.Parser.Step.{
  step_connack1, step_connack2, step_packet_id1, step_packet_id2, step_topic_length1,
  step_topic_length2, step_topic, step_payload_suback, step_payload_publish,
}

-- The call of `_parse` with the byte `_data[_bytesRead]`
unfoldable pub call : ParserFunc → ℕ → Parser → Stepped
call fixed_header b p = some (step_fixed_header b p)
call remaining_length_fixed b p = some (step_remaining_length_fixed b p)
call remaining_length_none b p = some (step_remaining_length_none b p)
call remaining_length_variable b p = step_remaining_length_variable b p
call var_header_connack1 b p = some (step_connack1 b p)
call var_header_connack2 b p = some (step_connack2 b p)
call var_header_packet_id1 b p = some (step_packet_id1 b p)
call var_header_packet_id2 b p = some (step_packet_id2 b p)
call var_header_topic_length1 b p = some (step_topic_length1 b p)
call var_header_topic_length2 b p = some (step_topic_length2 b p)
call var_header_topic b p = step_topic b p
call payload_suback b p = step_payload_suback b p
call payload_publish b p = some (step_payload_publish p)

-- `++_bytesRead`
abbrev pub increment : Parser → Parser
increment p = record p { bytes_read = add_size p.bytes_read 1 }

-- One turn of the loop of Parser::parse
unfoldable pub step : Parser → Stepped
unfolding call
step p = elim (get_elem? p.input_data p.bytes_read) [
  | none ↦ none
  | some b ↦ elim (call p.state b p) [ none ↦ none | some r ↦ some (r.0, increment r.1) ]
]

-- The loop of Parser::parse, on fuel; `none` is an access out of bounds, or the end of the fuel.
unfoldable pub parse_loop : (fuel : ℕ) → Parser → Stepped
unfolding step
parse_loop zero p = if ltb p.bytes_read (length p.input_data) then none else some (await_data, p)
parse_loop (suc fuel) p =
    if ltb p.bytes_read (length p.input_data)
    then elim (step p) [
      | none ↦ none
      | some r ↦ elim r.0 [
        | await_data ↦ parse_loop fuel r.1
        | packet ↦ some r
        | protocol_error ↦ some r
      ]
    ]
    else some (await_data, p)

-- Parser::parse; the bytes that it has read are `bytes_read` of the result.
unfoldable pub parse : List ℕ → Parser → Stepped
unfolding parse_loop
parse bytes p = parse_loop (length bytes) (record p { input_data = bytes; bytes_read = 0 })
