-- ===== src/Parser/Step.antt =====
-- The parser functions of src/Packets/Parser.cpp for the variable header and the payload. Each is given
-- the byte `_data[_bytesRead]`. `none` is an access outside an array.
use esp_mqtt_client.Prelude.{
  ℕ, ◌+◌, ◌*◌, ◌/◌, ◌%◌, ◌^◌, List, none, some, ◌||◌, not, ltb, leb, ◌==◌, if◌then◌else◌, bit_or,
  length, min, ◌>>=◌,
}
use esp_mqtt_client.Config.{emc_max_topic_length, publish_type, suback_type}
use esp_mqtt_client.Packet.{sub_size, add_size}
use esp_mqtt_client.Parser.{
  Parser, ParserResult, input, await_data, packet, fixed_header, var_header_connack2,
  var_header_packet_id1, var_header_packet_id2, var_header_topic_length2, var_header_topic,
  payload_suback, payload_publish,
}
use esp_mqtt_client.Parser.FixedHeader.{store, Stepped, goto, type_of, has_qos, with_packet, failed}

unfoldable pub step_connack1 : ℕ → Parser → ParserResult × Parser
step_connack1 b p =
    if ltb b 2
    then (
      await_data,
      record p {
        incoming = record p.incoming { fixed = p.incoming.fixed / 256 * 256 + b };
        state = var_header_connack2;
      },
    )
    else failed p

unfoldable pub step_connack2 : ℕ → Parser → ParserResult × Parser
step_connack2 b p =
    if leb b 5
    then (
      packet,
      record p {
        state = fixed_header;
        incoming = record p.incoming { fixed = p.incoming.fixed % 256 + b * 256 };
      },
    )
    else failed p

unfoldable pub step_packet_id1 : ℕ → Parser → ParserResult × Parser
step_packet_id1 b p = (
  await_data,
  record p {
    incoming = record p.incoming { fixed = bit_or p.incoming.fixed (b * 256) };
    state = var_header_packet_id2;
  },
)

-- _varHeaderPacketId2 behind the test for a zero identifier
unfoldable pub packet_id_complete : Parser → ParserResult × Parser
packet_id_complete p =
    let total = sub_size p.incoming.payload_total 2 in
    let q = with_packet p (record p.incoming { payload_total = total }) in
    if type_of p == suback_type
    then (await_data, goto p payload_suback)
    else if type_of p == publish_type
    then if total == 0 then (packet, goto q fixed_header) else (await_data, goto q payload_publish)
    else (packet, goto p fixed_header)

unfoldable pub step_packet_id2 : ℕ → Parser → ParserResult × Parser
unfolding packet_id_complete
step_packet_id2 b p =
    let id = bit_or p.incoming.fixed b in
    let q = with_packet p (record p.incoming { fixed = id }) in
    if not (id == 0) then packet_id_complete q else failed q

unfoldable pub step_topic_length1 : ℕ → Parser → ParserResult × Parser
step_topic_length1 b p = (
  await_data,
  record p {
    incoming = record p.incoming { topic_length = b * 256 % 2 ^ 16 };
    state = var_header_topic_length2;
  },
)

unfoldable pub step_topic_length2 : ℕ → Parser → ParserResult × Parser
step_topic_length2 b p =
    let topic_length = bit_or p.incoming.topic_length b in
    let behind = sub_size p.incoming.remaining_length 2 in
    let max_topic_length = sub_size behind (if has_qos p then 2 else 0) in
    let q = with_packet p (record p.incoming { topic_length = topic_length }) in
    if leb topic_length max_topic_length
    then (
      await_data,
      record q {
        state = var_header_topic;
        byte_pos = 0;
        incoming = record q.incoming { payload_total = sub_size behind topic_length };
      },
    )
    else failed q

-- _varHeaderTopic behind the store of the delimiter
unfoldable pub topic_complete : Parser → ParserResult × Parser
topic_complete p =
    if has_qos p
    then (await_data, goto p var_header_packet_id1)
    else if p.incoming.payload_total == 0
    then (packet, goto p fixed_header)
    else (await_data, goto p payload_publish)

-- _varHeaderTopic behind the store of the byte
unfoldable pub topic_stored : Parser → List ℕ → Stepped
unfolding topic_complete store
topic_stored p topic =
    let at = p.byte_pos + 1 in
    let q = record p { byte_pos = at; incoming = record p.incoming { topic = topic } } in
    if at == p.incoming.topic_length || at == emc_max_topic_length
    then elim (store topic at 0) [
      | none ↦ none
      | some delimited ↦
          some (topic_complete (with_packet q (record q.incoming { topic = delimited })))
    ]
    else some (await_data, q)

unfoldable pub step_topic : ℕ → Parser → Stepped
unfolding topic_stored store
step_topic b p = store p.incoming.topic p.byte_pos b >>= topic_stored p

-- _payloadSuback behind the store of the return code
unfoldable pub suback_stored : Parser → List ℕ → Stepped
suback_stored p bytes =
    let at = p.byte_pos + 1 in
    let q = record p { byte_pos = at; payload_bytes = bytes } in
    if at == p.incoming.payload_total
    then some (packet, goto q fixed_header)
    else some (await_data, q)

unfoldable pub step_payload_suback : ℕ → Parser → Stepped
unfolding suback_stored store
step_payload_suback b p =
    if ltb b 3 || b == 0x80
    then store p.payload_bytes p.byte_pos b >>= suback_stored p
    else some (failed p)

-- `payload_data` points at the byte of the input that is read. The loop of Parser::parse increments
-- `bytes_read` once more.
unfoldable pub step_payload_publish : Parser → ParserResult × Parser
step_payload_publish p =
    let index = add_size p.incoming.payload_index p.incoming.payload_length in
    let total = p.incoming.payload_total in
    let available = min (sub_size (length p.input_data) p.bytes_read) (sub_size total index) in
    let q = record p {
      bytes_read = sub_size (add_size p.bytes_read available) 1;
      incoming = record p.incoming {
        payload_index = index;
        payload_data = input p.bytes_read;
        payload_length = available;
      };
    } in
    if add_size index available == total then (packet, goto q fixed_header) else (packet, q)
