-- ===== src/Parser/Invariant.antt =====
-- The invariant of the parser of src/Packets/Parser.cpp between two calls of Parser::parse.
use esp_mqtt_client.Prelude.{◌+◌, ◌≤◌, ◌<◌, ◌≡◌, none, some, true, false, length, ◌⊎◌, ◌==◌}
use esp_mqtt_client.Config.{size_mod, publish_type, suback_type}
use esp_mqtt_client.Parser.{
  Parser, ParserResult, ParserFunc, await_data, protocol_error, fixed_header,
  remaining_length_fixed, remaining_length_none, remaining_length_variable, var_header_connack1,
  var_header_connack2, var_header_packet_id1, var_header_packet_id2, var_header_topic_length1,
  var_header_topic_length2, var_header_topic, payload_suback, payload_publish,
}
use esp_mqtt_client.Parser.FixedHeader.{Stepped, type_of}

-- No portion of the payload has been handed over.
pub record Untouched (p : Parser) : Type 0 where
  pub no_index : p.incoming.payload_index ≡ 0
  pub no_length : p.incoming.payload_length ≡ 0

-- A PUBLISH of which no payload has been handed over.
pub record IsPublish (p : Parser) : Type 0 where
  pub is_type : type_of p == publish_type ≡ true
  pub untouched : Untouched p

-- The return codes still to come fit the parser's buffer.
pub record RoomForCodes (p : Parser) : Type 0 where
  pub some_left : p.byte_pos < p.incoming.payload_total
  pub fits : p.incoming.payload_total < 32

-- There is payload still to come.
pub record MorePayload (p : Parser) : Type 0 where
  pub more : p.incoming.payload_index + p.incoming.payload_length < p.incoming.payload_total
  pub in_range : p.incoming.payload_total < size_mod

-- What each parser function relies on.
abbrev pub AtState : ParserFunc → Parser → Type 0
AtState fixed_header p = Unit {0}
AtState remaining_length_fixed p =
    (type_of p == suback_type ≡ false) × (type_of p == publish_type ≡ false)
AtState remaining_length_none p = Unit {0}
AtState remaining_length_variable p = (p.byte_pos < 4) × Untouched p
AtState var_header_connack1 p = Unit {0}
AtState var_header_connack2 p = Unit {0}
AtState var_header_packet_id1 p =
    ((type_of p == suback_type ≡ true) → RoomForCodes p)
    × ((type_of p == publish_type ≡ true) → Untouched p)
AtState var_header_packet_id2 p =
    ((type_of p == suback_type ≡ true) → RoomForCodes p)
    × ((type_of p == publish_type ≡ true) → Untouched p)
AtState var_header_topic_length1 p = IsPublish p
AtState var_header_topic_length2 p = IsPublish p
AtState var_header_topic p =
    (p.byte_pos < 128) × (p.incoming.payload_total < size_mod) × IsPublish p
AtState payload_suback p = RoomForCodes p
AtState payload_publish p = MorePayload p

-- The arrays keep their sizes.
pub record Arrays (p : Parser) : Type 0 where
  pub raw : length p.incoming.remaining_length_raw ≡ 4
  pub topic : length p.incoming.topic ≡ 129
  pub buffer : length p.payload_bytes ≡ 32

pub record Invariant (p : Parser) : Type 0 where
  pub arrays : Arrays p
  pub ready : AtState p.state p

-- What a call of `_parse` on `p` leaves, inside the input: after an error the parser may only be
-- reset.
pub record Stays (p : Parser) (r : ParserResult) (q : Parser) : Type 0 where
  pub same_input : q.input_data ≡ p.input_data
  pub forward : p.bytes_read ≤ q.bytes_read
  pub inside : q.bytes_read < length p.input_data
  pub arrays : Arrays q
  pub ready : (r ≡ protocol_error) ⊎ AtState q.state q
  pub awaits : r ≡ await_data → q.bytes_read ≡ p.bytes_read

-- A call that stays inside the arrays and leaves such a parser.
abbrev pub Safe : Parser → Stepped → Type 0
Safe p none = ⊥
Safe p (some r) = Stays p r.0 r.1
