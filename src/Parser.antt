-- ===== src/Parser.antt =====
-- src/Packets/Parser.h: the state of the incremental parser for incoming packets, and the accessors of
-- the packet under construction.
pub mod FixedHeader
pub mod Step
pub mod Parse
pub mod Invariant
pub mod Safety
pub mod PublishSafety
pub mod Moved
pub mod StepSafety
pub mod Total
pub mod Feed
pub mod Runs
pub mod ReadPayload
pub mod ReadPublish
pub mod PublishBody
pub mod PublishRoundTrip
pub mod Delivery
pub mod Acks
pub mod Connack
pub mod Placed
pub mod Turns
pub mod FirstPart
pub mod SecondPart
pub mod Split
use esp_mqtt_client.Prelude.{
  ℕ, ◌+◌, ◌*◌, ◌/◌, ◌%◌, List, [], Bool, true, false, not, ◌==◌, if◌then◌else◌, bit_and, replicate,
}
use esp_mqtt_client.Config.{publish_type}

-- `payload.data` points to the parser's own buffer or into the input.
pub data PayloadData : Type 0 where
  nowhere : PayloadData
  payload_buffer : PayloadData
  input : ℕ → PayloadData

-- IncomingPacket. The union of `remainingLength` and its raw bytes is two fields, since each is read
-- only after it has been written. The union of the packet id and the CONNACK header is the 16-bit
-- word `fixed`; on the little-endian targets its low byte is `sessionPresent`.
pub record IncomingPacket : Type 0 where
  pub packet_type : ℕ
  pub remaining_length : ℕ
  pub remaining_length_raw : List ℕ
  pub topic_length : ℕ
  pub topic : List ℕ
  pub fixed : ℕ
  pub payload_data : PayloadData
  pub payload_length : ℕ
  pub payload_index : ℕ
  pub payload_total : ℕ

abbrev pub packet_id : IncomingPacket → ℕ
packet_id p = p.fixed

abbrev pub session_present : IncomingPacket → ℕ
session_present p = p.fixed % 256

abbrev pub return_code : IncomingPacket → ℕ
return_code p = p.fixed / 256

-- IncomingPacket::qos
unfoldable pub qos : IncomingPacket → ℕ
qos p =
    if not (bit_and p.packet_type 0xf0 == publish_type) then 0 else bit_and p.packet_type 0x06 / 2

-- IncomingPacket::retain
unfoldable pub retain : IncomingPacket → Bool
retain p =
    if not (bit_and p.packet_type 0xf0 == publish_type)
    then false
    else not (bit_and p.packet_type 0x01 == 0)

-- IncomingPacket::dup
unfoldable pub dup : IncomingPacket → Bool
dup p =
    if not (bit_and p.packet_type 0xf0 == publish_type)
    then false
    else not (bit_and p.packet_type 0x08 == 0)

-- IncomingPacket::reset
abbrev pub reset_packet : IncomingPacket → IncomingPacket
reset_packet p = record p {
  packet_type = 0;
  topic_length = 0;
  fixed = 0;
  payload_index = 0;
  payload_length = 0;
}

-- The value-initialised packet of the constructor
abbrev pub new_packet : IncomingPacket
new_packet = record {
  packet_type = 0;
  remaining_length = 0;
  remaining_length_raw = replicate 4 0;
  topic_length = 0;
  topic = replicate 129 0;
  fixed = 0;
  payload_data = nowhere;
  payload_length = 0;
  payload_index = 0;
  payload_total = 0;
}

pub data ParserResult : Type 0 where
  await_data packet protocol_error : ParserResult

-- What the function pointer `_parse` points to.
pub data ParserFunc : Type 0 where
  fixed_header remaining_length_fixed remaining_length_none remaining_length_variable : ParserFunc
  var_header_connack1 var_header_connack2 : ParserFunc
  var_header_packet_id1 var_header_packet_id2 : ParserFunc
  var_header_topic_length1 var_header_topic_length2 var_header_topic : ParserFunc
  payload_suback payload_publish : ParserFunc

-- `input_data` is the memory behind `_data`, `_len` bytes of it.
pub record Parser : Type 0 where
  pub input_data : List ℕ
  pub bytes_read : ℕ
  pub byte_pos : ℕ
  pub state : ParserFunc
  pub incoming : IncomingPacket
  pub payload_bytes : List ℕ

abbrev pub new_parser : Parser
new_parser = record {
  input_data = [];
  bytes_read = 0;
  byte_pos = 0;
  state = fixed_header;
  incoming = new_packet;
  payload_bytes = replicate 32 0;
}

-- Parser::reset
abbrev pub reset_parser : Parser → Parser
reset_parser p = record p {
  state = fixed_header;
  bytes_read = 0;
  byte_pos = 0;
  incoming = reset_packet p.incoming;
}
