-- ===== src/Parser/Safety.antt =====
-- Every function of src/Packets/Parser.cpp keeps the parser's invariant and stays inside its arrays.
use esp_mqtt_client.Prelude.{ℕ, ◌<◌, ◌≡◌, some, length, arith}
use esp_mqtt_client.Parser.{
  Parser, fixed_header, remaining_length_fixed, remaining_length_none, var_header_connack1,
  var_header_connack2, var_header_packet_id1, var_header_packet_id2,
}
use esp_mqtt_client.Parser.FixedHeader.{
  step_fixed_header, fixed_header_switch, step_remaining_length_fixed, step_remaining_length_none,
}
use esp_mqtt_client.Parser.Step.{
  step_connack1, step_connack2, step_packet_id1, step_packet_id2, packet_id_complete,
}
use esp_mqtt_client.Parser.Invariant.{AtState, Arrays, Safe}

-- A parser that differs from `p` in members other than the arrays and the position in the input.
pub Arrays-of :
    (p q : Parser)
    → Arrays p
    → q.incoming.remaining_length_raw ≡ p.incoming.remaining_length_raw
    → q.incoming.topic ≡ p.incoming.topic
    → q.payload_bytes ≡ p.payload_bytes
    → Arrays q
Arrays-of p q a raw topic bytes = record {
  raw = rw raw a.raw;
  topic = rw topic a.topic;
  buffer = rw bytes a.buffer;
}

pub fixed_header-Safe :
    (b : ℕ) (p : Parser)
    → Arrays p
    → AtState fixed_header p
    → p.bytes_read < length p.input_data
    → Safe p (some (step_fixed_header b p))
unfolding step_fixed_header fixed_header_switch
fixed_header-Safe b p a h k = ground arith

pub remaining_length_fixed-Safe :
    (b : ℕ) (p : Parser)
    → Arrays p
    → AtState remaining_length_fixed p
    → p.bytes_read < length p.input_data
    → Safe p (some (step_remaining_length_fixed b p))
unfolding step_remaining_length_fixed
remaining_length_fixed-Safe b p a h k = ground arith

pub remaining_length_none-Safe :
    (b : ℕ) (p : Parser)
    → Arrays p
    → AtState remaining_length_none p
    → p.bytes_read < length p.input_data
    → Safe p (some (step_remaining_length_none b p))
unfolding step_remaining_length_none
remaining_length_none-Safe b p a h k = ground arith

pub connack1-Safe :
    (b : ℕ) (p : Parser)
    → Arrays p
    → AtState var_header_connack1 p
    → p.bytes_read < length p.input_data
    → Safe p (some (step_connack1 b p))
unfolding step_connack1
connack1-Safe b p a h k = ground arith

pub connack2-Safe :
    (b : ℕ) (p : Parser)
    → Arrays p
    → AtState var_header_connack2 p
    → p.bytes_read < length p.input_data
    → Safe p (some (step_connack2 b p))
unfolding step_connack2
connack2-Safe b p a h k = ground arith

pub packet_id1-Safe :
    (b : ℕ) (p : Parser)
    → Arrays p
    → AtState var_header_packet_id1 p
    → p.bytes_read < length p.input_data
    → Safe p (some (step_packet_id1 b p))
unfolding step_packet_id1
packet_id1-Safe b p a h k = ground arith

pub packet_id2-Safe :
    (b : ℕ) (p : Parser)
    → Arrays p
    → AtState var_header_packet_id2 p
    → p.bytes_read < length p.input_data
    → Safe p (some (step_packet_id2 b p))
unfolding step_packet_id2 packet_id_complete
packet_id2-Safe b p a h k = ground arith
