-- ===== src/Parser/Moved.antt =====
-- The invariant of the parser of src/Packets/Parser.cpp at another place in an input.
use esp_mqtt_client.Prelude.{ℕ, List, arith, inl, inr}
use esp_mqtt_client.Parser.{
  Parser, ParserFunc, await_data, fixed_header, remaining_length_fixed, remaining_length_none,
  remaining_length_variable, var_header_connack1, var_header_connack2, var_header_packet_id1,
  var_header_packet_id2, var_header_topic_length1, var_header_topic_length2, var_header_topic,
  payload_suback, payload_publish,
}
use esp_mqtt_client.Parser.Invariant.{AtState, Invariant, Stays}

-- The invariant does not look at the input.
pub moved-AtState :
    (f : ParserFunc) (q : Parser) (bytes : List ℕ) (n : ℕ)
    → AtState f q
    → AtState f (record q { input_data = bytes; bytes_read = n })
moved-AtState fixed_header q bytes n h = tt
moved-AtState remaining_length_fixed q bytes n h = h
moved-AtState remaining_length_none q bytes n h = tt
moved-AtState remaining_length_variable q bytes n h = ground arith
moved-AtState var_header_connack1 q bytes n h = tt
moved-AtState var_header_connack2 q bytes n h = tt
moved-AtState var_header_packet_id1 q bytes n h = ground arith
moved-AtState var_header_packet_id2 q bytes n h = ground arith
moved-AtState var_header_topic_length1 q bytes n h = ground arith
moved-AtState var_header_topic_length2 q bytes n h = ground arith
moved-AtState var_header_topic q bytes n h = ground arith
moved-AtState payload_suback q bytes n h = ground arith
moved-AtState payload_publish q bytes n h = ground arith

pub moved-Invariant :
    (q : Parser) (bytes : List ℕ) (n : ℕ)
    → Invariant q
    → Invariant (record q { input_data = bytes; bytes_read = n })
moved-Invariant q bytes n i = record {
  arrays = record { raw = i.arrays.raw; topic = i.arrays.topic; buffer = i.arrays.buffer };
  ready = moved-AtState q.state q bytes n i.ready;
}

pub awaiting : {p q : Parser} → Stays p await_data q → AtState q.state q
awaiting s = elim s.ready [ inl e ↦ absurd (cc) | inr h ↦ h ]
