-- ===== src/Parser/Placed.antt =====
-- The functions of src/Packets/Parser.cpp do not depend on where in the input a byte stands, up to the
-- payload of PUBLISH.
use esp_mqtt_client.Prelude.{ℕ, ◌+◌, ◌≡◌, List, none, some, arith, refl, ◌∙◌, ap, ◌≢◌, sym}
use esp_mqtt_client.Parser.{
  Parser, ParserFunc, ParserResult, PayloadData, nowhere, payload_buffer, input, fixed_header,
  remaining_length_fixed, remaining_length_none, remaining_length_variable, var_header_connack1,
  var_header_connack2, var_header_packet_id1, var_header_packet_id2, var_header_topic_length1,
  var_header_topic_length2, var_header_topic, payload_suback, payload_publish,
}
use esp_mqtt_client.Parser.FixedHeader.{
  Stepped, step_fixed_header, fixed_header_switch, step_remaining_length_fixed,
  step_remaining_length_none, remaining_length_decoded, remaining_length_stored, as_size,
  step_remaining_length_variable,
}
use esp_mqtt_client.Parser.Step.{
  step_connack1, step_connack2, step_packet_id1, step_packet_id2, packet_id_complete,
  step_topic_length1, step_topic_length2, step_topic, topic_stored, topic_complete,
  step_payload_suback, suback_stored,
}
use esp_mqtt_client.Parser.Parse.{call}

-- A pointer into an input behind which `n` bytes have been put
abbrev pub shift : ℕ → PayloadData → PayloadData
shift n nowhere = nowhere
shift n payload_buffer = payload_buffer
shift n (input k) = input (n + k)

-- The parser at byte `m` of the input `w`, its pointer moved by `n`
abbrev pub placed : List ℕ → ℕ → ℕ → Parser → Parser
placed w m n q = record q {
  input_data = w;
  bytes_read = m;
  incoming = record q.incoming { payload_data = shift n q.incoming.payload_data };
}

abbrev pub placed_result : List ℕ → ℕ → ℕ → Stepped → Stepped
placed_result w m n none = none
placed_result w m n (some r) = some (r.0, placed w m n r.1)

module _ (w : List ℕ) (m n b : ℕ) where
  fixed_header-placed :
      (q : Parser)
      → call fixed_header b (placed w m n q) ≡ placed_result w m n (call fixed_header b q)
  unfolding call step_fixed_header fixed_header_switch
  fixed_header-placed q = ground arith

  remaining_length_fixed-placed :
      (q : Parser)
      → call remaining_length_fixed b (placed w m n q)
        ≡ placed_result w m n (call remaining_length_fixed b q)
  unfolding call step_remaining_length_fixed
  remaining_length_fixed-placed q = ground arith

  remaining_length_none-placed :
      (q : Parser)
      → call remaining_length_none b (placed w m n q)
        ≡ placed_result w m n (call remaining_length_none b q)
  unfolding call step_remaining_length_none
  remaining_length_none-placed q = ground arith

  remaining_length_variable-placed :
      (q : Parser)
      → call remaining_length_variable b (placed w m n q)
        ≡ placed_result w m n (call remaining_length_variable b q)
  unfolding call step_remaining_length_variable remaining_length_stored remaining_length_decoded
      as_size
  remaining_length_variable-placed q = ground arith

  connack1-placed :
      (q : Parser)
      → call var_header_connack1 b (placed w m n q)
        ≡ placed_result w m n (call var_header_connack1 b q)
  unfolding call step_connack1
  connack1-placed q = ground arith

  connack2-placed :
      (q : Parser)
      → call var_header_connack2 b (placed w m n q)
        ≡ placed_result w m n (call var_header_connack2 b q)
  unfolding call step_connack2
  connack2-placed q = ground arith

  packet_id1-placed :
      (q : Parser)
      → call var_header_packet_id1 b (placed w m n q)
        ≡ placed_result w m n (call var_header_packet_id1 b q)
  unfolding call step_packet_id1
  packet_id1-placed q = refl

  packet_id2-placed :
      (q : Parser)
      → call var_header_packet_id2 b (placed w m n q)
        ≡ placed_result w m n (call var_header_packet_id2 b q)
  unfolding call step_packet_id2 packet_id_complete
  packet_id2-placed q = ground arith

  topic_length1-placed :
      (q : Parser)
      → call var_header_topic_length1 b (placed w m n q)
        ≡ placed_result w m n (call var_header_topic_length1 b q)
  unfolding call step_topic_length1
  topic_length1-placed q = refl

  topic_length2-placed :
      (q : Parser)
      → call var_header_topic_length2 b (placed w m n q)
        ≡ placed_result w m n (call var_header_topic_length2 b q)
  unfolding call step_topic_length2
  topic_length2-placed q = ground arith

  topic-placed :
      (q : Parser)
      → call var_header_topic b (placed w m n q) ≡ placed_result w m n (call var_header_topic b q)
  unfolding call step_topic topic_stored topic_complete
  topic-placed q = ground arith

  payload_suback-placed :
      (q : Parser)
      → call payload_suback b (placed w m n q) ≡ placed_result w m n (call payload_suback b q)
  unfolding call step_payload_suback suback_stored
  payload_suback-placed q = ground arith

pub call-placed :
    (f : ParserFunc) (w : List ℕ) (m n b : ℕ) (q : Parser)
    → f ≢ payload_publish
    → call f b (placed w m n q) ≡ placed_result w m n (call f b q)
call-placed fixed_header w m n b q k = fixed_header-placed w m n b q
call-placed remaining_length_fixed w m n b q k = remaining_length_fixed-placed w m n b q
call-placed remaining_length_none w m n b q k = remaining_length_none-placed w m n b q
call-placed remaining_length_variable w m n b q k = remaining_length_variable-placed w m n b q
call-placed var_header_connack1 w m n b q k = connack1-placed w m n b q
call-placed var_header_connack2 w m n b q k = connack2-placed w m n b q
call-placed var_header_packet_id1 w m n b q k = packet_id1-placed w m n b q
call-placed var_header_packet_id2 w m n b q k = packet_id2-placed w m n b q
call-placed var_header_topic_length1 w m n b q k = topic_length1-placed w m n b q
call-placed var_header_topic_length2 w m n b q k = topic_length2-placed w m n b q
call-placed var_header_topic w m n b q k = topic-placed w m n b q
call-placed payload_suback w m n b q k = payload_suback-placed w m n b q
call-placed payload_publish w m n b q k = absurd (k refl)

shift_zero : (d : PayloadData) → shift 0 d ≡ d
shift_zero nowhere = refl
shift_zero payload_buffer = refl
shift_zero (input k) = ap input (omega arith)

placed_here : (q : Parser) → placed q.input_data q.bytes_read 0 q ≡ q
placed_here q =
    ap (λ d. record q { incoming = record q.incoming { payload_data = d } })
      (shift_zero q.incoming.payload_data)

-- Such a function leaves the position in the input.
pub call-bytes_read :
    (f : ParserFunc) (b : ℕ) (q : Parser) (r : ParserResult × Parser)
    → f ≢ payload_publish
    → call f b q ≡ some r
    → r.1.bytes_read ≡ q.bytes_read
call-bytes_read f b q r k e =
    let same = call-placed f q.input_data q.bytes_read 0 b q k in
    let again : call f b (placed q.input_data q.bytes_read 0 q) ≡ call f b q =
      ap (call f b) (placed_here q) in
    let run : some r ≡ placed_result q.input_data q.bytes_read 0 (some r) =
      sym e ∙ sym again ∙ same ∙ ap (placed_result q.input_data q.bytes_read 0) e in
    read run
  where
    read :
        some r ≡ placed_result q.input_data q.bytes_read 0 (some r) → r.1.bytes_read ≡ q.bytes_read
    read run = cc
