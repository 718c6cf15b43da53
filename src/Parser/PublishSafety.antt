-- ===== src/Parser/PublishSafety.antt =====
-- The functions of src/Packets/Parser.cpp for the topic and the payload keep the parser's invariant.
use esp_mqtt_client.Prelude.{
  ℕ, zero, suc, ◌+◌, ◌<◌, ◌≡◌, ◌≢◌, List, [], ◌∷◌, some, length, arith, length-set, ltb, set, inl,
  inr, ◌==◌, bit_and, refl, ◌∙◌, get_elem?, ◌||◌, min, Bool-cases, ◌%◌, ◌*◌, ◌-◌, ◌^◌,
}
use esp_mqtt_client.Config.{size_mod}
use esp_mqtt_client.Packet.{add_size, sub_size}
use esp_mqtt_client.Parser.{
  Parser, remaining_length_variable, var_header_topic_length1, var_header_topic_length2,
  var_header_topic, payload_suback, payload_publish,
}
use esp_mqtt_client.RemainingLength.{
  Decoded, decoded, malformed, out_of_bounds, decode_loop, decode_remaining_length,
}
use esp_mqtt_client.Parser.FixedHeader.{
  store, remaining_length_decoded, remaining_length_stored, as_size, step_remaining_length_variable,
}
use esp_mqtt_client.Parser.Step.{
  step_topic_length1, step_topic_length2, step_topic, topic_stored, topic_complete,
  step_payload_suback, suback_stored, step_payload_publish,
}
use esp_mqtt_client.Parser.Invariant.{AtState, Arrays, Safe, Untouched, IsPublish}

pub topic_length1-Safe :
    (b : ℕ) (p : Parser)
    → Arrays p
    → AtState var_header_topic_length1 p
    → p.bytes_read < length p.input_data
    → Safe p (some (step_topic_length1 b p))
unfolding step_topic_length1
topic_length1-Safe b p a h k = ground arith

pub topic_length2-Safe :
    (b : ℕ) (p : Parser)
    → Arrays p
    → AtState var_header_topic_length2 p
    → p.bytes_read < length p.input_data
    → Safe p (some (step_topic_length2 b p))
unfolding step_topic_length2
topic_length2-Safe b p a h k = ground arith

pub store_inside : (xs : List ℕ) (i v : ℕ) → i < length xs → store xs i v ≡ some (set xs i v)
unfolding store
store_inside xs i v h = ground arith

topic_complete-Safe :
    (p q : Parser)
    → Arrays q
    → IsPublish q
    → p.bytes_read < length p.input_data
    → q.bytes_read ≡ p.bytes_read
    → q.input_data ≡ p.input_data
    → q.incoming.payload_total < size_mod
    → Safe p (some (topic_complete q))
unfolding topic_complete
topic_complete-Safe p q a u k e i t = ground arith

topic_stored-Safe :
    (p : Parser) (topic : List ℕ)
    → Arrays p
    → p.state ≡ var_header_topic
    → AtState var_header_topic p
    → p.bytes_read < length p.input_data
    → length topic ≡ 129
    → Safe p (topic_stored p topic)
unfolding topic_stored
topic_stored-Safe p topic a s h k e =
    elim (Bool-cases (p.byte_pos + 1 == p.incoming.topic_length || p.byte_pos + 1 == 128)) [
      | inl y ↦
          let delimited = length-set topic (p.byte_pos + 1) 0 ∙ e in
          rw (y, store_inside topic (p.byte_pos + 1) 0 (omega arith))
            (topic_complete-Safe p
              (record p {
                byte_pos = p.byte_pos + 1;
                incoming = record p.incoming { topic = set topic (p.byte_pos + 1) 0 };
              })
              (record { raw = a.raw; topic = delimited; buffer = a.buffer })
              (record {
                is_type = h.2.is_type;
                untouched = record {
                  no_index = h.2.untouched.no_index;
                  no_length = h.2.untouched.no_length;
                };
              })
              k refl refl h.1)
      | inr n ↦ rw n (ground arith)
    ]

pub topic-Safe :
    (b : ℕ) (p : Parser)
    → Arrays p
    → p.state ≡ var_header_topic
    → AtState var_header_topic p
    → p.bytes_read < length p.input_data
    → Safe p (step_topic b p)
unfolding step_topic
topic-Safe b p a s h k = rw (store_inside p.incoming.topic p.byte_pos b (omega (arith, a.topic))) (
    topic_stored-Safe p (set p.incoming.topic p.byte_pos b) a s h k
      (length-set p.incoming.topic p.byte_pos b ∙ a.topic))

pub payload_suback-Safe :
    (b : ℕ) (p : Parser)
    → Arrays p
    → p.state ≡ payload_suback
    → AtState payload_suback p
    → p.bytes_read < length p.input_data
    → Safe p (step_payload_suback b p)
unfolding step_payload_suback suback_stored
payload_suback-Safe b p a s h k = elim (Bool-cases (ltb b 3 || b == 0x80)) [
  | inl y ↦
      rw (y, store_inside p.payload_bytes p.byte_pos b (omega (arith, a.buffer)))
        (ground (arith, length-set p.payload_bytes p.byte_pos b))
  | inr n ↦ rw n (ground arith)
]

pub payload_publish-Safe :
    (p : Parser)
    → Arrays p
    → p.state ≡ payload_publish
    → AtState payload_publish p
    → p.bytes_read < length p.input_data
    → length p.input_data < size_mod
    → Safe p (some (step_payload_publish p))
unfolding step_payload_publish
payload_publish-Safe p a s h k m =
    let index = add_size p.incoming.payload_index p.incoming.payload_length in
    let available =
      min (sub_size (length p.input_data) p.bytes_read) (sub_size p.incoming.payload_total index) in
    elim (Bool-cases (add_size index available == p.incoming.payload_total)) [
      | inl y ↦ rw y (ground arith)
      | inr n ↦ rw n (ground arith)
    ]

-- A byte without the continuation bit ends the decoding, whatever precedes it.
decode_loop-stops :
    (stream : List ℕ) (i b m r : ℕ)
    → get_elem? stream i ≡ some b
    → bit_and b 0x80 ≡ 0
    → decode_loop stream m r ≢ out_of_bounds
unfolding decode_loop
decode_loop-stops [] i b m r h k = cc
decode_loop-stops (x ∷ xs) zero b m r h k = ground arith
decode_loop-stops (x ∷ xs) (suc i) b m r h k =
    ground
      (arith, decode_loop-stops xs i b (m * 128 % 2 ^ 32) ((r + bit_and x 127 * m) % 2 ^ 32) h k)

get_elem?-set : (xs : List ℕ) (i v : ℕ) → i < length xs → get_elem? (set xs i v) i ≡ some v
get_elem?-set [] i v h = absurd (omega arith)
get_elem?-set (x ∷ xs) zero v h = refl
get_elem?-set (x ∷ xs) (suc i) v h = get_elem?-set xs i v (omega arith)

remaining_length_decoded-Safe :
    (p q : Parser)
    → Arrays q
    → Untouched q
    → p.bytes_read < length p.input_data
    → q.bytes_read ≡ p.bytes_read
    → q.input_data ≡ p.input_data
    → Safe p (some (remaining_length_decoded q))
unfolding remaining_length_decoded
remaining_length_decoded-Safe p q a u k e i = ground arith

as_size-some : (d : Decoded) → d ≢ out_of_bounds → (n : ℕ) × (as_size d ≡ some n)
unfolding as_size
as_size-some (decoded n) h = (n % size_mod, refl)
as_size-some malformed h = (size_mod - 1, refl)
as_size-some out_of_bounds h = absurd (h refl)

remaining_length_stored-Safe :
    (b : ℕ) (p : Parser) (raw : List ℕ)
    → Arrays p
    → p.state ≡ remaining_length_variable
    → AtState remaining_length_variable p
    → p.bytes_read < length p.input_data
    → length raw ≡ 4
    → get_elem? raw p.byte_pos ≡ some b
    → Safe p (remaining_length_stored b p raw)
unfolding remaining_length_stored decode_remaining_length
remaining_length_stored-Safe b p raw a s h k l g = elim (Bool-cases (bit_and b 0x80 == 0)) [
  | inl y ↦
      let size =
        as_size-some (decode_remaining_length raw)
          (decode_loop-stops raw p.byte_pos b 1 0 g (ground arith)) in
      rw (y, size.1)
        (remaining_length_decoded-Safe p
          (record p {
            incoming = record p.incoming { remaining_length_raw = raw; remaining_length = size.0 };
          })
          (record { raw = l; topic = a.topic; buffer = a.buffer })
          (record { no_index = h.1.no_index; no_length = h.1.no_length }) k refl refl)
  | inr n ↦ rw n (ground arith)
]

pub remaining_length_variable-Safe :
    (b : ℕ) (p : Parser)
    → Arrays p
    → p.state ≡ remaining_length_variable
    → AtState remaining_length_variable p
    → p.bytes_read < length p.input_data
    → Safe p (step_remaining_length_variable b p)
unfolding step_remaining_length_variable
remaining_length_variable-Safe b p a s h k =
    rw (store_inside p.incoming.remaining_length_raw p.byte_pos b (omega (arith, a.raw))) (
      remaining_length_stored-Safe b p _ a s h k
        (length-set p.incoming.remaining_length_raw p.byte_pos b ∙ a.raw)
        (get_elem?-set p.incoming.remaining_length_raw p.byte_pos b (omega (arith, a.raw))))
