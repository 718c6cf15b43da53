-- ===== src/Parser/StepSafety.antt =====
-- Each parser function of src/Packets/Parser.cpp and the step of Parser::parse that calls it.
use esp_mqtt_client.Prelude.{
  ℕ, zero, suc, ◌≤◌, ◌<◌, ◌≡◌, List, [], ◌∷◌, none, some, length, arith, ◌⊎◌, refl, get_elem?,
}
use esp_mqtt_client.Config.{size_mod}
use esp_mqtt_client.Parser.{
  Parser, ParserResult, ParserFunc, await_data, protocol_error, fixed_header,
  remaining_length_fixed, remaining_length_none, remaining_length_variable, var_header_connack1,
  var_header_connack2, var_header_packet_id1, var_header_packet_id2, var_header_topic_length1,
  var_header_topic_length2, var_header_topic, payload_suback, payload_publish,
}
use esp_mqtt_client.Parser.FixedHeader.{Stepped}
use esp_mqtt_client.Parser.Parse.{call, step, increment}
use esp_mqtt_client.Parser.Invariant.{AtState, Arrays, Invariant, Stays, Safe}
use esp_mqtt_client.Parser.Safety.{
  fixed_header-Safe, remaining_length_fixed-Safe, remaining_length_none-Safe, connack1-Safe,
  connack2-Safe, packet_id1-Safe, packet_id2-Safe,
}
use esp_mqtt_client.Parser.PublishSafety.{
  remaining_length_variable-Safe, topic_length1-Safe, topic_length2-Safe, topic-Safe,
  payload_suback-Safe, payload_publish-Safe,
}

pub call-Safe :
    (f : ParserFunc) (b : ℕ) (p : Parser)
    → p.state ≡ f
    → Arrays p
    → AtState f p
    → p.bytes_read < length p.input_data
    → length p.input_data < size_mod
    → Safe p (call f b p)
unfolding call
call-Safe fixed_header b p s a h k m = fixed_header-Safe b p a h k
call-Safe remaining_length_fixed b p s a h k m = remaining_length_fixed-Safe b p a h k
call-Safe remaining_length_none b p s a h k m = remaining_length_none-Safe b p a h k
call-Safe remaining_length_variable b p s a h k m = remaining_length_variable-Safe b p a s h k
call-Safe var_header_connack1 b p s a h k m = connack1-Safe b p a h k
call-Safe var_header_connack2 b p s a h k m = connack2-Safe b p a h k
call-Safe var_header_packet_id1 b p s a h k m = packet_id1-Safe b p a h k
call-Safe var_header_packet_id2 b p s a h k m = packet_id2-Safe b p a h k
call-Safe var_header_topic_length1 b p s a h k m = topic_length1-Safe b p a h k
call-Safe var_header_topic_length2 b p s a h k m = topic_length2-Safe b p a h k
call-Safe var_header_topic b p s a h k m = topic-Safe b p a s h k
call-Safe payload_suback b p s a h k m = payload_suback-Safe b p a s h k
call-Safe payload_publish b p s a h k m = payload_publish-Safe p a s h k m

pub get_elem?_inside : (xs : List ℕ) (i : ℕ) → i < length xs → (b : ℕ) × (get_elem? xs i ≡ some b)
get_elem?_inside [] i h = absurd (omega arith)
get_elem?_inside (x ∷ xs) zero h = (x, refl)
get_elem?_inside (x ∷ xs) (suc i) h = get_elem?_inside xs i (omega arith)

-- What a call of Parser::parse on `bytes` returns. After a protocol error only the arrays are sure.
pub record Parsed (bytes : List ℕ) (r : ParserResult) (q : Parser) : Type 0 where
  pub inside : q.bytes_read ≤ length bytes
  pub arrays : Arrays q
  pub ready : (r ≡ protocol_error) ⊎ AtState q.state q
  pub all_read : r ≡ await_data → q.bytes_read ≡ length bytes
  pub progress : 0 < length bytes → 0 < q.bytes_read

abbrev pub Returns : List ℕ → Stepped → Type 0
Returns bytes none = ⊥
Returns bytes (some r) = Parsed bytes r.0 r.1

-- One turn of the loop.
pub step-Safe :
    (p : Parser)
    → Invariant p
    → p.bytes_read < length p.input_data
    → length p.input_data < size_mod
    → (r : ParserResult × Parser) × (step p ≡ some (r.0, increment r.1)) × Stays p r.0 r.1
unfolding step
step-Safe p i k m =
    let here = get_elem?_inside p.input_data p.bytes_read k in
    rw (step, here.1)
      (called (call p.state here.0 p) (call-Safe p.state here.0 p refl i.arrays i.ready k m))
  where
    called :
        (o : Stepped)
        → Safe p o
        → (r : ParserResult × Parser) × (elim o as (λ _. Stepped) [
          | none ↦ none
          | some r ↦ some (r.0, increment r.1)
        ]
            ≡ some (r.0, increment r.1))
          × Stays p r.0 r.1
    called none h = elim h [ ]
    called (some r) h = (r, refl, h)
