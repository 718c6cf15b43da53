-- ===== src/Tests/ParserTests.antt =====
-- The parser's theorems (src/Packets/Parser.cpp, RemainingLength.cpp) at concrete inputs.
use esp_mqtt_client.Prelude.{ℕ, List, [], ◌∷◌, ◌++◌, true, some, refl, arith, ◌≡◌, ◌+◌, ◌*◌}
use esp_mqtt_client.RemainingLength.{decode_remaining_length, encode_remaining_length, decoded}
use esp_mqtt_client.RemainingLength.RoundTrip.{decode-encode}
use esp_mqtt_client.Packet.{Packet, success}
use esp_mqtt_client.Packet.Create.{create_publish, create_ack}
use esp_mqtt_client.Parser.{Parser, new_parser, packet}
use esp_mqtt_client.Parser.Parse.{parse}
use esp_mqtt_client.Parser.Split.{parse-split}
use esp_mqtt_client.Parser.SecondPart.{behind}
use esp_mqtt_client.Parser.FixedHeader.{step_fixed_header, step_remaining_length_variable}
use esp_mqtt_client.Parser.Step.{step_topic_length1, step_topic_length2, step_topic}
use esp_mqtt_client.Parser.{await_data, var_header_topic}
use esp_mqtt_client.Prelude.{replicate}
use esp_mqtt_client.Parser.StepSafety.{Returns}
use esp_mqtt_client.Parser.Total.{parse-Returns, new_parser-Invariant}
use esp_mqtt_client.Parser.PublishRoundTrip.{Delivered}
use esp_mqtt_client.Parser.Delivery.{publish-parse}
use esp_mqtt_client.Parser.Acks.{ack-parse, Acknowledged}
use esp_mqtt_client.Tests.{memory, memory-HasMemory, topic_ab, payload_three}

publish-parse_example :
    (sent : Packet) × (bytes : List ℕ) × (p' : Parser) × (create_publish memory 7 topic_ab
        payload_three 1 true
      ≡ some (sent, success))
    × (sent.contents ≡ some bytes)
    × (parse bytes new_parser ≡ some (packet, p'))
    × Delivered bytes topic_ab payload_three 7 1 true p'
publish-parse_example =
    publish-parse memory new_parser 7 topic_ab payload_three 1 true memory-HasMemory refl
      new_parser-Invariant.arrays (omega arith) (omega arith) (omega arith) (omega arith)
      (omega arith) (omega arith)

ack-parse_example :
    (sent : Packet) × (bytes : List ℕ) × (p' : Parser) × (create_ack memory ((4 + 2) * 16) 513
      ≡ some (sent, success))
    × (sent.contents ≡ some bytes)
    × (parse bytes new_parser ≡ some (packet, p'))
    × Acknowledged bytes ((4 + 2) * 16) 513 p'
ack-parse_example =
    ack-parse memory new_parser 2 513 memory-HasMemory refl (omega arith) (omega arith)
      (omega arith)

parse-Returns_example :
    Returns (0x20 ∷ 2 ∷ 0 ∷ 0 ∷ 7 ∷ []) (parse (0x20 ∷ 2 ∷ 0 ∷ 0 ∷ 7 ∷ []) new_parser)
parse-Returns_example =
    parse-Returns (0x20 ∷ 2 ∷ 0 ∷ 0 ∷ 7 ∷ []) new_parser new_parser-Invariant (omega arith)

decode-encode_example :
    decode_remaining_length (encode_remaining_length 16384 ++ (255 ∷ [])) ≡ decoded 16384
decode-encode_example = decode-encode 16384 (255 ∷ []) (omega arith)

-- The first five bytes of a PUBLISH packet: one byte of the topic is there.
abbrev five : List ℕ
five = 0x32 ∷ 9 ∷ 0 ∷ 2 ∷ 97 ∷ []

abbrev after_five : Parser
after_five = record new_parser {
  input_data = five;
  bytes_read = 5;
  byte_pos = 1;
  state = var_header_topic;
  incoming = record new_parser.incoming {
    packet_type = 0x32;
    remaining_length = 9;
    remaining_length_raw = 9 ∷ 0 ∷ 0 ∷ 0 ∷ [];
    topic_length = 2;
    topic = 97 ∷ replicate 128 0;
    payload_total = 5;
  };
}

five_run : parse five new_parser ≡ some (await_data, after_five)
unfolding parse step_fixed_header step_remaining_length_variable step_topic_length1
    step_topic_length2 step_topic decode_remaining_length
five_run = refl

-- The rest of the packet, of which the payload is three bytes
parse-split_example :
    parse (five ++ (98 ∷ 0 ∷ 7 ∷ 1 ∷ 2 ∷ 3 ∷ [])) new_parser
    ≡ behind five (98 ∷ 0 ∷ 7 ∷ 1 ∷ 2 ∷ 3 ∷ []) (parse (98 ∷ 0 ∷ 7 ∷ 1 ∷ 2 ∷ 3 ∷ []) after_five)
parse-split_example =
    parse-split five (98 ∷ 0 ∷ 7 ∷ 1 ∷ 2 ∷ 3 ∷ []) new_parser after_five new_parser-Invariant tt
      (omega arith) five_run
