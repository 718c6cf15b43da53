-- ===== src/Parser/Connack.antt =====
-- A CONNACK packet through Parser::parse (src/Packets/Parser.cpp).
use esp_mqtt_client.Prelude.{
  ℕ, ◌+◌, ◌*◌, ◌%◌, ◌≤◌, ◌<◌, ◌≡◌, List, [], ◌∷◌, some, arith, refl, ◌∙◌, true, ltb, leb,
}
use esp_mqtt_client.Parser.FixedHeader.{
  step_fixed_header, fixed_header_switch, step_remaining_length_fixed,
}
use esp_mqtt_client.Parser.Step.{step_connack1, step_connack2}
use esp_mqtt_client.Parser.{
  Parser, packet, fixed_header, reset_packet, remaining_length_fixed, var_header_connack1,
  var_header_connack2,
}
use esp_mqtt_client.Parser.Parse.{call, parse}
use esp_mqtt_client.Parser.Feed.{parser_at, Left, next, advance, finish}
use esp_mqtt_client.Parser.Delivery.{parse-at}

-- A CONNACK packet with a session flag and a return code.
abbrev pub connack_frame : ℕ → ℕ → List ℕ
connack_frame session code = 0x20 ∷ 2 ∷ session ∷ code ∷ []

-- The parser after a CONNACK packet
abbrev pub after_connack : Parser → ℕ → ℕ → Parser
after_connack p session code =
    parser_at (connack_frame session code) p.payload_bytes 4 p.byte_pos fixed_header
      (record (reset_packet p.incoming) {
        packet_type = 0x20;
        remaining_length = 2;
        fixed = session + code * 256;
      })

pub connack-parse :
    (p : Parser) (session code : ℕ)
    → p.state ≡ fixed_header
    → session < 2
    → code ≤ 5
    → parse (connack_frame session code) p ≡ some (packet, after_connack p session code)
unfolding call step_fixed_header fixed_header_switch step_remaining_length_fixed step_connack1
    step_connack2
connack-parse p session code s h k =
    let bytes = connack_frame session code in
    let buffer = p.payload_bytes in
    let pos = p.byte_pos in
    let whole : Left bytes 0 bytes = record { behind = refl; in_range = omega arith } in
    let i1 = record (reset_packet p.incoming) { packet_type = 0x20 } in
    let i2 = record i1 { remaining_length = 2 } in
    let i3 = record i2 { fixed = session } in
    let i4 = record i2 { fixed = session + code * 256 } in
    let flag : ltb session 2 ≡ true = ground arith in
    let known : leb code 5 ≡ true = ground arith in
    let low : 0 + session ≡ session = omega arith in
    let word : session % 256 + code * 256 ≡ session + code * 256 = omega arith in
    let one = advance buffer pos pos fixed_header remaining_length_fixed p.incoming i1 whole refl in
    let two =
      advance buffer pos pos remaining_length_fixed var_header_connack1 i1 i2 (next whole) refl in
    let three =
      advance buffer pos pos var_header_connack1 var_header_connack2 i2 i3 (next (next whole))
        (rw (flag, low) refl) in
    let four =
      finish buffer pos 3 pos var_header_connack2 fixed_header i3 i4 (next (next (next whole)))
        (omega arith) (rw (known, word) refl) in
    parse-at bytes p s ∙ one ∙ two ∙ three ∙ four
