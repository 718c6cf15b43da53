-- ===== src/RemainingLength/RoundTrip.antt =====
-- decodeRemainingLength after encodeRemainingLength (src/Packets/RemainingLength.cpp), and on
-- streams that are too long.
use esp_mqtt_client.Prelude.{
  ℕ, ◌+◌, ◌*◌, ◌/◌, ◌%◌, ◌^◌, ◌≤◌, ◌<◌, ◌≡◌, List, [], ◌∷◌, ◌++◌, bit_and, bit_and_low, bit_and_top,
  ◌≢◌, ◌∙◌, ap, arith, All,
}
use esp_mqtt_client.RemainingLength.{
  decoded, decode_loop, decode_remaining_length, encode_remaining_length,
}
use esp_mqtt_client.RemainingLength.Encode.{encode_last, encode_two, encode_three, encode_four}

-- One round on a last byte, and on a byte with the continuation bit.
decode_last :
    (b multiplier acc : ℕ) (rest : List ℕ)
    → b < 128
    → multiplier ≤ 2097152
    → decode_loop (b ∷ rest) multiplier acc ≡ decoded ((acc + b * multiplier) % 2 ^ 32)
unfolding decode_loop
decode_last b multiplier acc rest h m = ground (arith, bit_and_low b, bit_and_top b)

decode_more :
    (g multiplier acc : ℕ) (rest : List ℕ)
    → g < 128
    → multiplier ≤ 2097152
    → decode_loop ((g + 128) ∷ rest) multiplier acc
      ≡ decode_loop rest (multiplier * 128 % 2 ^ 32) ((acc + g * multiplier) % 2 ^ 32)
unfolding decode_loop
decode_more g multiplier acc rest h m = ground (arith, bit_and_low (g + 128), bit_and_top (g + 128))

-- After four bytes a fifth is refused.
decode_fifth : (stream : List ℕ) (acc v : ℕ) → decode_loop stream 268435456 acc ≢ decoded v
unfolding decode_loop
decode_fifth [] acc v = λ e. cc
decode_fifth (b ∷ stream) acc v = λ e. cc

decode_fourth_bound :
    (stream : List ℕ) (acc v : ℕ)
    → All (λ b. b < 256) stream
    → acc < 2097152
    → decode_loop stream 2097152 acc ≡ decoded v
    → v ≤ 268435455
unfolding decode_loop
decode_fourth_bound [] acc v bytes small e = cc
decode_fourth_bound (b ∷ stream) acc v bytes small e =
    ground (arith, bit_and_low b, decode_fifth stream ((acc + bit_and b 127 * 2097152) % 2 ^ 32) v)

decode_third_bound :
    (stream : List ℕ) (acc v : ℕ)
    → All (λ b. b < 256) stream
    → acc < 16384
    → decode_loop stream 16384 acc ≡ decoded v
    → v ≤ 268435455
unfolding decode_loop
decode_third_bound [] acc v bytes small e = cc
decode_third_bound (b ∷ stream) acc v bytes small e =
    ground
      (arith, bit_and_low b, decode_fourth_bound stream ((acc + bit_and b 127 * 16384) % 2 ^ 32) v)

decode_second_bound :
    (stream : List ℕ) (acc v : ℕ)
    → All (λ b. b < 256) stream
    → acc < 128
    → decode_loop stream 128 acc ≡ decoded v
    → v ≤ 268435455
unfolding decode_loop
decode_second_bound [] acc v bytes small e = cc
decode_second_bound (b ∷ stream) acc v bytes small e =
    ground
      (arith, bit_and_low b, decode_third_bound stream ((acc + bit_and b 127 * 128) % 2 ^ 32) v)

-- Whatever bytes the stream holds, a length that decodeRemainingLength returns is at most
-- 268435455, so the sum never wraps and the int32_t is never negative by accident.
pub decode_bound :
    (stream : List ℕ) (v : ℕ)
    → All (λ b. b < 256) stream
    → decode_remaining_length stream ≡ decoded v
    → v ≤ 268435455
unfolding decode_remaining_length decode_loop
decode_bound [] v bytes e = cc
decode_bound (b ∷ stream) v bytes e =
    ground (arith, bit_and_low b, decode_second_bound stream ((0 + bit_and b 127 * 1) % 2 ^ 32) v)

decode-encode_two :
    (v : ℕ) (rest : List ℕ)
    → v < 16384
    → decode_loop ((v % 128 + 128) ∷ (v / 128) ∷ rest) 1 0 ≡ decoded v
decode-encode_two v rest h =
    decode_more (v % 128) 1 0 ((v / 128) ∷ rest) (omega arith) (omega arith)
    ∙ decode_last (v / 128) 128 _ rest (omega arith) (omega arith)
    ∙ ap decoded (omega arith)

decode-encode_three :
    (v : ℕ) (rest : List ℕ)
    → v < 2097152
    → decode_loop ((v % 128 + 128) ∷ (v / 128 % 128 + 128) ∷ (v / 128 / 128) ∷ rest) 1 0 ≡ decoded v
decode-encode_three v rest h =
    decode_more (v % 128) 1 0 ((v / 128 % 128 + 128) ∷ (v / 128 / 128) ∷ rest) (omega arith)
      (omega arith)
    ∙ decode_more (v / 128 % 128) 128 _ ((v / 128 / 128) ∷ rest) (omega arith) (omega arith)
    ∙ decode_last (v / 128 / 128) 16384 _ rest (omega arith) (omega arith)
    ∙ ap decoded (omega arith)

decode-encode_four :
    (v : ℕ) (rest : List ℕ)
    → v < 268435456
    → decode_loop
        ((v % 128 + 128)
          ∷ (v / 128 % 128 + 128)
          ∷ (v / 128 / 128 % 128 + 128)
          ∷ (v / 128 / 128 / 128)
          ∷ rest)
        1
        0
      ≡ decoded v
decode-encode_four v rest h =
    decode_more (v % 128) 1 0
      ((v / 128 % 128 + 128) ∷ (v / 128 / 128 % 128 + 128) ∷ (v / 128 / 128 / 128) ∷ rest)
      (omega arith) (omega arith)
    ∙ decode_more (v / 128 % 128) 128 _ ((v / 128 / 128 % 128 + 128) ∷ (v / 128 / 128 / 128) ∷ rest)
        (omega arith) (omega arith)
    ∙ decode_more (v / 128 / 128 % 128) 16384 _ ((v / 128 / 128 / 128) ∷ rest) (omega arith)
        (omega arith)
    ∙ decode_last (v / 128 / 128 / 128) 2097152 _ rest (omega arith) (omega arith)
    ∙ ap decoded (omega arith)

-- For every length that fits the packet format, decoding what was encoded gives the length back,
-- whatever bytes follow it in the stream.
pub decode-encode :
    (v : ℕ) (rest : List ℕ)
    → v ≤ 268435455
    → decode_remaining_length (encode_remaining_length v ++ rest) ≡ decoded v
unfolding decode_remaining_length
decode-encode v rest h = ground (
  arith,
  encode_last v,
  encode_two v,
  encode_three v,
  encode_four v,
  decode_last v 1 0 rest,
  decode-encode_two v rest,
  decode-encode_three v rest,
  decode-encode_four v rest,
)
