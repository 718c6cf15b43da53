-- ===== src/RemainingLength.antt =====
-- src/Packets/RemainingLength.cpp and RemainingLength.h. Byte arrays are lists of numbers.
pub mod Encode
pub mod RoundTrip
use mathlib.Core.WellFounded.{Acc}
use mathlib.Core.Logic.{dite}
use native.Mathlib.Decide.{dec_lt}
use esp_mqtt_client.Prelude.{
  ℕ, ◌+◌, ◌*◌, ◌/◌, ◌%◌, ◌^◌, ◌<◌, List, [], ◌∷◌, bit_and, bit_or, ltb, ◌==◌, if◌then◌else◌, lt_wf,
  arith,
}

-- The int32_t that decodeRemainingLength returns: `malformed` is -1. `out_of_bounds` is no C++
-- value: the loop read behind the end of the stream.
pub data Decoded : Type 0 where
  decoded : ℕ → Decoded
  malformed : Decoded
  out_of_bounds : Decoded

-- The do-while loop over the bytes that are left. The sum is computed as a uint32_t.
unfoldable pub decode_loop : List ℕ → (multiplier remaining_length : ℕ) → Decoded
decode_loop [] multiplier remaining_length = out_of_bounds
decode_loop (encoded_byte ∷ stream) multiplier remaining_length =
    let sum = (remaining_length + bit_and encoded_byte 127 * multiplier) % 2 ^ 32 in
    let rest = decode_loop stream (multiplier * 128 % 2 ^ 32) sum in
    if ltb 2097152 multiplier
    then malformed
    else if bit_and encoded_byte 128 == 0
    then decoded sum
    else rest

unfoldable pub decode_remaining_length : List ℕ → Decoded
unfolding decode_loop
decode_remaining_length stream = decode_loop stream 1 0

unfoldable pub remaining_length_length : ℕ → ℕ
remaining_length_length remaining_length =
    if ltb remaining_length 128
    then 1
    else if ltb remaining_length 16384
    then 2
    else if ltb remaining_length 2097152
    then 3
    else if ltb 268435455 remaining_length
    then 0
    else 4

pub div_shrinks : (v : ℕ) → 0 < v / 128 → v / 128 < v
div_shrinks v h = omega arith

-- The do-while loop: the bytes written to the destination, in order.
encode_loop : (remaining_length : ℕ) → Acc ◌<◌ remaining_length → List ℕ
encode_loop remaining_length (Acc.intro _ smaller) =
    dite (dec_lt 0 (remaining_length / 128))
      (λ more.
        bit_or (remaining_length % 128) 128
        ∷ encode_loop (remaining_length / 128) (smaller _ (div_shrinks remaining_length more)))
      (λ _. (remaining_length % 128) ∷ [])

-- The bytes written; the C++ function returns their number.
unfoldable pub encode_remaining_length : ℕ → List ℕ
unfolding encode_loop lt_wf dec_lt
encode_remaining_length remaining_length =
    encode_loop remaining_length (lt_wf.apply remaining_length)
