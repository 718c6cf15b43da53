-- ===== src/RemainingLength/Encode.antt =====
-- What encodeRemainingLength (src/Packets/RemainingLength.cpp) writes, round by round.
use mathlib.Core.WellFounded.{Acc}
use esp_mqtt_client.Prelude.{
  ℕ, ◌+◌, ◌/◌, ◌%◌, ◌≤◌, ◌<◌, ◌≡◌, ap, ◌∙◌, [], ◌∷◌, length, All, bit_or_top, lt_wf, arith,
}
use esp_mqtt_client.RemainingLength.{encode_loop, encode_remaining_length, remaining_length_length}

-- The bytes do not depend on how the rounds were shown to end.
encode_loop_proof : (v : ℕ) (w u : Acc ◌<◌ v) → encode_loop v w ≡ encode_loop v u
unfolding encode_loop
encode_loop_proof v (Acc.intro _ f) (Acc.intro _ g) =
    grind (arith, λ (h : v / 128 < v). encode_loop_proof (v / 128) (f (v / 128) h) (g (v / 128) h))

encode_loop_last : (v : ℕ) (w : Acc ◌<◌ v) → v < 128 → encode_loop v w ≡ v ∷ []
unfolding encode_loop
encode_loop_last v (Acc.intro _ f) h = ground arith

encode_loop_more :
    (v : ℕ) (w : Acc ◌<◌ v) (u : Acc ◌<◌ (v / 128))
    → 128 ≤ v
    → encode_loop v w ≡ (v % 128 + 128) ∷ encode_loop (v / 128) u
unfolding encode_loop
encode_loop_more v (Acc.intro _ f) u h = grind (
  arith,
  bit_or_top (v % 128),
  λ (p : v / 128 < v). encode_loop_proof (v / 128) (f (v / 128) p) u,
)

pub encode_last : (v : ℕ) → v < 128 → encode_remaining_length v ≡ v ∷ []
unfolding encode_remaining_length
encode_last v h = encode_loop_last v (lt_wf.apply v) h

pub encode_more :
    (v : ℕ)
    → 128 ≤ v
    → encode_remaining_length v ≡ (v % 128 + 128) ∷ encode_remaining_length (v / 128)
unfolding encode_remaining_length
encode_more v h = encode_loop_more v (lt_wf.apply v) (lt_wf.apply (v / 128)) h

-- The forms by the number of bytes, for values that fit the packet format.
pub encode_two :
    (v : ℕ) → 128 ≤ v → v < 16384 → encode_remaining_length v ≡ (v % 128 + 128) ∷ (v / 128) ∷ []
encode_two v h k = encode_more v h ∙ ap (◌∷◌ (v % 128 + 128)) (encode_last (v / 128) (omega arith))

pub encode_three :
    (v : ℕ)
    → 16384 ≤ v
    → v < 2097152
    → encode_remaining_length v ≡ (v % 128 + 128) ∷ (v / 128 % 128 + 128) ∷ (v / 128 / 128) ∷ []
encode_three v h k =
    encode_more v (omega arith)
    ∙ ap (◌∷◌ (v % 128 + 128)) (encode_two (v / 128) (omega arith) (omega arith))

pub encode_four :
    (v : ℕ)
    → 2097152 ≤ v
    → v < 268435456
    → encode_remaining_length v
      ≡ (v % 128 + 128)
        ∷ (v / 128 % 128 + 128)
        ∷ (v / 128 / 128 % 128 + 128)
        ∷ (v / 128 / 128 / 128)
        ∷ []
encode_four v h k =
    encode_more v (omega arith)
    ∙ ap (◌∷◌ (v % 128 + 128)) (encode_three (v / 128) (omega arith) (omega arith))

-- For every length that fits the packet format, encodeRemainingLength writes as many bytes as
-- remainingLengthLength announces, between one and four of them.
pub length-encode :
    (v : ℕ)
    → v ≤ 268435455
    → (length (encode_remaining_length v) ≡ remaining_length_length v)
      × (1 ≤ remaining_length_length v)
      × (remaining_length_length v ≤ 4)
unfolding remaining_length_length
length-encode v h = ground (arith, encode_last v, encode_two v, encode_three v, encode_four v)

-- Each of them is a byte.
pub encode-IsByte : (v : ℕ) → v ≤ 268435455 → All (λ b. b < 256) (encode_remaining_length v)
encode-IsByte v h = ground (arith, encode_last v, encode_two v, encode_three v, encode_four v)
