-- ===== src/Prelude/Bits.antt =====
-- Masks on one byte as arithmetic: each is a table over the byte, checked by evaluation.
-- Models no code of the program.
use Prim.Native.Nat.{ℕ, zero, suc, ◌+◌, ◌*◌, ◌/◌, ◌%◌, ◌<◌, bit_and, bit_or}
use mathlib.Core.Path.{◌≡◌, refl}
use mathlib.Core.Bool.{Bool, true, false}
use native.Mathlib.Omega.{arith}
use esp_mqtt_client.Prelude.Tests.{if◌then◌else◌, ◌==◌, ==_iff}

-- A test that every number below a bound passes, and what passing says of one of them.
passes : (test : ℕ → Bool) (bound : ℕ) → Bool
passes test zero = true
passes test (suc bound) = if test bound then passes test bound else false

passed : (test : ℕ → Bool) (bound b : ℕ) → passes test bound ≡ true → b < bound → test b ≡ true
unfolding passes
passed test zero b h lt = absurd (omega arith)
passed test (suc bound) b h lt = ground (arith, passed test bound b)

low_table : passes (λ b. bit_and b 127 == b % 128) 256 ≡ true
unfolding passes
low_table = refl

top_table : passes (λ b. bit_and b 128 == b / 128 * 128) 256 ≡ true
unfolding passes
top_table = refl

set_top_table : passes (λ b. bit_or b 128 == b + 128) 128 ≡ true
unfolding passes
set_top_table = refl

type_table : passes (λ b. bit_and b 0xf0 == b / 16 * 16) 256 ≡ true
unfolding passes
type_table = refl

flags_table : passes (λ b. bit_and b 0x0f == b % 16) 256 ≡ true
unfolding passes
flags_table = refl

qos_table : passes (λ b. bit_and b 6 == b / 2 % 4 * 2) 256 ≡ true
unfolding passes
qos_table = refl

-- b & 127
pub bit_and_low : (b : ℕ) → b < 256 → bit_and b 127 ≡ b % 128
bit_and_low b h = (==_iff _ _).0 (passed _ 256 b low_table h)

-- b & 128
pub bit_and_top : (b : ℕ) → b < 256 → bit_and b 128 ≡ b / 128 * 128
bit_and_top b h = (==_iff _ _).0 (passed _ 256 b top_table h)

-- b | 128
pub bit_or_top : (b : ℕ) → b < 128 → bit_or b 128 ≡ b + 128
bit_or_top b h = (==_iff _ _).0 (passed _ 128 b set_top_table h)

-- b & 0xF0
pub bit_and_type : (b : ℕ) → b < 256 → bit_and b 0xf0 ≡ b / 16 * 16
bit_and_type b h = (==_iff _ _).0 (passed _ 256 b type_table h)

-- b & 0x0F
pub bit_and_flags : (b : ℕ) → b < 256 → bit_and b 0x0f ≡ b % 16
bit_and_flags b h = (==_iff _ _).0 (passed _ 256 b flags_table h)

-- b & 0x06
pub bit_and_qos : (b : ℕ) → b < 256 → bit_and b 6 ≡ b / 2 % 4 * 2
bit_and_qos b h = (==_iff _ _).0 (passed _ 256 b qos_table h)
