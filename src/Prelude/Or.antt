-- ===== src/Prelude/Or.antt =====
-- `|` on 16-bit words put together from two bytes.
-- Models no code of the program.
use Prim.Native.Nat.{
  ℕ, zero, suc, ◌+◌, ◌-◌, ◌*◌, ◌/◌, ◌%◌, ◌≤◌, ◌<◌, max, bit_or, digits, bit_or-bitwise,
}
use mathlib.Core.Path.{◌≡◌, refl, ap, sym, ◌∙◌, subst}
use native.Mathlib.Omega.{arith}

-- The rounds that the native operation stands for, lowest digit first.
abbrev rounds : ℕ → ℕ → ℕ → ℕ
rounds = digits (λ l. l) max

-- A round that is not needed changes nothing.
spare_round : (n h l : ℕ) → h ≤ n → rounds (suc n) h l ≡ rounds n h l
spare_round zero zero l le = refl
spare_round zero (suc h) l le = absurd (omega arith)
spare_round (suc n) zero l le = refl
spare_round (suc n) (suc h) l le = omega (arith, spare_round n (suc h / 2) (l / 2) (omega arith))

spare_rounds : (k n h l : ℕ) → h + k ≡ n → rounds n h l ≡ bit_or h l
spare_rounds zero n h l e =
    let same : h ≡ n = omega arith in
    subst (λ m. rounds m h l ≡ bit_or h l) same (sym (bit_or-bitwise h l))
spare_rounds (suc k) zero h l e = absurd (omega arith)
spare_rounds (suc k) (suc n) h l e =
    spare_round n h l (omega arith) ∙ spare_rounds k n h l (omega arith)

pub zero-bit_or : (l : ℕ) → bit_or 0 l ≡ l
zero-bit_or l = sym (spare_rounds 1 1 0 l refl)

-- All rounds of a positive number but the first.
later_rounds : (h l : ℕ) → rounds h (suc h / 2) (l / 2) ≡ bit_or (suc h / 2) (l / 2)
later_rounds h l = spare_rounds (h - suc h / 2) h (suc h / 2) (l / 2) (omega arith)

first_round : (h l : ℕ) → bit_or h l ≡ bit_or (h / 2) (l / 2) * 2 + max (h % 2) (l % 2)
first_round zero l = omega (arith, zero-bit_or l, zero-bit_or (l / 2))
first_round (suc h) l = omega (arith, bit_or-bitwise (suc h) l, later_rounds h l)

bit_or-zero : (bound h : ℕ) → h ≤ bound → bit_or h 0 ≡ h
bit_or-zero bound zero le = zero-bit_or 0
bit_or-zero zero (suc h) le = absurd (omega arith)
bit_or-zero (suc bound) (suc h) le =
    let rest = bit_or-zero bound (suc h / 2) (omega arith) in
    omega (arith, first_round (suc h) 0, rest)

halve : (a l : ℕ) → bit_or a (l / 2) ≡ a + l / 2 → bit_or (a * 2) l ≡ a * 2 + l
halve a l e =
    let same : a * 2 / 2 ≡ a = omega arith in
    omega (arith, e, first_round (a * 2) l, ap (λ x. bit_or x (l / 2)) same)

-- A high byte and a low byte.
pub bit_or_bytes : (h l : ℕ) → l < 256 → bit_or (h * 256) l ≡ h * 256 + l
bit_or_bytes h l k =
    let empty : l / 2 / 2 / 2 / 2 / 2 / 2 / 2 / 2 ≡ 0 = omega arith in
    let base : bit_or h (l / 2 / 2 / 2 / 2 / 2 / 2 / 2 / 2)
        ≡ h + l / 2 / 2 / 2 / 2 / 2 / 2 / 2 / 2 =
      omega (arith, ap (bit_or h) empty, bit_or-zero h h (omega arith)) in
    let one = halve h (l / 2 / 2 / 2 / 2 / 2 / 2 / 2) base in
    let two = halve (h * 2) (l / 2 / 2 / 2 / 2 / 2 / 2) one in
    let three = halve (h * 2 * 2) (l / 2 / 2 / 2 / 2 / 2) two in
    let four = halve (h * 2 * 2 * 2) (l / 2 / 2 / 2 / 2) three in
    let five = halve (h * 2 * 2 * 2 * 2) (l / 2 / 2 / 2) four in
    let six = halve (h * 2 * 2 * 2 * 2 * 2) (l / 2 / 2) five in
    let seven = halve (h * 2 * 2 * 2 * 2 * 2 * 2) (l / 2) six in
    let eight = halve (h * 2 * 2 * 2 * 2 * 2 * 2 * 2) l seven in
    let same : h * 2 * 2 * 2 * 2 * 2 * 2 * 2 * 2 ≡ h * 256 = omega arith in
    subst (λ x. bit_or x l ≡ x + l) same eight
