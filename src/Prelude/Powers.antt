-- ===== src/Prelude/Powers.antt =====
-- Powers of two: quotients, remainders and aligned numbers.
use Prim.Native.Nat.{ℕ, zero, suc, ◌+◌, ◌-◌, ◌*◌, ◌/◌, ◌%◌, ◌^◌, ◌≤◌, ◌<◌}
use mathlib.Core.Path.{◌≡◌, ap, sym, ◌∙◌}
use native.Mathlib.Nat.{
  pow-suc, one-le-pow, mul-add-mod_self_right, mod-eq_of_lt, div-eq_of_lt-le, div-div-eq-div-mul,
  div-add-mod', mod-lt, zero-add, suc-add, mul-le-mul_right, pow-le-pow_right,
}
use native.Mathlib.Decide.{dec_le}
use native.Mathlib.Omega.{arith}

pub pow_double : (k : ℕ) → 2 ^ suc k ≡ 2 * 2 ^ k
pow_double k = omega (arith, pow-suc 2 k)

pub pow_pos : (k : ℕ) → 1 ≤ 2 ^ k
pow_pos k = one-le-pow k 2 (omega arith)

pub pow-add : (j k : ℕ) → 2 ^ (j + k) ≡ 2 ^ j * 2 ^ k
pow-add zero k = rw zero-add (omega arith)
pow-add (suc j) k =
    ap (λ n. 2 ^ n) (suc-add j k) ∙ rw (pow_double (j + k), pow-add j k, pow_double j) (omega arith)

-- The quotient and the remainder are determined by the equation.
pub quotient_unique : (t q r : ℕ) → r < t → (q * t + r) / t ≡ q
quotient_unique t q r h = div-eq_of_lt-le t (omega arith) (omega arith)

pub remainder_unique : (t q r : ℕ) → r < t → (q * t + r) % t ≡ r
remainder_unique t q r h = mul-add-mod_self_right q t r ∙ mod-eq_of_lt h

-- The numbers of a block have the same quotient.
pub quotient_of : (t b x : ℕ) → 1 ≤ t → b * t ≤ x → x < b * t + t → x / t ≡ b
quotient_of t b x positive low high =
    ap (λ n. n / t) (split) ∙ quotient_unique t b (x - b * t) (omega arith)
  where
    split : x ≡ b * t + (x - b * t)
    split = omega arith

pub div_double : (a t : ℕ) → a / (2 * t) ≡ a / 2 / t
div_double a t = sym (div-div-eq-div-mul a 2 t)

halved : (a t : ℕ) → a ≡ a / 2 / t * (2 * t) + (a / 2 % t * 2 + a % 2)
halved a t = omega (arith, ap (λ (n : ℕ). n * 2) (div-add-mod' (a / 2) t))

pub mod_double : (a t : ℕ) → 1 ≤ t → a % (2 * t) ≡ a / 2 % t * 2 + a % 2
mod_double a t h =
    ap (λ n. n % (2 * t)) (halved a t)
    ∙ remainder_unique (2 * t) (a / 2 / t) _ (omega (arith, mod-lt (a / 2) h))

digit_lt : (m t x r : ℕ) → x < m → r < t → x * t + r < m * t
digit_lt m t x r hx hr = omega (arith, mul-le-mul_right t hx)

two_digits : (m t a : ℕ) → a ≡ a / t / m * (m * t) + (a / t % m * t + a % t)
two_digits m t a = omega (arith, ap (λ (n : ℕ). n * t) (div-add-mod' (a / t) m), div-add-mod' a t)

-- The remainder by a product has two digits.
pub mod-mul : (m t a : ℕ) → 1 ≤ m → 1 ≤ t → a % (m * t) ≡ a / t % m * t + a % t
mod-mul m t a hm ht =
    ap (λ n. n % (m * t)) (two_digits m t a)
    ∙ remainder_unique (m * t) (a / t / m) _
        (digit_lt m t (a / t % m) (a % t) (mod-lt (a / t) hm) (mod-lt a ht))

-- A power of two outgrows its exponent, and grows with it.
pub pow-gt : (k : ℕ) → k < 2 ^ k
pow-gt zero = omega arith
pow-gt (suc k) = omega (arith, pow_double k, pow-gt k)

pub pow_mono : {j k : ℕ} → j ≤ k → 2 ^ j ≤ 2 ^ k
pow_mono h = pow-le-pow_right {n = 2} (omega arith) h

pub exponent_le : (j k : ℕ) → 2 ^ j ≤ 2 ^ k → j ≤ k
exponent_le j k h = elim (dec_le j k) [
  | yes le ↦ le
  | no gt ↦
      let more : 2 ^ suc k ≤ 2 ^ j = pow_mono (omega arith) in
      absurd (omega (arith, pow_double k, pow_pos k))
]

-- The two parts of a word of `w` bits.
pub pow_split : (j k w : ℕ) → j + k ≡ w → 2 ^ j * 2 ^ k ≡ 2 ^ w
pow_split j k w e = sym (pow-add j k) ∙ ap (λ n. 2 ^ n) e

pub pred-mul : (x t : ℕ) → 1 ≤ x → (x - 1) * t + t ≡ x * t
pred-mul zero t h = absurd (omega arith)
pred-mul (suc x) t h = let less : suc x - 1 ≡ x = omega arith in rw less (omega arith)
