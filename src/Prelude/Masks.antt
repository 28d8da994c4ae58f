-- ===== src/Prelude/Masks.antt =====
-- `&` and `|` with a mask of ones, at every width, and the test `n & (n - 1) == 0`.
use Prim.Native.Nat.{ℕ, zero, suc, ◌+◌, ◌-◌, ◌*◌, ◌/◌, ◌%◌, ◌^◌, ◌≤◌, ◌<◌, bit_and, bit_or}
use mathlib.Core.Path.{◌≡◌, refl, ap, ◌∙◌}
use native.Mathlib.Decide.{ℕ_discrete}
use native.Mathlib.Nat.{mod-eq_of_lt, mod_self}
use native.Mathlib.Omega.{arith}
use netjugo.Prelude.Digits.{bit_and_digit, bit_or_digit}
use netjugo.Prelude.Powers.{pow_double, pow_pos, div_double, mod_double}

bit_or-zero_below : (top x : ℕ) → x ≤ top → bit_or x 0 ≡ x
bit_or-zero_below zero zero below = refl
bit_or-zero_below (suc top) zero below = refl
bit_or-zero_below zero (suc x) below = absurd (omega arith)
bit_or-zero_below (suc top) (suc x) below =
    let half = bit_or-zero_below top (suc x / 2) (omega arith) in
    omega (arith, bit_or_digit (suc x) 0, half)

pub bit_or-zero : (x : ℕ) → bit_or x 0 ≡ x
bit_or-zero x = bit_or-zero_below x x (omega arith)

bit_and-zero_below : (top x : ℕ) → x ≤ top → bit_and x 0 ≡ 0
bit_and-zero_below zero zero below = refl
bit_and-zero_below (suc top) zero below = refl
bit_and-zero_below zero (suc x) below = absurd (omega arith)
bit_and-zero_below (suc top) (suc x) below =
    let half = bit_and-zero_below top (suc x / 2) (omega arith) in
    omega (arith, bit_and_digit (suc x) 0, half)

pub bit_and-zero : (x : ℕ) → bit_and x 0 ≡ 0
bit_and-zero x = bit_and-zero_below x x (omega arith)

-- A mask of the `k` low bits keeps the remainder by `2 ^ k`.
pub bit_and_low : (k a : ℕ) → bit_and a (2 ^ k - 1) ≡ a % 2 ^ k
bit_and_low zero a = omega (arith, bit_and-zero a)
bit_and_low (suc k) a = ground (
  arith,
  bit_and_digit a (2 ^ suc k - 1),
  pow_double k,
  pow_pos k,
  mod_double a (2 ^ k),
  bit_and_low k (a / 2),
)

bit_or_odd : (a m : ℕ) → bit_or a (2 * m + 1) ≡ bit_or (a / 2) m * 2 + 1
bit_or_odd a m =
    let half : (2 * m + 1) / 2 ≡ m = omega arith in
    omega (arith, bit_or_digit a (2 * m + 1), ap (bit_or (a / 2)) half)

bit_or_even : (q r : ℕ) → bit_or (2 * q) r ≡ bit_or q (r / 2) * 2 + r % 2
bit_or_even q r =
    let half : 2 * q / 2 ≡ q = omega arith in
    omega (arith, bit_or_digit (2 * q) r, ap (λ n. bit_or n (r / 2)) half)

bit_and_even : (a m : ℕ) → bit_and a (2 * m) ≡ bit_and (a / 2) m * 2
bit_and_even a m =
    let half : 2 * m / 2 ≡ m = omega arith in
    omega (arith, bit_and_digit a (2 * m), ap (bit_and (a / 2)) half)

-- Setting the `k` low bits replaces the remainder by the mask.
pub bit_or_low : (k a : ℕ) → bit_or a (2 ^ k - 1) ≡ a / 2 ^ k * 2 ^ k + (2 ^ k - 1)
bit_or_low zero a = omega (arith, bit_or-zero a)
bit_or_low (suc k) a =
    let mask : 2 ^ suc k - 1 ≡ 2 * (2 ^ k - 1) + 1 = omega (arith, pow_double k, pow_pos k) in
    rw (mask, bit_or_odd, bit_or_low k (a / 2), pow_double k, div_double) (omega (arith, pow_pos k))

-- A mask of the bits from `k` up clears the `k` low bits.
pub bit_and_high :
    (j k a : ℕ) → a < 2 ^ j * 2 ^ k → bit_and a ((2 ^ j - 1) * 2 ^ k) ≡ a / 2 ^ k * 2 ^ k
bit_and_high j zero a h =
    let mask : (2 ^ j - 1) * 1 ≡ 2 ^ j - 1 = omega arith in
    rw (mask, bit_and_low j a) (mod-eq_of_lt (omega arith) ∙ omega arith)
bit_and_high j (suc k) a h =
    let below : a / 2 < 2 ^ j * 2 ^ k = omega (arith, ap (λ (n : ℕ). 2 ^ j * n) (pow_double k)) in
    let mask : (2 ^ j - 1) * 2 ^ suc k ≡ 2 * ((2 ^ j - 1) * 2 ^ k) =
      omega (arith, ap (λ (n : ℕ). (2 ^ j - 1) * n) (pow_double k)) in
    rw (mask, bit_and_even, bit_and_high j k (a / 2) below, pow_double k, div_double) (omega arith)

-- The fields of `(q << k) | r` do not meet.
pub bit_or_fields : (k q r : ℕ) → r < 2 ^ k → bit_or (q * 2 ^ k) r ≡ q * 2 ^ k + r
bit_or_fields zero q r h =
    let none_low : r ≡ 0 = omega arith in rw (none_low, bit_or-zero) (omega arith)
bit_or_fields (suc k) q r h =
    let up : q * 2 ^ suc k ≡ 2 * (q * 2 ^ k) =
      omega (arith, ap (λ (n : ℕ). q * n) (pow_double k)) in
    rw (up, bit_or_even, bit_or_fields k q (r / 2) (omega (arith, pow_double k))) (omega arith)

bit_or_doubled : (a m : ℕ) → bit_or a (2 * m) ≡ bit_or (a / 2) m * 2 + a % 2
bit_or_doubled a m =
    let half : 2 * m / 2 ≡ m = omega arith in
    omega (arith, bit_or_digit a (2 * m), ap (bit_or (a / 2)) half)

-- `a | (m << k)` leaves the `k` low bits of `a`.
pub bit_or_shifted : (k a m : ℕ) → bit_or a (m * 2 ^ k) ≡ bit_or (a / 2 ^ k) m * 2 ^ k + a % 2 ^ k
bit_or_shifted zero a m =
    let m' : m * 1 ≡ m = omega arith in
    let a' : a / 1 ≡ a = omega arith in rw (m', a') (omega arith)
bit_or_shifted (suc k) a m =
    let up : m * 2 ^ suc k ≡ 2 * (m * 2 ^ k) =
      omega (arith, ap (λ (n : ℕ). m * n) (pow_double k)) in
    rw
      (
        up,
        bit_or_doubled,
        bit_or_shifted k (a / 2) m,
        pow_double k,
        div_double,
        mod_double a (2 ^ k) (pow_pos k),
      )
      (omega arith)

bit_and-self_fuel : (n a : ℕ) → a ≤ n → bit_and a a ≡ a
bit_and-self_fuel n zero h = refl
bit_and-self_fuel zero (suc a) h = absurd (omega arith)
bit_and-self_fuel (suc n) (suc a) h =
    omega (arith, bit_and_digit (suc a) (suc a), bit_and-self_fuel n (suc a / 2) (omega arith))

-- A power of two shares no bit with its predecessor.
pub bit_and-pow_pred : (k : ℕ) → bit_and (2 ^ k) (2 ^ k - 1) ≡ 0
bit_and-pow_pred k = bit_and_low k (2 ^ k) ∙ mod_self (2 ^ k)

bit_and-pred_even :
    (a : ℕ) → a % 2 ≡ 0 → 1 ≤ a → bit_and a (a - 1) ≡ bit_and (a / 2) (a / 2 - 1) * 2
bit_and-pred_even a e p =
    let half : (a - 1) / 2 ≡ a / 2 - 1 = omega arith in
    omega (arith, bit_and_digit a (a - 1), ap (bit_and (a / 2)) half)

bit_and-pred_odd : (a : ℕ) → a % 2 ≡ 1 → bit_and a (a - 1) ≡ a - 1
bit_and-pred_odd a e =
    let half : (a - 1) / 2 ≡ a / 2 = omega arith in
    omega (
      arith,
      bit_and_digit a (a - 1),
      ap (bit_and (a / 2)) half,
      bit_and-self_fuel (a / 2) (a / 2) (omega arith),
    )

bit_and-pred_fuel : (n a : ℕ) → a ≤ n → 1 ≤ a → bit_and a (a - 1) ≡ 0 → (k : ℕ) × (a ≡ 2 ^ k)
bit_and-pred_fuel zero a h p e = absurd (omega arith)
bit_and-pred_fuel (suc n) a h p e = elim (ℕ_discrete (a % 2) 0) [
  | yes even ↦
      let (k, half) =
        bit_and-pred_fuel n (a / 2) (omega arith) (omega arith)
          (omega (arith, bit_and-pred_even a even p)) in
      (suc k, omega (arith, pow_double k))
  | no odd ↦ (0, omega (arith, bit_and-pred_odd a (omega arith)))
]

-- A positive number that shares no bit with its predecessor is a power of two.
pub pow_of_bit_and-pred : (a : ℕ) → 1 ≤ a → bit_and a (a - 1) ≡ 0 → (k : ℕ) × (a ≡ 2 ^ k)
pow_of_bit_and-pred a = bit_and-pred_fuel a a (omega arith)
