-- ===== src/Prelude/Digits.antt =====
-- The native bit operations mean a recursion on binary digits with fuel; here is one equation
-- for the lowest digit of each.
use Prim.Native.Nat.{
  ℕ, zero, suc, ◌+◌, ◌*◌, ◌/◌, ◌%◌, ◌≤◌, min, max, bit_and, bit_or, digits, bitwise,
  bit_and-bitwise, bit_or-bitwise,
}
use mathlib.Core.Path.{◌≡◌, refl}
use native.Mathlib.Omega.{arith}

-- The fuel of `digits` does not matter once it reaches the number.
module _ (end : ℕ → ℕ) (join : ℕ → ℕ → ℕ) where
  enough_fuel : (n m a b : ℕ) → a ≤ n → a ≤ m → digits end join n a b ≡ digits end join m a b
  enough_fuel n m zero b hn hm = both n m
    where
      both : (i j : ℕ) → digits end join i zero b ≡ digits end join j zero b
      both zero zero = refl
      both zero (suc j) = refl
      both (suc i) zero = refl
      both (suc i) (suc j) = refl
  enough_fuel zero m (suc a) b hn hm = absurd (omega arith)
  enough_fuel (suc n) zero (suc a) b hn hm = absurd (omega arith)
  enough_fuel (suc n) (suc m) (suc a) b hn hm =
      rw (enough_fuel n m (suc a / 2) (b / 2) (omega arith) (omega arith))

  lowest_digit :
      (a b : ℕ)
      → bitwise end join (suc a) b
        ≡ bitwise end join (suc a / 2) (b / 2) * 2 + join (suc a % 2) (b % 2)
  lowest_digit a b =
      omega (arith, enough_fuel a (suc a / 2) (suc a / 2) (b / 2) (omega arith) (omega arith))

-- One equation for the lowest digit of each operation.
pub bit_and_digit : (a b : ℕ) → bit_and a b ≡ bit_and (a / 2) (b / 2) * 2 + min (a % 2) (b % 2)
bit_and_digit zero b = simp bit_and-bitwise (omega arith)
bit_and_digit (suc a) b = simp bit_and-bitwise (lowest_digit (λ y. 0) min a b)

pub bit_or_digit : (a b : ℕ) → bit_or a b ≡ bit_or (a / 2) (b / 2) * 2 + max (a % 2) (b % 2)
bit_or_digit zero b = simp bit_or-bitwise (omega arith)
bit_or_digit (suc a) b = simp bit_or-bitwise (lowest_digit (λ y. y) max a b)
