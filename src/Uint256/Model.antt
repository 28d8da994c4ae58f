-- ===== src/Uint256/Model.antt =====
-- A concrete meaning for the operations of uint256: it meets the documented behaviour.
use native.Mathlib.Nat.{pow-le-pow_right}
use netjugo.Prelude.{
  ℕ, zero, suc, ◌+◌, ◌-◌, ◌*◌, ◌/◌, ◌%◌, ◌^◌, ◌≤◌, ◌<◌, ◌≡◌, refl, compare, bit_and, bit_or, ltb,
  ◌==◌, arith, if◌then◌else◌, ℕ_discrete, be_bytes, of_bytes,
}
use netjugo.Uint256.{Uint256}

-- The number of bytes without leading zeros, for at most `n` bytes.
abbrev pub byte_count : ℕ → ℕ → ℕ
byte_count zero a = 0
byte_count (suc n) a = if ltb a (256 ^ n) then byte_count n a else suc n

pub byte_count_lem : (m n a : ℕ) → n < m → 256 ^ n ≤ a → a < 256 ^ suc n → byte_count m a ≡ suc n
byte_count_lem zero n a h lo hi = absurd (omega arith)
byte_count_lem (suc m) n a h lo hi = elim (ℕ_discrete n m) [
  | yes e ↦ let lo' : 256 ^ m ≤ a = rw (← e) lo in ground arith
  | no ne ↦
      let hi' : a < 256 ^ m =
        omega (arith, pow-le-pow_right {n = 256} (omega arith) {i = suc n} {j = m} (omega arith)) in
      ground (arith, byte_count_lem m n a (omega arith) lo hi)
]

abbrev pub numbers : Uint256
numbers = record {
  cmp = compare;
  add = λ a b. (a + b) % 2 ^ 256;
  sub = λ a b. (a + 2 ^ 256 - b) % 2 ^ 256;
  and = bit_and;
  or = bit_or;
  lsh = λ a n. a * 2 ^ n % 2 ^ 256;
  rsh = λ a n. a / 2 ^ n;
  is_zero = λ a. a == 0;
  uint64 = λ a. a % 2 ^ 64;
  set_bytes = λ bs. of_bytes bs % 2 ^ 256;
  bytes = λ a. be_bytes (byte_count 32 a) a;
  bytes32 = be_bytes 32;
  cmp_lem = λ a b. refl;
  add_lem = λ a b. refl;
  sub_lem = λ a b h. refl;
  and_lem = λ a b. refl;
  or_lem = λ a b. refl;
  lsh_lem = λ a n. refl;
  rsh_lem = λ a n. refl;
  is_zero_lem = λ a. refl;
  uint64_lem = λ a. refl;
  set_bytes_lem = λ bs. refl;
  bytes_zero = refl;
  bytes_suc = λ n a h lo hi. rw (byte_count_lem 32 n a h lo hi);
  bytes32_lem = λ a h. refl;
}
