-- ===== src/Uint256.antt =====
-- github.com/holiman/uint256, which the program imports and does not contain: the operations that
-- it calls, with their documented meaning, as a parameter of every definition that uses them.
pub mod Model
use netjugo.Prelude.{
  ℕ, zero, suc, ◌+◌, ◌-◌, ◌*◌, ◌/◌, ◌%◌, ◌^◌, ◌≤◌, ◌<◌, ◌≡◌, compare, Ordering, bit_and, bit_or,
  Bool, true, false, List, [], be_bytes, of_bytes,
}

-- An `Int` is the number that it holds. `Set`, `NewInt` and `SetUint64` copy a number and need no
-- operation; the methods that write to their receiver are functions of the operands.
pub record Uint256 : Type 0 where
  pub cmp : ℕ → ℕ → Ordering
  pub add : ℕ → ℕ → ℕ
  pub sub : ℕ → ℕ → ℕ
  pub and : ℕ → ℕ → ℕ
  pub or : ℕ → ℕ → ℕ
  pub lsh : ℕ → ℕ → ℕ
  pub rsh : ℕ → ℕ → ℕ
  pub is_zero : ℕ → Bool
  pub uint64 : ℕ → ℕ
  pub set_bytes : List ℕ → ℕ
  pub bytes : ℕ → List ℕ
  pub bytes32 : ℕ → List ℕ
  -- `Cmp` is -1, 0 or 1, which are `lt`, `eq` and `gt` here.
  pub cmp_lem : (a b : ℕ) → cmp a b ≡ compare a b
  -- `Add` and `Sub` wrap around at 2^256.
  pub add_lem : (a b : ℕ) → add a b ≡ (a + b) % 2 ^ 256
  pub sub_lem : (a b : ℕ) → b < 2 ^ 256 → sub a b ≡ (a + 2 ^ 256 - b) % 2 ^ 256
  pub and_lem : (a b : ℕ) → and a b ≡ bit_and a b
  pub or_lem : (a b : ℕ) → or a b ≡ bit_or a b
  pub lsh_lem : (a n : ℕ) → lsh a n ≡ a * 2 ^ n % 2 ^ 256
  pub rsh_lem : (a n : ℕ) → rsh a n ≡ a / 2 ^ n
  pub is_zero_lem : (a : ℕ) → is_zero a ≡ elim (compare a 0) [ Ordering.eq ↦ true | _ ↦ false ]
  -- `Uint64` keeps the lower 64 bits.
  pub uint64_lem : (a : ℕ) → uint64 a ≡ a % 2 ^ 64
  -- `SetBytes` reads big-endian bytes, the last 32 of them.
  pub set_bytes_lem : (bs : List ℕ) → set_bytes bs ≡ of_bytes bs % 2 ^ 256
  -- `Bytes` gives no leading zero byte, and nothing for 0.
  pub bytes_zero : bytes 0 ≡ []
  pub bytes_suc : (n a : ℕ) → n < 32 → 256 ^ n ≤ a → a < 256 ^ suc n → bytes a ≡ be_bytes (suc n) a
  -- `Bytes32` and `WriteToSlice` on 32 bytes give all 32 bytes.
  pub bytes32_lem : (a : ℕ) → a < 2 ^ 256 → bytes32 a ≡ be_bytes 32 a

-- `x.Cmp(y) < 0` and the other tests of the sign of a comparison.
abbrev pub lt_zero : Ordering → Bool
lt_zero Ordering.lt = true
lt_zero Ordering.eq = false
lt_zero Ordering.gt = false

abbrev pub le_zero : Ordering → Bool
le_zero Ordering.lt = true
le_zero Ordering.eq = true
le_zero Ordering.gt = false

abbrev pub eq_zero : Ordering → Bool
eq_zero Ordering.lt = false
eq_zero Ordering.eq = true
eq_zero Ordering.gt = false

abbrev pub gt_zero : Ordering → Bool
gt_zero Ordering.lt = false
gt_zero Ordering.eq = false
gt_zero Ordering.gt = true

abbrev pub ge_zero : Ordering → Bool
ge_zero Ordering.lt = false
ge_zero Ordering.eq = true
ge_zero Ordering.gt = true
