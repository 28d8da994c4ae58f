-- ===== src/Validation/Ipv4.antt =====
-- `uint256RangeToIPv4Prefix` accepts exactly the CIDR blocks.
use native.Mathlib.Nat.{suc-add, zero-add}
use netjugo.Prelude.{
  ℕ, zero, suc, ◌+◌, ◌-◌, ◌*◌, ◌/◌, ◌%◌, ◌^◌, ◌≤◌, ◌<◌, ◌≡◌, ◌≢◌, sym, ap, ◌∙◌, bit_and, compare,
  false, arith, ltb, ◌==◌, pos, pred_ℤ, pos_part, sub_from, of_bytes, not, ℕ_discrete,
  if◌then◌else◌,
}
use netjugo.Prelude.Powers.{pow_double, pow_pos, pow-gt, pow_mono, exponent_le}
use netjugo.Prelude.Masks.{bit_and_low, bit_and-pow_pred, pow_of_bit_and-pred}
use netjugo.Errors.{Result, ok, err, Error}
use netjugo.Netip.{v4, Prefix, prefix_from}
use netjugo.Uint256.{Uint256, gt_zero}
use netjugo.Validation.{u32, split4, shrink64, uint256_range_to_ipv4_prefix}

-- The loop counts the halvings of a power of two.
pub shrink64-pow : (left k b : ℕ) → k < left → shrink64 left (2 ^ k) (pos (k + b)) ≡ pos b
unfolding shrink64
shrink64-pow zero k b h = absurd (omega arith)
shrink64-pow (suc left) zero b h = ground arith
shrink64-pow (suc left) (suc k) b h =
    let half : 2 ^ suc k / 2 ≡ 2 ^ k = omega (arith, pow_double k) in
    let down : pred_ℤ (pos (suc k + b)) ≡ pos (k + b) = ap (λ n. pred_ℤ (pos n)) (suc-add k b) in
    ground (
      arith,
      pow_double k,
      pow_pos k,
      shrink64-pow left k b,
      ap (λ n. shrink64 left n (pred_ℤ (pos (suc k + b)))) half,
      ap (shrink64 left (2 ^ k)) down,
    )

mask32 : (k : ℕ) → k ≤ 32 → 0xFFFFFFFF - u32 (0xFFFFFFFF * 2 ^ k) ≡ 2 ^ k - 1
mask32 k h = omega (arith, pow_mono h, pow_pos k)

split4_lem : (a : ℕ) → a < 2 ^ 32 → of_bytes (split4 a) ≡ a
split4_lem a h = omega arith

-- The code after its conversions to `uint64`, for `n` addresses from `lo` on.
abbrev named : ℕ → ℕ → ℕ → Result Prefix
named lo hi n =
    let bits = shrink64 64 n (pos 32) in
    let mask = u32 (0xFFFFFFFF * 2 ^ pos_part (sub_from 32 bits)) in
    if lo == hi
    then ok (record { addr = v4 lo; bits = pos 32 })
    else if not (bit_and n (n - 1) == 0)
    then err Error.invalid_prefix
    else if not (bit_and lo (0xFFFFFFFF - mask) == 0)
    then err Error.invalid_prefix
    else ok (prefix_from (v4 lo) bits)

shrink64-32 : (k : ℕ) → k ≤ 32 → shrink64 64 (2 ^ k) (pos 32) ≡ pos (32 - k)
shrink64-32 k h =
    let whole : k + (32 - k) ≡ 32 = omega arith in
    ap (λ n. shrink64 64 (2 ^ k) (pos n)) (sym whole) ∙ shrink64-pow 64 k (32 - k) (omega arith)

module _ (u : Uint256) (lo hi : ℕ) (ordered : lo ≤ hi) (bounded : hi < 2 ^ 32) where
  to_named : uint256_range_to_ipv4_prefix u lo hi ≡ named lo hi (hi + 1 - lo)
  unfolding uint256_range_to_ipv4_prefix
  to_named =
      let lo64 : lo % 2 ^ 64 ≡ lo = omega arith in
      let hi64 : hi % 2 ^ 64 ≡ hi = omega arith in
      let size : (hi + 2 ^ 64 - lo + 1) % 2 ^ 64 ≡ hi + 1 - lo = omega arith in
      let less : (hi + 1 - lo + 2 ^ 64 - 1) % 2 ^ 64 ≡ hi + 1 - lo - 1 = omega arith in
      let whole : ((lo / 2 ^ 24 % 256 * 256 + lo / 2 ^ 16 % 256) * 256 + lo / 2 ^ 8 % 256) * 256
            + lo % 256
          ≡ lo =
        omega arith in
      let not_above : gt_zero (compare lo hi) ≡ false = ground arith in
      let lo_fits : ltb 0xFFFFFFFF lo ≡ false = ground arith in
      let hi_fits : ltb 0xFFFFFFFF hi ≡ false = ground arith in
      simp (
        u.cmp_lem, u.uint64_lem, lo64, hi64, size, less, zero-add, whole, not_above, lo_fits,
        hi_fits,
      )

  -- A block is turned into its address and the number of its network bits.
  pub uint256_range_to_ipv4_prefix_of_block :
      (k : ℕ)
      → k ≤ 32
      → lo % 2 ^ k ≡ 0
      → hi + 1 ≡ lo + 2 ^ k
      → uint256_range_to_ipv4_prefix u lo hi ≡ ok (record { addr = v4 lo; bits = pos (32 - k) })
  uint256_range_to_ipv4_prefix_of_block k fits aligned end =
      let size : hi + 1 - lo ≡ 2 ^ k = omega arith in
      let count : shrink64 64 (2 ^ k) (pos 32) ≡ pos (32 - k) = shrink64-32 k fits in
      let back : sub_from 32 (pos (32 - k)) ≡ pos k = ground arith in
      to_named
      ∙ rw (size, count, back, mask32 k fits, bit_and_low k lo, aligned, bit_and-pow_pred k)
          (ground (arith, pow-gt k))

  not_aligned :
      (k : ℕ)
      → k ≤ 32
      → hi + 1 - lo ≡ 2 ^ k
      → lo ≢ hi
      → lo % 2 ^ k ≢ 0
      → named lo hi (hi + 1 - lo) ≡ err Error.invalid_prefix
  not_aligned k fits size ne off =
      let count : shrink64 64 (2 ^ k) (pos 32) ≡ pos (32 - k) = shrink64-32 k fits in
      let back : sub_from 32 (pos (32 - k)) ≡ pos k = ground arith in
      rw (size, count, back, mask32 k fits, bit_and_low k lo, bit_and-pow_pred k) (ground arith)

  -- What is turned into a prefix is a block.
  pub block_of_uint256_range_to_ipv4_prefix :
      {p : Prefix}
      → uint256_range_to_ipv4_prefix u lo hi ≡ ok p
      → (k : ℕ) × (k ≤ 32) × (lo % 2 ^ k ≡ 0) × (hi + 1 ≡ lo + 2 ^ k)
  block_of_uint256_range_to_ipv4_prefix {p} e =
      let e' : named lo hi (hi + 1 - lo) ≡ ok p = sym to_named ∙ e in
      elim (ℕ_discrete lo hi) [
        | yes same ↦ (0, omega arith, omega arith, omega arith)
        | no ne ↦ elim (ℕ_discrete (bit_and (hi + 1 - lo) (hi + 1 - lo - 1)) 0) [
          | no other ↦ absurd (ground arith)
          | yes power ↦
              let (k, size) = pow_of_bit_and-pred (hi + 1 - lo) (omega arith) power in
              let fits : k ≤ 32 = exponent_le k 32 (omega arith) in
              elim (ℕ_discrete (lo % 2 ^ k) 0) [
                | yes aligned ↦ (k, fits, aligned, omega arith)
                | no off ↦ absurd (cc (not_aligned k fits size ne off))
              ]
        ]
      ]
