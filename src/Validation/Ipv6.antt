-- ===== src/Validation/Ipv6.antt =====
-- `uint256RangeToIPv6Prefix` accepts exactly the CIDR blocks.
use native.Mathlib.Nat.{suc-add}
use netjugo.Prelude.{
  ℕ, zero, suc, ◌+◌, ◌-◌, ◌*◌, ◌/◌, ◌%◌, ◌^◌, ◌≤◌, ◌<◌, ◌≡◌, sym, ap, ◌∙◌, bit_and, compare, true,
  false, ◌&&◌, not, arith, ltb, ◌==◌, ltb_ℤ, ℤ, pos, pos_part, pred_ℤ, sub_from, if◌then◌else◌,
  ℕ_discrete, of_bytes-be_bytes, drop,
}
use netjugo.Prelude.Powers.{pow_double, pow_pos, pow-gt, pow_mono, exponent_le}
use netjugo.Prelude.Masks.{bit_and_low, bit_and-pow_pred, pow_of_bit_and-pred}
use netjugo.Errors.{Result, ok, err, Error}
use netjugo.Netip.{Addr, v6, addr_from16, Prefix, prefix_from}
use netjugo.Uint256.{Uint256, gt_zero}
use netjugo.Validation.{shrink, low16, is_power_of_two, uint256_range_to_ipv6_prefix}

-- The code on numbers, for `n` addresses from `lo` on.
abbrev named : ℕ → ℕ → ℕ → ℤ → Addr → Result Prefix
named lo hi n bits addr =
    let host_bits = sub_from 128 bits in
    let mask = (1 * 2 ^ pos_part host_bits % 2 ^ 256 + 2 ^ 256 - 1) % 2 ^ 256 in
    if lo == hi
    then ok (prefix_from addr (pos 128))
    else if not (bit_and n (n - 1) == 0)
    then err Error.invalid_prefix
    else if ltb_ℤ (pos 0) host_bits && not (bit_and lo mask == 0)
    then err Error.invalid_prefix
    else ok (prefix_from addr bits)

module _ (u : Uint256) where
  pub shrink-pow : (left k b : ℕ) → k < left → shrink u left (2 ^ k) (pos (k + b)) ≡ pos b
  unfolding shrink
  shrink-pow zero k b h = absurd (omega arith)
  shrink-pow (suc left) zero b h = ground (arith, u.cmp_lem 1 1)
  shrink-pow (suc left) (suc k) b h =
      let half : 2 ^ suc k / 2 ≡ 2 ^ k = omega (arith, pow_double k) in
      let down : pred_ℤ (pos (suc k + b)) ≡ pos (k + b) = ap (λ n. pred_ℤ (pos n)) (suc-add k b) in
      let more : gt_zero (compare (2 ^ suc k) 1) ≡ true = ground (arith, pow_double k, pow_pos k) in
      simp (shrink, u.cmp_lem, u.rsh_lem, more, half, down) (shrink-pow left k b (omega arith))

  is_power_of_two_lem :
      (n : ℕ) → 1 ≤ n → n < 2 ^ 256 → is_power_of_two u n ≡ (bit_and n (n - 1) == 0)
  unfolding is_power_of_two
  is_power_of_two_lem n one_le fits =
      let less : (n + 2 ^ 256 - 1) % 2 ^ 256 ≡ n - 1 = omega arith in
      let not_zero : (n == 0) ≡ false = ground arith in
      simp (u.is_zero_lem, u.and_lem, u.sub_lem n 1 (omega arith), less, not_zero)

module _ (u : Uint256) (lo hi : ℕ) (ordered : lo ≤ hi) (bounded : hi < 2 ^ 128) where
  abbrev prefix_bits : ℤ
  prefix_bits = shrink u 256 (hi + 1 - lo) (pos 128)

  to_named :
      uint256_range_to_ipv6_prefix u lo hi
      ≡ named lo hi (hi + 1 - lo) prefix_bits (addr_from16 (low16 u lo))
  unfolding uint256_range_to_ipv6_prefix
  to_named =
      let size : ((hi + 2 ^ 256 - lo) % 2 ^ 256 + 1) % 2 ^ 256 ≡ hi + 1 - lo = omega arith in
      let not_above : gt_zero (compare lo hi) ≡ false = ground arith in
      let sub_one : (n : ℕ) → u.sub n 1 ≡ (n + 2 ^ 256 - 1) % 2 ^ 256 =
        λ n. u.sub_lem n 1 (omega arith) in
      let power : is_power_of_two u (hi + 1 - lo) ≡ (bit_and (hi + 1 - lo) (hi + 1 - lo - 1) == 0) =
        is_power_of_two_lem u (hi + 1 - lo) (omega arith) (omega arith) in
      simp
        (
          u.cmp_lem,
          u.add_lem,
          u.sub_lem hi lo (omega arith),
          sub_one,
          u.lsh_lem,
          u.and_lem,
          u.is_zero_lem,
          size,
          not_above,
          power,
        )
        (ground arith)

  addr_lem : addr_from16 (low16 u lo) ≡ v6 lo
  addr_lem =
      ap (λ bs. addr_from16 (drop 16 bs)) (u.bytes32_lem lo (omega arith))
      ∙ ap v6 (of_bytes-be_bytes 16 lo (omega arith))

  named_lem : uint256_range_to_ipv6_prefix u lo hi ≡ named lo hi (hi + 1 - lo) prefix_bits (v6 lo)
  named_lem = to_named ∙ ap (named lo hi (hi + 1 - lo) prefix_bits) addr_lem

  module _ (k : ℕ) (fits : k ≤ 128) (size : hi + 1 - lo ≡ 2 ^ k) where
    named_pow : named lo hi (hi + 1 - lo) prefix_bits (v6 lo) ≡ (
        if lo == hi
        then ok (record { addr = v6 lo; bits = pos 128 })
        else if ltb 0 k && not (lo % 2 ^ k == 0)
        then err Error.invalid_prefix
        else ok (record { addr = v6 lo; bits = pos (128 - k) }))
    named_pow =
        let whole : k + (128 - k) ≡ 128 = omega arith in
        let count : shrink u 256 (2 ^ k) (pos 128) ≡ pos (128 - k) =
          ap (λ n. shrink u 256 (2 ^ k) (pos n)) (sym whole)
          ∙ shrink-pow u 256 k (128 - k) (omega arith) in
        let back : sub_from 128 (pos (128 - k)) ≡ pos k = ground arith in
        let mask : (1 * 2 ^ k % 2 ^ 256 + 2 ^ 256 - 1) % 2 ^ 256 ≡ 2 ^ k - 1 =
          omega (arith, pow_pos k, pow_mono {j = k} {k = 128} fits) in
        rw (size, count, back, mask, bit_and_low k lo, bit_and-pow_pred k) (ground arith)

  -- A block is turned into its address and the number of its network bits.
  pub uint256_range_to_ipv6_prefix_of_block :
      (k : ℕ)
      → k ≤ 128
      → lo % 2 ^ k ≡ 0
      → hi + 1 ≡ lo + 2 ^ k
      → uint256_range_to_ipv6_prefix u lo hi ≡ ok (record { addr = v6 lo; bits = pos (128 - k) })
  uint256_range_to_ipv6_prefix_of_block k fits aligned end =
      named_lem ∙ named_pow k fits (omega arith) ∙ ground (arith, pow-gt k)

  -- What is turned into a prefix is a block.
  pub block_of_uint256_range_to_ipv6_prefix :
      {p : Prefix}
      → uint256_range_to_ipv6_prefix u lo hi ≡ ok p
      → (k : ℕ) × (k ≤ 128) × (lo % 2 ^ k ≡ 0) × (hi + 1 ≡ lo + 2 ^ k)
  block_of_uint256_range_to_ipv6_prefix {p} e =
      let e' : named lo hi (hi + 1 - lo) prefix_bits (v6 lo) ≡ ok p = sym named_lem ∙ e in
      elim (ℕ_discrete lo hi) [
        | yes same ↦ (0, omega arith, omega arith, omega arith)
        | no ne ↦ elim (ℕ_discrete (bit_and (hi + 1 - lo) (hi + 1 - lo - 1)) 0) [
          | no other ↦ absurd (ground arith)
          | yes power ↦
              let (k, size) = pow_of_bit_and-pred (hi + 1 - lo) (omega arith) power in
              let fits : k ≤ 128 = exponent_le k 128 (omega arith) in
              elim (ℕ_discrete (lo % 2 ^ k) 0) [
                | yes aligned ↦ (k, fits, aligned, omega arith)
                | no off ↦ absurd (ground (arith, named_pow k fits size, pow-gt k))
              ]
        ]
      ]
