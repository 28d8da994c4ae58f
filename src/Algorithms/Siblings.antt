-- ===== src/Algorithms/Siblings.antt =====
-- Two halves of a block are joined.
use native.Mathlib.Nat.{mul-mod_left}
use netjugo.Prelude.{
  ◌+◌, ◌%◌, ◌^◌, ◌≡◌, ◌≢◌, ap, ap₂, ◌∙◌, arith, Bool, true, Bool-cases, inl, inr, none,
  if◌then◌else◌,
}
use netjugo.Errors.{ok}
use netjugo.Uint256.{Uint256, le_zero, ge_zero}
use netjugo.IpPrefix.{IpPrefix, IsBlock}
use netjugo.Validation.{uint256_range_to_prefix}
use netjugo.Validation.Blocks.{uint256_range_to_prefix_of_block, prefix_of}
use netjugo.Algorithms.{contains, are_adjacent, merge_adjacent, can_merge_to_valid_prefix, join}
use netjugo.Algorithms.Ranges.{lower_lem, upper_lem, are_adjacent_lem}
use netjugo.Algorithms.Join.{merge_of, ordered_of, bounded_of}

module _ (u : Uint256) (f : Bool) (a b p : IpPrefix) (block_a : IsBlock f a) (block_b : IsBlock f b)
    (block : IsBlock f p) (first : a.min ≡ p.min) (meet : b.min ≡ a.max + 1)
    (last : b.max ≡ p.max) where
  -- The block of both is made.
  merge_adjacent_lem :
      merge_adjacent u a b
      ≡ ok (record { prefix = prefix_of f p.min block.host; min = p.min; max = p.max })
  unfolding merge_adjacent can_merge_to_valid_prefix
  merge_adjacent_lem =
      let order_a = ordered_of f a block_a in
      let order_b = ordered_of f b block_b in
      let lower = if le_zero (u.cmp a.min b.min) then a.min else b.min in
      let upper = if ge_zero (u.cmp a.max b.max) then a.max else b.max in
      let lo : lower ≡ p.min = lower_lem u a.min b.min ∙ omega arith in
      let hi : upper ≡ p.max = upper_lem u a.max b.max ∙ omega arith in
      let aligned : p.min % 2 ^ block.host ≡ 0 =
        ap (λ n. n % 2 ^ block.host) block.min_aligned
        ∙ mul-mod_left block.block (2 ^ block.host) in
      let found =
        uint256_range_to_prefix_of_block u p.min p.max (ordered_of f p block) f block.host
          block.bounded block.host_fits aligned block.max_end in
      ap (λ g. merge_of (uint256_range_to_prefix u lower upper g) lower upper) block_a.family
      ∙ ap₂ (λ x y. merge_of (uint256_range_to_prefix u x y f) x y) lo hi
      ∙ ap (λ r. merge_of r p.min p.max) found

  pub join-halves : join u a b ≢ none
  unfolding join
  join-halves = elim (Bool-cases (contains u a b)) [
    | inl t ↦ rw t (λ e. cc)
    | inr t ↦ elim (Bool-cases (contains u b a)) [
      | inl t' ↦ rw (t, t') (λ e. cc)
      | inr t' ↦
          let near : are_adjacent u a b ≡ true =
            are_adjacent_lem u a b (bounded_of f a block_a) (bounded_of f b block_b)
            ∙ ground arith in
          rw (t, t', near, merge_adjacent_lem) (λ e. cc)
    ]
  ]
