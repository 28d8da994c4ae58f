-- ===== src/Algorithms/Ranges.antt =====
-- What the tests on two prefixes mean for their ranges.
use Prim.Native.Nat.{min, max}
use netjugo.Prelude.{
  ℕ, ◌+◌, ◌%◌, ◌^◌, ◌<◌, ◌≡◌, arith, ◌&&◌, ◌||◌, not, ltb, leb, ◌==◌, if◌then◌else◌,
}
use netjugo.Uint256.{Uint256, le_zero, ge_zero}
use netjugo.IpPrefix.{IpPrefix}
use netjugo.Algorithms.{min_less, is_duplicate_prefix, contains, are_adjacent, overlaps}

module _ (u : Uint256) (a b : IpPrefix) where
  pub min_less_lem : min_less u a b ≡ ltb a.min b.min
  unfolding min_less
  min_less_lem = simp u.cmp_lem (ground arith)

  pub is_duplicate_prefix_lem : is_duplicate_prefix u a b ≡ (a.min == b.min && a.max == b.max)
  unfolding is_duplicate_prefix
  is_duplicate_prefix_lem = simp u.cmp_lem (ground arith)

  pub contains_lem : contains u a b ≡ (leb a.min b.min && leb b.max a.max)
  unfolding contains
  contains_lem = simp u.cmp_lem (ground arith)

  pub overlaps_lem : overlaps u a b ≡ not (ltb a.max b.min || ltb b.max a.min)
  unfolding overlaps
  overlaps_lem = simp u.cmp_lem (ground arith)

  pub are_adjacent_lem :
      a.max < 2 ^ 128
      → b.max < 2 ^ 128
      → are_adjacent u a b ≡ (a.max + 1 == b.min || b.max + 1 == a.min)
  unfolding are_adjacent
  are_adjacent_lem ha hb =
      let no_wrap_a : (a.max + 1) % 2 ^ 256 ≡ a.max + 1 = omega arith in
      let no_wrap_b : (b.max + 1) % 2 ^ 256 ≡ b.max + 1 = omega arith in
      simp (u.cmp_lem, u.add_lem, no_wrap_a, no_wrap_b) (ground arith)

-- The ends that a merge picks.
pub lower_lem : (u : Uint256) (x y : ℕ) → (if le_zero (u.cmp x y) then x else y) ≡ min x y
lower_lem u x y = ground (arith, u.cmp_lem x y)

pub upper_lem : (u : Uint256) (x y : ℕ) → (if ge_zero (u.cmp x y) then x else y) ≡ max x y
upper_lem u x y = ground (arith, u.cmp_lem x y)
