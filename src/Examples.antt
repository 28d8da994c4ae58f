-- ===== src/Examples.antt =====
-- The theorems at concrete inputs.
use netjugo.Prelude.{
  keep, pos, ◌-◌, ℕ, ◌+◌, ◌*◌, ◌^◌, ◌≡◌, ◌≤◌, ◌%◌, ◌↔◌, refl, arith, List, [], ◌∷◌, none, some,
  true, false, ◌||◌, All, Chain,
}
use netjugo.Errors.{ok, ◌>>=◌}
use netjugo.Uint256.Model.{numbers}
use netjugo.Sorting.Insertion.{by_insertion}
use netjugo.IpPrefix.{IpPrefix, IsBlock, inside, covers, IsSorted, IsDisjoint}
use netjugo.Validation.{
  prefix_to_uint256_range, uint256_range_to_prefix, uint256_range_to_ipv4_prefix, shrink64,
}
use netjugo.Validation.Blocks.{
  prefix_of, first, last, IsBlock-of_range, uint256_range_to_prefix_iff,
  range_to_prefix-prefix_to_range, prefix_to_uint256_range_lem,
}
use netjugo.Algorithms.{
  aggregate_prefixes, sort_and_deduplicate, join, contains, are_adjacent, merge_adjacent,
  can_merge_to_valid_prefix,
}
use netjugo.Algorithms.Join.{join_lem, IsHull}
use netjugo.Algorithms.Pass.{Apart}
use netjugo.Algorithms.Aggregate.{
  aggregate_prefixes-covers, aggregate_prefixes_converges, aggregate_prefixes-IsDisjoint,
}
use netjugo.Algorithms.Dedup.{Differ, sort_and_deduplicate-covers, sort_and_deduplicate-IsSorted}
use netjugo.Validation.{ipv4_prefix_to_uint256_range, ipv4_range}
use netjugo.Algorithms.{overlaps}
use netjugo.Exclusion.{
  apply_exclusion, find_overlapping_prefixes, exclude_from, create_optimal_prefixes,
  find_largest_valid_prefix, search_length, try_length, count_trailing_zeros, zeros_loop,
}
use netjugo.Algorithms.{enforce_min_prefix_length}
use netjugo.Algorithms.RoundUp.{AllRounded, enforce_min_prefix_length-AllRounded}
use netjugo.Exclusion.Largest.{find_largest_valid_prefix_lem}
use netjugo.Exclusion.Optimal.{IsCover, span, within, create_optimal_prefixes-IsCover}
use netjugo.Exclusion.Cut.{left_of, left_parts, exclude_from-IsCover}
use netjugo.Exclusion.Find.{find_overlapping_prefixes_lem}
use netjugo.Exclusion.{process_exclusions_new}
use netjugo.Exclusion.Loop.{AllExcluded, process_exclusions_new-AllExcluded}
use netjugo.Exclusion.Excluded.{IsExcluded, apply_exclusion-IsExcluded}

-- 10.0.0.0/25, 10.0.0.128/25 and 10.0.1.0/24, which join to one block.
abbrev base : ℕ
base = 10 * 2 ^ 24

abbrev lower_half : IpPrefix
lower_half = record { prefix = prefix_of true base 7; min = base; max = base + 127 }

abbrev upper_half : IpPrefix
upper_half = record { prefix = prefix_of true (base + 128) 7; min = base + 128; max = base + 255 }

abbrev neighbour : IpPrefix
neighbour = record { prefix = prefix_of true (base + 256) 8; min = base + 256; max = base + 511 }

abbrev blocks : List IpPrefix
blocks = lower_half ∷ upper_half ∷ neighbour ∷ []

lower_half-IsBlock : IsBlock true lower_half
lower_half-IsBlock = IsBlock-of_range true base (base + 127) 7 (omega arith) (omega arith) refl refl

upper_half-IsBlock : IsBlock true upper_half
upper_half-IsBlock =
    IsBlock-of_range true (base + 128) (base + 255) 7 (omega arith) (omega arith) refl refl

neighbour-IsBlock : IsBlock true neighbour
neighbour-IsBlock =
    IsBlock-of_range true (base + 256) (base + 511) 8 (omega arith) (omega arith) refl refl

blocks-IsBlock : All (IsBlock true) blocks
blocks-IsBlock = (lower_half-IsBlock, (upper_half-IsBlock, (neighbour-IsBlock, tt)))

blocks-IsSorted : IsSorted blocks
blocks-IsSorted = (omega arith, (omega arith, (omega arith, tt)))

aggregate_prefixes-covers_example :
    covers (aggregate_prefixes numbers blocks).0 (base + 300) ≡ covers blocks (base + 300)
aggregate_prefixes-covers_example =
    aggregate_prefixes-covers numbers true blocks (base + 300) blocks-IsBlock

aggregate_prefixes_converges_example : (aggregate_prefixes numbers blocks).1 ≡ none
aggregate_prefixes_converges_example = aggregate_prefixes_converges numbers blocks (omega arith)

aggregate_prefixes-IsDisjoint_example :
    IsDisjoint (aggregate_prefixes numbers blocks).0
    × Chain (Apart numbers) (aggregate_prefixes numbers blocks).0
aggregate_prefixes-IsDisjoint_example =
    aggregate_prefixes-IsDisjoint numbers true blocks blocks-IsBlock blocks-IsSorted
      aggregate_prefixes_converges_example

uint256_range_to_prefix_iff_example :
    (uint256_range_to_prefix numbers base (base + 511) true ≡ ok (prefix_of true base 9)) ↔ (
      (k : ℕ) × (k ≤ 32)
      × (base % 2 ^ k ≡ 0)
      × (base + 511 + 1 ≡ base + 2 ^ k)
      × (prefix_of true base 9 ≡ prefix_of true base k))
uint256_range_to_prefix_iff_example =
    uint256_range_to_prefix_iff numbers base (base + 511) (omega arith) true (prefix_of true base 9)
      (omega arith)

-- `::ffff/124`, whose first address is not that of its block.
prefix_to_uint256_range_lem_example :
    prefix_to_uint256_range numbers (prefix_of false 0xffff 4)
    ≡ ok (first false 0xffff 4, last 0xffff 4)
prefix_to_uint256_range_lem_example =
    prefix_to_uint256_range_lem numbers false 0xffff 4 (omega arith) (omega arith)

range_to_prefix-prefix_to_range_example :
    (prefix_to_uint256_range numbers (prefix_of false (2 ^ 127) 70) >>= λ range.
    uint256_range_to_prefix numbers range.0 range.1 false)
    ≡ ok (prefix_of false (2 ^ 127) 70)
range_to_prefix-prefix_to_range_example =
    range_to_prefix-prefix_to_range numbers false (2 ^ 127) 70 (omega arith) (omega arith) refl

sort_and_deduplicate-covers_example :
    covers (sort_and_deduplicate numbers by_insertion (neighbour ∷ blocks)) base
    ≡ covers (neighbour ∷ blocks) base
sort_and_deduplicate-covers_example =
    sort_and_deduplicate-covers numbers by_insertion (neighbour ∷ blocks) base

sort_and_deduplicate-IsSorted_example :
    IsSorted (sort_and_deduplicate numbers by_insertion (neighbour ∷ blocks))
    × Chain Differ (sort_and_deduplicate numbers by_insertion (neighbour ∷ blocks))
sort_and_deduplicate-IsSorted_example =
    sort_and_deduplicate-IsSorted numbers by_insertion (neighbour ∷ blocks)

abbrev joined : IpPrefix
joined = record { prefix = prefix_of true base 8; min = base; max = base + 255 }

halves_join : join numbers lower_half upper_half ≡ some joined
unfolding join contains are_adjacent merge_adjacent can_merge_to_valid_prefix
    uint256_range_to_prefix uint256_range_to_ipv4_prefix shrink64
halves_join = refl

join_lem_example :
    IsHull true lower_half upper_half joined
    × (inside joined (base + 200)
        ≡ (inside lower_half (base + 200) || inside upper_half (base + 200)))
join_lem_example =
    join_lem numbers true lower_half upper_half joined lower_half-IsBlock upper_half-IsBlock
      halves_join (base + 200)

-- 10.0.0.64/26 as an exclusion.
abbrev excluded : IpPrefix
excluded = record { prefix = prefix_of true (base + 64) 6; min = base + 64; max = base + 127 }

blocks-IsDisjoint : IsDisjoint blocks
blocks-IsDisjoint = (omega arith, (omega arith, (omega arith, tt)))

apply_exclusion-IsExcluded_example :
    IsExcluded true excluded blocks (apply_exclusion numbers by_insertion true excluded blocks)
apply_exclusion-IsExcluded_example =
    apply_exclusion-IsExcluded numbers true by_insertion excluded (omega arith) blocks
      blocks-IsBlock blocks-IsDisjoint

find_overlapping_prefixes_lem_example :
    find_overlapping_prefixes numbers excluded blocks ≡ keep (overlaps numbers excluded) blocks
find_overlapping_prefixes_lem_example =
    find_overlapping_prefixes_lem numbers true excluded blocks blocks-IsBlock blocks-IsDisjoint

exclude_from-IsCover_example :
    IsCover true base
      (base + 127)
      (left_of lower_half excluded)
      (left_parts lower_half excluded)
      (exclude_from numbers excluded lower_half true)
exclude_from-IsCover_example =
    exclude_from-IsCover numbers true lower_half excluded lower_half-IsBlock (omega arith)

create_optimal_prefixes-IsCover_example :
    IsCover true
      (base + 5)
      (base + 17)
      (span (base + 5) (base + 17))
      (within (base + 5) (base + 17))
      (create_optimal_prefixes numbers (base + 5) (base + 17) true)
create_optimal_prefixes-IsCover_example =
    create_optimal_prefixes-IsCover numbers true (base + 17) (omega arith) (base + 5) (omega arith)

-- 10.0.0.8/29, the block that is found from 10.0.0.8 within 10.0.0.17.
abbrev largest : IpPrefix
largest = record { prefix = prefix_of true (base + 8) 3; min = base + 8; max = base + 15 }

largest_found :
    find_largest_valid_prefix numbers (base + 8) (base + 17) true ≡ ok (largest, base + 15)
unfolding find_largest_valid_prefix search_length try_length count_trailing_zeros zeros_loop
    prefix_to_uint256_range ipv4_prefix_to_uint256_range ipv4_range
largest_found = refl

find_largest_valid_prefix_lem_example : base + 8 + (2 ^ 3 - 1) ≤ largest.max
find_largest_valid_prefix_lem_example =
    find_largest_valid_prefix_lem numbers true (base + 8) (base + 17) (omega arith) (omega arith) 3
      largest (base + 15) (omega arith) refl (omega arith) largest_found

enforce_min_prefix_length-AllRounded_example :
    (r : List IpPrefix) × (enforce_min_prefix_length numbers (pos 24) blocks ≡ ok r)
    × AllRounded true 24 blocks r
enforce_min_prefix_length-AllRounded_example =
    enforce_min_prefix_length-AllRounded numbers true 24 (omega arith) blocks (omega arith)
      blocks-IsBlock

process_exclusions_new-AllExcluded_example :
    AllExcluded true
      (excluded ∷ [])
      blocks
      (process_exclusions_new numbers by_insertion true (excluded ∷ []) blocks [])
process_exclusions_new-AllExcluded_example =
    process_exclusions_new-AllExcluded numbers true by_insertion (excluded ∷ []) blocks []
      ((omega arith, refl), tt) blocks-IsBlock blocks-IsDisjoint
