-- ===== src/Exclusion.antt =====
-- exclusion.go, on lists of prefixes: the loop over the exclusions, the prefixes that one meets,
-- what is left of them, and the cover of a range by CIDR blocks.
pub mod Excluded
pub mod Covers
pub mod Cut
pub mod Find
pub mod Largest
pub mod Loop
pub mod Optimal
pub mod Pairwise
pub mod Process
pub mod Overlapping
pub mod Replace
pub mod Scan
pub mod Zeros
use mathlib.Core.List.{reverse}
use netjugo.Prelude.{
  ℕ, zero, suc, ◌+◌, ◌-◌, ◌/◌, Bool, true, false, ◌&&◌, not, List, [], ◌∷◌, ◌++◌, Option, none,
  some, length, get_elem?, drop, any, keep, ltb, ltb_ℤ, ◌==◌, if◌then◌else◌, pos,
}
use netjugo.Errors.{Result, ok, err, ◌>>=◌, Error}
use netjugo.Netip.{Addr, addr_from_slice, addr_prefix, is_valid_addr}
use netjugo.Uint256.{Uint256, lt_zero, le_zero, eq_zero, gt_zero, ge_zero}
use netjugo.IpPrefix.{IpPrefix, width, same_prefix}
use netjugo.Sorting.{SortSlice}
use netjugo.Validation.{prefix_to_uint256_range}
use netjugo.Algorithms.{contains, overlaps, min_less}

-- `MinExclusionLenIPv4` and `MinExclusionLenIPv6`.
abbrev pub min_exclusion_len : Bool → ℕ
min_exclusion_len true = 32
min_exclusion_len false = 128

-- `RecommendedMinExclusionIPv4` and `RecommendedMinExclusionIPv6`.
abbrev pub recommended_min_exclusion : Bool → ℕ
recommended_min_exclusion true = 30
recommended_min_exclusion false = 64

module _ (u : Uint256) where
  -- The loop of `countTrailingZeros`, with the rounds that are left before `maxBits`.
  unfoldable pub zeros_loop : ℕ → ℕ → ℕ → ℕ
  zeros_loop zero temp count = count
  zeros_loop (suc left) temp count = elim (u.is_zero (u.and temp 1)) [
    | true ↦ zeros_loop left (u.rsh temp 1) (count + 1)
    | false ↦ count
  ]

  unfoldable pub count_trailing_zeros : ℕ → Bool → ℕ
  count_trailing_zeros n is_ipv4 =
      if u.is_zero n then width is_ipv4 else zeros_loop (width is_ipv4) n 0

  -- The address that `findLargestValidPrefix` starts from.
  abbrev pub start_addr : ℕ → Bool → Addr
  start_addr start true = addr_from_slice (drop 28 (u.bytes32 start))
  start_addr start false = addr_from_slice (drop 16 (u.bytes32 start))

  -- The body of its loop at one length: the prefix and its last address, if they are valid.
  unfoldable pub try_length : Addr → ℕ → ℕ → ℕ → ℕ → ℕ → Option (IpPrefix × ℕ)
  try_length addr start max_allowed trailing_zeros max_bits prefix_len =
      if ltb trailing_zeros (max_bits - prefix_len)
      then none
      else elim (addr_prefix addr (pos prefix_len)) [
        | err e ↦ none
        | ok prefix ↦ elim (prefix_to_uint256_range u prefix) [
          | err e ↦ none
          | ok range ↦
              if eq_zero (u.cmp range.0 start) && le_zero (u.cmp range.1 max_allowed)
              then some (record { prefix = prefix; min = range.0; max = range.1 }, range.1)
              else none
        ]
      ]

  -- The loop from `prefix_len` on, with the rounds that are left.
  unfoldable pub search_length : Addr → ℕ → ℕ → ℕ → ℕ → ℕ → ℕ → Option (IpPrefix × ℕ)
  search_length addr start max_allowed trailing_zeros max_bits zero prefix_len = none
  search_length addr start max_allowed trailing_zeros max_bits (suc left) prefix_len =
      elim (try_length addr start max_allowed trailing_zeros max_bits prefix_len) [
        | some found ↦ some found
        | none ↦ search_length addr start max_allowed trailing_zeros max_bits left (prefix_len + 1)
      ]

  unfoldable pub find_largest_valid_prefix : ℕ → ℕ → Bool → Result (IpPrefix × ℕ)
  find_largest_valid_prefix start max_allowed is_ipv4 =
      let addr = start_addr start is_ipv4 in
      let max_bits = width is_ipv4 in
      if not (is_valid_addr addr)
      then err Error.plain
      else elim (search_length addr start max_allowed (count_trailing_zeros start is_ipv4) max_bits
          (max_bits + 1) 0) [
            | some found ↦ ok found
            | none ↦ addr_prefix addr (pos max_bits) >>= λ prefix.
                ok (record { prefix = prefix; min = start; max = start }, start)
          ]

  -- The loop of `createOptimalPrefixes`. Each round moves `current` on, so that as many rounds as
  -- the range has addresses are enough.
  pub optimal_loop : ℕ → ℕ → ℕ → Bool → Result (List IpPrefix)
  optimal_loop zero current max_val is_ipv4 = ok []
  optimal_loop (suc left) current max_val is_ipv4 = elim (le_zero (u.cmp current max_val)) [
    | false ↦ ok []
    | true ↦ find_largest_valid_prefix current max_val is_ipv4 >>= λ found.
        let rest : Result (List IpPrefix) = elim (ge_zero (u.cmp found.1 max_val)) [
          | true ↦ ok []
          | false ↦ optimal_loop left (u.add found.1 1) max_val is_ipv4
        ] in
        rest >>= λ prefixes. ok (found.0 ∷ prefixes)
  ]

  pub create_optimal_prefixes : ℕ → ℕ → Bool → Result (List IpPrefix)
  create_optimal_prefixes min_val max_val is_ipv4 =
      optimal_loop (max_val + 1 - min_val) min_val max_val is_ipv4

  pub create_complement : IpPrefix → IpPrefix → Bool → Result (List IpPrefix)
  create_complement container exclude is_ipv4 =
      (if lt_zero (u.cmp container.min exclude.min)
        then create_optimal_prefixes container.min (u.sub exclude.min 1) is_ipv4
        else ok [])
      >>= λ before.
          (if lt_zero (u.cmp exclude.max container.max)
            then create_optimal_prefixes (u.add exclude.max 1) container.max is_ipv4
            else ok [])
          >>= λ after. ok (before ++ after)

  pub trim_overlap_new : IpPrefix → IpPrefix → Bool → Result (List IpPrefix)
  trim_overlap_new original exclude is_ipv4 =
      let trim = λ (result_min result_max : ℕ).
        if le_zero (u.cmp result_min result_max)
        then create_optimal_prefixes result_min result_max is_ipv4
        else ok [] in
      if le_zero (u.cmp exclude.min original.min) && lt_zero (u.cmp exclude.max original.max)
      then trim (u.add exclude.max 1) original.max
      else if gt_zero (u.cmp exclude.min original.min) && ge_zero (u.cmp exclude.max original.max)
      then trim original.min (u.sub exclude.min 1)
      else ok []

  -- What `processExclusionNew` keeps of one prefix that the exclusion meets.
  pub exclude_from : IpPrefix → IpPrefix → Bool → Result (List IpPrefix)
  exclude_from exclude overlapping is_ipv4 =
      if contains u exclude overlapping
      then ok []
      else if contains u overlapping exclude
      then create_complement overlapping exclude is_ipv4
      else if overlaps u exclude overlapping
      then trim_overlap_new overlapping exclude is_ipv4
      else ok (overlapping ∷ [])

  pub process_exclusion_new : IpPrefix → List IpPrefix → Bool → Result (List IpPrefix)
  process_exclusion_new exclude [] is_ipv4 = ok []
  process_exclusion_new exclude (overlapping ∷ rest) is_ipv4 =
      exclude_from exclude overlapping is_ipv4 >>= λ pieces.
      process_exclusion_new exclude rest is_ipv4 >>= λ result. ok (pieces ++ result)

  -- The binary search for the last prefix whose `Min` is not above `target.Max`. `stop` is
  -- `right + 1`, and `none` is the index -1; as many rounds as the list is long are enough.
  pub last_below : ℕ → List IpPrefix → ℕ → ℕ → ℕ → Option ℕ → Option ℕ
  last_below zero prefixes target_max left stop first_possible = first_possible
  last_below (suc rounds) prefixes target_max left stop first_possible = elim (ltb left stop) [
    | false ↦ first_possible
    | true ↦
        let mid = left + (stop - 1 - left) / 2 in
        elim (get_elem? prefixes mid) [
          | none ↦ first_possible
          | some p ↦ elim (le_zero (u.cmp p.min target_max)) [
            | true ↦ last_below rounds prefixes target_max (mid + 1) stop (some mid)
            | false ↦ last_below rounds prefixes target_max left mid first_possible
          ]
        ]
  ]

  -- The scan from index `count - 1` down to 0, until a range ends before the target.
  pub scan_back : IpPrefix → List IpPrefix → ℕ → List IpPrefix
  scan_back target prefixes zero = []
  scan_back target prefixes (suc i) = elim (get_elem? prefixes i) [
    | none ↦ []
    | some p ↦ elim (lt_zero (u.cmp p.max target.min)) [
      | true ↦ []
      | false ↦
          let more = scan_back target prefixes i in if overlaps u target p then p ∷ more else more
    ]
  ]

  pub find_overlapping_prefixes : IpPrefix → List IpPrefix → List IpPrefix
  find_overlapping_prefixes target prefix_list =
      elim (last_below (length prefix_list) prefix_list target.max 0 (length prefix_list) none) [
        | none ↦ []
        | some first_possible ↦ reverse (scan_back target prefix_list (first_possible + 1))
      ]

  -- The set of pointers to remove is a set of contents here.
  pub replace_prefixes_in_list :
      SortSlice → List IpPrefix → List IpPrefix → List IpPrefix → List IpPrefix
  replace_prefixes_in_list s original_list to_replace new_prefixes =
      s.sort (min_less u)
        (keep (λ p. not (any (λ r. same_prefix r p) to_replace)) original_list ++ new_prefixes)

  -- The body of the loop over the exclusions, on the list of the family.
  pub apply_exclusion : SortSlice → Bool → IpPrefix → List IpPrefix → Result (List IpPrefix)
  apply_exclusion s is_ipv4 exclude prefixes =
      let overlapping = find_overlapping_prefixes exclude prefixes in
      if length overlapping == 0
      then ok prefixes
      else process_exclusion_new exclude overlapping is_ipv4 >>= λ new_prefixes.
          ok (replace_prefixes_in_list s prefixes overlapping new_prefixes)

  -- `processExclusionsIPv4New` and `processExclusionsIPv6New`: the list of the family, and the
  -- exclusions that a warning was added for. An error leaves the list as it then is.
  pub process_exclusions_new :
      SortSlice
      → Bool
      → List IpPrefix
      → List IpPrefix
      → List IpPrefix
      → (List IpPrefix × List IpPrefix) × Option Error
  process_exclusions_new s is_ipv4 [] prefixes warnings = ((prefixes, warnings), none)
  process_exclusions_new s is_ipv4 (exclude ∷ rest) prefixes warnings =
      let warned =
        if ltb_ℤ (pos (recommended_min_exclusion is_ipv4)) exclude.prefix.bits
        then warnings ++ (exclude ∷ [])
        else warnings in
      elim (ltb_ℤ (pos (min_exclusion_len is_ipv4)) exclude.prefix.bits) [
        | true ↦ process_exclusions_new s is_ipv4 rest prefixes warnings
        | false ↦ elim (apply_exclusion s is_ipv4 exclude prefixes) [
          | err e ↦ ((prefixes, warned), some e)
          | ok replaced ↦ process_exclusions_new s is_ipv4 rest replaced warned
        ]
      ]
