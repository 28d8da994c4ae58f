-- ===== src/Algorithms.antt =====
-- algorithms.go, on lists of prefixes: removal of duplicates, aggregation, and rounding up to the
-- minimum length.
pub mod Aggregate
pub mod Dedup
pub mod Disjoint
pub mod Held
pub mod Join
pub mod Limit
pub mod Maximal
pub mod Nested
pub mod Pass
pub mod Ranges
pub mod RoundUp
pub mod Siblings
use netjugo.Prelude.{
  ℕ, zero, suc, Bool, true, false, ◌&&◌, ◌||◌, not, List, [], ◌∷◌, Option, none, some, length, leb,
  ◌==◌, if◌then◌else◌, ℤ, pos, leb_ℤ,
}
use netjugo.Errors.{Result, ok, err, ◌>>=◌, is_ok, Error}
use netjugo.Netip.{is4, addr_prefix}
use netjugo.Uint256.{Uint256, lt_zero, le_zero, eq_zero, ge_zero}
use netjugo.IpPrefix.{IpPrefix}
use netjugo.Sorting.{SortSlice}
use netjugo.Validation.{uint256_range_to_prefix, prefix_to_uint256_range}

-- `maxIterations` in `aggregatePrefixes`.
abbrev pub max_iterations : ℕ
max_iterations = 5000

-- `err == nil` after a merge.
abbrev pub merged : Result IpPrefix → Option IpPrefix
merged (ok p) = some p
merged (err e) = none

module _ (u : Uint256) where
  -- The `less` of every `sort.Slice`.
  pub min_less : IpPrefix → IpPrefix → Bool
  min_less p q = lt_zero (u.cmp p.min q.min)

  pub is_duplicate_prefix : IpPrefix → IpPrefix → Bool
  is_duplicate_prefix a b = eq_zero (u.cmp a.min b.min) && eq_zero (u.cmp a.max b.max)

  -- The loop, where `last` is the element at `writeIndex`: what stays behind it.
  pub deduplicate_from : IpPrefix → List IpPrefix → List IpPrefix
  deduplicate_from last [] = []
  deduplicate_from last (current ∷ rest) = elim (is_duplicate_prefix current last) [
    | true ↦ deduplicate_from last rest
    | false ↦ current ∷ deduplicate_from current rest
  ]

  pub deduplicate : List IpPrefix → List IpPrefix
  deduplicate [] = []
  deduplicate (first ∷ rest) = first ∷ deduplicate_from first rest

  -- `sortAndDeduplicateIPv4` and `sortAndDeduplicateIPv6`, on the list of the family.
  pub sort_and_deduplicate : SortSlice → List IpPrefix → List IpPrefix
  sort_and_deduplicate s [] = []
  sort_and_deduplicate s (p ∷ ps) = deduplicate (s.sort min_less (p ∷ ps))

  unfoldable pub contains : IpPrefix → IpPrefix → Bool
  contains outer inner = le_zero (u.cmp outer.min inner.min) && ge_zero (u.cmp outer.max inner.max)

  unfoldable pub are_adjacent : IpPrefix → IpPrefix → Bool
  are_adjacent a b =
      let a_max_plus_one = u.add a.max 1 in
      let b_max_plus_one = u.add b.max 1 in
      if eq_zero (u.cmp a_max_plus_one b.min) then true else eq_zero (u.cmp b_max_plus_one a.min)

  pub overlaps : IpPrefix → IpPrefix → Bool
  overlaps a b = not (lt_zero (u.cmp a.max b.min) || lt_zero (u.cmp b.max a.min))

  unfoldable pub can_merge_to_valid_prefix : ℕ → ℕ → Bool → Bool
  can_merge_to_valid_prefix min_val max_val is_ipv4 =
      is_ok (uint256_range_to_prefix u min_val max_val is_ipv4)

  unfoldable pub merge_adjacent : IpPrefix → IpPrefix → Result IpPrefix
  merge_adjacent a b =
      let min_val = if le_zero (u.cmp a.min b.min) then a.min else b.min in
      let max_val = if ge_zero (u.cmp a.max b.max) then a.max else b.max in
      if can_merge_to_valid_prefix min_val max_val (is4 a.prefix.addr)
      then (uint256_range_to_prefix u min_val max_val (is4 a.prefix.addr) >>= λ prefix.
          ok (record { prefix = prefix; min = min_val; max = max_val }))
      else err Error.plain

  pub merge_overlapping : IpPrefix → IpPrefix → Result IpPrefix
  merge_overlapping a b =
      let min_val = if le_zero (u.cmp a.min b.min) then a.min else b.min in
      let max_val = if ge_zero (u.cmp a.max b.max) then a.max else b.max in
      if can_merge_to_valid_prefix min_val max_val (is4 a.prefix.addr)
      then (uint256_range_to_prefix u min_val max_val (is4 a.prefix.addr) >>= λ prefix.
          ok (record { prefix = prefix; min = min_val; max = max_val }))
      else err Error.plain

  -- One step of the inner loop at two neighbours: the prefix that replaces both, or `none` where
  -- `current` is kept and the loop moves on by one.
  unfoldable pub join : IpPrefix → IpPrefix → Option IpPrefix
  join current next =
      if contains current next
      then some current
      else if contains next current
      then some next
      else if are_adjacent current next
      then merged (merge_adjacent current next)
      else if overlaps current next
      then merged (merge_overlapping current next)
      else none

  -- The inner loop: `newPrefixes` and `changed`.
  pub pass : List IpPrefix → List IpPrefix × Bool
  pass [] = ([], false)
  pass (current ∷ []) = (current ∷ [], false)
  pass (current ∷ next ∷ rest) = elim (join current next) [
    | some p ↦ (p ∷ (pass rest).0, true)
    | none ↦ let more = pass (next ∷ rest) in (current ∷ more.0, more.1)
  ]

  -- The outer loop with the iterations that are left: the list that it leaves in `*prefixes`, and
  -- its error. The check after the loop refuses also a loop that ends in its last iteration.
  pub aggregate_loop : ℕ → List IpPrefix → List IpPrefix × Option Error
  aggregate_loop zero prefixes = (prefixes, some Error.plain)
  aggregate_loop (suc left) prefixes =
      let round = pass prefixes in
      elim round.1 [
        | true ↦ aggregate_loop left round.0
        | false ↦ (round.0, if left == 0 then some Error.plain else none)
      ]

  pub aggregate_prefixes : List IpPrefix → List IpPrefix × Option Error
  aggregate_prefixes prefixes =
      if leb (length prefixes) 1 then (prefixes, none) else aggregate_loop max_iterations prefixes

  pub round_up_to_min_length : IpPrefix → ℤ → Result IpPrefix
  round_up_to_min_length prefix min_length =
      if leb_ℤ prefix.prefix.bits min_length
      then ok prefix
      else addr_prefix prefix.prefix.addr min_length >>= λ new_prefix.
          prefix_to_uint256_range u new_prefix >>= λ range.
          ok (record { prefix = new_prefix; min = range.0; max = range.1 })

  -- The loop of `enforceMinPrefixLengthIPv4` and `enforceMinPrefixLengthIPv6`.
  pub round_up_all : ℤ → List IpPrefix → Result (List IpPrefix)
  round_up_all min_length [] = ok []
  round_up_all min_length (p ∷ ps) =
      (if leb_ℤ min_length p.prefix.bits then round_up_to_min_length p min_length else ok p)
      >>= λ rounded. round_up_all min_length ps >>= λ rest. ok (rounded ∷ rest)

  pub enforce_min_prefix_length : ℤ → List IpPrefix → Result (List IpPrefix)
  enforce_min_prefix_length min_length prefixes =
      if leb_ℤ min_length (pos 0) && leb_ℤ (pos 0) min_length
      then ok prefixes
      else if length prefixes == 0
      then ok prefixes
      else round_up_all min_length prefixes
