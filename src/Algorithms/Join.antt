-- ===== src/Algorithms/Join.antt =====
-- One step of the aggregation at two neighbours: what replaces them is a block with exactly the
-- addresses of both.
use Prim.Native.Nat.{min, max}
use netjugo.Prelude.{
  ℕ, ◌+◌, ◌^◌, ◌≤◌, ◌<◌, ◌≡◌, refl, subst, arith, Bool, true, false, Bool-cases, inl, inr, ◌||◌,
  some, if◌then◌else◌,
}
use netjugo.Prelude.Powers.{pow_pos}
use netjugo.Errors.{Result, ok, err, ◌>>=◌, is_ok, Error}
use netjugo.Netip.{Prefix, is4}
use netjugo.Uint256.{Uint256}
use netjugo.IpPrefix.{IpPrefix, IsBlock, width, inside}
use netjugo.Validation.{uint256_range_to_prefix}
use netjugo.Validation.Blocks.{uint256_range_to_prefix_iff, IsBlock-of_range}
use netjugo.Algorithms.{
  contains, are_adjacent, overlaps, merge_adjacent, merge_overlapping, can_merge_to_valid_prefix,
  merged, join,
}
use netjugo.Algorithms.Ranges.{contains_lem, overlaps_lem, are_adjacent_lem, lower_lem, upper_lem}

-- A block with the ends of both.
pub record IsHull (is_ipv4 : Bool) (a b p : IpPrefix) : Type 0 where
  pub block : IsBlock is_ipv4 p
  pub from_min : p.min ≡ min a.min b.min
  pub to_max : p.max ≡ max a.max b.max

pub ordered_of : (f : Bool) (p : IpPrefix) → IsBlock f p → p.min ≤ p.max
ordered_of f p b = omega (arith, b.max_end, pow_pos b.host)

pub bounded_of : (f : Bool) (p : IpPrefix) → IsBlock f p → p.max < 2 ^ 128
bounded_of true p b = omega (arith, b.bounded)
bounded_of false p b = b.bounded

-- The end of both merges.
abbrev pub merge_of : Result Prefix → ℕ → ℕ → Result IpPrefix
merge_of r lo hi =
    if is_ok r then (r >>= λ q. ok (record { prefix = q; min = lo; max = hi })) else err Error.plain

merge_of-eq-ok :
    (r : Result Prefix) (lo hi : ℕ) (p : IpPrefix)
    → merge_of r lo hi ≡ ok p
    → (q : Prefix) × (r ≡ ok q) × (◌≡◌ {A = IpPrefix} (record { prefix = q; min = lo; max = hi }) p)
merge_of-eq-ok (ok q) lo hi p e = (q, refl, cc)
merge_of-eq-ok (err x) lo hi p e = cc

some_injective : {q p : IpPrefix} → some q ≡ some p → q ≡ p
some_injective e = cc

merged-eq-some : (r : Result IpPrefix) (p : IpPrefix) → merged r ≡ some p → r ≡ ok p
merged-eq-some (ok q) p e = cc
merged-eq-some (err x) p e = cc

module _ (u : Uint256) (f : Bool) (a b p : IpPrefix) (block_a : IsBlock f a)
    (block_b : IsBlock f b) where
  IsHull-of_range :
      (lo hi : ℕ) (q : Prefix)
      → lo ≡ min a.min b.min
      → hi ≡ max a.max b.max
      → uint256_range_to_prefix u lo hi f ≡ ok q
      → IsHull f a b (record { prefix = q; min = lo; max = hi })
  IsHull-of_range lo hi q elo ehi e =
      let fits : hi < 2 ^ width f = omega (arith, block_a.bounded, block_b.bounded) in
      let ordered : lo ≤ hi = omega (arith, ordered_of f a block_a) in
      let (k, host, aligned, end, eq) =
        (uint256_range_to_prefix_iff u lo hi ordered f q fits).0 e in
      record {
        block = rw eq (IsBlock-of_range f lo hi k fits host aligned end);
        from_min = elo;
        to_max = ehi;
      }

  IsHull-of_merge :
      (lo hi : ℕ)
      → lo ≡ min a.min b.min
      → hi ≡ max a.max b.max
      → merge_of (uint256_range_to_prefix u lo hi (is4 a.prefix.addr)) lo hi ≡ ok p
      → IsHull f a b p
  IsHull-of_merge lo hi elo ehi e =
      let (q, found, eq) =
        merge_of-eq-ok (uint256_range_to_prefix u lo hi (is4 a.prefix.addr)) lo hi p e in
      let found' = subst (λ g. uint256_range_to_prefix u lo hi g ≡ ok q) block_a.family found in
      subst (IsHull f a b) eq (IsHull-of_range lo hi q elo ehi found')

  merge_adjacent-IsHull : merge_adjacent u a b ≡ ok p → IsHull f a b p
  unfolding merge_adjacent can_merge_to_valid_prefix
  merge_adjacent-IsHull e =
      IsHull-of_merge _ _ (lower_lem u a.min b.min) (upper_lem u a.max b.max) e

  merge_overlapping-IsHull : merge_overlapping u a b ≡ ok p → IsHull f a b p
  unfolding merge_overlapping can_merge_to_valid_prefix
  merge_overlapping-IsHull e =
      IsHull-of_merge _ _ (lower_lem u a.min b.min) (upper_lem u a.max b.max) e

  -- The two ranges leave no gap between them.
  abbrev NoGap : Type 0
  NoGap = (a.min ≤ b.max + 1) × (b.min ≤ a.max + 1)

  IsHull-left : contains u a b ≡ true → a ≡ p → IsHull f a b p × NoGap
  IsHull-left t e =
      let within : (a.min ≤ b.min) × (b.max ≤ a.max) = ground (arith, contains_lem u a b) in
      let order = ordered_of f b block_b in
      (
        subst (IsHull f a b) e
            (record { block = block_a; from_min = omega arith; to_max = omega arith }),
        omega arith,
      )

  IsHull-right : contains u b a ≡ true → b ≡ p → IsHull f a b p × NoGap
  IsHull-right t e =
      let within : (b.min ≤ a.min) × (a.max ≤ b.max) = ground (arith, contains_lem u b a) in
      let order = ordered_of f a block_a in
      (
        subst (IsHull f a b) e
            (record { block = block_b; from_min = omega arith; to_max = omega arith }),
        omega arith,
      )

  no_gap_adjacent : are_adjacent u a b ≡ true → NoGap
  no_gap_adjacent t = ground (
    arith,
    are_adjacent_lem u a b (bounded_of f a block_a) (bounded_of f b block_b),
    ordered_of f a block_a,
    ordered_of f b block_b,
  )

  no_gap_overlap : overlaps u a b ≡ true → NoGap
  no_gap_overlap t = ground (arith, overlaps_lem u a b)

  -- What replaces two neighbours is a block with their ends, and the two leave no gap.
  pub join-IsHull : join u a b ≡ some p → IsHull f a b p × NoGap
  unfolding join
  join-IsHull e = elim (Bool-cases (contains u a b)) [
    | inl t ↦ IsHull-left t (some_injective (rw t at e))
    | inr t ↦ elim (Bool-cases (contains u b a)) [
      | inl t' ↦ IsHull-right t' (some_injective (rw (t, t') at e))
      | inr t' ↦ elim (Bool-cases (are_adjacent u a b)) [
        | inl s ↦
            (merge_adjacent-IsHull (merged-eq-some _ p (rw (t, t', s) at e)), no_gap_adjacent s)
        | inr s ↦ elim (Bool-cases (overlaps u a b)) [
          | inl s' ↦ (
            merge_overlapping-IsHull (merged-eq-some _ p (rw (t, t', s, s') at e)),
            no_gap_overlap s',
          )
          | inr s' ↦ absurd (cc (rw (t, t', s, s') at e))
        ]
      ]
    ]
  ]

  -- The addresses of the replacement are those of both.
  pub inside-IsHull : IsHull f a b p × NoGap → (x : ℕ) → inside p x ≡ (inside a x || inside b x)
  inside-IsHull (h, gap) x =
      ground (arith, h.from_min, h.to_max, ordered_of f a block_a, ordered_of f b block_b)

  -- Where two blocks are joined, the replacement is a block from the lower of the first addresses
  -- to the higher of the last ones, and it has exactly the addresses of both.
  pub join_lem :
      join u a b ≡ some p → (x : ℕ) → IsHull f a b p × (inside p x ≡ (inside a x || inside b x))
  join_lem e x = let hull = join-IsHull e in (hull.0, inside-IsHull hull x)
