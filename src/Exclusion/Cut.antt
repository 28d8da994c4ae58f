-- ===== src/Exclusion/Cut.antt =====
-- What is left of one block after an exclusion: the complement, the trimmed part, and the choice
-- between them in `processExclusionNew`.
use netjugo.Prelude.{
  ℕ, ◌+◌, ◌-◌, ◌≤◌, ◌<◌, ◌≡◌, arith, Bool, true, false, ◌&&◌, ◌||◌, not, ltb, leb, if◌then◌else◌,
  Bool-cases, inl, inr, [],
}
use netjugo.Errors.{ok}
use netjugo.Uint256.{Uint256, lt_zero, le_zero, ge_zero, gt_zero}
use netjugo.IpPrefix.{IpPrefix, IsBlock, inside}
use netjugo.Algorithms.{contains, overlaps}
use netjugo.Algorithms.Ranges.{contains_lem, overlaps_lem}
use netjugo.Algorithms.Join.{bounded_of, ordered_of}
use netjugo.Maximal.{encloses}
use netjugo.Exclusion.{create_optimal_prefixes, create_complement, trim_overlap_new, exclude_from}
use netjugo.Exclusion.Optimal.{IsCover, span, within, create_optimal_prefixes-IsCover}
use netjugo.Exclusion.Covers.{IsCover-none, IsCover-one, IsCover-same, IsCover-append}

-- The addresses of a block that an exclusion leaves.
abbrev pub left_of : IpPrefix → IpPrefix → ℕ → Bool
left_of o e x = inside o x && not (inside e x)

-- The blocks in a block that do not meet an exclusion.
abbrev pub spared : IpPrefix → IpPrefix → Bool
spared e b = ltb b.max e.min || ltb e.max b.min

abbrev pub left_parts : IpPrefix → IpPrefix → IpPrefix → Bool
left_parts o e b = encloses o b && spared e b

module _ (u : Uint256) (f : Bool) (o e : IpPrefix) (block : IsBlock f o)
    (ordered : e.min ≤ e.max) where
  minus_one : 1 ≤ e.min → e.min ≤ o.max → u.sub e.min 1 ≡ e.min - 1
  minus_one positive le = omega (arith, u.sub_lem e.min 1 (omega arith), bounded_of f o block)

  plus_one : e.max ≤ o.max → u.add e.max 1 ≡ e.max + 1
  plus_one le = omega (arith, u.add_lem e.max 1, bounded_of f o block)

  -- The part before the exclusion, and the part behind it.
  before_cover :
      o.min < e.min
      → e.min ≤ o.max
      → IsCover f o.min
          (e.min - 1)
          (span o.min (e.min - 1))
          (within o.min (e.min - 1))
          (create_optimal_prefixes u o.min (u.sub e.min 1) f)
  before_cover lt le = rw (minus_one (omega arith) le) (
      create_optimal_prefixes-IsCover u f (e.min - 1) (omega (arith, block.bounded)) o.min
        (omega arith))

  after_cover :
      e.max < o.max
      → IsCover f
          (e.max + 1)
          o.max
          (span (e.max + 1) o.max)
          (within (e.max + 1) o.max)
          (create_optimal_prefixes u (u.add e.max 1) o.max f)
  after_cover lt =
      rw (plus_one (omega arith))
        (create_optimal_prefixes-IsCover u f o.max block.bounded (e.max + 1) (omega arith))

  before_part :
      e.min ≤ o.max
      → IsCover f o.min
          (e.min - 1)
          (λ x. leb o.min x && ltb x e.min)
          (λ b. leb o.min b.min && ltb b.max e.min)
          (if lt_zero (u.cmp o.min e.min)
            then create_optimal_prefixes u o.min (u.sub e.min 1) f
            else ok [])
  before_part le = elim (Bool-cases (lt_zero (u.cmp o.min e.min))) [
    | inl t ↦
        let lt : o.min < e.min = ground (arith, u.cmp_lem o.min e.min) in
        rw t (
          IsCover-same (omega arith) (omega arith) (λ x. ground arith)
            (λ b h part. ground (arith, ordered_of f b h)) (before_cover lt le))
    | inr t ↦
        let ge : e.min ≤ o.min = ground (arith, u.cmp_lem o.min e.min) in
        rw t (
          IsCover-same {lo = o.min} {hi = e.min - 1} (omega arith) (omega arith) (λ x. ground arith)
            (λ b h part. ground (arith, ordered_of f b h)) IsCover-none)
  ]

  after_part :
      IsCover f
        (e.max + 1)
        o.max
        (λ x. ltb e.max x && leb x o.max)
        (λ b. ltb e.max b.min && leb b.max o.max)
        (if lt_zero (u.cmp e.max o.max)
          then create_optimal_prefixes u (u.add e.max 1) o.max f
          else ok [])
  after_part = elim (Bool-cases (lt_zero (u.cmp e.max o.max))) [
    | inl t ↦
        let lt : e.max < o.max = ground (arith, u.cmp_lem e.max o.max) in
        rw t (
          IsCover-same (omega arith) (omega arith) (λ x. ground arith)
            (λ b h part. ground (arith, ordered_of f b h)) (after_cover lt))
    | inr t ↦
        let ge : o.max ≤ e.max = ground (arith, u.cmp_lem e.max o.max) in
        rw t (
          IsCover-same {lo = e.max + 1} {hi = o.max} (omega arith) (omega arith) (λ x. ground arith)
            (λ b h part. ground (arith, ordered_of f b h)) IsCover-none)
  ]

  create_complement-IsCover :
      o.min ≤ e.min
      → e.max ≤ o.max
      → IsCover f o.min o.max (left_of o e) (left_parts o e) (create_complement u o e f)
  unfolding create_complement
  create_complement-IsCover low high =
      IsCover-same (omega arith) (omega arith) (λ x. ground arith)
        (λ b h part. ground (arith, ordered_of f b h))
        (IsCover-append o.max (omega arith) (omega arith) (omega arith) (before_part (omega arith))
          after_part)

  -- Neither contains the other, and they meet.
  trim_overlap_new-IsCover :
      contains u e o ≡ false
      → contains u o e ≡ false
      → overlaps u e o ≡ true
      → IsCover f o.min o.max (left_of o e) (left_parts o e) (trim_overlap_new u o e f)
  unfolding trim_overlap_new
  trim_overlap_new-IsCover t t' s =
      elim (Bool-cases (le_zero (u.cmp e.min o.min) && lt_zero (u.cmp e.max o.max))) [
        | inl front ↦
            let low : e.min ≤ o.min = ground (arith, u.cmp_lem e.min o.min) in
            let lt : e.max < o.max = ground (arith, u.cmp_lem e.max o.max) in
            let rest : le_zero (u.cmp (u.add e.max 1) o.max) ≡ true =
              ground (arith, plus_one (omega arith), u.cmp_lem (u.add e.max 1) o.max) in
            let meets : o.min ≤ e.max + 1 = ground (arith, overlaps_lem u e o) in
            rw (front, rest)
              (IsCover-same meets (omega arith) (λ x. ground arith)
                (λ b h part. ground (arith, ordered_of f b h)) (after_cover lt))
        | inr other ↦
            let behind : (gt_zero (u.cmp e.min o.min) && ge_zero (u.cmp e.max o.max)) ≡ true =
              ground (
                arith,
                contains_lem u e o,
                contains_lem u o e,
                u.cmp_lem e.min o.min,
                u.cmp_lem e.max o.max,
              ) in
            let lt : o.min < e.min = ground (arith, u.cmp_lem e.min o.min) in
            let high : o.max ≤ e.max = ground (arith, u.cmp_lem e.max o.max) in
            let le : e.min ≤ o.max = ground (arith, overlaps_lem u e o) in
            let rest : le_zero (u.cmp o.min (u.sub e.min 1)) ≡ true =
              ground (arith, minus_one (omega arith) le, u.cmp_lem o.min (u.sub e.min 1)) in
            rw (other, behind, rest)
              (IsCover-same (omega arith) (omega arith) (λ x. ground arith)
                (λ b h part. ground (arith, ordered_of f b h)) (before_cover lt le))
      ]

  -- Whether the exclusion contains a block, lies in it, meets it at one end or does not meet it,
  -- the call returns disjoint blocks in ascending order that have exactly the addresses of the
  -- block that are not in the exclusion; and every CIDR block in the block that does not meet the
  -- exclusion lies in one of them.
  pub exclude_from-IsCover :
      IsCover f o.min o.max (left_of o e) (left_parts o e) (exclude_from u e o f)
  unfolding exclude_from
  exclude_from-IsCover = elim (Bool-cases (contains u e o)) [
    | inl t ↦ rw t (
        IsCover-same {lo = o.min} {hi = o.max} (omega arith) (omega arith)
          (λ x. ground (arith, contains_lem u e o))
          (λ b h part. ground (arith, contains_lem u e o, ordered_of f b h)) IsCover-none)
    | inr t ↦ elim (Bool-cases (contains u o e)) [
      | inl t' ↦
          let low : o.min ≤ e.min = ground (arith, contains_lem u o e) in
          let high : e.max ≤ o.max = ground (arith, contains_lem u o e) in
          rw (t, t') (create_complement-IsCover low high)
      | inr t' ↦ elim (Bool-cases (overlaps u e o)) [
        | inl s ↦ rw (t, t', s) (trim_overlap_new-IsCover t t' s)
        | inr s ↦
            rw (t, t', s)
              (IsCover-same (omega arith) (omega arith) (λ x. ground (arith, overlaps_lem u e o))
                (λ b h part. ground (arith, overlaps_lem u e o, ordered_of f b h))
                (IsCover-one o block))
      ]
    ]
  ]
