-- ===== src/Exclusion/Excluded.antt =====
-- One exclusion applied to the list of its family, as the loops over the exclusions do.
use netjugo.Prelude.{
  ℕ, ◌+◌, ◌-◌, ◌^◌, ◌≤◌, ◌<◌, ◌≡◌, refl, ap, ◌∙◌, arith, Bool, true, false, ◌&&◌, ◌||◌, not,
  Bool-cases, inl, inr, List, [], ◌∷◌, length, keep, ◌==◌, All, All-append, All-mono,
}
use netjugo.Errors.{Result, ok}
use netjugo.Uint256.{Uint256}
use netjugo.IpPrefix.{
  IpPrefix, IsBlock, width, inside, covers, covers-append, DisjointFrom, IsDisjoint,
}
use netjugo.Sorting.{SortSlice}
use netjugo.Sorting.Laws.{All-perm, covers-perm}
use netjugo.Algorithms.{overlaps}
use netjugo.Algorithms.Ranges.{overlaps_lem}
use netjugo.Algorithms.Join.{ordered_of}
use netjugo.Exclusion.{process_exclusion_new, apply_exclusion}
use netjugo.Exclusion.Optimal.{IsCover}
use netjugo.Maximal.{holds, holds-append, holds-perm}
use netjugo.Exclusion.Cut.{spared}
use netjugo.Exclusion.Process.{process_exclusion_new-IsCover}
use netjugo.Exclusion.Find.{find_overlapping_prefixes_lem}
use netjugo.Exclusion.Pairwise.{
  Pairwise-perm, Pairwise-append, Pairwise-DisjointFrom, disjoint_of_sorted,
}
use netjugo.Exclusion.Replace.{
  All-keep, covers_parts, holds_parts, DisjointFrom-keep, result, replaced, result_perm,
  result-IsSorted,
}
use mathlib.Core.List.Permᴰ

-- A call returns disjoint blocks in ascending order that cover what `l` covers less the exclusion,
-- and a block in a prefix of `l` that does not meet the exclusion lies in one of them.
pub record IsExcluded (f : Bool) (e : IpPrefix) (l : List IpPrefix) (r : Result (List IpPrefix))
    : Type 0 where
  pub prefixes : List IpPrefix
  pub returned : r ≡ ok prefixes
  pub blocks : All (IsBlock f) prefixes
  pub disjoint : IsDisjoint prefixes
  pub exact : (x : ℕ) → covers prefixes x ≡ (covers l x && not (inside e x))
  pub complete :
      (b : IpPrefix) → IsBlock f b → holds l b ≡ true → spared e b ≡ true → holds prefixes b ≡ true

covers_below :
    (f : Bool) (l : List IpPrefix) (m x : ℕ)
    → All (IsBlock f) l
    → DisjointFrom m l
    → x < m
    → covers l x ≡ false
covers_below f [] m x h d lt = refl
covers_below f (p ∷ l) m x (h, k) (low, d) lt =
    ground (arith, ordered_of f p h, covers_below f l (p.max + 1) x k d)

module _ (u : Uint256) (f : Bool) (s : SortSlice) (e : IpPrefix) (ordered : e.min ≤ e.max) where
  unmet_exact :
      (l : List IpPrefix) (x : ℕ)
      → (length (keep (overlaps u e) l) == 0) ≡ true
      → covers l x ≡ (covers l x && not (inside e x))
  unmet_exact [] x h = refl
  unmet_exact (p ∷ l) x h = elim (Bool-cases (overlaps u e p)) [
    | inl y ↦ absurd (ground (arith, rw y at h))
    | inr n ↦ ground (arith, unmet_exact l x (rw n at h), overlaps_lem u e p)
  ]

  -- The prefixes that meet the exclusion and those that do not share no address.
  unmet_met :
      (l : List IpPrefix) (m x : ℕ)
      → All (IsBlock f) l
      → DisjointFrom m l
      → covers (keep (λ p. not (overlaps u e p)) l) x ≡ true
      → covers (keep (overlaps u e) l) x ≡ false
  unmet_met [] m x h d c = refl
  unmet_met (p ∷ l) m x (h, k) (low, d) c =
      let rest = DisjointFrom-keep u e (overlaps u e) f l (p.max + 1) k d in
      let rest' = DisjointFrom-keep u e (λ p. not (overlaps u e p)) f l (p.max + 1) k d in
      let below =
        covers_below f (keep (overlaps u e) l) (p.max + 1) x
          (All-keep (IsBlock f) (overlaps u e) l k) rest in
      let below' =
        covers_below f (keep (λ p. not (overlaps u e p)) l) (p.max + 1) x
          (All-keep (IsBlock f) (λ p. not (overlaps u e p)) l k) rest' in
      elim (Bool-cases (overlaps u e p)) [
        | inl y ↦ rw y (ground (arith, unmet_met l (p.max + 1) x k d, rw y at c))
        | inr n ↦ rw n (ground (arith, unmet_met l (p.max + 1) x k d, rw n at c))
      ]

  module _ (l : List IpPrefix) (blocks : All (IsBlock f) l) (disjoint : IsDisjoint l) where
    abbrev met : List IpPrefix
    met = keep (overlaps u e) l

    -- What is left of the prefixes that the exclusion meets.
    left_cover :
        IsCover f 0
          (2 ^ width f - 1)
          (λ x. covers met x && not (inside e x))
          (λ b. holds met b && spared e b)
          (process_exclusion_new u e met f)
    left_cover =
        process_exclusion_new-IsCover u f e ordered (2 ^ width f - 1) met 0
          (All-keep (IsBlock f) (overlaps u e) l blocks)
          (DisjointFrom-keep u e (overlaps u e) f l 0 blocks disjoint)
          (All-keep (λ p. p.max ≤ 2 ^ width f - 1) (overlaps u e) l
            (All-mono (λ p b. omega (arith, b.bounded)) l blocks))

    applied_some :
        (length met == 0) ≡ false
        → apply_exclusion u s f e l ≡ ok (result u s e l left_cover.prefixes)
    unfolding apply_exclusion
    applied_some t =
        rw (find_overlapping_prefixes_lem u f e l blocks disjoint, t, left_cover.returned)

    applied_none : (length met == 0) ≡ true → apply_exclusion u s f e l ≡ ok l
    unfolding apply_exclusion
    applied_none t = rw (find_overlapping_prefixes_lem u f e l blocks disjoint, t)

    abbrev unmet : List IpPrefix
    unmet = keep (λ p. not (overlaps u e p)) l

    replaced-IsBlock : All (IsBlock f) (replaced u s e l left_cover.prefixes)
    replaced-IsBlock =
        All-append (IsBlock f) unmet left_cover.prefixes
          (All-keep (IsBlock f) (λ p. not (overlaps u e p)) l blocks) left_cover.blocks

    covers-replaced :
        (x : ℕ) → covers (replaced u s e l left_cover.prefixes) x ≡ (covers l x && not (inside e x))
    covers-replaced x =
        covers-append unmet left_cover.prefixes x
        ∙ ap (λ b. covers unmet x || b) (left_cover.exact x)
        ∙ covers_parts u e l x

    holds-replaced :
        (b : IpPrefix)
        → IsBlock f b
        → holds l b ≡ true
        → spared e b ≡ true
        → holds (replaced u s e l left_cover.prefixes) b ≡ true
    holds-replaced b h held spare = ground (
      arith,
      holds-append unmet left_cover.prefixes b,
      holds_parts u e l b,
      left_cover.complete b h,
    )

    result-IsDisjoint : IsDisjoint (result u s e l left_cover.prefixes)
    result-IsDisjoint =
        let new = left_cover.prefixes in
        let perm = result_perm u s e l new in
        let unmet-IsBlock = All-keep (IsBlock f) (λ p. not (overlaps u e p)) l blocks in
        let unmet_disjoint =
          DisjointFrom-keep u e (λ p. not (overlaps u e p)) f l 0 blocks disjoint in
        let away = λ (x : ℕ) (c : covers unmet x ≡ true). left_away x c in
        let apart =
          Pairwise-append f unmet new unmet-IsBlock left_cover.blocks away
            (Pairwise-DisjointFrom f unmet 0 unmet-IsBlock unmet_disjoint)
            (Pairwise-DisjointFrom f new 0 left_cover.blocks left_cover.disjoint) in
        disjoint_of_sorted f (result u s e l new) 0
          (All-perm (IsBlock f) (Permᴰ.symm perm) replaced-IsBlock) (result-IsSorted u s e l new)
          (Pairwise-perm (Permᴰ.symm perm) apart)
      where
        left_away : (x : ℕ) → covers unmet x ≡ true → covers left_cover.prefixes x ≡ false
        left_away x c = ground (arith, unmet_met l 0 x blocks disjoint c, left_cover.exact x)

    -- One exclusion, applied to a list of disjoint blocks of a family in ascending order, returns
    -- disjoint blocks in ascending order again, which cover exactly the addresses of the list that
    -- are not in the exclusion, for any `sort.Slice`; and every CIDR block in a prefix of the list
    -- that does not meet the exclusion lies in one of them. The exclusion is any range that is not
    -- empty.
    pub apply_exclusion-IsExcluded : IsExcluded f e l (apply_exclusion u s f e l)
    apply_exclusion-IsExcluded = elim (Bool-cases (length met == 0)) [
      | inl t ↦ record {
        prefixes = l;
        returned = applied_none t;
        blocks = blocks;
        disjoint = disjoint;
        exact = λ x. unmet_exact l x t;
        complete = λ b h held spare. held;
      }
      | inr t ↦
          let new = left_cover.prefixes in
          let perm = result_perm u s e l new in
          record {
            prefixes = result u s e l new;
            returned = applied_some t;
            blocks = All-perm (IsBlock f) (Permᴰ.symm perm) replaced-IsBlock;
            disjoint = result-IsDisjoint;
            exact = λ x. covers-perm x perm ∙ covers-replaced x;
            complete = λ b h held spare. holds-perm b perm ∙ holds-replaced b h held spare;
          }
    ]
