-- ===== src/Algorithms/Disjoint.antt =====
-- Sorting and the removal of duplicates on disjoint blocks.
use mathlib.Core.List.Permᴰ
use netjugo.Prelude.{Bool, Bool-cases, inl, inr, List, [], ◌∷◌, All}
use netjugo.Uint256.{Uint256}
use netjugo.IpPrefix.{IpPrefix, IsBlock, IsDisjoint}
use netjugo.Sorting.{SortSlice}
use netjugo.Exclusion.Pairwise.{
  Apart, Pairwise, Pairwise-perm, Pairwise-DisjointFrom, disjoint_of_sorted,
}
use netjugo.Algorithms.{
  min_less, is_duplicate_prefix, deduplicate_from, deduplicate, sort_and_deduplicate,
}
use netjugo.Algorithms.Dedup.{from-All, sort_and_deduplicate-All, sort_and_deduplicate-SortedFrom}

module _ (u : Uint256) where
  from-Pairwise :
      (p : IpPrefix) (l : List IpPrefix) → Pairwise l → Pairwise (deduplicate_from u p l)
  unfolding deduplicate_from
  from-Pairwise p [] w = tt
  from-Pairwise p (q ∷ l) (a, w) = elim (Bool-cases (is_duplicate_prefix u q p)) [
    | inl e ↦ rw (e, deduplicate_from) (from-Pairwise p l w)
    | inr e ↦ rw (e, deduplicate_from) (from-All u (Apart q) q l a, from-Pairwise q l w)
  ]

  deduplicate-Pairwise : (l : List IpPrefix) → Pairwise l → Pairwise (deduplicate u l)
  unfolding deduplicate
  deduplicate-Pairwise [] w = tt
  deduplicate-Pairwise (p ∷ l) (a, w) = (from-All u (Apart p) p l a, from-Pairwise p l w)

  module _ (s : SortSlice) where
    sort_and_deduplicate-Pairwise :
        (l : List IpPrefix) → Pairwise l → Pairwise (sort_and_deduplicate u s l)
    unfolding sort_and_deduplicate
    sort_and_deduplicate-Pairwise [] w = tt
    sort_and_deduplicate-Pairwise (p ∷ l) w =
        deduplicate-Pairwise (s.sort (min_less u) (p ∷ l))
          (Pairwise-perm (Permᴰ.symm (s.sort_perm (min_less u) (p ∷ l))) w)

    -- Sorting a list of disjoint blocks keeps them disjoint.
    pub sort_and_deduplicate-IsDisjoint :
        (f : Bool) (l : List IpPrefix)
        → All (IsBlock f) l
        → IsDisjoint l
        → IsDisjoint (sort_and_deduplicate u s l)
    sort_and_deduplicate-IsDisjoint f l h d =
        disjoint_of_sorted f (sort_and_deduplicate u s l) 0
          (sort_and_deduplicate-All u s (IsBlock f) l h) (sort_and_deduplicate-SortedFrom u s l)
          (sort_and_deduplicate-Pairwise l (Pairwise-DisjointFrom f l 0 h d))
