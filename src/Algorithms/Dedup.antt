-- ===== src/Algorithms/Dedup.antt =====
-- Sorting and the removal of duplicates: the addresses and blocks that stay, and the order.
use mathlib.Core.List.Permᴰ
use netjugo.Prelude.{
  length, ◌≤◌, ℕ, ◌≡◌, refl, ◌∙◌, arith, false, ◌||◌, ◌&&◌, List, [], ◌∷◌, All, Chain, ChainFrom,
  Bool-cases, inl, inr, ◌==◌,
}
use netjugo.Uint256.{Uint256}
use netjugo.IpPrefix.{IpPrefix, inside, covers, SortedFrom, SortedFrom-le, IsSorted}
use netjugo.Sorting.{SortSlice}
use netjugo.Sorting.Laws.{All-perm, covers-perm, length-perm, sort-IsSorted}
use netjugo.Algorithms.{
  min_less, is_duplicate_prefix, deduplicate_from, deduplicate, sort_and_deduplicate,
}
use netjugo.Algorithms.Ranges.{min_less_lem, is_duplicate_prefix_lem}

-- Two ranges that differ.
abbrev pub Differ : IpPrefix → IpPrefix → Type 0
Differ p q = (p.min == q.min && p.max == q.max) ≡ false

module _ (u : Uint256) where
  from-covers :
      (p : IpPrefix) (l : List IpPrefix) (x : ℕ)
      → (inside p x || covers (deduplicate_from u p l) x) ≡ (inside p x || covers l x)
  unfolding deduplicate_from
  from-covers p [] x = refl
  from-covers p (q ∷ l) x =
      ground (arith, is_duplicate_prefix_lem u q p, from-covers p l x, from-covers q l x)

  pub from-All :
      (P : IpPrefix → Type 0) (p : IpPrefix) (l : List IpPrefix)
      → All P l
      → All P (deduplicate_from u p l)
  unfolding deduplicate_from
  from-All P p [] h = tt
  from-All P p (q ∷ l) (h, t) = elim (Bool-cases (is_duplicate_prefix u q p)) [
    | inl e ↦ rw (e, deduplicate_from) (from-All P p l t)
    | inr e ↦ rw (e, deduplicate_from) (h, from-All P q l t)
  ]

  from-SortedFrom :
      (p : IpPrefix) (m : ℕ) (l : List IpPrefix)
      → SortedFrom m l
      → SortedFrom m (deduplicate_from u p l)
  unfolding deduplicate_from
  from-SortedFrom p m [] s = tt
  from-SortedFrom p m (q ∷ l) (low, s) = elim (Bool-cases (is_duplicate_prefix u q p)) [
    | inl e ↦ rw (e, deduplicate_from) (from-SortedFrom p m l (SortedFrom-le l low s))
    | inr e ↦ rw (e, deduplicate_from) (low, from-SortedFrom q q.min l s)
  ]

  from-Differ : (p : IpPrefix) (l : List IpPrefix) → ChainFrom Differ p (deduplicate_from u p l)
  unfolding deduplicate_from
  from-Differ p [] = tt
  from-Differ p (q ∷ l) = elim (Bool-cases (is_duplicate_prefix u q p)) [
    | inl e ↦ rw (e, deduplicate_from) (from-Differ p l)
    | inr e ↦
        let differ : Differ p q = ground (arith, is_duplicate_prefix_lem u q p) in
        rw (e, deduplicate_from) (differ, from-Differ q l)
  ]

  deduplicate-covers : (l : List IpPrefix) (x : ℕ) → covers (deduplicate u l) x ≡ covers l x
  unfolding deduplicate
  deduplicate-covers [] x = refl
  deduplicate-covers (p ∷ l) x = from-covers p l x

  deduplicate-All : (P : IpPrefix → Type 0) (l : List IpPrefix) → All P l → All P (deduplicate u l)
  unfolding deduplicate
  deduplicate-All P [] h = tt
  deduplicate-All P (p ∷ l) (h, t) = (h, from-All P p l t)

  deduplicate-SortedFrom :
      (m : ℕ) (l : List IpPrefix) → SortedFrom m l → SortedFrom m (deduplicate u l)
  unfolding deduplicate
  deduplicate-SortedFrom m [] s = tt
  deduplicate-SortedFrom m (p ∷ l) (low, s) = (low, from-SortedFrom p p.min l s)

  deduplicate-Differ : (l : List IpPrefix) → Chain Differ (deduplicate u l)
  unfolding deduplicate
  deduplicate-Differ [] = tt
  deduplicate-Differ (p ∷ l) = from-Differ p l

  -- What sorting and the removal of duplicates leave, for any `sort.Slice`.
  module _ (s : SortSlice) where
    -- Sorting and the removal of duplicates keep the addresses that a list covers.
    pub sort_and_deduplicate-covers :
        (l : List IpPrefix) (x : ℕ) → covers (sort_and_deduplicate u s l) x ≡ covers l x
    unfolding sort_and_deduplicate
    sort_and_deduplicate-covers [] x = refl
    sort_and_deduplicate-covers (p ∷ l) x =
        deduplicate-covers (s.sort (min_less u) (p ∷ l)) x
        ∙ covers-perm x (s.sort_perm (min_less u) (p ∷ l))

    pub sort_and_deduplicate-All :
        (P : IpPrefix → Type 0) (l : List IpPrefix) → All P l → All P (sort_and_deduplicate u s l)
    unfolding sort_and_deduplicate
    sort_and_deduplicate-All P [] h = tt
    sort_and_deduplicate-All P (p ∷ l) h =
        deduplicate-All P (s.sort (min_less u) (p ∷ l))
          (All-perm P (Permᴰ.symm (s.sort_perm (min_less u) (p ∷ l))) h)

    pub sort_and_deduplicate-SortedFrom :
        (l : List IpPrefix) → IsSorted (sort_and_deduplicate u s l)
    unfolding sort_and_deduplicate
    sort_and_deduplicate-SortedFrom [] = tt
    sort_and_deduplicate-SortedFrom (p ∷ l) =
        deduplicate-SortedFrom 0 (s.sort (min_less u) (p ∷ l))
          (sort-IsSorted (min_less u) (λ p q. min_less_lem u p q) s (p ∷ l))

    sort_and_deduplicate-Differ : (l : List IpPrefix) → Chain Differ (sort_and_deduplicate u s l)
    unfolding sort_and_deduplicate
    sort_and_deduplicate-Differ [] = tt
    sort_and_deduplicate-Differ (p ∷ l) = deduplicate-Differ (s.sort (min_less u) (p ∷ l))

    -- After sorting and the removal of duplicates, the list ascends by first address and no two
    -- neighbours have the same range.
    pub sort_and_deduplicate-IsSorted :
        (l : List IpPrefix)
        → IsSorted (sort_and_deduplicate u s l) × Chain Differ (sort_and_deduplicate u s l)
    sort_and_deduplicate-IsSorted l =
        (sort_and_deduplicate-SortedFrom l, sort_and_deduplicate-Differ l)

  from-length : (p : IpPrefix) (l : List IpPrefix) → length (deduplicate_from u p l) ≤ length l
  unfolding deduplicate_from
  from-length p [] = omega arith
  from-length p (q ∷ l) = elim (Bool-cases (is_duplicate_prefix u q p)) [
    | inl e ↦ rw (e, deduplicate_from) (omega (arith, from-length p l))
    | inr e ↦ rw (e, deduplicate_from) (omega (arith, from-length q l))
  ]

  pub length-sort_and_deduplicate :
      (s : SortSlice) (l : List IpPrefix) → length (sort_and_deduplicate u s l) ≤ length l
  unfolding sort_and_deduplicate deduplicate
  length-sort_and_deduplicate s [] = omega arith
  length-sort_and_deduplicate s (p ∷ l) =
      let sorted = s.sort (min_less u) (p ∷ l) in
      omega (arith, deduplicate-length sorted, length-perm (s.sort_perm (min_less u) (p ∷ l)))
    where
      deduplicate-length : (k : List IpPrefix) → length (deduplicate u k) ≤ length k
      deduplicate-length [] = omega arith
      deduplicate-length (q ∷ k) = omega (arith, from-length q k)
