-- ===== src/Maximal/Fewest.antt =====
-- A maximal list of disjoint blocks: no other list of blocks with the same addresses is shorter.
use netjugo.Prelude.{
  ℕ, ◌+◌, ◌≤◌, ◌<◌, ◌≡◌, arith, Bool, true, not, Bool-cases, inl, inr, List, [], ◌∷◌, length, keep,
  All,
}
use netjugo.IpPrefix.{IpPrefix, IsBlock, covers, DisjointFrom, IsDisjoint}
use netjugo.Algorithms.Join.{ordered_of}
use netjugo.Maximal.{encloses, holds, IsMaximal, holds-DisjointFrom}

-- The blocks that do not lie in the first one.
abbrev others : IpPrefix → List IpPrefix → List IpPrefix
others q m = keep (λ p. not (encloses q p)) m

abbrev Begins : List IpPrefix → IpPrefix → Type 0
Begins m q = covers m q.min ≡ true

others_le : (q : IpPrefix) (m : List IpPrefix) → length (others q m) ≤ length m
others_le q [] = omega arith
others_le q (p ∷ m) = elim (Bool-cases (encloses q p)) [
  | inl e ↦ rw e (omega (arith, others_le q m))
  | inr e ↦ rw e (omega (arith, others_le q m))
]

-- Behind the first block, the others cover as much.
others-covers :
    (q : IpPrefix) (m : List IpPrefix) (x : ℕ)
    → q.max < x
    → covers m x ≡ true
    → covers (others q m) x ≡ true
others-covers q [] x h c = c
others-covers q (p ∷ m) x h c = elim (Bool-cases (encloses q p)) [
  | inl e ↦ rw e (ground (arith, others-covers q m x h))
  | inr e ↦ rw e (ground (arith, others-covers q m x h))
]

others_hold :
    (q : IpPrefix) (l m : List IpPrefix)
    → All (λ p. holds (q ∷ l) p ≡ true) m
    → All (λ p. holds l p ≡ true) (others q m)
others_hold q l [] h = tt
others_hold q l (p ∷ m) (held, h) = elim (Bool-cases (encloses q p)) [
  | inl e ↦ rw e (others_hold q l m h)
  | inr e ↦ rw e (rw e at held, others_hold q l m h)
]

module _ (f : Bool) where
  -- What covers the beginning of the first block lies in it.
  others_lt :
      (q : IpPrefix) (l m : List IpPrefix)
      → IsBlock f q
      → All (IsBlock f) l
      → DisjointFrom (q.max + 1) l
      → All (λ p. holds (q ∷ l) p ≡ true) m
      → Begins m q
      → length (others q m) < length m
  others_lt q l [] hq h d held c = cc
  others_lt q l (p ∷ m) hq h d (one, held) c = elim (Bool-cases (encloses q p)) [
    | inl e ↦ rw e (omega (arith, others_le q m))
    | inr e ↦
        let behind = holds-DisjointFrom f l (q.max + 1) p h d (rw e at one) in
        let order = ordered_of f q hq in
        let rest : Begins m q = ground arith in
        rw e (omega (arith, others_lt q l m hq h d held rest))
  ]

  others_begin :
      (q : IpPrefix) (l m : List IpPrefix) (k : ℕ)
      → q.max < k
      → All (IsBlock f) l
      → DisjointFrom k l
      → All (Begins m) l
      → All (Begins (others q m)) l
  others_begin q [] m k lt h d c = tt
  others_begin q (n ∷ l) m k lt (hn, h) (low, d) (here, c) =
      let order = ordered_of f n hn in
      (
        others-covers q m n.min (omega arith) here,
        others_begin q l m (n.max + 1) (omega arith) h d c,
      )

  shorter :
      (l m : List IpPrefix) (k : ℕ)
      → All (IsBlock f) l
      → DisjointFrom k l
      → All (λ p. holds l p ≡ true) m
      → All (Begins m) l
      → length l ≤ length m
  shorter [] m k h d held c = omega arith
  shorter (q ∷ l) m k (hq, h) (low, d) held (here, c) =
      let fewer = others_lt q l m hq h d held here in
      let rest =
        shorter l (others q m) (q.max + 1) h d (others_hold q l m held)
          (others_begin q l m (q.max + 1) (omega arith) h d c) in
      omega arith

  pub all_held :
      (l m : List IpPrefix)
      → IsMaximal f l
      → All (IsBlock f) m
      → ((x : ℕ) → covers m x ≡ true → covers l x ≡ true)
      → All (λ p. holds l p ≡ true) m
  unfolding IsMaximal
  all_held l [] maximal h c = tt
  all_held l (p ∷ m) maximal (hp, h) c =
      (maximal p hp (λ x t. c x (ground arith)), all_held l m maximal h (λ x t. c x (ground arith)))

  all_begin :
      (l m : List IpPrefix)
      → All (IsBlock f) l
      → ((x : ℕ) → covers l x ≡ true → covers m x ≡ true)
      → All (Begins m) l
  all_begin [] m h c = tt
  all_begin (q ∷ l) m (hq, h) c =
      let order = ordered_of f q hq in
      (c q.min (ground arith), all_begin l m h (λ x t. c x (ground arith)))

  -- Disjoint blocks, of which each block that they cover lies in one, are not more than any other
  -- blocks with the same addresses.
  pub fewest :
      (l m : List IpPrefix)
      → All (IsBlock f) l
      → IsDisjoint l
      → IsMaximal f l
      → All (IsBlock f) m
      → ((x : ℕ) → covers m x ≡ covers l x)
      → length l ≤ length m
  fewest l m blocks disjoint maximal blocks' same =
      shorter l m 0 blocks disjoint (all_held l m maximal blocks' (λ x t. ground (arith, same x)))
        (all_begin l m blocks (λ x t. ground (arith, same x)))
