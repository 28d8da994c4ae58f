-- ===== src/Maximal/Unique.antt =====
-- Two maximal lists of disjoint blocks with the same addresses have the same ranges.
use netjugo.Prelude.{ℕ, ◌+◌, ◌<◌, ◌≡◌, refl, ap₂, arith, Bool, true, List, [], ◌∷◌, All}
use netjugo.IpPrefix.{IpPrefix, IsBlock, covers, DisjointFrom, IsDisjoint}
use netjugo.Algorithms.Join.{ordered_of}
use netjugo.Maximal.{holds, IsMaximal, holds-DisjointFrom}
use netjugo.Maximal.Fewest.{all_held}

-- The first and the last addresses.
abbrev pub ranges : List IpPrefix → List (ℕ × ℕ)
ranges [] = []
ranges (p ∷ l) = (p.min, p.max) ∷ ranges l

module _ (f : Bool) where
  -- What begins behind a block and lies in a list lies behind that block in it.
  held_behind :
      (q : IpPrefix) (l m : List IpPrefix) (k : ℕ)
      → q.max < k
      → All (IsBlock f) m
      → DisjointFrom k m
      → All (λ p. holds (q ∷ l) p ≡ true) m
      → All (λ p. holds l p ≡ true) m
  held_behind q l [] k lt h d held = tt
  held_behind q l (p ∷ m) k lt (hp, h) (low, d) (one, held) =
      let order = ordered_of f p hp in
      (ground arith, held_behind q l m (p.max + 1) (omega arith) h d held)

  same_ranges :
      (l m : List IpPrefix) (k k' : ℕ)
      → All (IsBlock f) l
      → All (IsBlock f) m
      → DisjointFrom k l
      → DisjointFrom k' m
      → All (λ p. holds m p ≡ true) l
      → All (λ p. holds l p ≡ true) m
      → ranges l ≡ ranges m
  same_ranges [] [] k k' h h' d d' held held' = refl
  same_ranges [] (p ∷ m) k k' h h' d d' held held' = cc
  same_ranges (q ∷ l) [] k k' h h' d d' held held' = cc
  same_ranges (q ∷ l) (p ∷ m) k k' (hq, h) (hp, h') (low, d) (low', d') (one, held) (one', held') =
      let order = ordered_of f q hq in
      let order' = ordered_of f p hp in
      let behind = λ (t : holds m q ≡ true). holds-DisjointFrom f m (p.max + 1) q h' d' t in
      let behind' = λ (t : holds l p ≡ true). holds-DisjointFrom f l (q.max + 1) p h d t in
      let equal : (q.min ≡ p.min) × (q.max ≡ p.max) = ground (arith, behind, behind') in
      ap₂ (λ r rest. r ∷ rest) (ap₂ (λ a b. (a, b)) equal.0 equal.1)
        (same_ranges l m (q.max + 1) (p.max + 1) h h' d d'
          (held_behind p m l (q.max + 1) (omega arith) h d held)
          (held_behind q l m (p.max + 1) (omega arith) h' d' held'))

  pub unique :
      (l m : List IpPrefix)
      → All (IsBlock f) l
      → All (IsBlock f) m
      → IsDisjoint l
      → IsDisjoint m
      → IsMaximal f l
      → IsMaximal f m
      → ((x : ℕ) → covers l x ≡ covers m x)
      → ranges l ≡ ranges m
  unique l m h h' d d' maximal maximal' same =
      same_ranges l m 0 0 h h' d d' (all_held f m l maximal' h (λ x t. ground (arith, same x)))
        (all_held f l m maximal h' (λ x t. ground (arith, same x)))
