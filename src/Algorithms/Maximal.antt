-- ===== src/Algorithms/Maximal.antt =====
-- Where aggregation ends, the list is maximal: a block that it covers lies in one of its prefixes.
use native.Mathlib.Nat.{mul-mod_left}
use netjugo.Prelude.{
  ℕ, zero, suc, ◌+◌, ◌-◌, ◌*◌, ◌%◌, ◌^◌, ◌≤◌, ◌≡◌, refl, ap, ◌∙◌, arith, Bool, true, false,
  Bool-cases, inl, inr, List, [], ◌∷◌, none, All, Chain, ChainFrom,
}
use netjugo.Prelude.Powers.{pow_pos, pow_double, exponent_le}
use netjugo.Uint256.{Uint256}
use netjugo.IpPrefix.{IpPrefix, IsBlock, DisjointFrom, IsDisjoint, IsSorted}
use netjugo.Validation.Blocks.{IsBlock-of_range, prefix_of}
use netjugo.Algorithms.{aggregate_prefixes}
use netjugo.Algorithms.Aggregate.{aggregate_prefixes-IsBlock, aggregate_prefixes-IsDisjoint}
use netjugo.Algorithms.Join.{ordered_of}
use netjugo.Algorithms.Nested.{nested}
use netjugo.Algorithms.Pass.{Apart, Chain-tail}
use netjugo.Algorithms.Siblings.{join-halves}
use netjugo.Maximal.{encloses, holds, IsCovered, IsMaximal, holds-single, holds-DisjointFrom}

module _ (f : Bool) (p : IpPrefix) (block : IsBlock f p) (k : ℕ) (size : block.host ≡ suc k) where
  -- The halves of a block.
  abbrev half : ℕ → IpPrefix
  half lo = record { prefix = prefix_of f lo k; min = lo; max = lo + (2 ^ k - 1) }

  abbrev middle : ℕ
  middle = p.min + 2 ^ k

  doubled : p.max + 1 ≡ p.min + 2 ^ k + 2 ^ k
  doubled = omega (arith, block.max_end, ap (λ n. 2 ^ n) size, pow_double k)

  left-IsBlock : IsBlock f (half p.min)
  left-IsBlock =
      let start : p.min ≡ block.block * 2 * 2 ^ k = omega (
        arith,
        block.min_aligned,
        ap (λ n. block.block * n) (ap (λ n. 2 ^ n) size ∙ pow_double k),
      ) in
      let aligned : p.min % 2 ^ k ≡ 0 =
        ap (λ n. n % 2 ^ k) start ∙ mul-mod_left (block.block * 2) (2 ^ k) in
      IsBlock-of_range f p.min (p.min + (2 ^ k - 1)) k
        (omega (arith, block.bounded, doubled, pow_pos k)) (omega (arith, block.host_fits, size))
        aligned (omega (arith, pow_pos k))

  right-IsBlock : IsBlock f (half middle)
  right-IsBlock =
      let start : middle ≡ (block.block * 2 + 1) * 2 ^ k = omega (
        arith,
        block.min_aligned,
        ap (λ n. block.block * n) (ap (λ n. 2 ^ n) size ∙ pow_double k),
      ) in
      let aligned : middle % 2 ^ k ≡ 0 =
        ap (λ n. n % 2 ^ k) start ∙ mul-mod_left (block.block * 2 + 1) (2 ^ k) in
      IsBlock-of_range f middle (middle + (2 ^ k - 1)) k
        (omega (arith, block.bounded, doubled, pow_pos k)) (omega (arith, block.host_fits, size))
        aligned (omega (arith, pow_pos k))

same_exponent : (j k : ℕ) → 2 ^ j ≡ 2 ^ k → j ≡ k
same_exponent j k e = omega (arith, exponent_le j k (omega arith), exponent_le k j (omega arith))

module _ (u : Uint256) (f : Bool) (p : IpPrefix) (block : IsBlock f p) (left right : IpPrefix)
    (left_block : IsBlock f left) (right_block : IsBlock f right) (first : left.min ≡ p.min)
    (meet : right.min ≡ left.max + 1) (last : right.max ≡ p.max) where
  -- The left half is an element of the list, and the right half is held behind it.
  next_joined :
      (q : IpPrefix) (l : List IpPrefix)
      → IsBlock f q
      → q.min ≡ p.min
      → q.max ≡ left.max
      → All (IsBlock f) l
      → DisjointFrom (q.max + 1) l
      → ChainFrom (Apart u) q l
      → holds l right ≡ true
      → holds (q ∷ l) p ≡ true
  next_joined q [] hq from to h d c e = cc
  next_joined q (n ∷ l) hq from to (hn, h) (low, d) (apart, c) e =
      let behind = λ (t : holds l right ≡ true). holds-DisjointFrom f l (n.max + 1) right h d t in
      let here : (n.min ≡ right.min) × (p.max ≤ n.max) =
        ground (arith, behind, ordered_of f n hn) in
      let order = ordered_of f p block in
      let order' = ordered_of f left left_block in
      elim (nested f p n block hn (omega arith) (omega arith)) [
        | inl within ↦
            absurd (join-halves u f q n p hq hn block from (omega arith) (omega arith) apart)
        | inr within ↦ absurd (omega arith)
      ]

  -- The left half lies in the head, the right one behind it.
  left_in_head :
      (q : IpPrefix) (l : List IpPrefix)
      → IsBlock f q
      → All (IsBlock f) l
      → DisjointFrom (q.max + 1) l
      → ChainFrom (Apart u) q l
      → encloses q left ≡ true
      → holds l right ≡ true
      → holds (q ∷ l) p ≡ true
  left_in_head q l hq h d c t e =
      let behind = holds-DisjointFrom f l (q.max + 1) right h d e in
      let order = ordered_of f p block in
      let order' = ordered_of f left left_block in
      let within : (q.min ≤ left.min) × (left.max ≤ q.max) = ground arith in
      elim (nested f p q block hq (omega arith) (omega arith)) [
        | inl inner ↦ next_joined q l hq (omega arith) (omega arith) h d c e
        | inr outer ↦ ground arith
      ]

  -- In a list of disjoint blocks of which no neighbours are joined, what holds both halves holds
  -- the block.
  holds_both :
      (l : List IpPrefix) (m : ℕ)
      → All (IsBlock f) l
      → DisjointFrom m l
      → Chain (Apart u) l
      → holds l left ≡ true
      → holds l right ≡ true
      → holds l p ≡ true
  holds_both [] m h d c e e' = cc
  holds_both (q ∷ l) m (hq, h) (low, d) c e e' =
      let order = ordered_of f right right_block in
      let order' = ordered_of f left left_block in
      elim (Bool-cases (encloses q left)) [
        | inl t ↦ elim (Bool-cases (encloses q right)) [
          | inl t' ↦ ground arith
          | inr t' ↦ left_in_head q l hq h d c t (rw t' at e')
        ]
        | inr t ↦
            let far = holds-DisjointFrom f l (q.max + 1) left h d (rw t at e) in
            let t' : encloses q right ≡ false = ground arith in
            let rest =
              holds_both l (q.max + 1) h d (Chain-tail u q l c) (rw t at e) (rw t' at e') in
            ground arith
      ]

module _ (u : Uint256) (f : Bool) (l : List IpPrefix) (blocks : All (IsBlock f) l)
    (disjoint : IsDisjoint l) (apart : Chain (Apart u) l) where
  maximal_of_host :
      (k : ℕ) (p : IpPrefix)
      → IsBlock f p
      → p.max + 1 ≡ p.min + 2 ^ k
      → IsCovered l p
      → holds l p ≡ true
  maximal_of_host zero p block e covered =
      let one : p.min ≡ p.max = omega arith in holds-single l p one ∙ covered p.min (ground arith)
  maximal_of_host (suc k) p block size covered =
      let e : block.host ≡ suc k =
        same_exponent block.host (suc k) (omega (arith, block.max_end)) in
      let left = half f p block k e p.min in
      let right = half f p block k e (middle f p block k e) in
      let left_block = left-IsBlock f p block k e in
      let right_block = right-IsBlock f p block k e in
      let ends = doubled f p block k e in
      let some_pos = pow_pos k in
      let held =
        maximal_of_host k left left_block (omega arith) (λ x t. covered x (ground arith)) in
      let held' =
        maximal_of_host k right right_block (omega arith) (λ x t. covered x (ground arith)) in
      holds_both u f p block left right left_block right_block refl (omega arith) (omega arith) l 0
        blocks disjoint apart held held'

  -- Disjoint blocks in ascending order of which no neighbours can be joined: every block that they
  -- cover lies in one of them.
  pub IsMaximal-of_Apart : IsMaximal f l
  unfolding IsMaximal
  IsMaximal-of_Apart p block covered = maximal_of_host block.host p block block.max_end covered

-- Where aggregation of a sorted list of blocks ends without an error, every block that the result
-- covers lies in one of its prefixes.
pub aggregate_prefixes-IsMaximal :
    (u : Uint256) (f : Bool) (l : List IpPrefix)
    → All (IsBlock f) l
    → IsSorted l
    → (aggregate_prefixes u l).1 ≡ none
    → IsMaximal f (aggregate_prefixes u l).0
aggregate_prefixes-IsMaximal u f l blocks sorted fine =
    let (disjoint, apart) = aggregate_prefixes-IsDisjoint u f l blocks sorted fine in
    IsMaximal-of_Apart u f (aggregate_prefixes u l).0 (aggregate_prefixes-IsBlock u f l blocks)
      disjoint apart
