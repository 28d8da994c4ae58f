-- ===== src/Exclusion/Optimal.antt =====
-- `createOptimalPrefixes`: the cover of a range by CIDR blocks.
use netjugo.Prelude.{
  ℕ, zero, suc, ◌+◌, ◌-◌, ◌*◌, ◌%◌, ◌^◌, ap, ◌∙◌, ◌≤◌, ◌<◌, ◌≡◌, arith, Bool, true, false, ◌&&◌,
  List, [], ◌∷◌, All, leb, Bool-cases, inl, inr,
}
use netjugo.Errors.{Result, ok}
use netjugo.Uint256.{Uint256, le_zero, ge_zero}
use netjugo.IpPrefix.{IpPrefix, IsBlock, width, covers, DisjointFrom}
use netjugo.Exclusion.{optimal_loop, create_optimal_prefixes, find_largest_valid_prefix}
use netjugo.Exclusion.Largest.{find_largest_valid_prefix-IsBlock, find_largest_valid_prefix_lem}
use netjugo.Algorithms.Join.{ordered_of}
use netjugo.Algorithms.Nested.{nested}
use netjugo.Maximal.{holds}
use native.Mathlib.Nat.{mul-mod_left}

-- A call returns CIDR blocks in ascending order, from `lo` to `hi`, none of which meet, that have
-- exactly the addresses of `wanted`, and every block of `parts` lies in one of them.
pub record IsCover (f : Bool) (lo hi : ℕ) (wanted : ℕ → Bool) (parts : IpPrefix → Bool)
    (r : Result (List IpPrefix)) : Type 0 where
  pub prefixes : List IpPrefix
  pub returned : r ≡ ok prefixes
  pub blocks : All (IsBlock f) prefixes
  pub disjoint : DisjointFrom lo prefixes
  pub ends : All (λ p. p.max ≤ hi) prefixes
  pub exact : (x : ℕ) → covers prefixes x ≡ wanted x
  pub complete : (b : IpPrefix) → IsBlock f b → parts b ≡ true → holds prefixes b ≡ true

-- The addresses from `lo` to `hi`.
abbrev pub span : ℕ → ℕ → ℕ → Bool
span lo hi x = leb lo x && leb x hi

-- The blocks that lie between them.
abbrev pub within : ℕ → ℕ → IpPrefix → Bool
within lo hi b = leb lo b.min && leb b.max hi

module _ (u : Uint256) (f : Bool) (hi : ℕ) (bounded : hi < 2 ^ width f) where
  below_int : hi < 2 ^ 128
  below_int = by_family f bounded
    where
      by_family : (g : Bool) → hi < 2 ^ width g → hi < 2 ^ 128
      by_family true lt = omega arith
      by_family false lt = lt

  module _ (left lo : ℕ) (p : IpPrefix) (more : le_zero (u.cmp lo hi) ≡ true)
      (found : find_largest_valid_prefix u lo hi f ≡ ok (p, p.max)) where
    loop_last : ge_zero (u.cmp p.max hi) ≡ true → optimal_loop u (suc left) lo hi f ≡ ok (p ∷ [])
    unfolding optimal_loop
    loop_last last = rw (more, optimal_loop, found, last)

    loop_more :
        {l : List IpPrefix}
        → ge_zero (u.cmp p.max hi) ≡ false
        → u.add p.max 1 ≡ p.max + 1
        → optimal_loop u left (p.max + 1) hi f ≡ ok l
        → optimal_loop u (suc left) lo hi f ≡ ok (p ∷ l)
    unfolding optimal_loop
    loop_more behind next rest = rw (more, optimal_loop, found, behind, next, rest)

  -- A block that begins in the block that is found lies in it.
  first_piece :
      (lo : ℕ)
      → lo ≤ hi
      → (p : IpPrefix) (end : ℕ) → find_largest_valid_prefix u lo hi f ≡ ok (p, end)
      → IsBlock f p
      → p.min ≡ lo
      → (b : IpPrefix) → IsBlock f b
      → lo ≤ b.min
      → b.max ≤ hi
      → b.min ≤ p.max
      → b.max ≤ p.max
  first_piece lo ordered p end found block from b h low high meets =
      let order = ordered_of f b h in
      elim (nested f p b block h (omega arith) (omega arith)) [
        | inl inner ↦ omega arith
        | inr outer ↦
            let first : lo ≡ h.block * 2 ^ h.host = omega (arith, h.min_aligned) in
            let aligned : lo % 2 ^ h.host ≡ 0 =
              ap (λ n. n % 2 ^ h.host) first ∙ mul-mod_left h.block (2 ^ h.host) in
            let size : lo + (2 ^ h.host - 1) ≡ b.max = omega (arith, h.max_end) in
            omega (
              arith,
              size,
              find_largest_valid_prefix_lem u f lo hi ordered bounded h.host p end h.host_fits
                  aligned (omega arith) found,
            )
      ]

  optimal_loop_lem :
      (left lo : ℕ)
      → lo ≤ hi
      → hi < left + lo
      → IsCover f lo hi (span lo hi) (within lo hi) (optimal_loop u left lo hi f)
  optimal_loop_lem zero lo ordered enough = absurd (omega arith)
  optimal_loop_lem (suc left) lo ordered enough =
      let (p, found, block, from, to) =
        find_largest_valid_prefix-IsBlock u f lo hi ordered bounded in
      let more : le_zero (u.cmp lo hi) ≡ true = ground (arith, u.cmp_lem lo hi) in
      let next : u.add p.max 1 ≡ p.max + 1 = add_one p.max to in
      elim (Bool-cases (ge_zero (u.cmp p.max hi))) [
        | inl last ↦ record {
          prefixes = p ∷ [];
          returned = loop_last left lo p more found last;
          blocks = (block, tt);
          disjoint = (omega arith, tt);
          ends = (to, tt);
          exact = λ x. ground (arith, u.cmp_lem p.max hi);
          complete = λ b h t. ground (arith, u.cmp_lem p.max hi);
        }
        | inr behind ↦
            let before : p.max < hi = ground (arith, u.cmp_lem p.max hi) in
            let rest = optimal_loop_lem left (p.max + 1) (omega arith) (omega arith) in
            record {
              prefixes = p ∷ rest.prefixes;
              returned = loop_more left lo p more found behind next rest.returned;
              blocks = (block, rest.blocks);
              disjoint = (omega arith, rest.disjoint);
              ends = (to, rest.ends);
              exact = λ x. ground (arith, rest.exact x);
              complete = λ b h t.
                  ground
                    (arith, rest.complete b h, first_piece lo ordered p p.max found block from b h);
            }
      ]
    where
      add_one : (n : ℕ) → n ≤ hi → u.add n 1 ≡ n + 1
      add_one n le = omega (arith, u.add_lem n 1, below_int)

  -- For a range that is not empty and lies within the family, the call returns disjoint blocks in
  -- ascending order that have exactly the addresses of the range, and every CIDR block that lies
  -- in the range lies in one of them.
  pub create_optimal_prefixes-IsCover :
      (lo : ℕ)
      → lo ≤ hi
      → IsCover f lo hi (span lo hi) (within lo hi) (create_optimal_prefixes u lo hi f)
  unfolding create_optimal_prefixes
  create_optimal_prefixes-IsCover lo ordered =
      optimal_loop_lem (hi + 1 - lo) lo ordered (omega arith)
