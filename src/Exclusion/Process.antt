-- ===== src/Exclusion/Process.antt =====
-- `processExclusionNew`: what is left of the prefixes that an exclusion meets.
use netjugo.Prelude.{ℕ, ◌+◌, ◌≤◌, ◌&&◌, not, arith, Bool, List, [], ◌∷◌, All}
use netjugo.Uint256.{Uint256}
use netjugo.IpPrefix.{IpPrefix, IsBlock, inside, covers, DisjointFrom}
use netjugo.Exclusion.{process_exclusion_new}
use netjugo.Maximal.{holds}
use netjugo.Exclusion.Optimal.{IsCover}
use netjugo.Exclusion.Covers.{IsCover-none, IsCover-same, IsCover-append}
use netjugo.Exclusion.Cut.{spared, exclude_from-IsCover}

module _ (u : Uint256) (f : Bool) (e : IpPrefix) (ordered : e.min ≤ e.max) (hi : ℕ) where
  -- What is left of disjoint blocks.
  pub process_exclusion_new-IsCover :
      (l : List IpPrefix) (lo : ℕ)
      → All (IsBlock f) l
      → DisjointFrom lo l
      → All (λ p. p.max ≤ hi) l
      → IsCover f lo hi
          (λ x. covers l x && not (inside e x))
          (λ b. holds l b && spared e b)
          (process_exclusion_new u e l f)
  unfolding process_exclusion_new
  process_exclusion_new-IsCover [] lo blocks disjoint ends = IsCover-none
  process_exclusion_new-IsCover (o ∷ l) lo (block, blocks) (low, disjoint) (to, ends) =
      let first = exclude_from-IsCover u f o e block ordered in
      let rest = process_exclusion_new-IsCover l (o.max + 1) blocks disjoint ends in
      IsCover-same low (omega arith) (λ x. ground arith) (λ b h part. ground arith)
        (IsCover-append hi (omega arith) (omega arith) to first rest)
