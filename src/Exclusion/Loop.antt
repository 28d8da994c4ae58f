-- ===== src/Exclusion/Loop.antt =====
-- All the exclusions of a family, one after the other.
use mathlib.Core.List.{append_assoc, append-nil}
use netjugo.Prelude.{
  true, ap, ◌∙◌, keep, ℕ, ◌≤◌, ◌≡◌, refl, sym, subst, arith, Bool, false, ◌&&◌, not, List, [], ◌∷◌,
  ◌++◌, none, Option, All, if◌then◌else◌, pos, ltb_ℤ,
}
use netjugo.Errors.{Result, ok, Error}
use netjugo.Uint256.{Uint256}
use netjugo.IpPrefix.{IpPrefix, IsBlock, inside, covers, IsDisjoint}
use netjugo.Sorting.{SortSlice}
use netjugo.Exclusion.{
  apply_exclusion, process_exclusions_new, min_exclusion_len, recommended_min_exclusion,
}
use netjugo.Exclusion.Excluded.{IsExcluded, apply_exclusion-IsExcluded}
use netjugo.Exclusion.Cut.{spared}
use netjugo.Algorithms.Join.{ordered_of}
use netjugo.Maximal.{IsMaximal}
use native.Mathlib.Decide.{dec_le}

-- An exclusion that is not empty, and whose length is not refused.
abbrev pub IsExclusion : Bool → IpPrefix → Type 0
IsExclusion f e = (e.min ≤ e.max) × (ltb_ℤ (pos (min_exclusion_len f)) e.prefix.bits ≡ false)

-- There is no error, and what is left of `l` after all the exclusions is disjoint blocks.
abbrev pub AllExcluded :
    Bool → List IpPrefix → List IpPrefix → (List IpPrefix × List IpPrefix) × Option Error → Type 0
AllExcluded f es l r =
    (r.1 ≡ none)
    × All (IsBlock f) r.0.0
    × IsDisjoint r.0.0
    × ((x : ℕ) → covers r.0.0 x ≡ (covers l x && not (covers es x)))

-- An exclusion that is longer than recommended.
abbrev pub is_long : Bool → IpPrefix → Bool
is_long f e = ltb_ℤ (pos (recommended_min_exclusion f)) e.prefix.bits

module _ (u : Uint256) (f : Bool) (s : SortSlice) where
  abbrev warned : IpPrefix → List IpPrefix → List IpPrefix
  warned e w = if ltb_ℤ (pos (recommended_min_exclusion f)) e.prefix.bits then w ++ (e ∷ []) else w

  one_exclusion :
      (e : IpPrefix) (es l w r : List IpPrefix)
      → ltb_ℤ (pos (min_exclusion_len f)) e.prefix.bits ≡ false
      → apply_exclusion u s f e l ≡ ok r
      → process_exclusions_new u s f (e ∷ es) l w ≡ process_exclusions_new u s f es r (warned e w)
  unfolding process_exclusions_new
  one_exclusion e es l w r short applied = rw (short, process_exclusions_new, applied)

  -- On disjoint blocks of a family in ascending order, and exclusions that are not empty and not
  -- longer than the family's limit, the loop over the exclusions ends without an error, and leaves
  -- disjoint blocks in ascending order that cover exactly the addresses of the list that no
  -- exclusion covers.
  pub process_exclusions_new-AllExcluded :
      (es l w : List IpPrefix)
      → All (IsExclusion f) es
      → All (IsBlock f) l
      → IsDisjoint l
      → AllExcluded f es l (process_exclusions_new u s f es l w)
  unfolding process_exclusions_new
  process_exclusions_new-AllExcluded [] l w h blocks disjoint =
      (refl, blocks, disjoint, λ x. ground arith)
  process_exclusions_new-AllExcluded (e ∷ es) l w ((ordered, short), h) blocks disjoint =
      let one = apply_exclusion-IsExcluded u f s e ordered l blocks disjoint in
      let (fine, all, apart, exact) =
        process_exclusions_new-AllExcluded es one.prefixes (warned e w) h one.blocks one.disjoint in
      let first = one_exclusion e es l w one.prefixes short one.returned in
      subst (AllExcluded f (e ∷ es) l) (sym first)
        (fine, all, apart, λ x. ground (arith, exact x, one.exact x))

  warned_lem :
      (e : IpPrefix) (w k : List IpPrefix)
      → warned e w ++ k ≡ w ++ (if is_long f e then e ∷ k else k)
  warned_lem e w k = by_test (is_long f e)
    where
      by_test : (b : Bool) → (if b then w ++ (e ∷ []) else w) ++ k ≡ w ++ (if b then e ∷ k else k)
      by_test true = append_assoc w (e ∷ []) k
      by_test false = refl

  -- The warnings are about the exclusions that are longer than recommended, in their order.
  pub process_exclusions_new-warned :
      (es l w : List IpPrefix)
      → All (IsExclusion f) es
      → All (IsBlock f) l
      → IsDisjoint l
      → (process_exclusions_new u s f es l w).0.1 ≡ w ++ keep (is_long f) es
  unfolding process_exclusions_new
  process_exclusions_new-warned [] l w h blocks disjoint = sym (append-nil w)
  process_exclusions_new-warned (e ∷ es) l w ((ordered, short), h) blocks disjoint =
      let one = apply_exclusion-IsExcluded u f s e ordered l blocks disjoint in
      ap (λ r. r.0.1) (one_exclusion e es l w one.prefixes short one.returned)
      ∙ process_exclusions_new-warned es one.prefixes (warned e w) h one.blocks one.disjoint
      ∙ warned_lem e w (keep (is_long f) es)

  -- A block without an address of an exclusion does not meet it.
  spared_lem :
      (e b : IpPrefix)
      → e.min ≤ e.max
      → IsBlock f b
      → ((x : ℕ) → inside b x ≡ true → inside e x ≡ false)
      → spared e b ≡ true
  spared_lem e b ordered h away =
      let order = ordered_of f b h in
      elim (dec_le b.min e.min) [
        | yes le ↦ ground (arith, away e.min)
        | no gt ↦ ground (arith, away b.min)
      ]

  IsMaximal-IsExcluded :
      (e : IpPrefix) (l : List IpPrefix) {r : Result (List IpPrefix)} (one : IsExcluded f e l r)
      → e.min ≤ e.max
      → IsMaximal f l
      → IsMaximal f one.prefixes
  unfolding IsMaximal
  IsMaximal-IsExcluded e l one ordered maximal b h covered =
      let held = maximal b h (λ x t. ground (arith, one.exact x, covered x t)) in
      one.complete b h held
        (spared_lem e b ordered h (λ x t. ground (arith, one.exact x, covered x t)))

  -- Where every block that the list covers lies in one of its prefixes, so it is after the loop over
  -- the exclusions.
  pub process_exclusions_new-IsMaximal :
      (es l w : List IpPrefix)
      → All (IsExclusion f) es
      → All (IsBlock f) l
      → IsDisjoint l
      → IsMaximal f l
      → IsMaximal f (process_exclusions_new u s f es l w).0.0
  unfolding process_exclusions_new
  process_exclusions_new-IsMaximal [] l w h blocks disjoint maximal = maximal
  process_exclusions_new-IsMaximal (e ∷ es) l w ((ordered, short), h) blocks disjoint maximal =
      let one = apply_exclusion-IsExcluded u f s e ordered l blocks disjoint in
      let first = one_exclusion e es l w one.prefixes short one.returned in
      subst (λ r. IsMaximal f r.0.0) (sym first)
        (process_exclusions_new-IsMaximal es one.prefixes (warned e w) h one.blocks one.disjoint
          (IsMaximal-IsExcluded e l one ordered maximal))
