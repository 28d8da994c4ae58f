-- ===== src/Optimize/Family.antt =====
-- The steps of `Aggregate` on the list of one family.
use netjugo.Prelude.{
  keep, ℕ, zero, suc, ◌≤◌, ◌<◌, ◌≡◌, refl, sym, ap, subst, ◌∙◌, arith, Bool, true, false, ◌&&◌, not,
  List, [], ◌∷◌, none, length, All, pos,
}
use netjugo.Errors.{ok}
use netjugo.Uint256.{Uint256}
use netjugo.IpPrefix.{IpPrefix, IsBlock, width, covers, IsDisjoint}
use netjugo.Sorting.{SortSlice}
use netjugo.Algorithms.{
  max_iterations, sort_and_deduplicate, aggregate_prefixes, enforce_min_prefix_length,
}
use netjugo.Algorithms.Dedup.{
  sort_and_deduplicate-covers, sort_and_deduplicate-All, sort_and_deduplicate-SortedFrom,
  length-sort_and_deduplicate,
}
use netjugo.Algorithms.Aggregate.{
  aggregate_prefixes-covers, aggregate_prefixes_converges, aggregate_prefixes-IsBlock,
  aggregate_prefixes-IsDisjoint,
}
use netjugo.Algorithms.RoundUp.{
  AllRounded, enforce_min_prefix_length-AllRounded, enforce_min_prefix_length_unset,
}
use netjugo.Exclusion.{process_exclusions_new}
use netjugo.Exclusion.Loop.{
  is_long, process_exclusions_new-warned, IsExclusion, process_exclusions_new-AllExcluded,
  process_exclusions_new-IsMaximal,
}
use netjugo.Maximal.{IsMaximal, IsMaximal-same}
use netjugo.Algorithms.Held.{sort_and_deduplicate-holds}
use netjugo.Algorithms.Maximal.{aggregate_prefixes-IsMaximal}
use netjugo.Algorithms.Disjoint.{sort_and_deduplicate-IsDisjoint}

-- The prefixes as they are where no minimum length is set, and else a block around each of them
-- that is not longer than the minimum.
abbrev pub IsRoundedTo : Bool → ℕ → List IpPrefix → List IpPrefix → Type 0
IsRoundedTo f zero l m = m ≡ l
IsRoundedTo f (suc n) l m = AllRounded f (suc n) l m

-- What a family's list becomes: disjoint blocks in ascending order that cover exactly what the
-- rounded prefixes cover and no exclusion does; every block that it covers lies in one of them.
pub record IsOptimized (f : Bool) (n : ℕ) (l es out : List IpPrefix) : Type 0 where
  pub rounded : List IpPrefix
  pub around : IsRoundedTo f n l rounded
  pub blocks : All (IsBlock f) out
  pub disjoint : IsDisjoint out
  pub exact : (x : ℕ) → covers out x ≡ (covers rounded x && not (covers es x))
  pub maximal : IsMaximal f out

pub ok_injective : {p q : IpPrefix} → ok p ≡ ok q → p ≡ q
ok_injective e = cc

AllRounded-IsBlock :
    (f : Bool) (n : ℕ) (l m : List IpPrefix)
    → AllRounded f n l m
    → All (IsBlock f) m × (length m ≡ length l)
AllRounded-IsBlock f n [] [] h = (tt, refl)
AllRounded-IsBlock f n [] (q ∷ m) h = absurd h
AllRounded-IsBlock f n (p ∷ l) [] h = absurd h
AllRounded-IsBlock f n (p ∷ l) (q ∷ m) (one, h) =
    let (blocks, same) = AllRounded-IsBlock f n l m h in
    ((subst (IsBlock f) (sym (ok_injective one.returned)) one.block, blocks), omega (arith, same))

AllRounded-covers :
    (f : Bool) (n : ℕ) (l m : List IpPrefix) (x : ℕ)
    → AllRounded f n l m
    → covers l x ≡ true
    → covers m x ≡ true
AllRounded-covers f n [] [] x h e = e
AllRounded-covers f n [] (q ∷ m) x h e = absurd h
AllRounded-covers f n (p ∷ l) [] x h e = absurd h
AllRounded-covers f n (p ∷ l) (q ∷ m) x (one, h) e =
    let same = ok_injective one.returned in
    let wide : (q.min ≤ p.min) × (p.max ≤ q.max) =
      subst (λ r. (r.min ≤ p.min) × (p.max ≤ r.max)) (sym same) (one.low, one.high) in
    ground (arith, AllRounded-covers f n l m x h, wide.0, wide.1)

IsRoundedTo-covers :
    (f : Bool) (n : ℕ) (l m : List IpPrefix) (x : ℕ)
    → IsRoundedTo f n l m
    → covers l x ≡ true
    → covers m x ≡ true
IsRoundedTo-covers f zero l m x h e = ap (λ k. covers k x) h ∙ e
IsRoundedTo-covers f (suc n) l m x h e = AllRounded-covers f (suc n) l m x h e

-- The addresses of an exclusion are gone, and the others that were there stay.
abbrev pub IsKept : List IpPrefix → List IpPrefix → List IpPrefix → ℕ → Type 0
IsKept l es out x =
    (covers es x ≡ true → covers out x ≡ false)
    × (covers es x ≡ false → covers l x ≡ true → covers out x ≡ true)

pub IsOptimized-IsKept :
    (f : Bool) (n : ℕ) (l es out : List IpPrefix) (x : ℕ)
    → IsOptimized f n l es out
    → IsKept l es out x
IsOptimized-IsKept f n l es out x o =
    let exact = o.exact x in
    (
      λ excluded. rw exact (rw excluded (and_false (covers o.rounded x))),
      λ free held. rw exact (rw (free, IsRoundedTo-covers f n l o.rounded x o.around held)),
    )
  where
    and_false : (b : Bool) → (b && false) ≡ false
    and_false b = ground arith

module _ (u : Uint256) (f : Bool) where
  pub enforce_lem :
      (n : ℕ) (l : List IpPrefix)
      → n ≤ width f
      → All (IsBlock f) l
      → (m : List IpPrefix) × (enforce_min_prefix_length u (pos n) l ≡ ok m)
        × IsRoundedTo f n l m
        × All (IsBlock f) m
        × (length m ≡ length l)
  enforce_lem zero l fits h = (l, enforce_min_prefix_length_unset u l, refl, h, refl)
  enforce_lem (suc n) l fits h =
      let (m, e, around) =
        enforce_min_prefix_length-AllRounded u f (suc n) fits l (omega arith) h in
      let (blocks, same) = AllRounded-IsBlock f (suc n) l m around in (m, e, around, blocks, same)

  module _ (s : SortSlice) where
    -- What is left of the rounded prefixes `m` when all steps are done.
    abbrev pub joined : List IpPrefix → List IpPrefix
    joined m = (aggregate_prefixes u (sort_and_deduplicate u s m)).0

    pub family_lem :
        (n : ℕ) (l m es : List IpPrefix)
        → IsRoundedTo f n l m
        → All (IsBlock f) m
        → length m < max_iterations
        → All (IsExclusion f) es
        → ((aggregate_prefixes u (sort_and_deduplicate u s m)).1 ≡ none)
          × ((process_exclusions_new u s f es (joined m) []).1 ≡ none)
          × ((process_exclusions_new u s f es (joined m) []).0.1 ≡ keep (is_long f) es)
          × IsOptimized f n l es
              (sort_and_deduplicate u s (process_exclusions_new u s f es (joined m) []).0.0)
    family_lem n l m es around blocks few exclusions =
        let d = sort_and_deduplicate u s m in
        let d_blocks = sort_and_deduplicate-All u s (IsBlock f) m blocks in
        let fine =
          aggregate_prefixes_converges u d (omega (arith, length-sort_and_deduplicate u s m)) in
        let sorted = sort_and_deduplicate-SortedFrom u s m in
        let (disjoint, _) = aggregate_prefixes-IsDisjoint u f d d_blocks sorted fine in
        let (done, left_blocks, left_disjoint, left_exact) =
          process_exclusions_new-AllExcluded u f s es (joined m) [] exclusions
            (aggregate_prefixes-IsBlock u f d d_blocks) disjoint in
        let left = (process_exclusions_new u s f es (joined m) []).0.0 in
        (
          fine,
          done,
          process_exclusions_new-warned u f s es (joined m) [] exclusions
              (aggregate_prefixes-IsBlock u f d d_blocks) disjoint,
          record {
            rounded = m;
            around = around;
            blocks = sort_and_deduplicate-All u s (IsBlock f) left left_blocks;
            disjoint = sort_and_deduplicate-IsDisjoint u s f left left_blocks left_disjoint;
            exact = λ x.
                sort_and_deduplicate-covers u s left x
                ∙ left_exact x
                ∙ ap (λ b. b && not (covers es x))
                    (aggregate_prefixes-covers u f d x d_blocks
                      ∙ sort_and_deduplicate-covers u s m x);
            maximal =
                IsMaximal-same f left (sort_and_deduplicate u s left)
                  (sort_and_deduplicate-covers u s left)
                  (λ b. sort_and_deduplicate-holds u b s left)
                  (process_exclusions_new-IsMaximal u f s es (joined m) [] exclusions
                    (aggregate_prefixes-IsBlock u f d d_blocks) disjoint
                    (aggregate_prefixes-IsMaximal u f d d_blocks sorted fine));
          },
        )
