-- ===== src/Lifecycle/Again.antt =====
-- A second call of `Aggregate` on the state that the first one left.
use netjugo.Prelude.{ℕ, ◌≡◌, sym, subst, ap, ◌∙◌, arith, Bool, true, false, List, ◌++◌, All}
use netjugo.IpText.{IpText}
use netjugo.Uint256.{Uint256}
use netjugo.IpPrefix.{IpPrefix, IsBlock, covers, covers-append}
use netjugo.Sorting.{SortSlice}
use netjugo.Maximal.Unique.{ranges, unique}
use netjugo.Aggregator.{Aggregator}
use netjugo.Optimize.{aggregate}
use netjugo.Optimize.Cells.{Near-self, Near-trans, rounded-Near, Near-rounded}
use netjugo.Optimize.Family.{IsOptimized}
use netjugo.Optimize.Whole.{IsReady, aggregate-IsAggregated}
use netjugo.Optimize.Best.{
  list_of, included_of, wanted_of, excluded_of, min_length_of, number_of, pos_injective,
  wanted-IsBlock, aggregated-IsOptimized,
}
use netjugo.Lifecycle.{IsSmall, Reached, Reached-IsValid, aggregate-IsValid, IsReady-of_IsValid}

-- The inclusions that a call adds once more.
module _ (f : Bool) (n : ℕ) (l out included es out' : List IpPrefix) (h : All (IsBlock f) l)
    (h' : All (IsBlock f) (out ++ included)) (o : IsOptimized f n l es out)
    (o' : IsOptimized f n (out ++ included) es out')
    (part : (x : ℕ) → covers included x ≡ true → covers l x ≡ true) where
  -- What is rounded again was rounded before.
  rounded_before : (x : ℕ) → covers o'.rounded x ≡ true → covers o.rounded x ≡ true
  rounded_before x e =
      let (y, held, near) = rounded-Near f n (out ++ included) o'.rounded x h' o'.around e in
      let there : covers o.rounded y ≡ true = ground (
        arith,
        covers-append out included y,
        o.exact y,
        part y,
        λ (t : covers l y ≡ true). Near-rounded f n l o.rounded y y h o.around t (Near-self f n y),
      ) in
      let (z, held', near') = rounded-Near f n l o.rounded y h o.around there in
      Near-rounded f n l o.rounded x z h o.around held' (Near-trans f n z y x near' near)

  kept_again : (x : ℕ) → covers out x ≡ true → covers o'.rounded x ≡ true
  kept_again x e =
      Near-rounded f n (out ++ included) o'.rounded x x h' o'.around
        (ground (arith, covers-append out included x)) (Near-self f n x)

  optimized_again : ranges out' ≡ ranges out
  optimized_again =
      unique f out' out o'.blocks o.blocks o'.disjoint o.disjoint o'.maximal o.maximal
        (λ x. ground (arith, o.exact x, o'.exact x, rounded_before x, kept_again x))

module _ (u : Uint256) (s : SortSlice) (elapsed : ℕ) (pa : Aggregator) (ready : IsReady pa) where
  -- What a call leaves as it is.
  pub same_settings :
      (f : Bool)
      → (included_of f (aggregate u s elapsed pa).0 ≡ included_of f pa)
        × (excluded_of f (aggregate u s elapsed pa).0 ≡ excluded_of f pa)
        × (min_length_of f (aggregate u s elapsed pa).0 ≡ min_length_of f pa)
  same_settings true =
      let all = aggregate-IsAggregated u s elapsed pa ready in
      let same = ap (λ r. r.0) all.returned in
      (ap (included_of true) same, ap (excluded_of true) same, ap (min_length_of true) same)
  same_settings false =
      let all = aggregate-IsAggregated u s elapsed pa ready in
      let same = ap (λ r. r.0) all.returned in
      (ap (included_of false) same, ap (excluded_of false) same, ap (min_length_of false) same)

  again :
      (f : Bool) (elapsed' : ℕ)
      → IsReady (aggregate u s elapsed pa).0
      → ranges (list_of f (aggregate u s elapsed' (aggregate u s elapsed pa).0).0)
        ≡ ranges (list_of f (aggregate u s elapsed pa).0)
  again f elapsed' ready' =
      let qa = (aggregate u s elapsed pa).0 in
      let (included, excluded, length) = same_settings f in
      let n = number_of f pa ready in
      let n' = number_of f qa ready' in
      let out = list_of f qa in
      let out' = list_of f (aggregate u s elapsed' qa).0 in
      let wanted : wanted_of f qa ≡ out ++ included_of f pa = ap (λ k. out ++ k) included in
      let first = aggregated-IsOptimized u s elapsed pa f ready in
      let second : IsOptimized f n.0 (out ++ included_of f pa) (excluded_of f pa) out' =
        subst (λ k. IsOptimized f k (out ++ included_of f pa) (excluded_of f pa) out')
          (pos_injective (sym n'.1 ∙ length ∙ n.1))
          (subst (λ k. IsOptimized f n'.0 (out ++ included_of f pa) k out') excluded
            (subst (λ k. IsOptimized f n'.0 k (excluded_of f qa) out') wanted
              (aggregated-IsOptimized u s elapsed' qa f ready'))) in
      optimized_again f n.0 (wanted_of f pa) out (included_of f pa) (excluded_of f pa) out'
        (wanted-IsBlock f pa ready) (subst (All (IsBlock f)) wanted (wanted-IsBlock f qa ready'))
        first second (λ x t. ground (arith, covers-append (list_of f pa) (included_of f pa) x))

module _ (u : Uint256) (s : SortSlice) (ip : IpText) where
  -- In every state that an aggregator comes to by calls of its methods in a program that does not
  -- call `Reset`, a second call of `Aggregate` right after a first one leaves the ranges of both
  -- lists as they are, though it adds the inclusions once more, if there are less than 5000
  -- prefixes and inclusions of each family before either call. It is assumed of the calls before
  -- that IPv6 texts to add have no host bits that the code keeps, and of earlier calls of
  -- `Aggregate` that the bound held.
  pub Reached-again :
      {pa : Aggregator} (elapsed elapsed' : ℕ) (f : Bool)
      → Reached u s ip pa
      → IsSmall pa
      → IsSmall (aggregate u s elapsed pa).0
      → ranges (list_of f (aggregate u s elapsed' (aggregate u s elapsed pa).0).0)
        ≡ ranges (list_of f (aggregate u s elapsed pa).0)
  Reached-again {pa} elapsed elapsed' f reached small small' =
      let valid = Reached-IsValid u s ip reached in
      again u s elapsed pa (IsReady-of_IsValid pa valid small) f elapsed' (
        IsReady-of_IsValid (aggregate u s elapsed pa).0
          (aggregate-IsValid u s elapsed pa valid small) small')
