-- ===== src/Optimize/Best.antt =====
-- The lists that `Aggregate` ends with are the shortest, and depend on the addresses alone.
use netjugo.Prelude.{
  ℕ, ◌≤◌, ◌≡◌, sym, subst, ◌∙◌, arith, Bool, true, false, List, ◌++◌, length, All, ℤ, pos,
}
use netjugo.Uint256.{Uint256}
use netjugo.IpPrefix.{IpPrefix, IsBlock, covers}
use netjugo.Sorting.{SortSlice}
use netjugo.Maximal.Fewest.{fewest}
use netjugo.Maximal.Unique.{ranges, unique}
use netjugo.Aggregator.{Aggregator}
use netjugo.Optimize.{aggregate}
use netjugo.Optimize.Cells.{rounded-Near, Near-rounded}
use netjugo.Optimize.Family.{IsOptimized}
use netjugo.Optimize.Whole.{IsReady, aggregate-IsAggregated}

-- The lists of a family.
abbrev pub list_of : Bool → Aggregator → List IpPrefix
list_of true pa = pa.ipv4_prefixes
list_of false pa = pa.ipv6_prefixes

abbrev pub included_of : Bool → Aggregator → List IpPrefix
included_of true pa = pa.include_ipv4
included_of false pa = pa.include_ipv6

abbrev pub wanted_of : Bool → Aggregator → List IpPrefix
wanted_of f pa = list_of f pa ++ included_of f pa

abbrev pub excluded_of : Bool → Aggregator → List IpPrefix
excluded_of true pa = pa.exclude_ipv4
excluded_of false pa = pa.exclude_ipv6

abbrev pub min_length_of : Bool → Aggregator → ℤ
min_length_of true pa = pa.min_prefix_len_ipv4
min_length_of false pa = pa.min_prefix_len_ipv6

-- Two lists that cover the same addresses.
abbrev pub AreAlike : List IpPrefix → List IpPrefix → Type 0
AreAlike l m = (x : ℕ) → covers l x ≡ covers m x

abbrev pub number_of :
    (f : Bool) (pa : Aggregator) → IsReady pa → (n : ℕ) × (min_length_of f pa ≡ pos n)
number_of true pa ready = (ready.min_ipv4, ready.set_ipv4)
number_of false pa ready = (ready.min_ipv6, ready.set_ipv6)

pub wanted-IsBlock : (f : Bool) (pa : Aggregator) → IsReady pa → All (IsBlock f) (wanted_of f pa)
wanted-IsBlock true pa ready = ready.blocks_ipv4
wanted-IsBlock false pa ready = ready.blocks_ipv6

pub both_ways : (b c : Bool) → (b ≡ true → c ≡ true) → (c ≡ true → b ≡ true) → b ≡ c
both_ways b c there back = ground (arith, there, back)

module _ (f : Bool) (n : ℕ) (l l' es es' out out' : List IpPrefix) (h : All (IsBlock f) l)
    (h' : All (IsBlock f) l') (o : IsOptimized f n l es out) (o' : IsOptimized f n l' es' out')
    (same : AreAlike l l') (same_excluded : AreAlike es es') where
  same_rounded : AreAlike o.rounded o'.rounded
  same_rounded x =
      both_ways (covers o.rounded x) (covers o'.rounded x)
        (λ e.
          let (y, held, near) = rounded-Near f n l o.rounded x h o.around e in
          Near-rounded f n l' o'.rounded x y h' o'.around (sym (same y) ∙ held) near)
        (λ e.
          let (y, held, near) = rounded-Near f n l' o'.rounded x h' o'.around e in
          Near-rounded f n l o.rounded x y h o.around (same y ∙ held) near)

  pub optimized_unique : ranges out ≡ ranges out'
  optimized_unique =
      unique f out out' o.blocks o'.blocks o.disjoint o'.disjoint o.maximal o'.maximal
        (λ x. ground (arith, o.exact x, o'.exact x, same_rounded x, same_excluded x))

pub pos_injective : {a b : ℕ} → pos a ≡ pos b → a ≡ b
pos_injective e = cc

module _ (u : Uint256) (s : SortSlice) (elapsed : ℕ) (pa : Aggregator) where
  pub aggregated-IsOptimized :
      (f : Bool) (ready : IsReady pa)
      → IsOptimized f
          (number_of f pa ready).0
          (wanted_of f pa)
          (excluded_of f pa)
          (list_of f (aggregate u s elapsed pa).0)
  aggregated-IsOptimized true ready =
      let all = aggregate-IsAggregated u s elapsed pa ready in
      subst
        (λ r. IsOptimized true ready.min_ipv4 (wanted_of true pa) pa.exclude_ipv4 r.0.ipv4_prefixes)
        (sym all.returned) all.optimized_ipv4
  aggregated-IsOptimized false ready =
      let all = aggregate-IsAggregated u s elapsed pa ready in
      subst
        (λ r.
          IsOptimized false ready.min_ipv6 (wanted_of false pa) pa.exclude_ipv6 r.0.ipv6_prefixes)
        (sym all.returned) all.optimized_ipv6

  -- `Aggregate` ends with the shortest lists: where the state has CIDR blocks of each family, less
  -- than 5000 in each with the inclusions, minimum lengths in range and exclusions that are not
  -- empty or too long, no list of CIDR blocks of a family that covers the same addresses as the
  -- list of that family after the call is shorter than it.
  pub aggregate_fewest :
      (f : Bool) (m : List IpPrefix)
      → IsReady pa
      → All (IsBlock f) m
      → AreAlike m (list_of f (aggregate u s elapsed pa).0)
      → length (list_of f (aggregate u s elapsed pa).0) ≤ length m
  aggregate_fewest f m ready blocks same =
      let o = aggregated-IsOptimized f ready in
      fewest f (list_of f (aggregate u s elapsed pa).0) m o.blocks o.disjoint o.maximal blocks same

-- What `Aggregate` ends with depends on the addresses alone: for two states with CIDR blocks of
-- each family, less than 5000 in each with the inclusions, minimum lengths in range and exclusions
-- that are not empty or too long, the lists of a family have the same ranges in the same order
-- after a call on each, whatever `sort.Slice` either call uses, if the prefixes with the
-- inclusions of that family cover the same addresses, so do its exclusions, and its minimum length
-- is the same.
pub aggregate_unique :
    (u : Uint256) (s t : SortSlice) (elapsed elapsed' : ℕ) (f : Bool) (pa qa : Aggregator)
    → IsReady pa
    → IsReady qa
    → min_length_of f pa ≡ min_length_of f qa
    → AreAlike (wanted_of f pa) (wanted_of f qa)
    → AreAlike (excluded_of f pa) (excluded_of f qa)
    → ranges (list_of f (aggregate u s elapsed pa).0)
      ≡ ranges (list_of f (aggregate u t elapsed' qa).0)
aggregate_unique u s t elapsed elapsed' f pa qa ready ready' lengths same same_excluded =
    let n = number_of f pa ready in
    let n' = number_of f qa ready' in
    let equal : n'.0 ≡ n.0 = pos_injective (sym n'.1 ∙ sym lengths ∙ n.1) in
    let out = list_of f (aggregate u s elapsed pa).0 in
    let out' = list_of f (aggregate u t elapsed' qa).0 in
    optimized_unique f n.0 (wanted_of f pa) (wanted_of f qa) (excluded_of f pa) (excluded_of f qa)
      out out' (wanted-IsBlock f pa ready) (wanted-IsBlock f qa ready')
      (aggregated-IsOptimized u s elapsed pa f ready)
      (subst (λ k. IsOptimized f k (wanted_of f qa) (excluded_of f qa) out') equal
        (aggregated-IsOptimized u t elapsed' qa f ready'))
      same same_excluded
