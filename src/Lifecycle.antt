-- ===== src/Lifecycle.antt =====
-- `PrefixAggregator` over its life: the calls of its methods but `Reset`, one after the other.
pub mod Again
pub mod Written
use netjugo.Prelude.{
  arith, ap, ◌∙◌, ◌≤◌, ℕ, ◌+◌, ◌<◌, ◌≡◌, sym, subst, Bool, true, false, List, [], ◌∷◌, All,
  All-append, length, ℤ, pos, ltb_ℤ,
}
use netjugo.Text.{Text}
use netjugo.IpText.{IpText}
use netjugo.Uint256.{Uint256}
use netjugo.IpPrefix.{IpPrefix, IsBlock, width}
use netjugo.Sorting.{SortSlice}
use netjugo.Parse.Blocks.{IsRange, IsClean}
use netjugo.Algorithms.{max_iterations}
use netjugo.Exclusion.{min_exclusion_len}
use netjugo.Exclusion.Loop.{IsExclusion}
use netjugo.Aggregator.{
  Aggregator, new_prefix_aggregator, set_min_prefix_length, set_warning_handler,
  set_include_prefixes, set_exclude_prefixes, add_prefix, add_prefixes,
}
use netjugo.Aggregator.Valid.{
  IsValid, new_prefix_aggregator-IsValid, set_min_prefix_length-IsValid,
  set_include_prefixes-IsValid, set_exclude_prefixes-IsValid, add_prefix-IsValid,
  add_prefixes-IsValid, set_warning_handler-IsValid,
}
use netjugo.Reader.{Scanned, add_from_reader}
use netjugo.Reader.Lines.{IsCleanLine, add_from_reader-IsValid}
use netjugo.Optimize.{aggregate}
use netjugo.Optimize.Whole.{IsReady, IsAggregated, aggregate-IsAggregated}

-- Less prefixes of each family, with the inclusions, than the limit of the rounds.
pub record IsSmall (pa : Aggregator) : Type 0 where
  pub few_ipv4 : length pa.ipv4_prefixes + length pa.include_ipv4 < max_iterations
  pub few_ipv6 : length pa.ipv6_prefixes + length pa.include_ipv6 < max_iterations

-- No length is above the limit for exclusions, which is the width of the family.
not_too_long : (f : Bool) (n : ℕ) → n ≤ width f → ltb_ℤ (pos (min_exclusion_len f)) (pos n) ≡ false
not_too_long true n fits = ground arith
not_too_long false n fits = ground arith

exclusions : (f : Bool) (es : List IpPrefix) → All (IsRange f) es → All (IsExclusion f) es
exclusions f [] h = tt
exclusions f (e ∷ es) (range, h) =
    let (n, fits, same) = range.length in
    (
      (range.ordered, ap (ltb_ℤ (pos (min_exclusion_len f))) same ∙ not_too_long f n fits),
      exclusions f es h,
    )

pub IsReady-of_IsValid : (pa : Aggregator) → IsValid pa → IsSmall pa → IsReady pa
IsReady-of_IsValid pa v small = record {
  min_ipv4 = v.length_ipv4.0;
  min_ipv6 = v.length_ipv6.0;
  min_ipv4_fits = v.length_ipv4.1;
  min_ipv6_fits = v.length_ipv6.1;
  set_ipv4 = v.length_ipv4.2;
  set_ipv6 = v.length_ipv6.2;
  blocks_ipv4 = All-append (IsBlock true) pa.ipv4_prefixes pa.include_ipv4 v.main.0 v.included.0;
  blocks_ipv6 = All-append (IsBlock false) pa.ipv6_prefixes pa.include_ipv6 v.main.1 v.included.1;
  few_ipv4 = small.few_ipv4;
  few_ipv6 = small.few_ipv6;
  exclusions_ipv4 = exclusions true pa.exclude_ipv4 v.excluded.0;
  exclusions_ipv6 = exclusions false pa.exclude_ipv6 v.excluded.1;
}

module _ (u : Uint256) (s : SortSlice) where
  pub aggregate-IsValid :
      (elapsed : ℕ) (pa : Aggregator)
      → IsValid pa
      → IsSmall pa
      → IsValid (aggregate u s elapsed pa).0
  aggregate-IsValid elapsed pa v small =
      let all = aggregate-IsAggregated u s elapsed pa (IsReady-of_IsValid pa v small) in
      subst (λ r. IsValid r.0) (sym all.returned)
        (record {
          main = (all.optimized_ipv4.blocks, all.optimized_ipv6.blocks);
          included = v.included;
          excluded = v.excluded;
          length_ipv4 = v.length_ipv4;
          length_ipv6 = v.length_ipv6;
        })

  module _ (ip : IpText) where
    -- One call of a method that changes the state, with any error. Texts to add have host bits that
    -- the code clears; `Aggregate` is called where its bounds hold. `Reset` is no step: what it
    -- gives back to the pool can be in two lists, so that prefixes that are added after it are
    -- shared, and the lists by their values are not all of the state. Pool.antt has it.
    pub data Step (pa : Aggregator) : Aggregator → Type 0 where
      min_set : (n m : ℤ) → Step pa (set_min_prefix_length n m pa).0
      handler_set : (b : Bool) → Step pa (set_warning_handler b pa)
      include_set :
          (ts : List Text) → All (IsClean u ip) ts → Step pa (set_include_prefixes u ip ts pa).0
      exclude_set : (ts : List Text) → Step pa (set_exclude_prefixes u ip ts pa).0
      added : (t : Text) → IsClean u ip t → Step pa (add_prefix u ip t pa).0
      all_added : (ts : List Text) → All (IsClean u ip) ts → Step pa (add_prefixes u ip ts pa).0
      was_read :
          (reader : Scanned)
          → All (IsCleanLine u ip) reader.lines
          → Step pa (add_from_reader u ip reader pa).0
      aggregated : (elapsed : ℕ) → IsSmall pa → Step pa (aggregate u s elapsed pa).0

    Step-IsValid : {pa qa : Aggregator} → Step pa qa → IsValid pa → IsValid qa
    Step-IsValid {pa} (min_set n m) v = set_min_prefix_length-IsValid n m pa v
    Step-IsValid {pa} (handler_set b) v = set_warning_handler-IsValid b pa v
    Step-IsValid {pa} (include_set ts clean) v = set_include_prefixes-IsValid u ip ts pa clean v
    Step-IsValid {pa} (exclude_set ts) v = set_exclude_prefixes-IsValid u ip ts pa v
    Step-IsValid {pa} (added t clean) v = add_prefix-IsValid u ip t pa clean v
    Step-IsValid {pa} (all_added ts clean) v = add_prefixes-IsValid u ip ts pa clean v
    Step-IsValid {pa} (was_read reader clean) v = add_from_reader-IsValid u ip reader pa clean v
    Step-IsValid {pa} (aggregated elapsed small) v = aggregate-IsValid elapsed pa v small

    -- The states that an aggregator comes to in a program that has not called `Reset`. Then the pool
    -- was given nothing back, every pointer that it gives is new, and no listed prefix is written to.
    pub data Reached : Aggregator → Type 0 where
      made : Reached new_prefix_aggregator
      later : {pa qa : Aggregator} → Reached pa → Step pa qa → Reached qa

    -- In every state that an aggregator comes to by calls of its methods in a program that does
    -- not call `Reset`, with errors or not, the lists hold CIDR blocks of their family, the
    -- exclusions are ranges of theirs, and the minimum lengths are in range. It is assumed of the
    -- calls that IPv6 texts to add have no host bits that the code keeps, and of calls of
    -- `Aggregate` that there are less than 5000 prefixes and inclusions of each family.
    pub Reached-IsValid : {pa : Aggregator} → Reached pa → IsValid pa
    Reached-IsValid made = new_prefix_aggregator-IsValid
    Reached-IsValid (later before step) = Step-IsValid step (Reached-IsValid before)

    -- In every state that an aggregator comes to by calls of its methods in a program that does
    -- not call `Reset`, with less than 5000 prefixes and inclusions of each family, `Aggregate`
    -- ends without an error, with disjoint blocks that cover exactly the rounded prefixes and
    -- inclusions less the exclusions, and of which each CIDR block that they cover lies in one. It
    -- is assumed of the calls that IPv6 texts to add have no host bits that the code keeps, and of
    -- earlier calls of `Aggregate` that the bound held.
    pub Reached-IsAggregated :
        {pa : Aggregator} (elapsed : ℕ)
        → Reached pa
        → IsSmall pa
        → (n4 : ℕ) × (n6 : ℕ) × (pa.min_prefix_len_ipv4 ≡ pos n4)
          × (pa.min_prefix_len_ipv6 ≡ pos n6)
          × IsAggregated elapsed n4 n6 pa (aggregate u s elapsed pa)
    Reached-IsAggregated {pa} elapsed reached small =
        let ready = IsReady-of_IsValid pa (Reached-IsValid reached) small in
        (
          ready.min_ipv4,
          ready.min_ipv6,
          ready.set_ipv4,
          ready.set_ipv6,
          aggregate-IsAggregated u s elapsed pa ready,
        )
