-- ===== src/Optimize/Whole.antt =====
-- `Aggregate` as a whole: the state that it needs, and what it ends with.
use netjugo.Prelude.{
  keep, if◌then◌else◌, Bool, ℕ, ◌+◌, ◌≤◌, ◌<◌, ◌≡◌, refl, sym, subst, ap, ◌∙◌, arith, true, false,
  List, [], ◌++◌, none, length, length-append, All, pos,
}
use netjugo.Errors.{ok}
use netjugo.Uint256.{Uint256}
use netjugo.IpPrefix.{IpPrefix, IsBlock}
use netjugo.Sorting.{SortSlice}
use netjugo.Algorithms.{
  max_iterations, sort_and_deduplicate, aggregate_prefixes, enforce_min_prefix_length,
}
use netjugo.Exclusion.{process_exclusions_new}
use netjugo.Exclusion.Loop.{is_long, IsExclusion}
use netjugo.Aggregator.{Aggregator, Outcome, ◌then_try◌, Warning, clear_warnings}
use netjugo.Optimize.{
  process_inclusions, enforce_min_prefix_lengths, aggregate_ipv4, aggregate_ipv6,
  sort_and_deduplicate_ipv4, sort_and_deduplicate_ipv6, process_exclusions_ipv4,
  process_exclusions_ipv6, aggregate,
}
use netjugo.Optimize.Family.{
  IsOptimized, IsKept, IsOptimized-IsKept, enforce_lem, joined, family_lem,
}
use netjugo.Optimize.Steps.{
  noted, told, at, enforce_step, sort_ipv4_step, sort_ipv6_step, aggregate_ipv4_step,
  aggregate_ipv6_step, exclude_ipv4_step, exclude_ipv6_step,
}

-- A state that `Aggregate` can work on: CIDR blocks of each family, less than the limit of the
-- rounds, minimum lengths that the families have, and exclusions that are not too long.
pub record IsReady (pa : Aggregator) : Type 0 where
  pub min_ipv4 : ℕ
  pub min_ipv6 : ℕ
  pub min_ipv4_fits : min_ipv4 ≤ 32
  pub min_ipv6_fits : min_ipv6 ≤ 128
  pub set_ipv4 : pa.min_prefix_len_ipv4 ≡ pos min_ipv4
  pub set_ipv6 : pa.min_prefix_len_ipv6 ≡ pos min_ipv6
  pub blocks_ipv4 : All (IsBlock true) (pa.ipv4_prefixes ++ pa.include_ipv4)
  pub blocks_ipv6 : All (IsBlock false) (pa.ipv6_prefixes ++ pa.include_ipv6)
  pub few_ipv4 : length pa.ipv4_prefixes + length pa.include_ipv4 < max_iterations
  pub few_ipv6 : length pa.ipv6_prefixes + length pa.include_ipv6 < max_iterations
  pub exclusions_ipv4 : All (IsExclusion true) pa.exclude_ipv4
  pub exclusions_ipv6 : All (IsExclusion false) pa.exclude_ipv6

-- The warnings of a call: one for each exclusion that is longer than recommended, those for IPv4
-- first, behind what was there.
abbrev pub warnings_of : Aggregator → List Warning → List Warning
warnings_of pa w =
    noted false (keep (is_long false) pa.exclude_ipv6)
      (noted true (keep (is_long true) pa.exclude_ipv4) w)

-- What the handler got after a call, if it is set.
abbrev pub told_to : Aggregator → List Warning
told_to pa = if pa.has_handler then warnings_of pa pa.handled else pa.handled

-- What a call ends with that succeeds: the lists of both families, the time and the warnings are
-- new, all else is as it was.
pub record IsAggregated (elapsed n4 n6 : ℕ) (pa : Aggregator) (r : Outcome) : Type 0 where
  pub ipv4 : List IpPrefix
  pub ipv6 : List IpPrefix
  pub returned : r ≡ (
    record (at pa ipv4 ipv6 (warnings_of pa []) (told_to pa)) { last_process_time = elapsed },
    none,
  )
  pub optimized_ipv4 :
      IsOptimized true n4 (pa.ipv4_prefixes ++ pa.include_ipv4) pa.exclude_ipv4 ipv4
  pub optimized_ipv6 :
      IsOptimized false n6 (pa.ipv6_prefixes ++ pa.include_ipv6) pa.exclude_ipv6 ipv6

-- The next call where the one before succeeds.
next_step :
    {r out : Outcome} {pa : Aggregator} (next : Aggregator → Outcome)
    → r ≡ (pa, none)
    → next pa ≡ out
    → (r then_try next) ≡ out
next_step next e e' = ap (λ r. r then_try next) e ∙ e'

module _ (u : Uint256) (s : SortSlice) (elapsed : ℕ) (pa : Aggregator) where
  -- What is left of a family's rounded prefixes.
  abbrev left_ipv4 : List IpPrefix → List IpPrefix
  left_ipv4 m = (process_exclusions_new u s true pa.exclude_ipv4 (joined u true s m) []).0.0

  abbrev left_ipv6 : List IpPrefix → List IpPrefix
  left_ipv6 m = (process_exclusions_new u s false pa.exclude_ipv6 (joined u false s m) []).0.0

  abbrev done : List IpPrefix → List IpPrefix → List Warning → List Warning → Aggregator
  done m4 m6 w h =
      record (at pa (sort_and_deduplicate u s (left_ipv4 m4))
        (sort_and_deduplicate u s (left_ipv6 m6)) w h) { last_process_time = elapsed }

  -- The steps, where none of them fails.
  aggregate_steps :
      (m4 m6 : List IpPrefix)
      → enforce_min_prefix_length u pa.min_prefix_len_ipv4 (pa.ipv4_prefixes ++ pa.include_ipv4)
        ≡ ok m4
      → enforce_min_prefix_length u pa.min_prefix_len_ipv6 (pa.ipv6_prefixes ++ pa.include_ipv6)
        ≡ ok m6
      → (aggregate_prefixes u (sort_and_deduplicate u s m4)).1 ≡ none
      → (aggregate_prefixes u (sort_and_deduplicate u s m6)).1 ≡ none
      → (process_exclusions_new u s true pa.exclude_ipv4 (joined u true s m4) []).1 ≡ none
      → (process_exclusions_new u s false pa.exclude_ipv6 (joined u false s m6) []).1 ≡ none
      → (process_exclusions_new u s true pa.exclude_ipv4 (joined u true s m4) []).0.1
        ≡ keep (is_long true) pa.exclude_ipv4
      → (process_exclusions_new u s false pa.exclude_ipv6 (joined u false s m6) []).0.1
        ≡ keep (is_long false) pa.exclude_ipv6
      → aggregate u s elapsed pa ≡ (done m4 m6 (warnings_of pa []) (told_to pa), none)
  unfolding aggregate process_inclusions clear_warnings
  aggregate_steps m4 m6 e4 e6 fine4 fine6 done4 done6 long4 long6 =
      let l4 = pa.ipv4_prefixes ++ pa.include_ipv4 in
      let l6 = pa.ipv6_prefixes ++ pa.include_ipv6 in
      let d4 = sort_and_deduplicate u s m4 in
      let d6 = sort_and_deduplicate u s m6 in
      let a4 = joined u true s m4 in
      let a6 = joined u false s m6 in
      let h = pa.handled in
      let ws4 = keep (is_long true) pa.exclude_ipv4 in
      let ws6 = keep (is_long false) pa.exclude_ipv6 in
      let h1 = told pa true ws4 h in
      let w1 = noted true ws4 [] in
      let h2 = told pa false ws6 h1 in
      let w2 = noted false ws6 w1 in
      let cut4 = exclude_ipv4_step u s pa [] h a4 a6 ws4 done4 long4 in
      let cut6 = exclude_ipv6_step u s pa w1 h1 (left_ipv4 m4) a6 ws6 done6 long6 in
      next_step (λ last. (record last { last_process_time = elapsed }, none))
        (next_step (sort_and_deduplicate_ipv6 u s)
          (next_step (sort_and_deduplicate_ipv4 u s)
            (next_step (process_exclusions_ipv6 u s)
              (next_step (process_exclusions_ipv4 u s)
                (next_step (aggregate_ipv6 u)
                  (next_step (aggregate_ipv4 u)
                    (next_step (sort_and_deduplicate_ipv6 u s)
                      (next_step (sort_and_deduplicate_ipv4 u s)
                        (next_step (enforce_min_prefix_lengths u) refl
                          (enforce_step u s pa [] h l4 l6 m4 m6 e4 e6))
                        (sort_ipv4_step u s pa [] h m4 m6))
                      (sort_ipv6_step u s pa [] h d4 m6))
                    (aggregate_ipv4_step u s pa [] h d4 d6 fine4))
                  (aggregate_ipv6_step u s pa [] h a4 d6 fine6))
                cut4)
              cut6)
            (sort_ipv4_step u s pa w2 h2 (left_ipv4 m4) (left_ipv6 m6)))
          (sort_ipv6_step u s pa w2 h2 (sort_and_deduplicate u s (left_ipv4 m4)) (left_ipv6 m6)))
        refl
      ∙ ap (λ k. (done m4 m6 w2 k, none)) (told_twice pa.has_handler (noted true ws4 h))
    where
      told_twice :
          (b : Bool) (k : List Warning)
          → (if b
              then noted false (keep (is_long false) pa.exclude_ipv6) (if b then k else pa.handled)
              else if b
              then k
              else pa.handled)
            ≡ (if b then noted false (keep (is_long false) pa.exclude_ipv6) k else pa.handled)
      told_twice true k = refl
      told_twice false k = refl

  -- On a state with CIDR blocks of each family, less than 5000 in each with the inclusions,
  -- minimum lengths in range and exclusions that are not empty or too long, `Aggregate` ends
  -- without an error. The list of each family is then disjoint CIDR blocks in ascending order that
  -- cover exactly the addresses of the prefixes and inclusions, rounded up where a minimum length
  -- is set, that no exclusion covers, and every CIDR block that it covers lies in one of its
  -- prefixes. The warnings are one for each exclusion that is longer than recommended, those for
  -- IPv4 first, and a handler that is set gets them too. But for the time, the rest of the state
  -- is as it was.
  pub aggregate-IsAggregated :
      (ready : IsReady pa)
      → IsAggregated elapsed ready.min_ipv4 ready.min_ipv6 pa (aggregate u s elapsed pa)
  aggregate-IsAggregated ready =
      let l4 = pa.ipv4_prefixes ++ pa.include_ipv4 in
      let l6 = pa.ipv6_prefixes ++ pa.include_ipv6 in
      let (m4, e4, around4, blocks4, same4) =
        enforce_lem u true ready.min_ipv4 l4 ready.min_ipv4_fits ready.blocks_ipv4 in
      let (m6, e6, around6, blocks6, same6) =
        enforce_lem u false ready.min_ipv6 l6 ready.min_ipv6_fits ready.blocks_ipv6 in
      let (fine4, done4, long4, optimized4) =
        family_lem u true s ready.min_ipv4 l4 m4 pa.exclude_ipv4 around4 blocks4
          (omega (arith, length-append pa.ipv4_prefixes pa.include_ipv4)) ready.exclusions_ipv4 in
      let (fine6, done6, long6, optimized6) =
        family_lem u false s ready.min_ipv6 l6 m6 pa.exclude_ipv6 around6 blocks6
          (omega (arith, length-append pa.ipv6_prefixes pa.include_ipv6)) ready.exclusions_ipv6 in
      let returned =
        aggregate_steps m4 m6 (ap (λ n. enforce_min_prefix_length u n l4) ready.set_ipv4 ∙ e4)
          (ap (λ n. enforce_min_prefix_length u n l6) ready.set_ipv6 ∙ e6) fine4 fine6 done4 done6
          long4 long6 in
      record {
        ipv4 = sort_and_deduplicate u s (left_ipv4 m4);
        ipv6 = sort_and_deduplicate u s (left_ipv6 m6);
        returned = returned;
        optimized_ipv4 = optimized4;
        optimized_ipv6 = optimized6;
      }

  -- After `Aggregate` on a state with CIDR blocks of each family, less than 5000 in each with the
  -- inclusions, minimum lengths in range and exclusions that are not empty or too long, no address
  -- of an exclusion is covered, and every address of the prefixes and inclusions that no exclusion
  -- covers still is.
  pub aggregate-IsKept :
      IsReady pa
      → (x : ℕ)
      → IsKept
          (pa.ipv4_prefixes ++ pa.include_ipv4)
          pa.exclude_ipv4
          (aggregate u s elapsed pa).0.ipv4_prefixes
          x
        × IsKept
            (pa.ipv6_prefixes ++ pa.include_ipv6)
            pa.exclude_ipv6
            (aggregate u s elapsed pa).0.ipv6_prefixes
            x
  aggregate-IsKept ready x =
      let all = aggregate-IsAggregated ready in
      let l4 = pa.ipv4_prefixes ++ pa.include_ipv4 in
      let l6 = pa.ipv6_prefixes ++ pa.include_ipv6 in
      subst
        (λ r.
          IsKept l4 pa.exclude_ipv4 r.0.ipv4_prefixes x
          × IsKept l6 pa.exclude_ipv6 r.0.ipv6_prefixes x)
        (sym all.returned)
        (
          IsOptimized-IsKept true ready.min_ipv4 l4 pa.exclude_ipv4 all.ipv4 x all.optimized_ipv4,
          IsOptimized-IsKept false ready.min_ipv6 l6 pa.exclude_ipv6 all.ipv6 x all.optimized_ipv6,
        )
