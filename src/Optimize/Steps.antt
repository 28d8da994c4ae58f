-- ===== src/Optimize/Steps.antt =====
-- The steps of `Aggregate`, on a state with the lists and the warnings that they change.
use netjugo.Prelude.{
  ◌≡◌, refl, ap, ap₂, ◌∙◌, arith, Bool, true, false, List, [], ◌∷◌, ◌++◌, none, if◌then◌else◌,
}
use netjugo.Errors.{ok}
use netjugo.Uint256.{Uint256}
use netjugo.IpPrefix.{IpPrefix}
use netjugo.Sorting.{SortSlice}
use netjugo.Algorithms.{sort_and_deduplicate, aggregate_prefixes, enforce_min_prefix_length}
use netjugo.Exclusion.{process_exclusions_new}
use netjugo.Aggregator.{Aggregator, Warning, add_warning}
use netjugo.Optimize.{
  add_warnings, enforce_min_prefix_length_ipv4, enforce_min_prefix_length_ipv6,
  enforce_min_prefix_lengths, aggregate_ipv4, aggregate_ipv6, sort_and_deduplicate_ipv4,
  sort_and_deduplicate_ipv6, process_exclusions_ipv4, process_exclusions_ipv6,
}

-- What `Aggregate` changes of a state.
abbrev pub at :
    Aggregator → List IpPrefix → List IpPrefix → List Warning → List Warning → Aggregator
at pa four six warned handled = record pa {
  ipv4_prefixes = four;
  ipv6_prefixes = six;
  warnings = warned;
  handled = handled;
}

-- The warnings with those about a list of exclusions behind them.
abbrev pub noted : Bool → List IpPrefix → List Warning → List Warning
noted f [] w = w
noted f (e ∷ es) w = noted f es (w ++ (record { is_ipv4 = f; exclusion = e.prefix } ∷ []))

abbrev pub told : Aggregator → Bool → List IpPrefix → List Warning → List Warning
told pa f es h = if pa.has_handler then noted f es h else h

module _ (pa : Aggregator) (f : Bool) where
  add_warnings_lem :
      (es four six : List IpPrefix) (w h : List Warning)
      → add_warnings f es (at pa four six w h) ≡ at pa four six (noted f es w) (told pa f es h)
  unfolding add_warnings add_warning
  add_warnings_lem [] four six w h = ap (at pa four six w) (same pa.has_handler)
    where
      same : (b : Bool) → h ≡ (if b then h else h)
      same b = ground arith
  add_warnings_lem (e ∷ es) four six w h =
      let note : Warning = record { is_ipv4 = f; exclusion = e.prefix } in
      let after = w ++ (note ∷ []) in
      add_warnings_lem es four six after (if pa.has_handler then h ++ (note ∷ []) else h)
      ∙ ap (at pa four six (noted f es after)) (deeper pa.has_handler (h ++ (note ∷ [])))
    where
      deeper :
          (b : Bool) (k : List Warning)
          → (if b then noted f es (if b then k else h) else (if b then k else h))
            ≡ (if b then noted f es k else h)
      deeper true k = refl
      deeper false k = refl

module _ (u : Uint256) (s : SortSlice) (pa : Aggregator) (w h : List Warning) where
  enforce_ipv4_step :
      (four six m : List IpPrefix)
      → enforce_min_prefix_length u pa.min_prefix_len_ipv4 four ≡ ok m
      → enforce_min_prefix_length_ipv4 u (at pa four six w h) ≡ (at pa m six w h, none)
  unfolding enforce_min_prefix_length_ipv4
  enforce_ipv4_step four six m e = rw (e, enforce_min_prefix_length_ipv4)

  enforce_ipv6_step :
      (four six m : List IpPrefix)
      → enforce_min_prefix_length u pa.min_prefix_len_ipv6 six ≡ ok m
      → enforce_min_prefix_length_ipv6 u (at pa four six w h) ≡ (at pa four m w h, none)
  unfolding enforce_min_prefix_length_ipv6
  enforce_ipv6_step four six m e = rw (e, enforce_min_prefix_length_ipv6)

  pub enforce_step :
      (four six m k : List IpPrefix)
      → enforce_min_prefix_length u pa.min_prefix_len_ipv4 four ≡ ok m
      → enforce_min_prefix_length u pa.min_prefix_len_ipv6 six ≡ ok k
      → enforce_min_prefix_lengths u (at pa four six w h) ≡ (at pa m k w h, none)
  unfolding enforce_min_prefix_lengths
  enforce_step four six m k e e' =
      rw (enforce_ipv4_step four six m e) (enforce_ipv6_step m six k e')

  module _ (four six : List IpPrefix) where
    pub sort_ipv4_step :
        sort_and_deduplicate_ipv4 u s (at pa four six w h)
        ≡ (at pa (sort_and_deduplicate u s four) six w h, none)
    unfolding sort_and_deduplicate_ipv4
    sort_ipv4_step = refl

    pub sort_ipv6_step :
        sort_and_deduplicate_ipv6 u s (at pa four six w h)
        ≡ (at pa four (sort_and_deduplicate u s six) w h, none)
    unfolding sort_and_deduplicate_ipv6
    sort_ipv6_step = refl

    pub aggregate_ipv4_step :
        (aggregate_prefixes u four).1 ≡ none
        → aggregate_ipv4 u (at pa four six w h)
          ≡ (at pa (aggregate_prefixes u four).0 six w h, none)
    unfolding aggregate_ipv4
    aggregate_ipv4_step fine = ap (λ e. (at pa (aggregate_prefixes u four).0 six w h, e)) fine

    pub aggregate_ipv6_step :
        (aggregate_prefixes u six).1 ≡ none
        → aggregate_ipv6 u (at pa four six w h)
          ≡ (at pa four (aggregate_prefixes u six).0 w h, none)
    unfolding aggregate_ipv6
    aggregate_ipv6_step fine = ap (λ e. (at pa four (aggregate_prefixes u six).0 w h, e)) fine

    module _ (ws : List IpPrefix) where
      pub exclude_ipv4_step :
          (process_exclusions_new u s true pa.exclude_ipv4 four []).1 ≡ none
          → (process_exclusions_new u s true pa.exclude_ipv4 four []).0.1 ≡ ws
          → process_exclusions_ipv4 u s (at pa four six w h) ≡ (
            at pa
                (process_exclusions_new u s true pa.exclude_ipv4 four []).0.0
                six
                (noted true ws w)
                (told pa true ws h),
            none,
          )
      unfolding process_exclusions_ipv4
      exclude_ipv4_step fine warned =
          let left = process_exclusions_new u s true pa.exclude_ipv4 four [] in
          ap₂ (λ r e. (r, e)) (add_warnings_lem pa true left.0.1 left.0.0 six w h) fine
          ∙ ap (λ k. (at pa left.0.0 six (noted true k w) (told pa true k h), none)) warned

      pub exclude_ipv6_step :
          (process_exclusions_new u s false pa.exclude_ipv6 six []).1 ≡ none
          → (process_exclusions_new u s false pa.exclude_ipv6 six []).0.1 ≡ ws
          → process_exclusions_ipv6 u s (at pa four six w h) ≡ (
            at pa four
                (process_exclusions_new u s false pa.exclude_ipv6 six []).0.0
                (noted false ws w)
                (told pa false ws h),
            none,
          )
      unfolding process_exclusions_ipv6
      exclude_ipv6_step fine warned =
          let left = process_exclusions_new u s false pa.exclude_ipv6 six [] in
          ap₂ (λ r e. (r, e)) (add_warnings_lem pa false left.0.1 four left.0.0 w h) fine
          ∙ ap (λ k. (at pa four left.0.0 (noted false k w) (told pa false k h), none)) warned
