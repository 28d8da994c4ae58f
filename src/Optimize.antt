-- ===== src/Optimize.antt =====
-- `Aggregate` of algorithms.go with the methods on the state that it calls.
pub mod Best
pub mod Cells
pub mod Family
pub mod Steps
pub mod Whole
use netjugo.Prelude.{ℕ, Bool, true, false, List, [], ◌∷◌, ◌++◌, none, some}
use netjugo.Errors.{ok, err}
use netjugo.Uint256.{Uint256}
use netjugo.IpPrefix.{IpPrefix}
use netjugo.Sorting.{SortSlice}
use netjugo.Algorithms.{sort_and_deduplicate, aggregate_prefixes, enforce_min_prefix_length}
use netjugo.Exclusion.{process_exclusions_new}
use netjugo.Aggregator.{Aggregator, Outcome, ◌then_try◌, add_warning, clear_warnings}

pub process_inclusions : Aggregator → Outcome
process_inclusions pa = (
  record pa {
    ipv4_prefixes = pa.ipv4_prefixes ++ pa.include_ipv4;
    ipv6_prefixes = pa.ipv6_prefixes ++ pa.include_ipv6;
  },
  none,
)

-- `addWarning` for each of the exclusions of a family, in order.
pub add_warnings : Bool → List IpPrefix → Aggregator → Aggregator
add_warnings f [] pa = pa
add_warnings f (e ∷ es) pa =
    add_warnings f es (add_warning (record { is_ipv4 = f; exclusion = e.prefix }) pa)

module _ (u : Uint256) where
  pub enforce_min_prefix_length_ipv4 : Aggregator → Outcome
  enforce_min_prefix_length_ipv4 pa =
      elim (enforce_min_prefix_length u pa.min_prefix_len_ipv4 pa.ipv4_prefixes) [
        | err e ↦ (pa, some e)
        | ok new_prefixes ↦ (record pa { ipv4_prefixes = new_prefixes }, none)
      ]

  pub enforce_min_prefix_length_ipv6 : Aggregator → Outcome
  enforce_min_prefix_length_ipv6 pa =
      elim (enforce_min_prefix_length u pa.min_prefix_len_ipv6 pa.ipv6_prefixes) [
        | err e ↦ (pa, some e)
        | ok new_prefixes ↦ (record pa { ipv6_prefixes = new_prefixes }, none)
      ]

  pub enforce_min_prefix_lengths : Aggregator → Outcome
  enforce_min_prefix_lengths pa =
      enforce_min_prefix_length_ipv4 pa then_try enforce_min_prefix_length_ipv6

  pub aggregate_ipv4 : Aggregator → Outcome
  aggregate_ipv4 pa =
      let merged = aggregate_prefixes u pa.ipv4_prefixes in
      (record pa { ipv4_prefixes = merged.0 }, merged.1)

  pub aggregate_ipv6 : Aggregator → Outcome
  aggregate_ipv6 pa =
      let merged = aggregate_prefixes u pa.ipv6_prefixes in
      (record pa { ipv6_prefixes = merged.0 }, merged.1)

  module _ (s : SortSlice) where
    pub sort_and_deduplicate_ipv4 : Aggregator → Outcome
    sort_and_deduplicate_ipv4 pa =
        (record pa { ipv4_prefixes = sort_and_deduplicate u s pa.ipv4_prefixes }, none)

    pub sort_and_deduplicate_ipv6 : Aggregator → Outcome
    sort_and_deduplicate_ipv6 pa =
        (record pa { ipv6_prefixes = sort_and_deduplicate u s pa.ipv6_prefixes }, none)

    pub process_exclusions_ipv4 : Aggregator → Outcome
    process_exclusions_ipv4 pa =
        let left = process_exclusions_new u s true pa.exclude_ipv4 pa.ipv4_prefixes [] in
        (add_warnings true left.0.1 (record pa { ipv4_prefixes = left.0.0 }), left.1)

    pub process_exclusions_ipv6 : Aggregator → Outcome
    process_exclusions_ipv6 pa =
        let left = process_exclusions_new u s false pa.exclude_ipv6 pa.ipv6_prefixes [] in
        (add_warnings false left.0.1 (record pa { ipv6_prefixes = left.0.0 }), left.1)

    -- `elapsed` is the time that the call took.
    pub aggregate : ℕ → Aggregator → Outcome
    aggregate elapsed pa =
        process_inclusions (clear_warnings pa)
        then_try enforce_min_prefix_lengths
        then_try sort_and_deduplicate_ipv4
        then_try sort_and_deduplicate_ipv6
        then_try aggregate_ipv4
        then_try aggregate_ipv6
        then_try process_exclusions_ipv4
        then_try process_exclusions_ipv6
        then_try sort_and_deduplicate_ipv4
        then_try sort_and_deduplicate_ipv6
        then_try λ done. (record done { last_process_time = elapsed }, none)
