-- ===== src/Runs.antt =====
-- The theorems on the state, on texts and on output, at concrete inputs.
use netjugo.Prelude.{ℕ, ◌+◌, ◌≡◌, refl, sym, ap, arith, true, false, List, [], ◌∷◌, some, pos, ◌==◌}
use netjugo.Errors.{ok, Error}
use netjugo.Text.{Text, codes, is_space, trim_left, trim_space, starts_with}
use netjugo.IpText.Dotted.{dotted, is_digit, scan, read_addr, read_bits, cut_slash, read_prefix}
use netjugo.Uint256.Model.{numbers}
use netjugo.Sorting.Insertion.{by_insertion}
use netjugo.IpPrefix.{IpPrefix}
use netjugo.Parse.{parse_ip_prefix, with_range}
use netjugo.Parse.Laws.{ranged, IsParsed, parse_ip_prefix-IsParsed}
use netjugo.Validation.{prefix_to_uint256_range, ipv4_prefix_to_uint256_range, ipv4_range}
use netjugo.Parse.Blocks.{IsClean, ipv4-IsClean, ranged-IsBlock}
use netjugo.Netip.{v4}
use netjugo.Prelude.{subst}
use netjugo.Aggregator.{
  Aggregator, new_prefix_aggregator, add_prefix, add_prefixes, set_include_prefixes,
  set_exclude_prefixes, set_min_prefix_length,
}
use netjugo.Aggregator.Lists.{add_prefix_ipv4}
use netjugo.Aggregator.Texts.{
  ipv4_of, ipv6_of, read_before, first_error, with_added, add_prefixes_lem, setters_lem,
}
use netjugo.Aggregator.Decided.{IsAddedAll, add_prefixes-IsAddedAll}
use netjugo.Aggregator.Valid.{IsValid, IsConfigured, set_min_prefix_length-IsConfigured}
use netjugo.Reader.{Scanned, add_from_reader}
use netjugo.Reader.Lines.{read_lines, add_from_reader_lem}
use netjugo.Reader.Bare.{IsCompleted, bare_line-IsCompleted}
use netjugo.Optimize.{aggregate}
use netjugo.Optimize.Family.{IsKept}
use netjugo.Optimize.Whole.{IsReady, IsAggregated, aggregate-IsAggregated, aggregate-IsKept}
use netjugo.Lifecycle.{IsSmall, Reached, made, later, added, Reached-IsValid, Reached-IsAggregated}
use netjugo.Output.{
  get_prefixes, Sizes, Capacities, Writer, write_to_writer, calculate_memory_usage,
}
use netjugo.Output.Memory.{taken_by, in_use, all_slices, calculate_memory_usage_lem}
use netjugo.Output.Laws.{IsWritten, write_to_writer-IsWritten}

-- 10.0.0.0.
abbrev pub base : ℕ
base = 0xA000000

abbrev pub lower : Text
lower = codes "10.0.0.0/25"

abbrev pub upper : Text
upper = codes " 10.0.0.130/25 "

pub lower_read : parse_ip_prefix numbers dotted lower ≡ ok (ranged true base 7)
unfolding parse_ip_prefix with_range is_space trim_left trim_space dotted is_digit scan read_addr
    read_bits cut_slash read_prefix prefix_to_uint256_range ipv4_prefix_to_uint256_range ipv4_range
lower_read = refl

lower-IsClean : IsClean numbers dotted lower
lower-IsClean = ipv4-IsClean numbers dotted lower (ranged true base 7) lower_read refl

-- One prefix.
abbrev pub one_added : Aggregator
one_added = (add_prefix numbers dotted lower new_prefix_aggregator).0

pub one_added-Reached : Reached numbers by_insertion dotted one_added
one_added-Reached = later made (added lower lower-IsClean)

pub one_added-IsSmall : IsSmall one_added
one_added-IsSmall =
    subst IsSmall
      (sym (
        ap (λ r. r.0)
          (add_prefix_ipv4 numbers dotted lower new_prefix_aggregator (ranged true base 7)
            lower_read refl)))
      (record { few_ipv4 = omega arith; few_ipv6 = omega arith })

Reached-IsAggregated_example :
    (n4 : ℕ) × (n6 : ℕ) × (one_added.min_prefix_len_ipv4 ≡ pos n4)
    × (one_added.min_prefix_len_ipv6 ≡ pos n6)
    × IsAggregated 7 n4 n6 one_added (aggregate numbers by_insertion 7 one_added)
Reached-IsAggregated_example =
    Reached-IsAggregated numbers by_insertion dotted 7 one_added-Reached one_added-IsSmall

Reached-IsValid_example : IsValid one_added
Reached-IsValid_example = Reached-IsValid numbers by_insertion dotted one_added-Reached

-- 10.0.0.0/25 without 10.0.0.0/28, with a minimum length for IPv6.
abbrev half : IpPrefix
half = ranged true base 7

abbrev hole : IpPrefix
hole = ranged true base 4

abbrev ready_state : Aggregator
ready_state = record new_prefix_aggregator {
  ipv4_prefixes = half ∷ [];
  exclude_ipv4 = hole ∷ [];
  min_prefix_len_ipv6 = pos 48;
}

ready_state-IsReady : IsReady ready_state
ready_state-IsReady = record {
  min_ipv4 = 0;
  min_ipv6 = 48;
  min_ipv4_fits = omega arith;
  min_ipv6_fits = omega arith;
  set_ipv4 = refl;
  set_ipv6 = refl;
  blocks_ipv4 = (ranged-IsBlock true base 7 (omega arith) (omega arith) refl, tt);
  blocks_ipv6 = tt;
  few_ipv4 = omega arith;
  few_ipv6 = omega arith;
  exclusions_ipv4 = ((omega arith, refl), tt);
  exclusions_ipv6 = tt;
}

aggregate-IsAggregated_example :
    IsAggregated 7 ready_state-IsReady.min_ipv4 ready_state-IsReady.min_ipv6 ready_state
      (aggregate numbers by_insertion 7 ready_state)
aggregate-IsAggregated_example =
    aggregate-IsAggregated numbers by_insertion 7 ready_state ready_state-IsReady

aggregate-IsKept_example :
    IsKept
      (half ∷ [])
      (hole ∷ [])
      (aggregate numbers by_insertion 7 ready_state).0.ipv4_prefixes
      (base + 20)
    × IsKept [] [] (aggregate numbers by_insertion 7 ready_state).0.ipv6_prefixes (base + 20)
aggregate-IsKept_example =
    aggregate-IsKept numbers by_insertion 7 ready_state ready_state-IsReady (base + 20)

-- The second text is not read.
abbrev two_texts : List Text
two_texts = lower ∷ codes "10.0.0.0/99" ∷ []

add_prefixes_lem_example :
    add_prefixes numbers dotted two_texts ready_state
    ≡ with_added numbers dotted ready_state
        (read_before numbers dotted two_texts)
        (first_error numbers dotted two_texts)
add_prefixes_lem_example = add_prefixes_lem numbers dotted two_texts ready_state

add_prefixes-IsAddedAll_example :
    IsAddedAll numbers dotted two_texts ready_state
      (add_prefixes numbers dotted two_texts ready_state)
add_prefixes-IsAddedAll_example = add_prefixes-IsAddedAll numbers dotted two_texts ready_state

setters_lem_example :
    (set_include_prefixes numbers dotted two_texts ready_state ≡ (
      record ready_state {
        include_ipv4 = ipv4_of (read_before numbers dotted two_texts);
        include_ipv6 = ipv6_of (read_before numbers dotted two_texts);
      },
      first_error numbers dotted two_texts,
    ))
    × (set_exclude_prefixes numbers dotted two_texts ready_state ≡ (
      record ready_state {
        exclude_ipv4 = ipv4_of (read_before numbers dotted two_texts);
        exclude_ipv6 = ipv6_of (read_before numbers dotted two_texts);
      },
      first_error numbers dotted two_texts,
    ))
setters_lem_example = setters_lem numbers dotted two_texts ready_state

set_min_prefix_length-IsConfigured_example :
    IsConfigured
      (pos 24)
      (pos 129)
      ready_state
      (set_min_prefix_length (pos 24) (pos 129) ready_state)
set_min_prefix_length-IsConfigured_example =
    set_min_prefix_length-IsConfigured (pos 24) (pos 129) ready_state

parse_ip_prefix-IsParsed_example : IsParsed (parse_ip_prefix numbers dotted upper)
parse_ip_prefix-IsParsed_example = parse_ip_prefix-IsParsed numbers dotted upper

abbrev three_lines : Scanned
three_lines = record { lines = codes "# list" ∷ codes "10.0.0.1" ∷ lower ∷ []; failed = true }

add_from_reader_lem_example :
    add_from_reader numbers dotted three_lines ready_state
    ≡ with_added numbers dotted ready_state
        (read_lines numbers dotted three_lines.lines)
        (some Error.plain)
add_from_reader_lem_example = add_from_reader_lem numbers dotted three_lines ready_state

abbrev bare_text : Text
bare_text = codes " 10.0.0.1"

bare_plain : starts_with b'#' (trim_space bare_text) ≡ false
unfolding is_space trim_left trim_space
bare_plain = refl

bare_read : dotted.parse_addr (trim_space bare_text) ≡ some (v4 (base + 1))
unfolding is_space trim_left trim_space dotted is_digit scan read_addr
bare_read = refl

bare_line-IsCompleted_example :
    IsCompleted numbers dotted bare_text (base + 1) bare_plain true ready_state
bare_line-IsCompleted_example =
    bare_line-IsCompleted numbers dotted bare_text (base + 1) bare_plain true ready_state bare_read
      (λ e. absurd cc)

-- A writer whose second call fails.
abbrev breaks : Writer
breaks n = n == 1

write_to_writer-IsWritten_example :
    IsWritten breaks 0 (get_prefixes dotted ready_state) (write_to_writer dotted breaks ready_state)
write_to_writer-IsWritten_example = write_to_writer-IsWritten breaks dotted ready_state

abbrev sizes : Sizes
sizes = record { aggregator = 264; slice = 24; pointer = 8; ip_prefix = 48; integer = 32 }

abbrev reserved : Capacities
reserved = record {
  ipv4_prefixes = 1;
  ipv6_prefixes = 0;
  include_ipv4 = 0;
  include_ipv6 = 0;
  exclude_ipv4 = 1;
  exclude_ipv6 = 0;
}

calculate_memory_usage_lem_example :
    calculate_memory_usage sizes reserved ready_state
    ≡ 264 + taken_by sizes (in_use (all_slices reserved ready_state))
calculate_memory_usage_lem_example = calculate_memory_usage_lem sizes reserved ready_state

-- Two lists with one prefix each.
ready_state_used : taken_by sizes (in_use (all_slices reserved ready_state)) ≡ 288
ready_state_used = refl
