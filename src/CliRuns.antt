-- ===== src/CliRuns.antt =====
-- The theorems on the program at concrete flags.
use netjugo.Prelude.{
  ◌*◌, ◌^◌, ◌≤◌, ◌<◌, ◌⊎◌, ◌++◌, negsuc, ◌≡◌, refl, arith, true, false, [], ◌∷◌, none, pos,
}
use netjugo.Text.{Text, is_empty, split_on, codes, is_space, trim_left, trim_space}
use netjugo.IpText.Dotted.{dotted, is_digit, scan, read_addr, read_bits, cut_slash, read_prefix}
use netjugo.Uint256.Model.{numbers}
use netjugo.Sorting.Insertion.{by_insertion}
use netjugo.Validation.{prefix_to_uint256_range, ipv4_prefix_to_uint256_range, ipv4_range}
use netjugo.Parse.{parse_ip_prefix, with_range}
use netjugo.Parse.Laws.{ranged}
use netjugo.Parse.Blocks.{IsClean, ipv4-IsClean}
use netjugo.Errors.{ok, err, Error}
use netjugo.Prelude.{List, some, All, subst, sym, if◌then◌else◌}
use netjugo.Aggregator.{Aggregator, new_prefix_aggregator, add_prefix}
use netjugo.Aggregator.Texts.{ipv4_of, ipv6_of, read_before, first_error}
use netjugo.Reader.{
  Scanned, not_exist, opened, line_prefix, add_line, add_lines, add_from_reader, add_from_file,
}
use netjugo.Optimize.{aggregate}
use netjugo.Output.{get_prefixes}
use netjugo.Output.Laws.{ended}
use netjugo.Cli.{
  Flags, World, pieces, read_prefixes_from_file, set_lengths, include_from_file, include_from_flag,
  exclude_from_file, exclude_from_flag, prepare, main,
}
use netjugo.Cli.Pieces.{prefix_flags_lem}
use netjugo.Cli.Laws.{IsSuccess, main-IsSuccess, handled_by}
use netjugo.Cli.Report.{
  format_bytes, in_unit, fixed_two, decimal, decimal_from, float64, float_from, round_even,
}
use netjugo.Cli.Format.{IsShown, format_bytes-IsShown}
use netjugo.Cli.Success.{IsAccepted}
use netjugo.Cli.Prepared.{IsCleanInput, main_finishes}
use netjugo.Lifecycle.{IsSmall}
use netjugo.Reader.Lines.{IsCleanLine}

-- One readable line in every file with a name, and a standard output that works.
abbrev small_world : World
small_world = record {
  open_file = λ path.
      if is_empty path
      then not_exist
      else opened (record { lines = codes "# list" ∷ codes "10.0.0.0/25" ∷ []; failed = false });
  create_file = λ path. none;
  stdout = λ n. false;
  elapsed = 7;
  sizes = record { aggregator = 264; slice = 24; pointer = 8; ip_prefix = 48; integer = 32 };
  capacities = λ pa. record {
    ipv4_prefixes = 1;
    ipv6_prefixes = 0;
    include_ipv4 = 0;
    include_ipv6 = 0;
    exclude_ipv4 = 0;
    exclude_ipv6 = 0;
  };
  memory = record { alloc = 3000; total_alloc = 3000; sys = 5000000; num_gc = 0 };
}

abbrev input_only : Flags
input_only = record {
  input_file = codes "in";
  output_file = [];
  min_ipv4_len = pos 0;
  min_ipv6_len = pos 0;
  include_file = [];
  exclude_file = [];
  include_pfx = [];
  exclude_pfx = [];
  verbose = true;
  version = false;
  show_stats = false;
  show_memory = true;
}

abbrev one_prefix : Aggregator
one_prefix = record new_prefix_aggregator {
  ipv4_prefixes = ranged true 0xA000000 7 ∷ [];
  original_count = 1;
}

one_prefix_prepared : prepare numbers dotted small_world input_only ≡ (one_prefix, none)
unfolding prepare set_lengths include_from_file include_from_flag exclude_from_file
    exclude_from_flag add_from_file add_from_reader add_lines add_line line_prefix add_prefix
    parse_ip_prefix with_range is_space trim_left trim_space dotted is_digit scan read_addr
    read_bits cut_slash read_prefix prefix_to_uint256_range ipv4_prefix_to_uint256_range ipv4_range
one_prefix_prepared = refl

one_prefix-IsSmall : IsSmall one_prefix
one_prefix-IsSmall = record { few_ipv4 = omega arith; few_ipv6 = omega arith }

input_only-IsAccepted : IsAccepted numbers dotted small_world input_only by_insertion
input_only-IsAccepted = record {
  no_version = refl;
  some_input = refl;
  ipv4_in_range = refl;
  ipv6_in_range = refl;
}

-- The only line of the input that is no comment is an IPv4 text.
line_read : parse_ip_prefix numbers dotted (codes "10.0.0.0/25") ≡ ok (ranged true 0xA000000 7)
unfolding parse_ip_prefix with_range is_space trim_left trim_space dotted is_digit scan read_addr
    read_bits cut_slash read_prefix prefix_to_uint256_range ipv4_prefix_to_uint256_range ipv4_range
line_read = refl

lines_passed :
    (line_prefix (codes "# list") ≡ none)
    × (line_prefix (codes "10.0.0.0/25") ≡ some (codes "10.0.0.0/25"))
unfolding line_prefix is_space trim_left trim_space
lines_passed = (refl, refl)

small_lines-IsClean : All (IsCleanLine numbers dotted) (codes "# list" ∷ codes "10.0.0.0/25" ∷ [])
small_lines-IsClean = (
  λ line e. absurd (cc lines_passed.0),
  (
    λ line e. subst (IsClean numbers dotted) (cc lines_passed.1) (
        ipv4-IsClean numbers dotted (codes "10.0.0.0/25") (ranged true 0xA000000 7) line_read refl),
    tt,
  ),
)

empty_refused : parse_ip_prefix numbers dotted [] ≡ err Error.invalid_prefix
unfolding parse_ip_prefix trim_space trim_left
empty_refused = refl

empty_pieces : pieces [] ≡ [] ∷ []
unfolding split_on trim_space trim_left
empty_pieces = refl

no_file : (ts : List Text) → read_prefixes_from_file numbers dotted not_exist ≡ ok ts → ⊥
unfolding read_prefixes_from_file add_from_file
no_file ts e = cc

input_only-IsCleanInput : IsCleanInput numbers dotted small_world input_only by_insertion
input_only-IsCleanInput = record {
  include_file = λ ts e. absurd (no_file ts e);
  include_flag =
      subst (All (IsClean numbers dotted)) (sym empty_pieces)
        (λ f a h e. absurd (cc empty_refused), tt);
  input_file = λ reader e.
      subst (λ r. All (IsCleanLine numbers dotted) r.lines) (opened_injective e)
        small_lines-IsClean;
}
  where
    opened_injective : {r q : Scanned} → opened r ≡ opened q → r ≡ q
    opened_injective e = cc

main_finishes_example :
    ((main numbers dotted small_world input_only by_insertion).exit_code ≡ 0)
    × ((main numbers dotted small_world input_only by_insertion).written
        ≡ ended (
            get_prefixes dotted
              (aggregate numbers by_insertion 7
                (handled_by numbers dotted small_world input_only by_insertion one_prefix)).0))
main_finishes_example =
    main_finishes numbers dotted small_world input_only by_insertion one_prefix
      input_only-IsAccepted input_only-IsCleanInput one_prefix_prepared one_prefix-IsSmall refl
      (λ n. refl)

main-IsSuccess_example :
    IsSuccess numbers dotted small_world input_only by_insertion
      (main numbers dotted small_world input_only by_insertion)
main-IsSuccess_example =
    main-IsSuccess numbers dotted small_world input_only by_insertion main_finishes_example.0

abbrev with_lists : Flags
with_lists = record input_only {
  include_pfx = codes "10.0.0.0/8, 10.0.0.0/9";
  exclude_pfx = codes "x";
}

abbrev two_texts : List Text
two_texts = codes "10.0.0.0/8" ∷ codes " 10.0.0.0/9" ∷ []

abbrev no_texts : List Text
no_texts = codes "x" ∷ []

prefix_flags_lem_example :
    (include_from_flag numbers dotted small_world with_lists one_prefix ≡ (
      record one_prefix {
        include_ipv4 = ipv4_of (read_before numbers dotted two_texts);
        include_ipv6 = ipv6_of (read_before numbers dotted two_texts);
      },
      first_error numbers dotted two_texts,
    ))
    × (exclude_from_flag numbers dotted small_world with_lists one_prefix ≡ (
      record one_prefix {
        exclude_ipv4 = ipv4_of (read_before numbers dotted no_texts);
        exclude_ipv6 = ipv6_of (read_before numbers dotted no_texts);
      },
      first_error numbers dotted no_texts,
    ))
prefix_flags_lem_example =
    prefix_flags_lem numbers dotted small_world with_lists two_texts no_texts one_prefix
      (refl, (refl, tt)) (refl, tt) refl refl

-- What the texts of the witness are read as.
two_texts_read :
    (read_before numbers dotted two_texts
      ≡ ranged true 0xA000000 24 ∷ ranged true 0xA000000 23 ∷ [])
    × (first_error numbers dotted two_texts ≡ none)
    × (first_error numbers dotted no_texts ≡ some Error.invalid_prefix)
unfolding parse_ip_prefix with_range is_space trim_left trim_space dotted is_digit scan read_addr
    read_bits cut_slash read_prefix prefix_to_uint256_range ipv4_prefix_to_uint256_range ipv4_range
two_texts_read = (refl, refl, refl)

-- 1.5 GB, and 1000000 bytes in KB.
sizes_printed :
    (format_bytes (pos (3 * 2 ^ 29)) ≡ codes "1.50 GB")
    × (format_bytes (pos 1000000) ≡ codes "976.56 KB")
    × (format_bytes (negsuc 4) ≡ codes "-5 B")
unfolding format_bytes in_unit fixed_two decimal decimal_from float64 float_from round_even
sizes_printed = (refl, refl, refl)

format_bytes-IsShown_example :
    ((2 ^ 30 ≤ 1000000) × IsShown 1000000 (2 ^ 30) (codes " GB") (format_bytes (pos 1000000)))
    ⊎ ((2 ^ 20 ≤ 1000000)
        × (1000000 < 2 ^ 30)
        × IsShown 1000000 (2 ^ 20) (codes " MB") (format_bytes (pos 1000000)))
    ⊎ ((2 ^ 10 ≤ 1000000)
        × (1000000 < 2 ^ 20)
        × IsShown 1000000 (2 ^ 10) (codes " KB") (format_bytes (pos 1000000)))
    ⊎ ((1000000 < 2 ^ 10) × (format_bytes (pos 1000000) ≡ decimal 1000000 ++ codes " B"))
format_bytes-IsShown_example = format_bytes-IsShown 1000000 (omega arith)
