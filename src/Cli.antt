-- ===== src/Cli.antt =====
-- cmd/ipaggregator/main.go: from the flags to the lines that are written. The flags are what package
-- flag parsed; messages and the usage text are left out.
pub mod Laws
pub mod Pieces
pub mod Prepared
pub mod Report
pub mod Format
pub mod Success
use netjugo.Prelude.{
  ℕ, Bool, true, false, ◌||◌, List, [], ◌∷◌, ◌++◌, map, Option, none, some, ℤ, pos, ltb_ℤ,
  if◌then◌else◌,
}
use netjugo.Errors.{Result, ok, err, Error}
use netjugo.Text.{Text, trim_space, is_empty, split_on}
use netjugo.IpText.{IpText}
use netjugo.Uint256.{Uint256}
use netjugo.Sorting.{SortSlice}
use netjugo.Aggregator.{
  Aggregator, Outcome, ◌then_try◌, Warning, new_prefix_aggregator, set_min_prefix_length,
  set_include_prefixes, set_exclude_prefixes, set_warning_handler, get_warnings,
}
use netjugo.Reader.{Opened, add_from_file}
use netjugo.Optimize.{aggregate}
use netjugo.Output.{
  get_prefixes, Writer, write_to_writer, write_to_file, Sizes, Capacities, MemStats, get_stats,
  get_memory_stats,
}
use netjugo.Cli.Report.{Line, stats_lines, memory_lines}

pub record Flags : Type 0 where
  pub input_file : Text
  pub output_file : Text
  pub min_ipv4_len : ℤ
  pub min_ipv6_len : ℤ
  pub include_file : Text
  pub exclude_file : Text
  pub include_pfx : Text
  pub exclude_pfx : Text
  pub verbose : Bool
  pub version : Bool
  pub show_stats : Bool
  pub show_memory : Bool

-- What the program meets: the files to read and to write, the standard output, the time that
-- `Aggregate` takes, and what the compiler and the runtime say of the memory.
pub record World : Type 0 where
  pub open_file : Text → Opened
  pub create_file : Text → Option Writer
  pub stdout : Writer
  pub elapsed : ℕ
  pub sizes : Sizes
  pub capacities : Aggregator → Capacities
  pub memory : MemStats

-- The exit code, the lines of the output, the warnings, and the statistics.
pub record Finished : Type 0 where
  pub exit_code : ℕ
  pub written : List Text
  pub warned : List Warning
  pub reported : List Line

abbrev pub fatal : Finished
fatal = record { exit_code = 1; written = []; warned = []; reported = [] }

-- The pieces of a flag.
abbrev pub pieces : Text → List Text
pieces t = map trim_space (split_on b',' t)

unfoldable pub set_lengths : Flags → Aggregator → Outcome
set_lengths flags pa =
    if ltb_ℤ (pos 0) flags.min_ipv4_len || ltb_ℤ (pos 0) flags.min_ipv6_len
    then set_min_prefix_length flags.min_ipv4_len flags.min_ipv6_len pa
    else (pa, none)

module _ (u : Uint256) (ip : IpText) where
  unfoldable pub read_prefixes_from_file : Opened → Result (List Text)
  read_prefixes_from_file file =
      let read = add_from_file u ip file new_prefix_aggregator in
      elim (read.1) [ some e ↦ err e | none ↦ ok (get_prefixes ip read.0) ]

  module _ (world : World) (flags : Flags) where
    unfoldable pub include_from_file : Aggregator → Outcome
    include_from_file pa =
        if is_empty flags.include_file
        then (pa, none)
        else elim (read_prefixes_from_file (world.open_file flags.include_file)) [
          | err e ↦ (pa, some e)
          | ok prefixes ↦ set_include_prefixes u ip prefixes pa
        ]

    unfoldable pub include_from_flag : Aggregator → Outcome
    include_from_flag pa =
        if is_empty flags.include_pfx
        then (pa, none)
        else set_include_prefixes u ip (pieces flags.include_pfx) pa

    unfoldable pub exclude_from_file : Aggregator → Outcome
    exclude_from_file pa =
        if is_empty flags.exclude_file
        then (pa, none)
        else elim (read_prefixes_from_file (world.open_file flags.exclude_file)) [
          | err e ↦ (pa, some e)
          | ok prefixes ↦ set_exclude_prefixes u ip prefixes pa
        ]

    unfoldable pub exclude_from_flag : Aggregator → Outcome
    exclude_from_flag pa =
        if is_empty flags.exclude_pfx
        then (pa, none)
        else set_exclude_prefixes u ip (pieces flags.exclude_pfx) pa

    -- All that is done to the aggregator before the aggregation.
    unfoldable pub prepare : Outcome
    prepare =
        set_lengths flags new_prefix_aggregator
        then_try include_from_file
        then_try include_from_flag
        then_try exclude_from_file
        then_try exclude_from_flag
        then_try add_from_file u ip (world.open_file flags.input_file)

    -- The output of the aggregated state.
    pub write_output : Aggregator → List Text × Option Error
    write_output pa =
        if is_empty flags.output_file
        then write_to_writer ip world.stdout pa
        else write_to_file ip (world.create_file flags.output_file) pa

    -- The statistics of the aggregated state.
    pub reports : Aggregator → List Line
    reports pa =
        let final_stats = get_stats world.sizes (world.capacities pa) pa in
        let mem_stats = get_memory_stats world.memory world.sizes (world.capacities pa) pa in
        (if flags.show_stats || flags.verbose then stats_lines final_stats else [])
        ++ (if flags.show_memory then memory_lines mem_stats else [])

    module _ (s : SortSlice) where
      -- From the prepared aggregator on. In verbose mode the warnings are those that the handler
      -- gets, and else those that the state holds.
      pub finish : Aggregator → Finished
      finish prepared =
          let pa = if flags.verbose then set_warning_handler true prepared else prepared in
          let done = aggregate u s world.elapsed pa in
          let warned = if flags.verbose then done.0.handled else get_warnings done.0 in
          let output = write_output done.0 in
          elim (done.1) [
            | some e ↦ record {
              exit_code = 1;
              written = [];
              warned = if flags.verbose then done.0.handled else [];
              reported = [];
            }
            | none ↦ elim (output.1) [
              | some e ↦ record {
                exit_code = 1;
                written = output.0;
                warned = warned;
                reported = [];
              }
              | none ↦ record {
                exit_code = 0;
                written = output.0;
                warned = warned;
                reported = reports done.0;
              }
            ]
          ]

      -- Behind the checks of the flags.
      pub run : Finished
      run =
          let prepared = prepare in elim (prepared.1) [ some e ↦ fatal | none ↦ finish prepared.0 ]

      pub main : Finished
      main =
          if flags.version
          then record { exit_code = 0; written = []; warned = []; reported = [] }
          else if is_empty flags.input_file
          then fatal
          else if ltb_ℤ flags.min_ipv4_len (pos 0) || ltb_ℤ (pos 32) flags.min_ipv4_len
          then fatal
          else if ltb_ℤ flags.min_ipv6_len (pos 0) || ltb_ℤ (pos 128) flags.min_ipv6_len
          then fatal
          else run
