-- ===== src/Output.antt =====
-- The methods of aggregator.go that give out what the state holds: the prefixes as texts, the
-- statistics and the output.
pub mod Laws
pub mod Memory
use netjugo.Prelude.{
  ℤ, pos, negsuc, ◌^◌, ◌-◌, ℕ, zero, suc, ◌+◌, ◌*◌, ◌/◌, Bool, true, false, List, [], ◌∷◌, ◌++◌,
  Option, none, some, length, ltb, ◌==◌, if◌then◌else◌,
}
use netjugo.Errors.{Error}
use netjugo.Netip.{Prefix}
use netjugo.Text.{Text, codes}
use netjugo.IpText.{IpText}
use netjugo.IpPrefix.{IpPrefix}
use netjugo.Aggregator.{Aggregator, Outcome}

module _ (ip : IpText) where
  unfoldable pub strings : List IpPrefix → List Text
  strings [] = []
  strings (p ∷ ps) = ip.prefix_string p.prefix ∷ strings ps

  pub get_ipv4_prefixes : Aggregator → List Text
  get_ipv4_prefixes pa = strings pa.ipv4_prefixes

  pub get_ipv6_prefixes : Aggregator → List Text
  get_ipv6_prefixes pa = strings pa.ipv6_prefixes

  unfoldable pub get_prefixes : Aggregator → List Text
  get_prefixes pa = strings pa.ipv4_prefixes ++ strings pa.ipv6_prefixes

-- The sizes of Go's values in bytes, which its compiler chooses, and the capacities of the slices
-- of a state, which its runtime chooses.
pub record Sizes : Type 0 where
  pub aggregator : ℕ
  pub slice : ℕ
  pub pointer : ℕ
  pub ip_prefix : ℕ
  pub integer : ℕ

pub record Capacities : Type 0 where
  pub ipv4_prefixes : ℕ
  pub ipv6_prefixes : ℕ
  pub include_ipv4 : ℕ
  pub include_ipv6 : ℕ
  pub exclude_ipv4 : ℕ
  pub exclude_ipv6 : ℕ

module _ (sizes : Sizes) where
  -- The loop over the prefixes, none of which is nil.
  pub prefixes_memory : List IpPrefix → ℕ
  prefixes_memory [] = 0
  prefixes_memory (p ∷ ps) = sizes.ip_prefix + sizes.integer + sizes.integer + prefixes_memory ps

  pub calculate_prefix_slice_memory : List IpPrefix → ℕ → ℕ
  calculate_prefix_slice_memory prefixes capacity =
      if length prefixes == 0
      then 0
      else sizes.slice + capacity * sizes.pointer + prefixes_memory prefixes

  pub calculate_memory_usage : Capacities → Aggregator → ℕ
  calculate_memory_usage cap pa =
      sizes.aggregator
      + calculate_prefix_slice_memory pa.ipv4_prefixes cap.ipv4_prefixes
      + calculate_prefix_slice_memory pa.ipv6_prefixes cap.ipv6_prefixes
      + calculate_prefix_slice_memory pa.include_ipv4 cap.include_ipv4
      + calculate_prefix_slice_memory pa.include_ipv6 cap.include_ipv6
      + calculate_prefix_slice_memory pa.exclude_ipv4 cap.exclude_ipv4
      + calculate_prefix_slice_memory pa.exclude_ipv6 cap.exclude_ipv6

-- `1.0 - total/original` is kept as its two numbers, and the 0 for no prefixes as `no_ratio`.
pub data Ratio : Type 0 where
  no_ratio : Ratio
  one_minus : ℕ → ℕ → Ratio

pub record AggregationStats : Type 0 where
  pub ipv4_prefix_count : ℕ
  pub ipv6_prefix_count : ℕ
  pub total_prefixes : ℕ
  pub original_count : ℕ
  pub reduction_ratio : Ratio
  pub processing_time_ms : ℕ
  pub memory_usage_bytes : ℕ

-- The time of the state is in nanoseconds.
pub get_stats : Sizes → Capacities → Aggregator → AggregationStats
get_stats sizes cap pa =
    let ipv4_count = length pa.ipv4_prefixes in
    let ipv6_count = length pa.ipv6_prefixes in
    record {
      ipv4_prefix_count = ipv4_count;
      ipv6_prefix_count = ipv6_count;
      total_prefixes = ipv4_count + ipv6_count;
      original_count = pa.original_count;
      reduction_ratio =
          if ltb 0 pa.original_count
          then one_minus (ipv4_count + ipv6_count) pa.original_count
          else no_ratio;
      processing_time_ms = pa.last_process_time / 1000000;
      memory_usage_bytes = calculate_memory_usage sizes cap pa;
    }

-- What the runtime reports, as 64-bit words.
pub record MemStats : Type 0 where
  pub alloc : ℕ
  pub total_alloc : ℕ
  pub sys : ℕ
  pub num_gc : ℕ

pub record MemoryStats : Type 0 where
  pub alloc_bytes : ℤ
  pub total_alloc_bytes : ℤ
  pub sys_bytes : ℤ
  pub num_gc : ℤ
  pub aggregator_bytes : ℕ

-- `int64` of a 64-bit word, which wraps around.
abbrev pub int64 : ℕ → ℤ
int64 n = if ltb n (2 ^ 63) then pos n else negsuc (2 ^ 64 - n - 1)

pub get_memory_stats : MemStats → Sizes → Capacities → Aggregator → MemoryStats
get_memory_stats m sizes cap pa = record {
  alloc_bytes = int64 m.alloc;
  total_alloc_bytes = int64 m.total_alloc;
  sys_bytes = int64 m.sys;
  num_gc = int64 m.num_gc;
  aggregator_bytes = calculate_memory_usage sizes cap pa;
}

-- An `io.Writer` is the calls of it that fail, by their number.
abbrev pub Writer : Type 0
Writer = ℕ → Bool

-- The loop: the lines that the writer took from the call with number `n` on, and the error.
unfoldable pub write_lines : Writer → ℕ → List Text → List Text × Option Error
write_lines writer n [] = ([], none)
write_lines writer n (line ∷ lines) =
    let rest = write_lines writer (suc n) lines in
    if writer n then ([], some Error.plain) else ((line ++ codes "\n") ∷ rest.0, rest.1)

module _ (ip : IpText) where
  unfoldable pub write_to_writer : Writer → Aggregator → List Text × Option Error
  write_to_writer writer pa = write_lines writer 0 (get_prefixes ip pa)

  -- `os.Create` gives a file to write to or fails.
  pub write_to_file : Option Writer → Aggregator → List Text × Option Error
  write_to_file none pa = ([], some Error.plain)
  write_to_file (some file) pa = write_to_writer file pa
