-- ===== src/Cli/Report.antt =====
-- The statistics that cmd/ipaggregator/main.go prints, and `formatBytes`. A `float64` of a size is a
-- whole number: the sizes are divided by powers of two only, which is exact.
use netjugo.Prelude.{
  ℕ, zero, suc, ◌+◌, ◌*◌, ◌/◌, ◌%◌, ◌^◌, List, [], ◌∷◌, ◌++◌, leb, ltb, ◌==◌, if◌then◌else◌, ℤ, pos,
  negsuc,
}
use netjugo.Text.{Text, codes}
use netjugo.Output.{Ratio, AggregationStats, MemoryStats}

-- The quotient, rounded to the nearest number, and halves to the even one.
unfoldable pub round_even : ℕ → ℕ → ℕ
round_even n d =
    let q = n / d in
    let twice = n % d * 2 in
    if ltb twice d then q else if ltb d twice then q + 1 else if q % 2 == 0 then q else q + 1

-- Rounded to 53 binary digits, from the last digit of value `d` on.
unfoldable pub float_from : ℕ → ℕ → ℕ → ℕ
float_from zero d n = round_even n d * d
float_from (suc left) d n =
    let next = float_from left (2 * d) n in if ltb n (2 ^ 53 * d) then round_even n d * d else next

-- `float64` of an `int64` that is not negative.
unfoldable pub float64 : ℕ → ℕ
float64 n = float_from 11 1 n

-- `%d` and `strconv.FormatInt`: the decimal digits before those of `rest`, in at most `left` rounds.
unfoldable pub decimal_from : ℕ → ℕ → Text → Text
decimal_from zero n rest = rest
decimal_from (suc left) n rest =
    let digit = b'0' + n % 10 in
    let more = decimal_from left (n / 10) (digit ∷ rest) in if ltb n 10 then digit ∷ rest else more

unfoldable pub decimal : ℕ → Text
decimal n = decimal_from (suc n) n []

-- `%.2f` of a number of hundredths.
unfoldable pub fixed_two : ℕ → Text
fixed_two h = decimal (h / 100) ++ (b'.' ∷ (b'0' + h / 10 % 10) ∷ (b'0' + h % 10) ∷ [])

-- `%.2f` of a size in a unit.
unfoldable pub in_unit : ℕ → ℕ → Text
in_unit n unit = fixed_two (round_even (float64 n * 100) unit)

unfoldable pub format_bytes : ℤ → Text
format_bytes (pos n) =
    if leb (2 ^ 30) n
    then in_unit n (2 ^ 30) ++ codes " GB"
    else if leb (2 ^ 20) n
    then in_unit n (2 ^ 20) ++ codes " MB"
    else if leb (2 ^ 10) n
    then in_unit n (2 ^ 10) ++ codes " KB"
    else decimal n ++ codes " B"
format_bytes (negsuc n) = (b'-' ∷ decimal (suc n)) ++ codes " B"

-- A line of the statistics: a heading, or a label with a number, a ratio in per cent, or a size.
pub data Line : Type 0 where
  heading : Text → Line
  number : Text → ℤ → Line
  percent : Text → Ratio → Line
  size : Text → Text → Line

pub stats_lines : AggregationStats → List Line
stats_lines stats =
    heading (codes "Aggregation Statistics:")
    ∷ number (codes "Original prefixes") (pos stats.original_count)
    ∷ number (codes "Aggregated prefixes") (pos stats.total_prefixes)
    ∷ number (codes "IPv4 prefixes") (pos stats.ipv4_prefix_count)
    ∷ number (codes "IPv6 prefixes") (pos stats.ipv6_prefix_count)
    ∷ percent (codes "Reduction ratio") stats.reduction_ratio
    ∷ number (codes "Processing time") (pos stats.processing_time_ms)
    ∷ size (codes "Memory usage") (format_bytes (pos stats.memory_usage_bytes))
    ∷ []

pub memory_lines : MemoryStats → List Line
memory_lines stats =
    heading (codes "Memory Statistics:")
    ∷ size (codes "Aggregator memory") (format_bytes (pos stats.aggregator_bytes))
    ∷ size (codes "System allocation") (format_bytes stats.alloc_bytes)
    ∷ size (codes "Total allocated") (format_bytes stats.total_alloc_bytes)
    ∷ size (codes "System memory") (format_bytes stats.sys_bytes)
    ∷ number (codes "GC runs") stats.num_gc
    ∷ []
