-- ===== src/BestRuns.antt =====
-- The theorems on whole runs of an aggregator, at concrete states.
use netjugo.Prelude.{
  ℕ, ◌+◌, ◌≤◌, ◌<◌, ◌≡◌, refl, sym, ap, subst, ◌∙◌, arith, Bool, true, false, List, [], ◌∷◌, ◌++◌,
  All, length, none,
}
use netjugo.IpText.Dotted.{
  dotted, print_prefix, octet_text, is_digit, scan, read_bits, cut_slash, read_prefix,
}
use netjugo.Text.{is_space}
use netjugo.Output.{Writer, write_to_writer, write_lines, get_prefixes, strings}
use netjugo.Output.Laws.{ended}
use netjugo.Reader.{Scanned, add_from_reader}
use netjugo.Reader.Written.{IsPrinted, AllPrinted}
use netjugo.Lifecycle.Written.{add_from_reader-write_to_writer}
use netjugo.Uint256.Model.{numbers}
use netjugo.Sorting.Insertion.{by_insertion}
use netjugo.IpPrefix.{IpPrefix, IsBlock, covers}
use netjugo.Algorithms.{max_iterations}
use netjugo.Parse.Laws.{ranged}
use netjugo.Parse.Blocks.{ranged-IsBlock}
use netjugo.Aggregator.{Aggregator, new_prefix_aggregator}
use netjugo.Aggregator.Lists.{add_prefix_ipv4}
use netjugo.Maximal.Unique.{ranges}
use netjugo.Optimize.{aggregate}
use netjugo.Optimize.Family.{IsRoundedTo}
use netjugo.Optimize.Whole.{IsReady}
use netjugo.Optimize.Best.{
  list_of, wanted_of, excluded_of, number_of, wanted-IsBlock, AreAlike, aggregated-IsOptimized,
  aggregate_fewest, aggregate_unique,
}
use netjugo.Lifecycle.{IsSmall}
use netjugo.Lifecycle.Again.{same_settings, Reached-again}
use netjugo.Runs.{base, lower, lower_read, one_added, one_added-Reached, one_added-IsSmall}

-- 10.0.0.0/25 and 10.0.0.128/25, and both in one prefix.
abbrev halves : List IpPrefix
halves = ranged true base 7 ∷ ranged true (base + 128) 7 ∷ []

-- A state with IPv4 prefixes and inclusions and no other settings.
abbrev plain : List IpPrefix → List IpPrefix → ℕ → Aggregator
plain l m count = record new_prefix_aggregator {
  ipv4_prefixes = l;
  include_ipv4 = m;
  original_count = count;
}

plain-IsReady :
    (l m : List IpPrefix) (count : ℕ)
    → All (IsBlock true) (l ++ m)
    → length l + length m < max_iterations
    → IsReady (plain l m count)
plain-IsReady l m count blocks few = record {
  min_ipv4 = 0;
  min_ipv6 = 0;
  min_ipv4_fits = omega arith;
  min_ipv6_fits = omega arith;
  set_ipv4 = refl;
  set_ipv6 = refl;
  blocks_ipv4 = blocks;
  blocks_ipv6 = tt;
  few_ipv4 = few;
  few_ipv6 = omega arith;
  exclusions_ipv4 = tt;
  exclusions_ipv6 = tt;
}

abbrev halves_state : Aggregator
halves_state = plain halves [] 0

abbrev whole_state : Aggregator
whole_state = plain [] (ranged true base 8 ∷ []) 0

-- The state after one prefix is read.
abbrev one_held : Aggregator
one_held = plain (ranged true base 7 ∷ []) [] 1

low-IsBlock : IsBlock true (ranged true base 7)
low-IsBlock = ranged-IsBlock true base 7 (omega arith) (omega arith) refl

halves_state-IsReady : IsReady halves_state
halves_state-IsReady =
    plain-IsReady halves [] 0
      (low-IsBlock, (ranged-IsBlock true (base + 128) 7 (omega arith) (omega arith) refl, tt))
      (omega arith)

whole_state-IsReady : IsReady whole_state
whole_state-IsReady =
    plain-IsReady [] (ranged true base 8 ∷ []) 0
      (ranged-IsBlock true base 8 (omega arith) (omega arith) refl, tt) (omega arith)

one_held-IsReady : IsReady one_held
one_held-IsReady = plain-IsReady (ranged true base 7 ∷ []) [] 1 (low-IsBlock, tt) (omega arith)

-- Without a minimum length and exclusions, the addresses stay.
plain_alike :
    (f : Bool) (pa : Aggregator) (ready : IsReady pa)
    → (number_of f pa ready).0 ≡ 0
    → excluded_of f pa ≡ []
    → AreAlike (wanted_of f pa) (list_of f (aggregate numbers by_insertion 7 pa).0)
plain_alike f pa ready unset free x =
    let o = aggregated-IsOptimized numbers by_insertion 7 pa f ready in
    let whole : o.rounded ≡ wanted_of f pa =
      subst (λ n. IsRoundedTo f n (wanted_of f pa) o.rounded) unset o.around in
    ground (arith, o.exact x, ap (λ l. covers l x) whole, ap (λ l. covers l x) free)

same_addresses : AreAlike (wanted_of true halves_state) (wanted_of true whole_state)
same_addresses x = ground arith

-- The two prefixes become one.
aggregate_fewest_example :
    length (list_of true (aggregate numbers by_insertion 7 halves_state).0) ≤ 1
unfolding halves_state-IsReady plain-IsReady
aggregate_fewest_example =
    aggregate_fewest numbers by_insertion 7 halves_state true (wanted_of true whole_state)
      halves_state-IsReady (wanted-IsBlock true whole_state whole_state-IsReady)
      (λ x. sym (same_addresses x) ∙ plain_alike true halves_state halves_state-IsReady refl refl x)

aggregate_unique_example :
    ranges (list_of true (aggregate numbers by_insertion 7 halves_state).0)
    ≡ ranges (list_of true (aggregate numbers by_insertion 8 whole_state).0)
aggregate_unique_example =
    aggregate_unique numbers by_insertion by_insertion 7 8 true halves_state whole_state
      halves_state-IsReady whole_state-IsReady refl same_addresses (λ x. refl)

one_added_lem : one_added ≡ one_held
one_added_lem =
    ap (λ r. r.0)
      (add_prefix_ipv4 numbers dotted lower new_prefix_aggregator (ranged true base 7) lower_read
        refl)

-- Without a minimum length and exclusions, aggregation does not lengthen a list.
no_longer :
    (f : Bool) (pa : Aggregator) (ready : IsReady pa)
    → (number_of f pa ready).0 ≡ 0
    → excluded_of f pa ≡ []
    → length (list_of f (aggregate numbers by_insertion 7 pa).0) ≤ length (wanted_of f pa)
no_longer f pa ready unset free =
    aggregate_fewest numbers by_insertion 7 pa f (wanted_of f pa) ready (wanted-IsBlock f pa ready)
      (plain_alike f pa ready unset free)

still-IsSmall : IsSmall (aggregate numbers by_insertion 7 one_added).0
unfolding one_held-IsReady plain-IsReady
still-IsSmall =
    let four = no_longer true one_held one_held-IsReady refl refl in
    let six = no_longer false one_held one_held-IsReady refl refl in
    let included = same_settings numbers by_insertion 7 one_held one_held-IsReady in
    subst (λ pa. IsSmall (aggregate numbers by_insertion 7 pa).0) (sym one_added_lem)
      (record {
        few_ipv4 = omega (arith, four, ap length (included true).0);
        few_ipv6 = omega (arith, six, ap length (included false).0);
      })

Reached-again_example :
    ranges (
      list_of true
        (aggregate numbers by_insertion 8 (aggregate numbers by_insertion 7 one_added).0).0)
    ≡ ranges (list_of true (aggregate numbers by_insertion 7 one_added).0)
Reached-again_example =
    Reached-again numbers by_insertion dotted 7 8 true one_added-Reached one_added-IsSmall
      still-IsSmall

-- What is written for the state, and read again.
abbrev written_lines : Scanned
written_lines = record { lines = lower ∷ []; failed = false }

lower-IsPrinted : IsPrinted dotted (ranged true base 7).prefix
unfolding dotted print_prefix octet_text is_space is_digit scan read_bits cut_slash read_prefix
lower-IsPrinted = record { trimmed = (refl, refl); slash = refl; no_comment = refl; reads = refl }

abbrev works : Writer
works n = false

one_held-written :
    ((write_to_writer dotted works one_held).1 ≡ none)
    × (ended written_lines.lines ≡ (write_to_writer dotted works one_held).0)
unfolding write_to_writer write_lines get_prefixes strings dotted print_prefix octet_text
one_held-written = (refl, refl)

one_added_written :
    AllPrinted dotted one_added.ipv4_prefixes
    × AllPrinted dotted one_added.ipv6_prefixes
    × ((write_to_writer dotted works one_added).1 ≡ none)
    × (ended written_lines.lines ≡ (write_to_writer dotted works one_added).0)
one_added_written =
    subst
      (λ pa.
        AllPrinted dotted pa.ipv4_prefixes
        × AllPrinted dotted pa.ipv6_prefixes
        × ((write_to_writer dotted works pa).1 ≡ none)
        × (ended written_lines.lines ≡ (write_to_writer dotted works pa).0))
      (sym one_added_lem) ((lower-IsPrinted, tt), tt, one_held-written.0, one_held-written.1)

add_from_reader-write_to_writer_example :
    add_from_reader numbers dotted written_lines new_prefix_aggregator ≡ (
      record new_prefix_aggregator {
        ipv4_prefixes = one_added.ipv4_prefixes;
        ipv6_prefixes = one_added.ipv6_prefixes;
        original_count = length one_added.ipv4_prefixes + length one_added.ipv6_prefixes;
      },
      none,
    )
add_from_reader-write_to_writer_example =
    add_from_reader-write_to_writer numbers by_insertion dotted works written_lines
      one_added-Reached one_added_written.0 one_added_written.1 one_added_written.2
      one_added_written.3 refl
