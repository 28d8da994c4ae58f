-- ===== src/PoolRuns.antt =====
-- The theorems on the pool at concrete pointers.
use netjugo.Prelude.{◌+◌, ◌≡◌, refl, arith, true, [], ◌∷◌, none}
use netjugo.IpText.Dotted.{dotted, is_digit, scan, read_addr, read_bits, cut_slash, read_prefix}
use netjugo.Errors.{ok}
use netjugo.Text.{is_space, trim_left, trim_space}
use netjugo.Parse.{parse_ip_prefix, with_range}
use netjugo.Validation.{prefix_to_uint256_range, ipv4_prefix_to_uint256_range, ipv4_range}
use netjugo.Uint256.Model.{numbers}
use netjugo.Parse.Laws.{ranged}
use netjugo.Aggregator.{Aggregator, new_prefix_aggregator, add_prefix}
use netjugo.Pool.{
  Pool, taken_back, newly_made, Pointers, no_pointers, include_pointers, reset_pointers, reset,
  release_all, release_ip_prefix, blank, write, Added, added_ipv4,
}
use netjugo.Pool.Stands.{values, Stands, IsApart}
use netjugo.Pool.Lived.{Lived, begun, then_added, then_reset, Lived-Stands}
use netjugo.Pool.Shared.{reset_pointers-overwritten}
use netjugo.Runs.{base, lower, lower_read, upper}

-- Pointer 0 in the list, 1 in the inclusions.
abbrev two_held : Pointers
two_held = record no_pointers { ipv4_prefixes = 0 ∷ []; include_ipv4 = 1 ∷ [] }

abbrev two_made : Pool
two_made = record { free = []; next = 2; store = λ q. blank }

upper_read : parse_ip_prefix numbers dotted upper ≡ ok (ranged true (base + 130) 7)
unfolding parse_ip_prefix with_range is_space trim_left trim_space dotted is_digit scan read_addr
    read_bits cut_slash read_prefix prefix_to_uint256_range ipv4_prefix_to_uint256_range ipv4_range
upper_read = refl

-- The first prefix that is added after the reset is gone, the second one is there twice.
reset_pointers-overwritten_example :
    (next : Pointers) × (first : Pool) × (last : Pointers) × (after : Pool) × Added numbers dotted
      lower
      (reset_pointers (include_pointers two_held) two_made).0
      (reset_pointers (include_pointers two_held) two_made).1
      next
      first
      none
    × Added numbers dotted upper next first last after none
    × (values after.store last.ipv4_prefixes
        ≡ ranged true (base + 130) 7 ∷ ranged true (base + 130) 7 ∷ [])
reset_pointers-overwritten_example =
    reset_pointers-overwritten numbers dotted lower upper (ranged true base 7)
      (ranged true (base + 130) 7) lower_read upper_read refl refl two_held two_made 1 (omega arith)

-- A prefix is added, the aggregator is reset, and the prefix is added again, at the same pointer.
abbrev empty_pool : Pool
empty_pool = record { free = []; next = 0; store = λ q. blank }

abbrev first_made : Pool
first_made = record { free = []; next = 1; store = write 0 blank empty_pool.store }

abbrev first_added : Pool
first_added = record first_made { store = write 0 (ranged true base 7) first_made.store }

abbrev one_held : Pointers
one_held = record no_pointers { ipv4_prefixes = 0 ∷ [] }

abbrev one_state : Aggregator
one_state = (add_prefix numbers dotted lower new_prefix_aggregator).0

one_state-Lived : Lived numbers dotted one_held first_added one_state
one_state-Lived =
    then_added lower (begun empty_pool (record { once = λ r. omega arith; made = λ r le. refl }))
      (added_ipv4 (ranged true base 7) 0 first_made lower_read refl newly_made)

abbrev given_back : Pool
given_back = record first_added { free = 0 ∷ []; store = write 0 blank first_added.store }

abbrev taken_again : Pool
taken_again = record given_back { free = []; store = write 0 (ranged true base 7) given_back.store }

reset_lem : reset_pointers one_held first_added ≡ (no_pointers, given_back)
unfolding reset_pointers release_all release_ip_prefix
reset_lem = refl

two_calls-Lived :
    Lived numbers dotted one_held taken_again
      (add_prefix numbers dotted lower (reset one_held first_added one_state).1.0).0
unfolding reset reset_pointers release_all release_ip_prefix
two_calls-Lived = then_added lower (then_reset one_state-Lived) (
    added_ipv4 (ranged true base 7) 0 (record given_back { free = [] }) lower_read refl
      (taken_back [] [] 0 refl))

Lived-Stands_example :
    Stands one_held taken_again.store
      (add_prefix numbers dotted lower (reset one_held first_added one_state).1.0).0
    × IsApart one_held taken_again
Lived-Stands_example = Lived-Stands numbers dotted two_calls-Lived
