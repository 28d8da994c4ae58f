-- ===== src/LimitRuns.antt =====
-- The theorem on the limit of the passes, at a concrete list.
use netjugo.Prelude.{
  ℕ, zero, suc, ◌+◌, ◌*◌, ◌^◌, ◌≤◌, ◌<◌, ◌≡◌, refl, arith, true, false, List, [], ◌∷◌, none, some,
  length, All, Chain,
}
use netjugo.Errors.{Error}
use netjugo.Uint256.Model.{numbers}
use netjugo.IpPrefix.{IpPrefix}
use netjugo.Validation.Blocks.{prefix_of}
use netjugo.Algorithms.{contains, are_adjacent, overlaps, join, aggregate_loop, aggregate_prefixes}
use netjugo.Algorithms.Ranges.{contains_lem, are_adjacent_lem, overlaps_lem}
use netjugo.Algorithms.Pass.{Apart}
use netjugo.Algorithms.Limit.{aggregate_prefixes_stops}

-- 10.0.0.0/8, and every second address of it.
abbrev wide : IpPrefix
wide = record { prefix = prefix_of true 0xA000000 24; min = 0xA000000; max = 0xAFFFFFF }

abbrev single : ℕ → IpPrefix
single k = record { prefix = prefix_of true k 0; min = k; max = k }

abbrev every_second : ℕ → ℕ → List IpPrefix
every_second zero k = []
every_second (suc n) k = single k ∷ every_second n (k + 2)

every_second_length : (n k : ℕ) → length (every_second n k) ≡ n
every_second_length zero k = refl
every_second_length (suc n) k = omega (arith, every_second_length n (k + 2))

single-Apart : (k : ℕ) → k + 2 < 2 ^ 32 → Apart numbers (single k) (single (k + 2))
unfolding join
single-Apart k fits =
    let t : contains numbers (single k) (single (k + 2)) ≡ false =
      ground (arith, contains_lem numbers (single k) (single (k + 2))) in
    let t' : contains numbers (single (k + 2)) (single k) ≡ false =
      ground (arith, contains_lem numbers (single (k + 2)) (single k)) in
    let s : are_adjacent numbers (single k) (single (k + 2)) ≡ false =
      ground
        (arith, are_adjacent_lem numbers (single k) (single (k + 2)) (omega arith) (omega arith)) in
    let s' : overlaps numbers (single k) (single (k + 2)) ≡ false =
      ground (arith, overlaps_lem numbers (single k) (single (k + 2))) in
    rw (t, t', s, s') refl

every_second-Apart : (n k : ℕ) → k + 2 * n < 2 ^ 32 → Chain (Apart numbers) (every_second n k)
every_second-Apart zero k fits = tt
every_second-Apart (suc zero) k fits = tt
every_second-Apart (suc (suc n)) k fits =
    (single-Apart k (omega arith), every_second-Apart (suc n) (k + 2) (omega arith))

every_second_within :
    (n k : ℕ)
    → 0xA000000 ≤ k
    → k + 2 * n ≤ 0xAFFFFFF
    → All (λ p. contains numbers wide p ≡ true) (every_second n k)
every_second_within zero k low high = tt
every_second_within (suc n) k low high = (
  ground (arith, contains_lem numbers wide (single k)),
  every_second_within n (k + 2) (omega arith) (omega arith),
)

aggregate_prefixes_stops_example :
    ((aggregate_prefixes numbers (wide ∷ every_second 5000 0xA000000)).1 ≡ some Error.plain)
    × (aggregate_loop numbers
          (suc (suc (length (every_second 5000 0xA000000))))
          (wide ∷ every_second 5000 0xA000000)
        ≡ (wide ∷ [], none))
aggregate_prefixes_stops_example =
    aggregate_prefixes_stops numbers wide (every_second 5000 0xA000000)
      (every_second_within 5000 0xA000000 (omega arith) (omega arith))
      (every_second-Apart 5000 0xA000000 (omega arith))
      (omega (arith, every_second_length 5000 0xA000000))
