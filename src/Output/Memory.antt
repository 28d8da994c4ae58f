-- ===== src/Output/Memory.antt =====
-- The memory estimate of aggregator.go, by what is counted in it.
use native.Mathlib.Nat.{add-mul}
use netjugo.Prelude.{ℕ, suc, ◌+◌, ◌*◌, ◌≡◌, refl, arith, true, List, [], ◌∷◌, length, keep, ltb}
use netjugo.IpPrefix.{IpPrefix}
use netjugo.Aggregator.{Aggregator}
use netjugo.Output.{
  Sizes, Capacities, prefixes_memory, calculate_prefix_slice_memory, calculate_memory_usage,
}

-- A list of prefixes with its capacity.
abbrev pub Slice : Type 0
Slice = List IpPrefix × ℕ

abbrev pub all_slices : Capacities → Aggregator → List Slice
all_slices cap pa =
    (pa.ipv4_prefixes, cap.ipv4_prefixes)
    ∷ (pa.ipv6_prefixes, cap.ipv6_prefixes)
    ∷ (pa.include_ipv4, cap.include_ipv4)
    ∷ (pa.include_ipv6, cap.include_ipv6)
    ∷ (pa.exclude_ipv4, cap.exclude_ipv4)
    ∷ (pa.exclude_ipv6, cap.exclude_ipv6)
    ∷ []

-- The slices that hold a prefix.
abbrev pub in_use : List Slice → List Slice
in_use = keep (λ s. ltb 0 (length s.0))

abbrev pub total : (Slice → ℕ) → List Slice → ℕ
total f [] = 0
total f (s ∷ l) = f s + total f l

module _ (sizes : Sizes) where
  -- What the slices in use take.
  abbrev pub taken_by : List Slice → ℕ
  taken_by l =
      length l * sizes.slice
      + total (λ s. s.1) l * sizes.pointer
      + total (λ s. length s.0) l * (sizes.ip_prefix + 2 * sizes.integer)

  prefixes_memory_lem :
      (l : List IpPrefix)
      → prefixes_memory sizes l ≡ length l * (sizes.ip_prefix + 2 * sizes.integer)
  unfolding prefixes_memory
  prefixes_memory_lem [] = omega arith
  prefixes_memory_lem (p ∷ l) = omega (arith, prefixes_memory_lem l)

  slice_memory : Slice → ℕ
  slice_memory s = calculate_prefix_slice_memory sizes s.0 s.1

  some_memory :
      (p : IpPrefix) (ps : List IpPrefix) (c : ℕ)
      → slice_memory (p ∷ ps, c)
        ≡ sizes.slice + c * sizes.pointer + suc (length ps) * (sizes.ip_prefix + 2 * sizes.integer)
  unfolding slice_memory calculate_prefix_slice_memory
  some_memory p ps c = ground (arith, prefixes_memory_lem (p ∷ ps))

  slices_lem : (l : List Slice) → total slice_memory l ≡ taken_by (in_use l)
  slices_lem [] = omega arith
  slices_lem (([], c) ∷ l) =
      let none_held : slice_memory ([], c) ≡ 0 =
        unfold slice_memory calculate_prefix_slice_memory in refl in
      omega (arith, none_held, slices_lem l)
  slices_lem ((p ∷ ps, c) ∷ l) =
      let held : ltb 0 (suc (length ps)) ≡ true = ground arith in
      rw held (
        omega (
          arith,
          slices_lem l,
          some_memory p ps c,
          add-mul c (total (λ s. s.1) (in_use l)) sizes.pointer,
          add-mul (suc (length ps)) (total (λ s. length s.0) (in_use l))
              (sizes.ip_prefix + 2 * sizes.integer),
        ))

  -- The estimate of the memory is the size of the aggregator and, over those of the six lists that
  -- hold a prefix, the size of a slice for each list, the size of a pointer for each place that
  -- they reserve, and the size of a prefix and of two integers for each prefix that they hold; a
  -- list without a prefix adds nothing, whatever it reserves.
  pub calculate_memory_usage_lem :
      (cap : Capacities) (pa : Aggregator)
      → calculate_memory_usage sizes cap pa
        ≡ sizes.aggregator + taken_by (in_use (all_slices cap pa))
  unfolding calculate_memory_usage slice_memory
  calculate_memory_usage_lem cap pa = omega (arith, slices_lem (all_slices cap pa))
