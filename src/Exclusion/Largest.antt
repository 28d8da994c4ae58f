-- ===== src/Exclusion/Largest.antt =====
-- `findLargestValidPrefix`: the block that it finds, and that no block from the same address within
-- the limit is larger.
use native.Mathlib.Nat.{div-add-mod', mul-mod_left}
use netjugo.Prelude.{
  ℕ, zero, suc, ◌+◌, ◌-◌, ◌*◌, ◌/◌, ◌%◌, ◌^◌, ◌≤◌, ◌<◌, ◌≡◌, refl, sym, ap, ◌∙◌, arith, Bool, true,
  false, ◌&&◌, Bool-cases, inl, inr, Option, some, none, drop, of_bytes-be_bytes, leb, ltb, ◌==◌,
  if◌then◌else◌, pos, ℕ_discrete,
}
use netjugo.Prelude.Powers.{pow_pos, pow_mono}
use netjugo.Errors.{ok}
use netjugo.Netip.{v4, v6, addr_from_slice, addr_prefix, is_valid_addr}
use netjugo.Uint256.{Uint256, eq_zero, le_zero}
use netjugo.IpPrefix.{IpPrefix, IsBlock, width}
use netjugo.Validation.{prefix_to_uint256_range}
use netjugo.Validation.Blocks.{
  family_addr, prefix_of, prefix_to_uint256_range_aligned, IsBlock-of_range,
}
use netjugo.Exclusion.{
  start_addr, try_length, search_length, count_trailing_zeros, find_largest_valid_prefix,
}
use netjugo.Exclusion.Zeros.{count_trailing_zeros_lem}

-- The block of 2^h addresses from `start`, and whether there is one that ends within `allowed`.
abbrev pub block_at : Bool → ℕ → ℕ → IpPrefix
block_at f start h = record { prefix = prefix_of f start h; min = start; max = start + (2 ^ h - 1) }

abbrev pub fits_at : ℕ → ℕ → ℕ → Bool
fits_at start allowed h = start % 2 ^ h == 0 && leb (start + (2 ^ h - 1)) allowed

-- What is found where a block of 2^h addresses is tried.
abbrev pub found_at : Bool → ℕ → ℕ → ℕ → Option (IpPrefix × ℕ)
found_at f start allowed h =
    if fits_at start allowed h then some (block_at f start h, start + (2 ^ h - 1)) else none

module _ (u : Uint256) (f : Bool) (start allowed : ℕ) (ordered : start ≤ allowed)
    (bounded : allowed < 2 ^ width f) where
  start_addr_lem : start_addr u start f ≡ family_addr f start
  start_addr_lem = by_family f bounded
    where
      by_family : (g : Bool) → allowed < 2 ^ width g → start_addr u start g ≡ family_addr g start
      by_family true lt =
          ap (λ bs. addr_from_slice (drop 28 bs)) (u.bytes32_lem start (omega arith))
          ∙ ap v4 (of_bytes-be_bytes 4 start (omega arith))
      by_family false lt =
          ap (λ bs. addr_from_slice (drop 16 bs)) (u.bytes32_lem start (omega arith))
          ∙ ap v6 (of_bytes-be_bytes 16 start (omega arith))

  -- The masked address, with `h` host bits.
  abbrev pub masked : ℕ → ℕ
  masked h = start / 2 ^ h * 2 ^ h

  pub addr_prefix_lem :
      (k : ℕ)
      → k ≤ width f
      → addr_prefix (family_addr f start) (pos k)
        ≡ ok (prefix_of f (masked (width f - k)) (width f - k))
  addr_prefix_lem k le = by_family f le
    where
      by_family :
          (g : Bool)
          → k ≤ width g
          → addr_prefix (family_addr g start) (pos k)
            ≡ ok (prefix_of g (masked (width g - k)) (width g - k))
      by_family true le' =
          let t : ltb 32 k ≡ false = ground arith in
          let t' : ltb k 0 ≡ false = ground arith in
          let back : 32 - (32 - k) ≡ k = omega arith in rw (t, t', back)
      by_family false le' =
          let t : ltb 128 k ≡ false = ground arith in
          let t' : ltb k 0 ≡ false = ground arith in
          let back : 128 - (128 - k) ≡ k = omega arith in rw (t, t', back)

  -- The code's test on the range of the masked address `m`.
  range_test :
      (h m : ℕ)
      → (m == start) ≡ (start % 2 ^ h == 0)
      → (if eq_zero (u.cmp m start) && le_zero (u.cmp (m + (2 ^ h - 1)) allowed)
          then some
              (record { prefix = prefix_of f m h; min = m; max = m + (2 ^ h - 1) }, m + (2 ^ h - 1))
          else none)
        ≡ found_at f start allowed h
  range_test h m e = elim (ℕ_discrete m start) [
    | yes same ↦
        let test : (eq_zero (u.cmp start start) && le_zero (u.cmp (start + (2 ^ h - 1)) allowed))
            ≡ fits_at start allowed h =
          ground (arith, u.cmp_lem start start, u.cmp_lem (start + (2 ^ h - 1)) allowed) in
        rw (same, test)
    | no other ↦
        let test : eq_zero (u.cmp m start) ≡ false = ground (arith, u.cmp_lem m start) in
        let test' : fits_at start allowed h ≡ false = ground arith in rw (test, test')
  ]

  -- One length: the bound by the trailing zeros refuses no length that fits.
  try_length_lem :
      (k : ℕ)
      → k ≤ width f
      → try_length u
          (family_addr f start)
          start
          allowed
          (count_trailing_zeros u start f)
          (width f)
          k
        ≡ found_at f start allowed (width f - k)
  unfolding try_length
  try_length_lem k le =
      let h = width f - k in
      let low : masked h ≤ start = omega (arith, div-add-mod' start (2 ^ h)) in
      let range : prefix_to_uint256_range u (prefix_of f (masked h) h)
          ≡ ok (masked h, masked h + (2 ^ h - 1)) =
        prefix_to_uint256_range_aligned u f (masked h) h (omega arith) (omega arith)
          (mul-mod_left (start / 2 ^ h) (2 ^ h)) in
      let same : (masked h == start) ≡ (start % 2 ^ h == 0) =
        ground (arith, div-add-mod' start (2 ^ h)) in
      elim (Bool-cases (ltb (count_trailing_zeros u start f) h)) [
        | inl e ↦
            let fails : fits_at start allowed h ≡ false =
              ground (arith, count_trailing_zeros_lem u f start h) in
            rw (e, fails)
        | inr e ↦ rw (e, addr_prefix_lem k le, range) (range_test h (masked h) same)
      ]

  -- The first length that fits is that of the block with the most addresses.
  abbrev Largest : ℕ → Type 0
  Largest h =
      (h ≤ width f)
      × (fits_at start allowed h ≡ true)
      × ((h' : ℕ) → h' ≤ width f → fits_at start allowed h' ≡ true → h' ≤ h)

  abbrev found : ℕ → IpPrefix × ℕ
  found h = (block_at f start h, start + (2 ^ h - 1))

  next_tried :
      (k : ℕ)
      → fits_at start allowed (width f - k) ≡ false
      → (h : ℕ) → fits_at start allowed h ≡ true
      → h + k ≤ width f
      → h + (k + 1) ≤ width f
  next_tried k fails h fits le = elim (ℕ_discrete h (width f - k)) [
    | yes e ↦ absurd (cc)
    | no other ↦ omega arith
  ]

  abbrev tried_at : ℕ → Option (IpPrefix × ℕ)
  tried_at k =
      try_length u (family_addr f start) start allowed (count_trailing_zeros u start f) (width f) k

  tried_fits :
      (k : ℕ)
      → k ≤ width f
      → fits_at start allowed (width f - k) ≡ true
      → tried_at k ≡ some (found (width f - k))
  tried_fits k le fits = rw (try_length_lem k le, fits)

  tried_fails :
      (k : ℕ) → k ≤ width f → fits_at start allowed (width f - k) ≡ false → tried_at k ≡ none
  tried_fails k le fails = rw (try_length_lem k le, fails)

  search_length_lem :
      (left k : ℕ)
      → left + k ≡ width f + 1
      → ((h : ℕ) → h ≤ width f → fits_at start allowed h ≡ true → h + k ≤ width f)
      → (h : ℕ) × Largest h
        × (search_length u
              (family_addr f start)
              start
              allowed
              (count_trailing_zeros u start f)
              (width f)
              left
              k
            ≡ some (found h))
  unfolding search_length
  search_length_lem zero k e tried =
      let single : fits_at start allowed 0 ≡ true = ground arith in
      absurd (omega (arith, tried 0 (omega arith) single))
  search_length_lem (suc left) k e tried = elim (Bool-cases (fits_at start allowed (width f - k))) [
    | inl fits ↦
        let here = tried_fits k (omega arith) fits in
        let largest : Largest (width f - k) =
          (omega arith, fits, λ h le t. omega (arith, tried h le t)) in
        (width f - k, largest, rw (here, search_length))
    | inr fails ↦
        let here = tried_fails k (omega arith) fails in
        let next = λ (h : ℕ) (le : h ≤ width f) (t : fits_at start allowed h ≡ true).
          next_tried k fails h t (tried h le t) in
        let (h, largest, rest) = search_length_lem left (k + 1) (omega arith) next in
        (h, largest, rw (here, search_length) rest)
  ]

  some_length : (h : ℕ) × Largest h × (find_largest_valid_prefix u start allowed f ≡ ok (found h))
  unfolding find_largest_valid_prefix
  some_length =
      let (h, largest, e) =
        search_length_lem (width f + 1) 0 (omega arith) (λ h le t. omega arith) in
      (h, largest, rw (start_addr_lem, valid, e))
    where
      valid : is_valid_addr (family_addr f start) ≡ true
      valid = by_family f
        where
          by_family : (g : Bool) → is_valid_addr (family_addr g start) ≡ true
          by_family true = refl
          by_family false = refl

  -- From an address that is not above the limit, within the family, a block is found that begins
  -- there and ends within the limit, and its end is returned with it.
  pub find_largest_valid_prefix-IsBlock :
      (p : IpPrefix) × (find_largest_valid_prefix u start allowed f ≡ ok (p, p.max))
      × IsBlock f p
      × (p.min ≡ start)
      × (p.max ≤ allowed)
  find_largest_valid_prefix-IsBlock =
      let (h, (le, fits, most), e) = some_length in
      let aligned : start % 2 ^ h ≡ 0 = ground arith in
      let within : start + (2 ^ h - 1) ≤ allowed = ground arith in
      let block =
        IsBlock-of_range f start (start + (2 ^ h - 1)) h (omega arith) le aligned
          (omega (arith, pow_pos h)) in
      (block_at f start h, e, block, refl, within)

  -- The block that is found reaches at least as far as every other block from the same address
  -- within the limit.
  pub find_largest_valid_prefix_lem :
      (h : ℕ) (p : IpPrefix) (end : ℕ)
      → h ≤ width f
      → start % 2 ^ h ≡ 0
      → start + (2 ^ h - 1) ≤ allowed
      → find_largest_valid_prefix u start allowed f ≡ ok (p, end)
      → start + (2 ^ h - 1) ≤ p.max
  find_largest_valid_prefix_lem h p end le aligned within e =
      let (h', (le', fits, most), e') = some_length in
      let same : found h' ≡ (p, end) = ok_injective (sym e' ∙ e) in
      let fewer : 2 ^ h ≤ 2 ^ h' = pow_mono (most h le (ground arith)) in
      omega (arith, ap (λ r. r.0.max) same)
    where
      ok_injective : {r s : IpPrefix × ℕ} → ok r ≡ ok s → r ≡ s
      ok_injective t = cc
