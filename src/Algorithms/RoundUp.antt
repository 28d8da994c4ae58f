-- ===== src/Algorithms/RoundUp.antt =====
-- `roundUpToMinLength` and the loops over it: the block of the minimum length around each prefix.
use native.Mathlib.Nat.{div-add-mod', mul-mod_left, mod-lt}
use netjugo.Prelude.{
  ℕ, ◌+◌, ◌-◌, ◌*◌, ◌/◌, ◌^◌, ◌≤◌, ◌<◌, ◌≡◌, ◌⊎◌, refl, ap, ◌∙◌, arith, Bool, true, false,
  Bool-cases, inl, inr, List, [], ◌∷◌, suc, length, ◌==◌, All, leb, if◌then◌else◌, pos, leb_ℤ,
}
use netjugo.Prelude.Powers.{pow_pos}
use netjugo.Errors.{Result, ok}
use netjugo.Netip.{value, addr_prefix}
use netjugo.Uint256.{Uint256}
use netjugo.IpPrefix.{IpPrefix, IsBlock, width}
use netjugo.Validation.{prefix_to_uint256_range}
use netjugo.Validation.Blocks.{
  family_addr-value, prefix_of, block_end_lt, prefix_to_uint256_range_aligned, IsBlock-of_range,
}
use netjugo.Algorithms.{round_up_to_min_length, round_up_all, enforce_min_prefix_length}
use netjugo.Algorithms.Nested.{smaller-Within}
use netjugo.Exclusion.Largest.{addr_prefix_lem}

-- A call returns a block around `p` that is not longer than `n`: `p` itself, or the one of length
-- `n`.
pub record IsRounded (f : Bool) (n : ℕ) (p : IpPrefix) (r : Result IpPrefix) : Type 0 where
  pub rounded : IpPrefix
  pub returned : r ≡ ok rounded
  pub block : IsBlock f rounded
  pub short : width f ≤ n + block.host
  pub tight : (rounded ≡ p) ⊎ (block.host ≡ width f - n)
  pub low : rounded.min ≤ p.min
  pub high : p.max ≤ rounded.max

-- A call returns such a block for each prefix of `l`.
abbrev pub AllRounded : Bool → ℕ → List IpPrefix → List IpPrefix → Type 0
AllRounded f n [] [] = Unit
AllRounded f n [] (q ∷ r) = ⊥
AllRounded f n (p ∷ l) [] = ⊥
AllRounded f n (p ∷ l) (q ∷ r) = IsRounded f n p (ok q) × AllRounded f n l r

module _ (u : Uint256) (f : Bool) (n : ℕ) (fits : n ≤ width f) where
  module _ (p : IpPrefix) (block : IsBlock f p) where
    abbrev address : ℕ
    address = value p.prefix.addr

    -- The block of the minimum length around the address.
    abbrev start : ℕ
    start = address / 2 ^ (width f - n) * 2 ^ (width f - n)

    abbrev around : IpPrefix
    around = record {
      prefix = prefix_of f start (width f - n);
      min = start;
      max = start + (2 ^ (width f - n) - 1);
    }

    around-IsBlock : IsBlock f around
    around-IsBlock =
        let h = width f - n in
        let low : start ≤ address = omega (arith, div-add-mod' address (2 ^ h)) in
        let aligned = mul-mod_left (address / 2 ^ h) (2 ^ h) in
        IsBlock-of_range f start (start + (2 ^ h - 1)) h
          (block_end_lt (width f) start h (omega (arith, low, block.le_max, block.bounded))
            (omega arith) aligned)
          (omega arith) aligned (omega (arith, pow_pos h))

    around_host : around-IsBlock.host ≡ width f - n
    around_host = omega (arith, around-IsBlock.host_fits, pos_injective around-IsBlock.length)
      where
        pos_injective : {a b : ℕ} → pos a ≡ pos b → a ≡ b
        pos_injective e = cc

    address_lt : address < 2 ^ width f
    address_lt = omega (arith, block.le_max, block.bounded)

    prefix_lem : addr_prefix p.prefix.addr (pos n) ≡ ok (prefix_of f start (width f - n))
    prefix_lem =
        ap (λ a. addr_prefix a (pos n)) (family_addr-value f p.prefix.addr block.family block.valid)
        ∙ addr_prefix_lem u f address address (omega arith) address_lt n fits

    range_lem :
        prefix_to_uint256_range u (prefix_of f start (width f - n))
        ≡ ok (start, start + (2 ^ (width f - n) - 1))
    range_lem =
        let h = width f - n in
        let low : start ≤ address = omega (arith, div-add-mod' address (2 ^ h)) in
        let lt = address_lt in
        prefix_to_uint256_range_aligned u f start h (omega arith) (omega arith)
          (mul-mod_left (address / 2 ^ h) (2 ^ h))

    rounds_to : leb_ℤ p.prefix.bits (pos n) ≡ false → round_up_to_min_length u p (pos n) ≡ ok around
    unfolding round_up_to_min_length
    rounds_to longer = rw (longer, prefix_lem, range_lem)

    stays : leb_ℤ p.prefix.bits (pos n) ≡ true → round_up_to_min_length u p (pos n) ≡ ok p
    unfolding round_up_to_min_length
    stays shorter = rw shorter

    round_up_to_min_length-IsRounded : IsRounded f n p (round_up_to_min_length u p (pos n))
    round_up_to_min_length-IsRounded = elim (Bool-cases (leb_ℤ p.prefix.bits (pos n))) [
      | inl shorter ↦
          let le : width f - block.host ≤ n =
            ground (arith, ap (λ b. leb_ℤ b (pos n)) block.length) in
          record {
            rounded = p;
            returned = stays shorter;
            block = block;
            short = omega arith;
            tight = inl refl;
            low = omega arith;
            high = omega arith;
          }
      | inr longer ↦
          let lt : n < width f - block.host =
            ground (arith, ap (λ b. leb_ℤ b (pos n)) block.length) in
          let low : start ≤ address = omega (arith, div-add-mod' address (2 ^ (width f - n))) in
          let high : address ≤ start + (2 ^ (width f - n) - 1) = address_le in
          let within =
            smaller-Within f around p around-IsBlock block (omega (arith, block.le_max))
              (omega (arith, block.min_le)) (omega (arith, around_host, block.host_fits)) in
          record {
            rounded = around;
            returned = rounds_to longer;
            block = around-IsBlock;
            short = omega (arith, around_host);
            tight = inr around_host;
            low = within.0;
            high = within.1;
          }
    ]
      where
        address_le : address ≤ start + (2 ^ (width f - n) - 1)
        address_le =
            let t = 2 ^ (width f - n) in
            omega (arith, div-add-mod' address t, mod-lt address (pow_pos (width f - n)))

  round_one :
      (p : IpPrefix)
      → IsBlock f p
      → IsRounded f n p
          (if leb_ℤ (pos n) p.prefix.bits then round_up_to_min_length u p (pos n) else ok p)
  round_one p block = elim (Bool-cases (leb_ℤ (pos n) p.prefix.bits)) [
    | inl longer ↦ rw longer (round_up_to_min_length-IsRounded p block)
    | inr shorter ↦
        let le : width f - block.host ≤ n =
          ground (arith, ap (λ b. leb_ℤ (pos n) b) block.length) in
        rw shorter (record {
          rounded = p;
          returned = refl;
          block = block;
          short = omega arith;
          tight = inl refl;
          low = omega arith;
          high = omega arith;
        })
  ]

  -- The loop.
  round_up_all-AllRounded :
      (l : List IpPrefix)
      → All (IsBlock f) l
      → (r : List IpPrefix) × (round_up_all u (pos n) l ≡ ok r) × AllRounded f n l r
  unfolding round_up_all
  round_up_all-AllRounded [] h = ([], refl, tt)
  round_up_all-AllRounded (p ∷ l) (h, t) =
      let one = round_one p h in
      let (r, rest, rounded) = round_up_all-AllRounded l t in
      let first : IsRounded f n p (ok one.rounded) = record {
        rounded = one.rounded;
        returned = refl;
        block = one.block;
        short = one.short;
        tight = one.tight;
        low = one.low;
        high = one.high;
      } in
      (one.rounded ∷ r, rw (one.returned, rest), (first, rounded))

  -- For a minimum length from 1 to the width of the family, and CIDR blocks of the family, the
  -- call succeeds and gives, in the order of the list, a block around each of them whose prefix is
  -- not longer than the minimum: the block itself, or the one of exactly the minimum length.
  pub enforce_min_prefix_length-AllRounded :
      (l : List IpPrefix)
      → 1 ≤ n
      → All (IsBlock f) l
      → (r : List IpPrefix) × (enforce_min_prefix_length u (pos n) l ≡ ok r) × AllRounded f n l r
  unfolding enforce_min_prefix_length round_up_all
  enforce_min_prefix_length-AllRounded l positive h =
      let (r, e, rounded) = round_up_all-AllRounded l h in (r, same_call l e, rounded)
    where
      set : leb n 0 ≡ false
      set = ground arith

      same_call :
          (k : List IpPrefix) {r : Result (List IpPrefix)}
          → round_up_all u (pos n) k ≡ r
          → enforce_min_prefix_length u (pos n) k ≡ r
      same_call [] e = rw set e
      same_call (p ∷ k) e =
          let more : (suc (length k) == 0) ≡ false = ground arith in rw (set, more) e

-- With no minimum length nothing is changed.
pub enforce_min_prefix_length_unset :
    (u : Uint256) (l : List IpPrefix) → enforce_min_prefix_length u (pos 0) l ≡ ok l
unfolding enforce_min_prefix_length
enforce_min_prefix_length_unset u l = refl
