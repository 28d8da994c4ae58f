-- ===== src/Validation/Ends6.antt =====
-- `ipv6PrefixToUint256Range`: both ends of the range, for every address and length.
use native.Mathlib.Nat.{
  div-add-mod', le-div_iff_mul-le, mul-le-mul_right, mod-mod_of_dvd, dvd-mul_right,
}
use Prim.Native.Nat.{◌∣◌}
use netjugo.Prelude.{
  ℕ, ◌+◌, ◌-◌, ◌*◌, ◌/◌, ◌%◌, ◌^◌, ◌≤◌, ◌<◌, ◌≡◌, refl, sym, ap, ap₂, subst, ◌∙◌, arith, List, true,
  false, ◌==◌, dec_lt,
}
use netjugo.Prelude.Powers.{pow_pos, pow_split, mod-mul}
use netjugo.Prelude.ByteLists.{pow256, pow256_pos, pow256-add}
use netjugo.Uint256.{Uint256}
use netjugo.IpPrefix.{first6}
use netjugo.Validation.{ipv6_clear_bits, ipv6_range}
use netjugo.Validation.Range6.{ipv6_max_lem, ipv6_clear_bytes_lem}
use netjugo.Validation.Boundary6.{clear_bits_long, clear_bits_short}

abbrev pub last6 : ℕ → ℕ → ℕ
last6 a h = a / 2 ^ h * 2 ^ h + (2 ^ h - 1)

pub host_size : (h : ℕ) → 2 ^ (h % 8) * 256 ^ (h / 8) ≡ 2 ^ h
host_size h =
    ap (λ n. 2 ^ (h % 8) * n) (pow256 (h / 8)) ∙ pow_split (h % 8) (8 * (h / 8)) h (omega arith)

module _ (u : Uint256) (a : ℕ) (fits : a < 2 ^ 128) (h : ℕ) (host_fits : h ≤ 128) where
  abbrev bytes_cleared : ℕ
  bytes_cleared = a / 256 ^ (h / 8) * 256 ^ (h / 8)

  clear_bits_even : h % 8 ≡ 0 → ipv6_clear_bits u bytes_cleared h ≡ a / 2 ^ h * 2 ^ h
  unfolding ipv6_clear_bits
  clear_bits_even e =
      let whole : 8 * (h / 8) ≡ h = omega arith in
      let t : (h % 8 == 0) ≡ true = ground arith in rw (t, pow256 (h / 8), whole)

  clear_bits_missed : 1 ≤ h % 8 → a < 2 ^ 120 → ipv6_clear_bits u bytes_cleared h ≡ bytes_cleared
  clear_bits_missed odd low =
      clear_bits_short u (a / 256 ^ (h / 8)) (h / 8) (h % 8) h (omega arith) (omega arith) odd
        (omega arith) (omega (arith, div-add-mod' a (256 ^ (h / 8))))

  enough_bytes : h / 8 ≤ 15 → 2 ^ 120 ≤ a → 256 ^ 15 ≤ bytes_cleared
  enough_bytes small high =
      let c = h / 8 in
      let whole : 15 - c + c ≡ 15 = omega arith in
      let split : 256 ^ (15 - c) * 256 ^ c ≡ 256 ^ 15 =
        sym (pow256-add (15 - c) c) ∙ ap (λ n. 256 ^ n) whole in
      let quotient =
        (le-div_iff_mul-le {x = 256 ^ (15 - c)} {y = a} (pow256_pos c)).1 (omega (arith, split)) in
      omega (arith, split, mul-le-mul_right (256 ^ c) quotient)

  low_digit : a / 256 ^ (h / 8) % 256 % 2 ^ (h % 8) ≡ a / 256 ^ (h / 8) % 2 ^ (h % 8)
  low_digit =
      let r = h % 8 in
      mod-mod_of_dvd (2 ^ r) (a / 256 ^ (h / 8)) (
        subst (λ n. 2 ^ r ∣ n) (pow_split r (8 - r) 8 (omega arith))
          (dvd-mul_right (2 ^ r) (2 ^ (8 - r))))

  clear_bits_odd : 1 ≤ h % 8 → 2 ^ 120 ≤ a → ipv6_clear_bits u bytes_cleared h ≡ a / 2 ^ h * 2 ^ h
  clear_bits_odd odd high =
      let c = h / 8 in
      let exact =
        clear_bits_long u (a / 256 ^ c) c (h % 8) h (omega arith) (omega arith) odd (omega arith) 16
          refl (enough_bytes (omega arith) high) (omega (arith, div-add-mod' a (256 ^ c))) in
      let host : a % 2 ^ h ≡ a / 256 ^ c % 2 ^ (h % 8) * 256 ^ c + a % 256 ^ c =
        ap (λ n. a % n) (sym (host_size h))
        ∙ mod-mul (2 ^ (h % 8)) (256 ^ c) a (pow_pos (h % 8)) (pow256_pos c) in
      omega (
        arith,
        exact,
        host,
        ap (λ (n : ℕ). n * 256 ^ c) low_digit,
        div-add-mod' a (256 ^ c),
        div-add-mod' a (2 ^ h),
      )

  clear_bits_lem : ipv6_clear_bits u bytes_cleared h ≡ first6 a h
  clear_bits_lem = elim (dec_lt 0 (h % 8)) [
    | no even ↦
        let t : (h % 8 == 0) ≡ true = ground arith in clear_bits_even (omega arith) ∙ ground arith
    | yes odd ↦ elim (dec_lt a (2 ^ 120)) [
      | yes low ↦ clear_bits_missed odd low ∙ ground arith
      | no high ↦ clear_bits_odd odd (omega arith) ∙ ground arith
    ]
  ]

  -- Both ends, for the address `a` with `h` host bits.
  pub ipv6_range_lem :
      (bs : List ℕ) → u.set_bytes bs ≡ a → ipv6_range u bs (128 - h) ≡ (first6 a h, last6 a h)
  unfolding ipv6_range
  ipv6_range_lem bs e = elim (dec_lt 0 h) [
    | no single ↦
        let none : h ≡ 0 = omega arith in
        rw (none, e) (ap₂ (λ x y. (x, y)) (ground arith) (omega arith))
    | yes more ↦
        let t : (128 - h == 128) ≡ false = ground arith in
        let back : 128 - (128 - h) ≡ h = omega arith in
        rw
          (t, back, e, ipv6_max_lem u a fits h host_fits, ipv6_clear_bytes_lem u a fits h host_fits)
          (ap (λ n. (n, last6 a h)) clear_bits_lem)
  ]
