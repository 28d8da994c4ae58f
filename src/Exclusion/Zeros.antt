-- ===== src/Exclusion/Zeros.antt =====
-- `countTrailingZeros`: how it bounds the powers of two that divide the number.
use netjugo.Prelude.{
  ℕ, zero, suc, ◌+◌, ◌*◌, ◌/◌, ◌%◌, ◌^◌, ◌≤◌, ◌≡◌, ap, ◌∙◌, arith, Bool, true, Bool-cases, inl, inr,
  ◌==◌,
}
use netjugo.Prelude.Powers.{pow_double, pow_pos, mod_double}
use netjugo.Prelude.Masks.{bit_and_low}
use netjugo.Uint256.{Uint256}
use netjugo.IpPrefix.{width}
use netjugo.Exclusion.{zeros_loop, count_trailing_zeros}

module _ (u : Uint256) where
  is_zero_iff : (n : ℕ) → u.is_zero n ≡ (n == 0)
  is_zero_iff n = ground (arith, u.is_zero_lem n)

  even_test : (n : ℕ) → u.is_zero (u.and n 1) ≡ (n % 2 == 0)
  even_test n = rw (is_zero_iff (u.and n 1), u.and_lem n 1, bit_and_low 1 n)

  zeros_loop_grows : (left n count : ℕ) → count ≤ zeros_loop u left n count
  unfolding zeros_loop
  zeros_loop_grows zero n count = omega arith
  zeros_loop_grows (suc left) n count = elim (Bool-cases (u.is_zero (u.and n 1))) [
    | inl e ↦ rw (e, zeros_loop) (omega (arith, zeros_loop_grows left (u.rsh n 1) (count + 1)))
    | inr e ↦ rw (e, zeros_loop) (omega arith)
  ]

  zeros_loop_lem :
      (left n count h : ℕ) → h ≤ left → n % 2 ^ h ≡ 0 → count + h ≤ zeros_loop u left n count
  unfolding zeros_loop
  zeros_loop_lem left n count zero fits aligned = omega (arith, zeros_loop_grows left n count)
  zeros_loop_lem zero n count (suc h) fits aligned = absurd (omega arith)
  zeros_loop_lem (suc left) n count (suc h) fits aligned =
      let digits = ap (λ (m : ℕ). n % m) (pow_double h) ∙ mod_double n (2 ^ h) (pow_pos h) in
      let split : n % 2 + 2 * (n / 2 % 2 ^ h) ≡ 0 = omega (arith, digits, aligned) in
      let even : u.is_zero (u.and n 1) ≡ true = ground (arith, even_test n) in
      let half : u.rsh n 1 ≡ n / 2 = u.rsh_lem n 1 in
      rw (even, zeros_loop, half)
        (omega (arith, zeros_loop_lem left (n / 2) (count + 1) h (omega arith) (omega arith)))

  -- Every power of two of the family's width that divides the number is counted.
  pub count_trailing_zeros_lem :
      (f : Bool) (n h : ℕ) → h ≤ width f → n % 2 ^ h ≡ 0 → h ≤ count_trailing_zeros u n f
  unfolding count_trailing_zeros
  count_trailing_zeros_lem f n h fits aligned = elim (Bool-cases (u.is_zero n)) [
    | inl e ↦ rw e fits
    | inr e ↦ rw e (omega (arith, zeros_loop_lem (width f) n 0 h fits aligned))
  ]
