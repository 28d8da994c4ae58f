-- ===== src/Validation/Range6.antt =====
-- `ipv6PrefixToUint256Range`: the last address, and the whole bytes of the first one.
use native.Mathlib.Nat.{div-div-eq-div-mul}
use netjugo.Prelude.{
  ℕ, zero, suc, ◌+◌, ◌-◌, ◌*◌, ◌/◌, ◌%◌, ◌^◌, ◌≤◌, ◌<◌, ◌≡◌, refl, sym, ap, ap₂, ◌∙◌, bit_and,
  bit_or, arith, List, [], ◌∷◌, ◌++◌, true, false, length, byte_at, of_bytes, of_bytes_from,
  replicate, ltb, leb, dec_lt,
}
use netjugo.Prelude.Powers.{pow_pos, pow-add, pow_split, pow_mono, pred-mul}
use netjugo.Prelude.Masks.{bit_and_high, bit_or_low, bit_or_shifted}
use netjugo.Prelude.ByteLists.{
  of_bytes_from-append, of_bytes_from-add, of_bytes_from-replicate_zero,
  of_bytes_from-replicate_ones, pow256,
}
use netjugo.Uint256.{Uint256}
use netjugo.Validation.{u8, ones64, and_byte, ipv6_max, ipv6_clear_bytes}

-- Masking a byte that has only the bits of the mask changes nothing.
pub and_byte_same :
    (bs : List ℕ) (i m : ℕ) → bit_and (byte_at bs i) m ≡ byte_at bs i → and_byte bs i m ≡ bs
and_byte_same [] i m h = refl
and_byte_same (b ∷ bs) zero m h = ap (λ c. c ∷ bs) h
and_byte_same (b ∷ bs) (suc i) m h = ap (λ cs. b ∷ cs) (and_byte_same bs i m h)

-- Masking a byte takes the bits off that the mask does not have.
pub of_bytes_from-and_byte :
    (bs : List ℕ) (i p m acc lost : ℕ)
    → i + p + 1 ≡ length bs
    → bit_and (byte_at bs i) m + lost ≡ byte_at bs i
    → of_bytes_from acc (and_byte bs i m) + lost * 256 ^ p ≡ of_bytes_from acc bs
of_bytes_from-and_byte [] i p m acc lost e h = absurd (omega arith)
of_bytes_from-and_byte (b ∷ bs) zero p m acc lost e h =
    let all : p ≡ length bs = omega arith in
    let whole : acc * 256 + bit_and b m + lost ≡ acc * 256 + b = omega arith in
    rw all (sym (of_bytes_from-add (acc * 256 + bit_and b m) lost bs) ∙ rw whole)
of_bytes_from-and_byte (b ∷ bs) (suc i) p m acc lost e h =
    of_bytes_from-and_byte bs i p m (acc * 256 + b) lost (omega arith) h

ones64_lem : (k : ℕ) → k < 64 → ones64 k ≡ 2 ^ k - 1
ones64_lem k h = omega (arith, pow_mono {j = k} {k = 63} (omega arith), pow_pos k)

-- The mask of a byte, for 1 to 7 bits cleared.
pub and_mask8 : (r b : ℕ) → r ≤ 8 → b < 256 → bit_and b (u8 (0xFF * 2 ^ r)) ≡ b / 2 ^ r * 2 ^ r
and_mask8 r b h hb =
    let e : 8 - r + r ≡ 8 = omega arith in
    let mask : u8 (0xFF * 2 ^ r) ≡ (2 ^ (8 - r) - 1) * 2 ^ r = omega (
      arith,
      pow_split (8 - r) r 8 e,
      pred-mul (2 ^ (8 - r)) (2 ^ r) (pow_pos (8 - r)),
      pow_pos r,
      pow_mono {j = r} {k = 8} h,
    ) in
    rw mask (bit_and_high (8 - r) r b (omega (arith, pow_split (8 - r) r 8 e)))

-- The mask of whole bytes.
byte_mask :
    (c : ℕ)
    → c ≤ 16
    → of_bytes (replicate (16 - c) 0xFF ++ replicate c 0) ≡ (2 ^ (8 * (16 - c)) - 1) * 2 ^ (8 * c)
byte_mask c h =
    of_bytes_from-append 0 (replicate (16 - c) 0xFF) (replicate c 0)
    ∙ of_bytes_from-replicate_zero c (of_bytes_from 0 (replicate (16 - c) 0xFF))
    ∙ ap₂ (λ x y. x * y) (omega (arith, of_bytes_from-replicate_ones (16 - c) 0, pow256 (16 - c)))
        (pow256 c)

-- 64 bits set, and then `s` bits from bit 64 up.
or_two_words :
    (s a : ℕ)
    → bit_or (a / 2 ^ 64 * 2 ^ 64 + (2 ^ 64 - 1)) ((2 ^ s - 1) * 2 ^ 64)
      ≡ a / 2 ^ (s + 64) * 2 ^ (s + 64) + (2 ^ (s + 64) - 1)
or_two_words s a =
    let low = a / 2 ^ 64 * 2 ^ 64 + (2 ^ 64 - 1) in
    let top : low / 2 ^ 64 ≡ a / 2 ^ 64 = omega arith in
    let bottom : low % 2 ^ 64 ≡ 2 ^ 64 - 1 = omega arith in
    let divided : a / 2 ^ 64 / 2 ^ s ≡ a / (2 ^ 64 * 2 ^ s) =
      div-div-eq-div-mul a (2 ^ 64) (2 ^ s) in
    let swapped : 2 ^ 64 * 2 ^ s ≡ 2 ^ s * 2 ^ 64 = omega arith in
    bit_or_shifted 64 low (2 ^ s - 1)
    ∙ rw (top, bottom, bit_or_low s (a / 2 ^ 64), divided, swapped, pow-add s 64)
        (omega (arith, pow_pos s))

module _ (u : Uint256) (a : ℕ) (fits : a < 2 ^ 128) (h : ℕ) (host_fits : h ≤ 128) where
  -- The host bits set.
  abbrev last : ℕ
  last = a / 2 ^ h * 2 ^ h + (2 ^ h - 1)

  or_wide : (s : ℕ) → s + 64 ≡ h → u.or (u.or a (2 ^ 64 - 1)) ((2 ^ s - 1) * 2 ^ 64) ≡ last
  or_wide s e =
      simp (u.or_lem, bit_or_low 64 a) (or_two_words s a)
      ∙ ap (λ n. a / 2 ^ n * 2 ^ n + (2 ^ n - 1)) e

  pub ipv6_max_lem : ipv6_max u a h ≡ last
  unfolding ipv6_max
  ipv6_max_lem = elim (dec_lt h 64) [
    | yes less ↦
        let small : leb 64 h ≡ false = ground arith in
        rw (small, ones64_lem h less, u.or_lem) (bit_or_low h a)
    | no wide ↦ elim (dec_lt 64 h) [
      | no equal ↦ let is64 : h ≡ 64 = omega arith in rw (is64, u.or_lem) (bit_or_low 64 a)
      | yes wider ↦ elim (dec_lt h 128) [
        | yes partial ↦
            let t1 : leb 64 h ≡ true = ground arith in
            let t2 : ltb 64 h ≡ true = ground arith in
            let t3 : leb 64 (h - 64) ≡ false = ground arith in
            let word : (2 ^ (h - 64) - 1) * 2 ^ 64 % 2 ^ 256 ≡ (2 ^ (h - 64) - 1) * 2 ^ 64 =
              omega (arith, pow_mono {j = h - 64} {k = 64} (omega arith), pow_pos (h - 64)) in
            rw (t1, t2, t3, ones64_lem (h - 64) (omega arith), u.lsh_lem, word)
              (or_wide (h - 64) (omega arith))
        | no full ↦
            let is128 : h ≡ 128 = omega arith in
            let wide = or_wide 64 (omega arith) in rw (is128, u.lsh_lem) (rw is128 at wide)
      ]
    ]
  ]

  pub ipv6_clear_bytes_lem : ipv6_clear_bytes u a h ≡ a / 256 ^ (h / 8) * 256 ^ (h / 8)
  unfolding ipv6_clear_bytes
  ipv6_clear_bytes_lem =
      let c = h / 8 in
      let split : 2 ^ (8 * (16 - c)) * 2 ^ (8 * c) ≡ 2 ^ 128 = pow_split _ _ 128 (omega arith) in
      let small : (2 ^ (8 * (16 - c)) - 1) * 2 ^ (8 * c) % 2 ^ 256
          ≡ (2 ^ (8 * (16 - c)) - 1) * 2 ^ (8 * c) =
        omega
          (arith, split, pred-mul (2 ^ (8 * (16 - c))) (2 ^ (8 * c)) (pow_pos (8 * (16 - c)))) in
      let mask =
        u.set_bytes_lem (replicate (16 - c) 0xFF ++ replicate c 0)
        ∙ ap (λ n. n % 2 ^ 256) (byte_mask c (omega arith))
        ∙ small in
      elim (dec_lt 0 c) [
        | yes some_bytes ↦
            let t : ltb 0 c ≡ true = ground arith in
            rw (t, u.and_lem, mask, pow256 c)
              (bit_and_high (8 * (16 - c)) (8 * c) a (omega (arith, split)))
        | no none ↦ let c0 : c ≡ 0 = omega arith in rw c0 (omega arith)
      ]
