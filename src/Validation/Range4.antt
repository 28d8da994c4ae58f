-- ===== src/Validation/Range4.antt =====
-- `ipv4PrefixToUint256Range` gives the first and the last address of the block.
use netjugo.Prelude.{
  ℕ, zero, suc, ◌+◌, ◌-◌, ◌*◌, ◌/◌, ◌%◌, ◌^◌, ◌≤◌, ◌<◌, ◌≡◌, ap₂, ◌∙◌, bit_and, arith, be_bytes,
  of_bytes-be_bytes, ◌==◌, false, [], ◌∷◌,
}
use netjugo.Prelude.Powers.{pow_pos, pow_split, pred-mul, pow_mono}
use netjugo.Prelude.Masks.{bit_and_high, bit_or_fields}
use netjugo.Uint256.{Uint256}
use netjugo.Validation.{u32, ones32, join4, ipv4_range}

-- Four bytes side by side.
join4_bytes :
    (a b c d : ℕ)
    → a < 256
    → b < 256
    → c < 256
    → d < 256
    → join4 (a ∷ b ∷ c ∷ d ∷ []) ≡ ((a * 256 + b) * 256 + c) * 256 + d
join4_bytes a b c d ha hb hc hd =
    let a' : u32 (a * 2 ^ 24) ≡ a * 2 ^ 24 = omega arith in
    let b' : u32 (b * 2 ^ 16) ≡ b * 2 ^ 16 = omega arith in
    let c' : u32 (c * 2 ^ 8) ≡ c * 2 ^ 8 = omega arith in
    let ab : a * 2 ^ 24 + b * 2 ^ 16 ≡ (a * 256 + b) * 2 ^ 16 = omega arith in
    let abc : (a * 256 + b) * 2 ^ 16 + c * 2 ^ 8 ≡ ((a * 256 + b) * 256 + c) * 2 ^ 8 =
      omega arith in
    rw
      (
        a',
        b',
        c',
        bit_or_fields 24 a (b * 2 ^ 16) (omega arith),
        ab,
        bit_or_fields 16 (a * 256 + b) (c * 2 ^ 8) (omega arith),
        abc,
        bit_or_fields 8 ((a * 256 + b) * 256 + c) d (omega arith),
      )
      (omega arith)

join4_lem : (a : ℕ) → a < 2 ^ 32 → join4 (be_bytes 4 a) ≡ a
join4_lem a h =
    join4_bytes (a / 2 ^ 24 % 256) (a / 2 ^ 16 % 256) (a / 2 ^ 8 % 256) (a / 1 % 256) (omega arith)
      (omega arith) (omega arith) (omega arith)
    ∙ omega arith

ones32_lem : (k : ℕ) → k ≤ 32 → ones32 k ≡ 2 ^ k - 1
ones32_lem k h = omega (arith, pow_mono {j = k} {k = 32} h, pow_pos k)

module _ (u : Uint256) (a : ℕ) (fits : a < 2 ^ 32) where
  ipv4_range_masked :
      (bits host : ℕ)
      → bits + host ≡ 32
      → bits < 32
      → ipv4_range u (be_bytes 4 a) bits
        ≡ (a / 2 ^ host * 2 ^ host, a / 2 ^ host * 2 ^ host + (2 ^ host - 1))
  unfolding ipv4_range
  ipv4_range_masked bits host whole less =
      let not_host : (bits == 32) ≡ false = ground arith in
      let hosts : 32 - bits ≡ host = omega arith in
      let mask : u32 (0xFFFFFFFF * 2 ^ host) ≡ (2 ^ bits - 1) * 2 ^ host = omega (
        arith,
        pow_split bits host 32 whole,
        pred-mul (2 ^ bits) (2 ^ host) (pow_pos bits),
        pow_pos host,
        pow_mono {j = host} {k = 32} (omega arith),
      ) in
      let high : bit_and a ((2 ^ bits - 1) * 2 ^ host) ≡ a / 2 ^ host * 2 ^ host =
        bit_and_high bits host a (omega (arith, pow_split bits host 32 whole)) in
      rw (
        not_host,
        hosts,
        join4_lem a fits,
        mask,
        ones32_lem host (omega arith),
        high,
        bit_or_fields host (a / 2 ^ host) (2 ^ host - 1) (omega (arith, pow_pos host)),
      )

  -- With `host` host bits, which are cleared in the first address and set in the last.
  pub ipv4_range_lem :
      (host : ℕ)
      → host ≤ 32
      → ipv4_range u (be_bytes 4 a) (32 - host)
        ≡ (a / 2 ^ host * 2 ^ host, a / 2 ^ host * 2 ^ host + (2 ^ host - 1))
  unfolding ipv4_range
  ipv4_range_lem zero h =
      let whole : u.set_bytes (be_bytes 4 a) ≡ a =
        u.set_bytes_lem (be_bytes 4 a) ∙ omega (arith, of_bytes-be_bytes 4 a fits) in
      rw (whole) (ap₂ (λ x y. (x, y)) (omega arith) (omega arith))
  ipv4_range_lem (suc k) h = ipv4_range_masked (32 - suc k) (suc k) (omega arith) (omega arith)
