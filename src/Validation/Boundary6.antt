-- ===== src/Validation/Boundary6.antt =====
-- `ipv6PrefixToUint256Range`: the byte that the boundary divides. The mask is applied at an index into what `Bytes` returns, which has no leading zero bytes.
use native.Mathlib.Nat.{div-add-mod', mod-eq_of_lt, zero-div, zero-mul, pow-le-pow_right}
use netjugo.Prelude.{
  ℕ, suc, ◌+◌, ◌-◌, ◌*◌, ◌/◌, ◌%◌, ◌^◌, ◌≤◌, ◌<◌, ◌≡◌, sym, ap, subst, ◌∙◌, bit_and, arith, List,
  true, false, length, byte_at, be_bytes, of_bytes, of_bytes-be_bytes, ltb, ◌==◌, dec_lt,
  if◌then◌else◌,
}
use netjugo.Prelude.Powers.{quotient_unique}
use netjugo.Prelude.ByteLists.{
  length-be_bytes, byte_at-be_bytes, low_byte-zero, pow256_pos, top_byte,
}
use netjugo.Uint256.{Uint256}
use netjugo.Validation.{u8, and_byte, ipv6_clear_bits}
use netjugo.Validation.Range6.{and_byte_same, of_bytes_from-and_byte, and_mask8}

module _ (u : Uint256) (y c r h : ℕ) (boundary : h ≡ c * 8 + r) (within : r < 8) (partial : 1 ≤ r)
    (host_fits : h < 128) where
  abbrev pub number : ℕ
  number = y * 256 ^ c

  abbrev mask : ℕ
  mask = u8 (0xFF * 2 ^ r)

  abbrev masked : List ℕ → List ℕ
  masked bs = if ltb (15 - c) (length bs) then and_byte bs (15 - c) mask else bs

  clear_bits-masked : ipv6_clear_bits u number h ≡ u.set_bytes (masked (u.bytes number))
  unfolding ipv6_clear_bits
  clear_bits-masked =
      let bits : h % 8 ≡ r = omega arith in
      let bytes : h / 8 ≡ c = omega arith in
      let t : (r == 0) ≡ false = ground arith in rw (bits, bytes, t)

  byte_lem : (n : ℕ) → 15 - c + c + 1 ≡ n → byte_at (be_bytes n number) (15 - c) ≡ y % 256
  byte_lem n e =
      let exact : y * 256 ^ c ≡ y * 256 ^ c + 0 = omega arith in
      byte_at-be_bytes n c number (15 - c) e
      ∙ ap (λ k. k / 256 ^ c % 256) exact
      ∙ ap (λ k. k % 256) (quotient_unique (256 ^ c) y 0 (pow256_pos c))

  masked_long :
      (n : ℕ)
      → 16 ≡ n
      → number < 256 ^ n
      → of_bytes (masked (be_bytes n number)) + y % 256 % 2 ^ r * 256 ^ c ≡ number
  masked_long n e hi =
      let t : ltb (15 - c) (length (be_bytes n number)) ≡ true =
        rw (length-be_bytes n number) (ground arith) in
      let keeps : bit_and (byte_at (be_bytes n number) (15 - c)) mask + y % 256 % 2 ^ r
          ≡ byte_at (be_bytes n number) (15 - c) =
        rw (byte_lem n (omega arith), and_mask8 r (y % 256) (omega arith) (omega arith))
          (div-add-mod' (y % 256) (2 ^ r)) in
      rw t (
        of_bytes_from-and_byte (be_bytes n number) (15 - c) c mask 0 (y % 256 % 2 ^ r)
          (omega (arith, length-be_bytes n number)) keeps
        ∙ of_bytes-be_bytes n number hi)

  clear_bits_at :
      (bs : List ℕ)
      → u.bytes number ≡ bs
      → of_bytes (masked bs) < 2 ^ 256
      → ipv6_clear_bits u number h ≡ of_bytes (masked bs)
  clear_bits_at bs e small =
      clear_bits-masked
      ∙ ap (λ l. u.set_bytes (masked l)) e
      ∙ u.set_bytes_lem (masked bs)
      ∙ mod-eq_of_lt small

  -- Where the number has all 16 bytes, the boundary's byte loses its host bits.
  pub clear_bits_long :
      (n : ℕ)
      → 16 ≡ n
      → 256 ^ 15 ≤ number
      → number < 256 ^ n
      → ipv6_clear_bits u number h + y % 256 % 2 ^ r * 256 ^ c ≡ number
  clear_bits_long n e lo hi =
      let hi' : number < 256 ^ 16 = subst (λ k. number < 256 ^ k) (sym e) hi in
      let bytes : u.bytes number ≡ be_bytes n number =
        u.bytes_suc 15 number (omega arith) lo hi' ∙ ap (λ k. be_bytes k number) e in
      let sum = masked_long n e hi in
      omega (arith, clear_bits_at (be_bytes n number) bytes (omega arith))

  -- Where it has less, what is masked is a zero byte, or nothing.
  masked_short : (n : ℕ) → n ≤ 15 → masked (be_bytes n number) ≡ be_bytes n number
  masked_short n small = elim (dec_lt (15 - c) n) [
    | no out ↦
        let t : ltb (15 - c) (length (be_bytes n number)) ≡ false =
          rw (length-be_bytes n number) (ground arith) in
        rw t
    | yes in_range ↦
        let t : ltb (15 - c) (length (be_bytes n number)) ≡ true =
          rw (length-be_bytes n number) (ground arith) in
        let p = n - 1 - (15 - c) in
        let zero_byte : byte_at (be_bytes n number) (15 - c) ≡ 0 =
          byte_at-be_bytes n p number (15 - c) (omega arith)
          ∙ low_byte-zero y c p (c - suc p) (omega arith) in
        let nothing : bit_and 0 mask ≡ 0 = and_mask8 r 0 (omega arith) (omega arith) ∙ zero_mul in
        rw t (and_byte_same (be_bytes n number) (15 - c) mask (rw zero_byte nothing))
  ]
    where
      zero_mul : 0 / 2 ^ r * 2 ^ r ≡ 0
      zero_mul = ap (λ n. n * 2 ^ r) (zero-div (2 ^ r)) ∙ zero-mul (2 ^ r)

  clear_bits_bytes :
      (n : ℕ)
      → n ≤ 15
      → number < 256 ^ n
      → u.bytes number ≡ be_bytes n number
      → ipv6_clear_bits u number h ≡ number
  clear_bits_bytes n small lt e =
      let whole : of_bytes (masked (be_bytes n number)) ≡ number =
        ap of_bytes (masked_short n small) ∙ of_bytes-be_bytes n number lt in
      let bound : 256 ^ n ≤ 2 ^ 256 =
        pow-le-pow_right {n = 256} (omega arith) {i = n} {j = 32} (omega arith) in
      clear_bits_at (be_bytes n number) e (omega arith) ∙ whole

  pub clear_bits_short : number < 256 ^ 15 → ipv6_clear_bits u number h ≡ number
  clear_bits_short lt = elim (dec_lt 0 number) [
    | no none ↦
        let nil : number ≡ 0 = omega arith in
        clear_bits_bytes 0 (omega arith) (omega arith) (ap u.bytes nil ∙ u.bytes_zero)
    | yes positive ↦
        let (n, less, lo, hi) = top_byte 15 number positive lt in
        clear_bits_bytes (suc n) less hi (u.bytes_suc n number (omega arith) lo hi)
  ]
