-- ===== src/Validation/Blocks.antt =====
-- The conversions between prefixes and ranges, for both families, and the blocks that they give.
use native.Mathlib.Nat.{div-add-mod', mod-eq_of_lt, mul-le-mul_right, lt_of_mul-lt-mul_right}
use netjugo.Prelude.{
  ℕ, ◌+◌, ◌-◌, ◌*◌, ◌/◌, ◌%◌, ◌^◌, ◌≤◌, ◌<◌, ◌≡◌, refl, sym, ap, ap₂, ◌∙◌, arith, Bool, true, false,
  be_bytes, of_bytes-be_bytes, ltb, pos, ◌↔◌,
}
use netjugo.Prelude.Powers.{pow_pos, pow_split, mod-mul}
use netjugo.Prelude.ByteLists.{pow256_pos}
use netjugo.Errors.{ok, ◌>>=◌}
use netjugo.Netip.{Addr, v4, v6, Prefix, is4, value, is_valid_addr, zero_addr}
use netjugo.Uint256.{Uint256}
pub use netjugo.IpPrefix.{first}
use netjugo.IpPrefix.{IsBlock, width}
use netjugo.Validation.{
  prefix_to_uint256_range, ipv4_prefix_to_uint256_range, ipv6_prefix_to_uint256_range,
  uint256_range_to_prefix,
}
use netjugo.Validation.Range4.{ipv4_range_lem}
use netjugo.Validation.Ends6.{ipv6_range_lem, host_size}
use netjugo.Validation.Ipv4.{
  uint256_range_to_ipv4_prefix_of_block, block_of_uint256_range_to_ipv4_prefix,
}
use netjugo.Validation.Ipv6.{
  uint256_range_to_ipv6_prefix_of_block, block_of_uint256_range_to_ipv6_prefix,
}

-- The address of a family with a number, and the prefix with `host` host bits.
abbrev pub family_addr : Bool → ℕ → Addr
family_addr true a = v4 a
family_addr false a = v6 a

pub value_lem : (is_ipv4 : Bool) (a : ℕ) → value (family_addr is_ipv4 a) ≡ a
value_lem true a = refl
value_lem false a = refl

pub family_addr-value :
    (f : Bool) (a : Addr) → is4 a ≡ f → is_valid_addr a ≡ true → a ≡ family_addr f (value a)
family_addr-value f zero_addr e valid = absurd cc
family_addr-value true (v4 a) e valid = refl
family_addr-value false (v4 a) e valid = absurd cc
family_addr-value true (v6 a) e valid = absurd cc
family_addr-value false (v6 a) e valid = refl

abbrev pub prefix_of : Bool → ℕ → ℕ → Prefix
prefix_of is_ipv4 a host = record {
  addr = family_addr is_ipv4 a;
  bits = pos (width is_ipv4 - host);
}

abbrev pub last : ℕ → ℕ → ℕ
last a h = a / 2 ^ h * 2 ^ h + (2 ^ h - 1)

-- An aligned block that begins below 2^w ends there.
pub block_end_lt : (w a h : ℕ) → a < 2 ^ w → h ≤ w → a % 2 ^ h ≡ 0 → a + (2 ^ h - 1) < 2 ^ w
block_end_lt w a h fits host aligned =
    let split : 2 ^ (w - h) * 2 ^ h ≡ 2 ^ w = pow_split (w - h) h w (omega arith) in
    let whole : a / 2 ^ h * 2 ^ h ≡ a = omega (arith, div-add-mod' a (2 ^ h)) in
    let below : a / 2 ^ h < 2 ^ (w - h) =
      lt_of_mul-lt-mul_right (2 ^ h) (omega (arith, split, whole)) in
    omega (arith, split, whole, pow_pos h, mul-le-mul_right (2 ^ h) below)

pub first_aligned :
    (is_ipv4 : Bool) (a h : ℕ)
    → a < 2 ^ width is_ipv4
    → h ≤ width is_ipv4
    → a % 2 ^ h ≡ 0
    → first is_ipv4 a h ≡ a
first_aligned true a h fits host aligned = omega (arith, div-add-mod' a (2 ^ h))
first_aligned false a h fits host aligned = ground (
  arith,
  div-add-mod' a (2 ^ h),
  div-add-mod' a (256 ^ (h / 8)),
  mod-mul (2 ^ (h % 8)) (256 ^ (h / 8)) a (pow_pos (h % 8)) (pow256_pos (h / 8)),
  ap (λ (n : ℕ). a % n) (host_size h),
)

module _ (u : Uint256) where
  -- Every prefix with a length of its family has a range, from `first` to `last`: `last` is the
  -- end of the block of the address, and so is `first` its beginning, but for IPv6 addresses below
  -- 2^120 with host bits that fill no whole bytes, where `first` keeps host bits.
  pub prefix_to_uint256_range_lem :
      (is_ipv4 : Bool) (a h : ℕ)
      → a < 2 ^ width is_ipv4
      → h ≤ width is_ipv4
      → prefix_to_uint256_range u (prefix_of is_ipv4 a h) ≡ ok (first is_ipv4 a h, last a h)
  unfolding prefix_to_uint256_range ipv4_prefix_to_uint256_range ipv6_prefix_to_uint256_range
  prefix_to_uint256_range_lem true a h fits host =
      let t : ltb 32 (32 - h) ≡ false = ground arith in
      let t' : ltb (32 - h) 0 ≡ false = ground arith in rw (t, t', ipv4_range_lem u a fits h host)
  prefix_to_uint256_range_lem false a h fits host =
      let t : ltb 128 (128 - h) ≡ false = ground arith in
      let t' : ltb (128 - h) 0 ≡ false = ground arith in
      let number : u.set_bytes (be_bytes 16 a) ≡ a =
        u.set_bytes_lem (be_bytes 16 a)
        ∙ ap (λ n. n % 2 ^ 256) (of_bytes-be_bytes 16 a fits)
        ∙ mod-eq_of_lt (omega arith) in
      rw (t, t', ipv6_range_lem u a fits h host (be_bytes 16 a) number)

  -- An address with no host bits set gives the block that begins there.
  pub prefix_to_uint256_range_aligned :
      (is_ipv4 : Bool) (a h : ℕ)
      → a < 2 ^ width is_ipv4
      → h ≤ width is_ipv4
      → a % 2 ^ h ≡ 0
      → prefix_to_uint256_range u (prefix_of is_ipv4 a h) ≡ ok (a, a + (2 ^ h - 1))
  prefix_to_uint256_range_aligned is_ipv4 a h fits host aligned =
      prefix_to_uint256_range_lem is_ipv4 a h fits host
      ∙ ap₂ (λ x y. ok (x, y)) (first_aligned is_ipv4 a h fits host aligned)
          (omega (arith, div-add-mod' a (2 ^ h)))

  module _ (lo hi : ℕ) (ordered : lo ≤ hi) where
    pub uint256_range_to_prefix_of_block :
        (is_ipv4 : Bool) (k : ℕ)
        → hi < 2 ^ width is_ipv4
        → k ≤ width is_ipv4
        → lo % 2 ^ k ≡ 0
        → hi + 1 ≡ lo + 2 ^ k
        → uint256_range_to_prefix u lo hi is_ipv4 ≡ ok (prefix_of is_ipv4 lo k)
    unfolding uint256_range_to_prefix
    uint256_range_to_prefix_of_block true k fits =
        uint256_range_to_ipv4_prefix_of_block u lo hi ordered fits k
    uint256_range_to_prefix_of_block false k fits =
        uint256_range_to_ipv6_prefix_of_block u lo hi ordered fits k

    block_of_uint256_range_to_prefix :
        (is_ipv4 : Bool) {p : Prefix}
        → hi < 2 ^ width is_ipv4
        → uint256_range_to_prefix u lo hi is_ipv4 ≡ ok p
        → (k : ℕ) × (k ≤ width is_ipv4) × (lo % 2 ^ k ≡ 0) × (hi + 1 ≡ lo + 2 ^ k)
    unfolding uint256_range_to_prefix
    block_of_uint256_range_to_prefix true fits =
        block_of_uint256_range_to_ipv4_prefix u lo hi ordered fits
    block_of_uint256_range_to_prefix false fits =
        block_of_uint256_range_to_ipv6_prefix u lo hi ordered fits

    -- A range of addresses of a family, whose first is not above its last and whose last is below
    -- 2^32 for IPv4 and below 2^128 for IPv6, is turned into a prefix exactly where it is a CIDR
    -- block, and the prefix is the block's first address with its length.
    pub uint256_range_to_prefix_iff :
        (is_ipv4 : Bool) (p : Prefix)
        → hi < 2 ^ width is_ipv4
        → (uint256_range_to_prefix u lo hi is_ipv4 ≡ ok p) ↔ (
            (k : ℕ) × (k ≤ width is_ipv4)
            × (lo % 2 ^ k ≡ 0)
            × (hi + 1 ≡ lo + 2 ^ k)
            × (p ≡ prefix_of is_ipv4 lo k))
    uint256_range_to_prefix_iff is_ipv4 p fits = (
      accepted,
      λ (k, le, aligned, end, e).
          uint256_range_to_prefix_of_block is_ipv4 k fits le aligned end ∙ ap ok (sym e),
    )
      where
        accepted :
            uint256_range_to_prefix u lo hi is_ipv4 ≡ ok p
            → (k : ℕ) × (k ≤ width is_ipv4)
              × (lo % 2 ^ k ≡ 0)
              × (hi + 1 ≡ lo + 2 ^ k)
              × (p ≡ prefix_of is_ipv4 lo k)
        accepted e =
            let (k, le, aligned, end) = block_of_uint256_range_to_prefix is_ipv4 fits e in
            (
              k,
              le,
              aligned,
              end,
              cc (uint256_range_to_prefix_of_block is_ipv4 k fits le aligned end),
            )

  -- A prefix with no host bits set comes back from its range.
  pub range_to_prefix-prefix_to_range :
      (is_ipv4 : Bool) (a h : ℕ)
      → a < 2 ^ width is_ipv4
      → h ≤ width is_ipv4
      → a % 2 ^ h ≡ 0
      → (prefix_to_uint256_range u (prefix_of is_ipv4 a h) >>= λ range.
          uint256_range_to_prefix u range.0 range.1 is_ipv4)
        ≡ ok (prefix_of is_ipv4 a h)
  range_to_prefix-prefix_to_range is_ipv4 a h fits host aligned =
      rw (prefix_to_uint256_range_aligned is_ipv4 a h fits host aligned) (
        uint256_range_to_prefix_of_block a (a + (2 ^ h - 1)) (omega arith) is_ipv4 h
          (block_end_lt (width is_ipv4) a h fits host aligned) host aligned
          (omega (arith, pow_pos h)))

-- A block that the conversions give.
pub IsBlock-of_range :
    (is_ipv4 : Bool) (lo hi k : ℕ)
    → hi < 2 ^ width is_ipv4
    → k ≤ width is_ipv4
    → lo % 2 ^ k ≡ 0
    → hi + 1 ≡ lo + 2 ^ k
    → IsBlock is_ipv4 (record { prefix = prefix_of is_ipv4 lo k; min = lo; max = hi })
IsBlock-of_range is_ipv4 lo hi k fits host aligned end = record {
  host = k;
  block = lo / 2 ^ k;
  host_fits = host;
  min_aligned = omega (arith, div-add-mod' lo (2 ^ k));
  max_end = end;
  bounded = fits;
  length = refl;
  family = family_lem is_ipv4;
  valid = valid_lem is_ipv4;
  min_le = omega (arith, value_lem is_ipv4 lo);
  le_max = omega (arith, value_lem is_ipv4 lo, pow_pos k);
  read_back =
      ap (λ n. first is_ipv4 n k) (value_lem is_ipv4 lo)
      ∙ first_aligned is_ipv4 lo k (omega (arith, pow_pos k)) host aligned;
}
  where
    family_lem : (f : Bool) → is4 (family_addr f lo) ≡ f
    family_lem true = refl
    family_lem false = refl

    valid_lem : (f : Bool) → is_valid_addr (family_addr f lo) ≡ true
    valid_lem true = refl
    valid_lem false = refl
