-- ===== src/Validation.antt =====
-- validation.go: the conversions between prefixes and ranges of addresses.
pub mod Blocks
pub mod Boundary6
pub mod Ends6
pub mod Ipv4
pub mod Ipv6
pub mod Range4
pub mod Range6
use netjugo.Prelude.{
  ℕ, zero, suc, ◌+◌, ◌-◌, ◌*◌, ◌/◌, ◌%◌, ◌^◌, bit_and, bit_or, Bool, true, false, ◌||◌, ◌&&◌, not,
  List, [], ◌∷◌, ◌++◌, byte_at, length, replicate, drop, ltb, leb, ◌==◌, if◌then◌else◌, ℤ, pos,
  sub_from, pred_ℤ, ltb_ℤ, pos_part,
}
use netjugo.Errors.{Result, ok, err, Error}
use netjugo.Netip.{Addr, is4, is6, as4, as16, addr_from4, addr_from16, Prefix, prefix_from}
use netjugo.Uint256.{Uint256, eq_zero, gt_zero}

abbrev pub u8 : ℕ → ℕ
u8 n = n % 2 ^ 8

abbrev pub u32 : ℕ → ℕ
u32 n = n % 2 ^ 32

abbrev pub u64 : ℕ → ℕ
u64 n = n % 2 ^ 64

-- `(1 << n) - 1` in `uint32` and in `uint64`.
abbrev pub ones32 : ℕ → ℕ
ones32 n = u32 (u32 (2 ^ n) + 2 ^ 32 - 1)

abbrev pub ones64 : ℕ → ℕ
ones64 n = u64 (u64 (2 ^ n) + 2 ^ 64 - 1)

-- `uint32(b[0])<<24 | uint32(b[1])<<16 | uint32(b[2])<<8 | uint32(b[3])`.
abbrev pub join4 : List ℕ → ℕ
join4 b =
    bit_or
      (bit_or (bit_or (u32 (byte_at b 0 * 2 ^ 24)) (u32 (byte_at b 1 * 2 ^ 16)))
        (u32 (byte_at b 2 * 2 ^ 8)))
      (byte_at b 3)

-- The bytes `byte(v >> 24)`, `byte(v >> 16)`, `byte(v >> 8)`, `byte(v)`.
abbrev pub split4 : ℕ → List ℕ
split4 v = u8 (v / 2 ^ 24) ∷ u8 (v / 2 ^ 16) ∷ u8 (v / 2 ^ 8) ∷ u8 v ∷ []

-- `b[i] &= m`, for an index within the slice.
abbrev pub and_byte : List ℕ → ℕ → ℕ → List ℕ
and_byte [] i m = []
and_byte (b ∷ bs) zero m = bit_and b m ∷ bs
and_byte (b ∷ bs) (suc i) m = b ∷ and_byte bs i m

pub validate_prefix_length : Bool → ℤ → Result (Unit {0})
validate_prefix_length true bits =
    if ltb_ℤ bits (pos 0) || ltb_ℤ (pos 32) bits then err Error.invalid_prefix else ok tt
validate_prefix_length false bits =
    if ltb_ℤ bits (pos 0) || ltb_ℤ (pos 128) bits then err Error.invalid_prefix else ok tt

-- `for rangeSize > 1 { rangeSize >>= 1; prefixBits-- }`: 64 rounds bring a `uint64` down to 1.
unfoldable pub shrink64 : ℕ → ℕ → ℤ → ℤ
shrink64 zero size bits = bits
shrink64 (suc left) size bits = elim (ltb 1 size) [
  | true ↦ shrink64 left (size / 2) (pred_ℤ bits)
  | false ↦ bits
]

module _ (u : Uint256) where
  -- The part of `ipv4PrefixToUint256Range` after its check, for `bits` from 0 to 32.
  unfoldable pub ipv4_range : List ℕ → ℕ → ℕ × ℕ
  ipv4_range ipv4_bytes bits =
      let min_addr = u.set_bytes ipv4_bytes in
      if bits == 32
      then (min_addr, min_addr)
      else let host_bits = 32 - bits in
        let mask = u32 (0xFFFFFFFF * 2 ^ host_bits) in
        let min_addr_val = bit_and (join4 ipv4_bytes) mask in
        let max_addr_val = bit_or min_addr_val (ones32 host_bits) in (min_addr_val, max_addr_val)

  unfoldable pub ipv4_prefix_to_uint256_range : Addr → ℤ → Result (ℕ × ℕ)
  ipv4_prefix_to_uint256_range addr bits =
      if ltb_ℤ bits (pos 0) || ltb_ℤ (pos 32) bits
      then err Error.invalid_prefix
      else ok (ipv4_range (as4 addr) (pos_part bits))

  -- The last address: the host bits set, 64 bits at a time.
  pub ipv6_max : ℕ → ℕ → ℕ
  ipv6_max addr host_bits =
      let low = u.or addr 0xFFFFFFFFFFFFFFFF in
      let shift = host_bits - 64 in
      if leb 64 host_bits
      then if ltb 64 host_bits
        then if leb 64 shift
          then u.or low (u.lsh 0xFFFFFFFFFFFFFFFF 64)
          else u.or low (u.lsh (ones64 shift) 64)
        else low
      else u.or addr (ones64 host_bits)

  -- The whole bytes among the host bits are cleared by a mask of 16 bytes.
  pub ipv6_clear_bytes : ℕ → ℕ → ℕ
  ipv6_clear_bytes addr host_bits =
      let bytes_to_clear = host_bits / 8 in
      if ltb 0 bytes_to_clear
      then u.and addr
          (u.set_bytes (replicate (16 - bytes_to_clear) 0xFF ++ replicate bytes_to_clear 0))
      else addr

  -- The byte that the boundary divides is masked in what `Bytes` returns.
  pub ipv6_clear_bits : ℕ → ℕ → ℕ
  ipv6_clear_bits addr host_bits =
      if host_bits % 8 == 0
      then addr
      else let byte_index = 15 - host_bits / 8 in
        let bit_mask = u8 (0xFF * 2 ^ (host_bits % 8)) in
        let min_bytes = u.bytes addr in
        u.set_bytes (
          if ltb byte_index (length min_bytes)
          then and_byte min_bytes byte_index bit_mask
          else min_bytes)

  -- The part of `ipv6PrefixToUint256Range` after its check, for `bits` from 0 to 128.
  pub ipv6_range : List ℕ → ℕ → ℕ × ℕ
  ipv6_range ipv6_bytes bits =
      let min_addr = u.set_bytes ipv6_bytes in
      if bits == 128
      then (min_addr, min_addr)
      else let host_bits = 128 - bits in
        (
          ipv6_clear_bits (ipv6_clear_bytes min_addr host_bits) host_bits,
          ipv6_max min_addr host_bits,
        )

  pub ipv6_prefix_to_uint256_range : Addr → ℤ → Result (ℕ × ℕ)
  ipv6_prefix_to_uint256_range addr bits =
      if ltb_ℤ bits (pos 0) || ltb_ℤ (pos 128) bits
      then err Error.invalid_prefix
      else ok (ipv6_range (as16 addr) (pos_part bits))

  unfoldable pub prefix_to_uint256_range : Prefix → Result (ℕ × ℕ)
  prefix_to_uint256_range prefix =
      if is4 prefix.addr
      then ipv4_prefix_to_uint256_range prefix.addr prefix.bits
      else if is6 prefix.addr
      then ipv6_prefix_to_uint256_range prefix.addr prefix.bits
      else err Error.unsupported_ip_version

  unfoldable pub uint256_range_to_ipv4_prefix : ℕ → ℕ → Result Prefix
  uint256_range_to_ipv4_prefix min_val max_val =
      let min_v = u.uint64 min_val in
      let max_v = u.uint64 max_val in
      let range_size = u64 (max_v + 2 ^ 64 - min_v + 1) in
      let prefix_bits = shrink64 64 range_size (pos 32) in
      let mask = u32 (0xFFFFFFFF * 2 ^ pos_part (sub_from 32 prefix_bits)) in
      if gt_zero (u.cmp min_val max_val)
      then err Error.invalid_prefix
      else if ltb 0xFFFFFFFF min_v || ltb 0xFFFFFFFF max_v
      then err Error.invalid_prefix
      else if min_v == max_v
      then ok (prefix_from (addr_from4 (split4 min_v)) (pos 32))
      else if not (bit_and range_size (u64 (range_size + 2 ^ 64 - 1)) == 0)
      then err Error.invalid_prefix
      else if not (bit_and min_v (0xFFFFFFFF - mask) == 0)
      then err Error.invalid_prefix
      else ok (prefix_from (addr_from4 (split4 min_v)) prefix_bits)

  pub is_power_of_two : ℕ → Bool
  is_power_of_two n = if u.is_zero n then false else u.is_zero (u.and n (u.sub n 1))

  -- The same loop on an `Int`, with 256 rounds.
  pub shrink : ℕ → ℕ → ℤ → ℤ
  shrink zero size bits = bits
  shrink (suc left) size bits = elim (gt_zero (u.cmp size 1)) [
    | true ↦ shrink left (u.rsh size 1) (pred_ℤ bits)
    | false ↦ bits
  ]

  -- The last 16 of the 32 bytes that `WriteToSlice` fills.
  abbrev pub low16 : ℕ → List ℕ
  low16 n = drop 16 (u.bytes32 n)

  pub uint256_range_to_ipv6_prefix : ℕ → ℕ → Result Prefix
  uint256_range_to_ipv6_prefix min_val max_val =
      let diff = u.add (u.sub max_val min_val) 1 in
      let prefix_bits = shrink 256 diff (pos 128) in
      let host_bits = sub_from 128 prefix_bits in
      let mask = u.sub (u.lsh 1 (pos_part host_bits)) 1 in
      if gt_zero (u.cmp min_val max_val)
      then err Error.invalid_prefix
      else if eq_zero (u.cmp min_val max_val)
      then ok (prefix_from (addr_from16 (low16 min_val)) (pos 128))
      else if not (is_power_of_two diff)
      then err Error.invalid_prefix
      else if ltb_ℤ (pos 0) host_bits && not (u.is_zero (u.and min_val mask))
      then err Error.invalid_prefix
      else ok (prefix_from (addr_from16 (low16 min_val)) prefix_bits)

  unfoldable pub uint256_range_to_prefix : ℕ → ℕ → Bool → Result Prefix
  uint256_range_to_prefix min_val max_val true = uint256_range_to_ipv4_prefix min_val max_val
  uint256_range_to_prefix min_val max_val false = uint256_range_to_ipv6_prefix min_val max_val
