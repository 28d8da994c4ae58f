-- ===== src/Netip.antt =====
-- The parts of Go's net/netip that the program calls. An address is its family and its number;
-- zones do not occur, since `PrefixFrom` drops them.
use netjugo.Prelude.{
  ℕ, ◌-◌, ◌*◌, ◌/◌, ◌^◌, Bool, true, false, ◌||◌, List, be_bytes, of_bytes, length, ltb_ℤ, leb_ℤ,
  ◌==◌, if◌then◌else◌, ℤ, pos, negsuc, pos_part,
}
use netjugo.Errors.{Result, ok, err, Error}

-- `zero_addr` is `netip.Addr{}`. An IPv4-mapped IPv6 address is a `v6`.
pub data Addr : Type 0 where
  zero_addr : Addr
  v4 : ℕ → Addr
  v6 : ℕ → Addr

abbrev pub is4 : Addr → Bool
is4 zero_addr = false
is4 (v4 a) = true
is4 (v6 a) = false

abbrev pub is6 : Addr → Bool
is6 zero_addr = false
is6 (v4 a) = false
is6 (v6 a) = true

abbrev pub bit_len : Addr → ℕ
bit_len zero_addr = 0
bit_len (v4 a) = 32
bit_len (v6 a) = 128

abbrev pub value : Addr → ℕ
value zero_addr = 0
value (v4 a) = a
value (v6 a) = a

-- `Addr.IsValid`.
abbrev pub is_valid_addr : Addr → Bool
is_valid_addr zero_addr = false
is_valid_addr (v4 a) = true
is_valid_addr (v6 a) = true

-- `As4` and `As16`, on an address of the family.
abbrev pub as4 : Addr → List ℕ
as4 a = be_bytes 4 (value a)

abbrev pub as16 : Addr → List ℕ
as16 a = be_bytes 16 (value a)

abbrev pub addr_from4 : List ℕ → Addr
addr_from4 bs = v4 (of_bytes bs)

abbrev pub addr_from16 : List ℕ → Addr
addr_from16 bs = v6 (of_bytes bs)

abbrev pub addr_from_slice : List ℕ → Addr
addr_from_slice bs =
    if length bs == 4
    then v4 (of_bytes bs)
    else if length bs == 16
    then v6 (of_bytes bs)
    else zero_addr

-- `bits` is what `Bits` returns: -1 for an invalid prefix.
pub record Prefix : Type 0 where
  pub addr : Addr
  pub bits : ℤ

abbrev pub zero_prefix : Prefix
zero_prefix = record { addr = zero_addr; bits = negsuc 0 }

-- `Prefix.IsValid`.
abbrev pub is_valid : Prefix → Bool
is_valid p = leb_ℤ (pos 0) p.bits

-- `PrefixFrom` keeps the address as it is, host bits included.
abbrev pub prefix_from : Addr → ℤ → Prefix
prefix_from a b =
    if ltb_ℤ b (pos 0) || ltb_ℤ (pos (bit_len a)) b
    then record { addr = a; bits = negsuc 0 }
    else record { addr = a; bits = b }

-- The first `k` of `w` bits of a number, the others cleared.
abbrev pub keep_bits : ℕ → ℕ → ℕ → ℕ
keep_bits w k a = a / 2 ^ (w - k) * 2 ^ (w - k)

abbrev pub mask_addr : ℕ → Addr → Addr
mask_addr k zero_addr = zero_addr
mask_addr k (v4 a) = v4 (keep_bits 32 k a)
mask_addr k (v6 a) = v6 (keep_bits 128 k a)

-- `Addr.Prefix` clears the host bits, and refuses a length that the family does not have.
abbrev pub addr_prefix : Addr → ℤ → Result Prefix
addr_prefix zero_addr b = if ltb_ℤ b (pos 0) then err Error.plain else ok zero_prefix
addr_prefix (v4 a) b =
    if ltb_ℤ b (pos 0) || ltb_ℤ (pos 32) b
    then err Error.plain
    else ok (record { addr = mask_addr (pos_part b) (v4 a); bits = b })
addr_prefix (v6 a) b =
    if ltb_ℤ b (pos 0) || ltb_ℤ (pos 128) b
    then err Error.plain
    else ok (record { addr = mask_addr (pos_part b) (v6 a); bits = b })
