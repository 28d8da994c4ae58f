-- ===== src/IpText.antt =====
-- The texts of addresses and prefixes. Go's net/netip reads and prints them; its parsers are a
-- parameter, with what its documentation says of their results. IpText/Dotted reads IPv4.
pub mod Dotted
use netjugo.Prelude.{ℕ, ◌+◌, ◌-◌, ◌^◌, ◌≤◌, ◌<◌, ◌≡◌, Bool, true, false, Option, none, some, ◌++◌}
use netjugo.Text.{Text, codes, contains_char, count_char}
use netjugo.Netip.{Addr, v4, v6, Prefix}
use netjugo.IpPrefix.{width}
use netjugo.Validation.Blocks.{family_addr, prefix_of}

-- A prefix of either family, with a length that the family has. Host bits may be set.
pub record IsFamilyPrefix (p : Prefix) : Type 0 where
  pub is_ipv4 : Bool
  pub number : ℕ
  pub host : ℕ
  pub number_fits : number < 2 ^ width is_ipv4
  pub host_fits : host ≤ width is_ipv4
  pub same : p ≡ prefix_of is_ipv4 number host

pub record IsFamilyAddr (a : Addr) : Type 0 where
  pub is_ipv4 : Bool
  pub number : ℕ
  pub number_fits : number < 2 ^ width is_ipv4
  pub same : a ≡ family_addr is_ipv4 number

pub record IpText : Type 0 where
  pub parse_prefix : Text → Option Prefix
  pub parse_addr : Text → Option Addr
  pub prefix_string : Prefix → Text
  pub parse_prefix_lem : (t : Text) (p : Prefix) → parse_prefix t ≡ some p → IsFamilyPrefix p
  pub parse_addr_lem : (t : Text) (a : Addr) → parse_addr t ≡ some a → IsFamilyAddr a
  -- A dotted quad holds three dots, no colon and no slash, and with `/32` it is a prefix.
  pub ipv4_syntax :
      (t : Text) (a : ℕ)
      → parse_addr t ≡ some (v4 a)
      → (contains_char b'/' t ≡ false) × (contains_char b':' t ≡ false) × (count_char b'.' t ≡ 3)
  pub ipv4_host :
      (t : Text) (a : ℕ)
      → parse_addr t ≡ some (v4 a)
      → parse_prefix (t ++ codes "/32") ≡ some (prefix_of true a 0)
  -- An IPv6 address holds a colon, and with no zone (`%`) no slash; with `/128` it is a prefix then.
  pub ipv6_syntax :
      (t : Text) (a : ℕ)
      → parse_addr t ≡ some (v6 a)
      → contains_char b'%' t ≡ false
      → (contains_char b'/' t ≡ false) × (contains_char b':' t ≡ true)
  pub ipv6_host :
      (t : Text) (a : ℕ)
      → parse_addr t ≡ some (v6 a)
      → contains_char b'%' t ≡ false
      → parse_prefix (t ++ codes "/128") ≡ some (prefix_of false a 0)
  -- A prefix has a slash.
  pub prefix_slash : (t : Text) → contains_char b'/' t ≡ false → parse_prefix t ≡ none
