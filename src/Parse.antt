-- ===== src/Parse.antt =====
-- `parseIPPrefix` and `isValidIPPrefix` of validation.go.
pub mod Blocks
pub mod Laws
use netjugo.Prelude.{Bool, true, false, not, none, some, if◌then◌else◌, pos}
use netjugo.Text.{Text, trim_space, is_empty}
use netjugo.IpText.{IpText}
use netjugo.Errors.{Result, ok, err, ◌>>=◌, is_ok, Error}
use netjugo.Netip.{is4, is6, Prefix, prefix_from, is_valid}
use netjugo.Uint256.{Uint256}
use netjugo.IpPrefix.{IpPrefix}
use netjugo.Validation.{prefix_to_uint256_range}

module _ (u : Uint256) where
  -- The part behind the parsers.
  unfoldable pub with_range : Prefix → Result IpPrefix
  with_range prefix =
      if not (is_valid prefix)
      then err Error.invalid_prefix
      else (prefix_to_uint256_range u prefix >>= λ range.
          ok (record { prefix = prefix; min = range.0; max = range.1 }))

module _ (u : Uint256) (ip : IpText) where
  -- The part behind the trimming.
  abbrev pub parse_trimmed_text : Text → Result IpPrefix
  parse_trimmed_text trimmed =
      if is_empty trimmed then err Error.invalid_prefix else elim (ip.parse_prefix trimmed) [
        | some prefix ↦ with_range u prefix
        | none ↦ elim (ip.parse_addr trimmed) [
          | none ↦ err Error.invalid_prefix
          | some addr ↦
              if is4 addr
              then with_range u (prefix_from addr (pos 32))
              else if is6 addr
              then with_range u (prefix_from addr (pos 128))
              else err Error.invalid_prefix
        ]
      ]

  unfoldable pub parse_ip_prefix : Text → Result IpPrefix
  parse_ip_prefix prefix_str = parse_trimmed_text (trim_space prefix_str)

  pub is_valid_ip_prefix : Text → Bool
  is_valid_ip_prefix prefix_str = is_ok (parse_ip_prefix prefix_str)
