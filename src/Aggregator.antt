-- ===== src/Aggregator.antt =====
-- `PrefixAggregator` of aggregator.go: its state, and the methods that configure it and add
-- prefixes. `Reset` stands in Pool.antt, with the pool that it gives the prefixes to. A method
-- returns the new state with its error; locks are left out, since each method holds the lock for
-- all of what it does to the state, but `AddPrefixes`, which takes it once for each prefix.
pub mod Lists
pub mod Texts
pub mod Decided
pub mod Valid
use netjugo.Prelude.{
  ℕ, ◌+◌, Bool, true, false, ◌||◌, List, [], ◌∷◌, ◌++◌, Option, none, some, if◌then◌else◌, ℤ, pos,
  ltb_ℤ,
}
use netjugo.Errors.{ok, err, Error}
use netjugo.Netip.{is4, Prefix}
use netjugo.Text.{Text}
use netjugo.IpText.{IpText}
use netjugo.Uint256.{Uint256}
use netjugo.IpPrefix.{IpPrefix}
use netjugo.Parse.{parse_ip_prefix}

-- A warning's text names the family and the exclusion that it is about, and nothing else varies.
pub record Warning : Type 0 where
  pub is_ipv4 : Bool
  pub exclusion : Prefix

-- `handled` is what was passed to the warning handler so far, which is set or not.
pub record Aggregator : Type 0 where
  pub ipv4_prefixes : List IpPrefix
  pub ipv6_prefixes : List IpPrefix
  pub include_ipv4 : List IpPrefix
  pub include_ipv6 : List IpPrefix
  pub exclude_ipv4 : List IpPrefix
  pub exclude_ipv6 : List IpPrefix
  pub min_prefix_len_ipv4 : ℤ
  pub min_prefix_len_ipv6 : ℤ
  pub original_count : ℕ
  pub last_process_time : ℕ
  pub warnings : List Warning
  pub has_handler : Bool
  pub handled : List Warning

abbrev pub Outcome : Type 0
Outcome = Aggregator × Option Error

-- The next call, where the one before gave no error.
infixl 5 ◌then_try◌
abbrev pub ◌then_try◌ : Outcome → (Aggregator → Outcome) → Outcome
(pa, none) then_try next = next pa
(pa, some e) then_try next = (pa, some e)

abbrev pub new_prefix_aggregator : Aggregator
new_prefix_aggregator = record {
  ipv4_prefixes = [];
  ipv6_prefixes = [];
  include_ipv4 = [];
  include_ipv6 = [];
  exclude_ipv4 = [];
  exclude_ipv6 = [];
  min_prefix_len_ipv4 = pos 0;
  min_prefix_len_ipv6 = pos 0;
  original_count = 0;
  last_process_time = 0;
  warnings = [];
  has_handler = false;
  handled = [];
}

pub set_min_prefix_length : ℤ → ℤ → Aggregator → Outcome
set_min_prefix_length ipv4_len ipv6_len pa =
    if ltb_ℤ ipv4_len (pos 0) || ltb_ℤ (pos 32) ipv4_len
    then (pa, some Error.invalid_min_prefix_len)
    else if ltb_ℤ ipv6_len (pos 0) || ltb_ℤ (pos 128) ipv6_len
    then (pa, some Error.invalid_min_prefix_len)
    else (record pa { min_prefix_len_ipv4 = ipv4_len; min_prefix_len_ipv6 = ipv6_len }, none)

pub set_warning_handler : Bool → Aggregator → Aggregator
set_warning_handler handler pa = record pa { has_handler = handler }

unfoldable pub add_warning : Warning → Aggregator → Aggregator
add_warning msg pa = record pa {
  warnings = pa.warnings ++ (msg ∷ []);
  handled = if pa.has_handler then pa.handled ++ (msg ∷ []) else pa.handled;
}

unfoldable pub clear_warnings : Aggregator → Aggregator
clear_warnings pa = record pa { warnings = [] }

pub get_warnings : Aggregator → List Warning
get_warnings pa = pa.warnings

module _ (u : Uint256) (ip : IpText) where
  -- The loop of `SetIncludePrefixes` and of `SetExcludePrefixes` over the two lists that it fills.
  pub parse_into :
      List Text → List IpPrefix → List IpPrefix → (List IpPrefix × List IpPrefix) × Option Error
  parse_into [] ipv4 ipv6 = ((ipv4, ipv6), none)
  parse_into (prefix_str ∷ rest) ipv4 ipv6 = elim (parse_ip_prefix u ip prefix_str) [
    | err e ↦ ((ipv4, ipv6), some e)
    | ok p ↦ elim (is4 p.prefix.addr) [
      | true ↦ parse_into rest (ipv4 ++ (p ∷ [])) ipv6
      | false ↦ parse_into rest ipv4 (ipv6 ++ (p ∷ []))
    ]
  ]

  pub set_include_prefixes : List Text → Aggregator → Outcome
  set_include_prefixes prefixes pa =
      let filled = parse_into prefixes [] [] in
      (record pa { include_ipv4 = filled.0.0; include_ipv6 = filled.0.1 }, filled.1)

  pub set_exclude_prefixes : List Text → Aggregator → Outcome
  set_exclude_prefixes prefixes pa =
      let filled = parse_into prefixes [] [] in
      (record pa { exclude_ipv4 = filled.0.0; exclude_ipv6 = filled.0.1 }, filled.1)

  unfoldable pub add_prefix : Text → Aggregator → Outcome
  add_prefix prefix_str pa = elim (parse_ip_prefix u ip prefix_str) [
    | err e ↦ (pa, some e)
    | ok p ↦ (
      if is4 p.prefix.addr
          then record pa {
            ipv4_prefixes = pa.ipv4_prefixes ++ (p ∷ []);
            original_count = pa.original_count + 1;
          }
          else record pa {
            ipv6_prefixes = pa.ipv6_prefixes ++ (p ∷ []);
            original_count = pa.original_count + 1;
          },
      none,
    )
  ]

  pub add_prefixes : List Text → Aggregator → Outcome
  add_prefixes [] pa = (pa, none)
  add_prefixes (prefix_str ∷ rest) pa = add_prefix prefix_str pa then_try add_prefixes rest
