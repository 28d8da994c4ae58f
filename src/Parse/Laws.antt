-- ===== src/Parse/Laws.antt =====
-- What `parseIPPrefix` returns: a prefix of a family with its range, or `ErrInvalidPrefix`.
use netjugo.Prelude.{
  ℕ, ◌-◌, ◌^◌, ◌≤◌, ◌<◌, ◌≡◌, refl, ap, ◌∙◌, arith, Bool, true, false, Bool-cases, inl, inr, some,
  none, Option-cases, pos, leb, if◌then◌else◌,
}
use netjugo.Text.{Text, trim_space, is_empty}
use netjugo.Text.Trim.{trim_space_idem, IsTrimmed, trim_space_stays}
use netjugo.IpText.{IpText, IsFamilyPrefix, IsFamilyAddr}
use netjugo.Errors.{Result, ok, err, is_ok, Error}
use netjugo.Netip.{Addr, is4, is6, Prefix, prefix_from}
use netjugo.Uint256.{Uint256}
use netjugo.IpPrefix.{IpPrefix, width}
use netjugo.Validation.Blocks.{family_addr, prefix_of, first, last, prefix_to_uint256_range_lem}
use netjugo.Parse.{with_range, parse_trimmed_text, parse_ip_prefix, is_valid_ip_prefix}

-- The prefix of an address with its range.
abbrev pub ranged : Bool → ℕ → ℕ → IpPrefix
ranged f a h = record { prefix = prefix_of f a h; min = first f a h; max = last a h }

-- A prefix of a family with its range, or the sentinel for an invalid prefix.
pub data IsParsed (r : Result IpPrefix) : Type 0 where
  parsed : (f : Bool) (a h : ℕ) → a < 2 ^ width f → h ≤ width f → r ≡ ok (ranged f a h) → IsParsed r
  refused : r ≡ err Error.invalid_prefix → IsParsed r

module _ (u : Uint256) where
  pub with_range_lem :
      (f : Bool) (a h : ℕ)
      → a < 2 ^ width f
      → h ≤ width f
      → with_range u (prefix_of f a h) ≡ ok (ranged f a h)
  unfolding with_range
  with_range_lem f a h fits host =
      let counted : leb 0 (width f - h) ≡ true = ground arith in
      rw (counted, prefix_to_uint256_range_lem u f a h fits host)

  with_range-IsParsed : (p : Prefix) → IsFamilyPrefix p → IsParsed (with_range u p)
  with_range-IsParsed p q =
      let lem = with_range_lem q.is_ipv4 q.number q.host q.number_fits q.host_fits in
      parsed q.is_ipv4 q.number q.host q.number_fits q.host_fits (ap (with_range u) q.same ∙ lem)

  -- The prefix of a bare address.
  abbrev host_range : Addr → Result IpPrefix
  host_range addr =
      if is4 addr
      then with_range u (prefix_from addr (pos 32))
      else if is6 addr
      then with_range u (prefix_from addr (pos 128))
      else err Error.invalid_prefix

  host_range_lem :
      (f : Bool) (a : ℕ) → host_range (family_addr f a) ≡ with_range u (prefix_of f a 0)
  host_range_lem true a = refl
  host_range_lem false a = refl

  host_range-IsParsed : (a : Addr) → IsFamilyAddr a → IsParsed (host_range a)
  host_range-IsParsed a q =
      let zero_le : 0 ≤ width q.is_ipv4 = omega arith in
      let lem = with_range_lem q.is_ipv4 q.number 0 q.number_fits zero_le in
      parsed q.is_ipv4 q.number 0 q.number_fits zero_le
        (ap host_range q.same ∙ host_range_lem q.is_ipv4 q.number ∙ lem)

  module _ (ip : IpText) where
    -- Every text is read as a prefix of one of the families with an address and a length that the
    -- family has, together with its range, or it gives the sentinel for an invalid prefix and no
    -- other error.
    pub parse_ip_prefix-IsParsed : (t : Text) → IsParsed (parse_ip_prefix u ip t)
    unfolding parse_ip_prefix
    parse_ip_prefix-IsParsed t = elim (Bool-cases (is_empty (trim_space t))) [
      | inl e ↦ refused (rw e)
      | inr e ↦ elim (Option-cases (ip.parse_prefix (trim_space t))) [
        | inr (p, found) ↦
            rw (e, found) (with_range-IsParsed p (ip.parse_prefix_lem (trim_space t) p found))
        | inl missed ↦ elim (Option-cases (ip.parse_addr (trim_space t))) [
          | inl none_such ↦ refused (rw (e, missed, none_such))
          | inr (a, found) ↦
              rw (e, missed, found)
                (host_range-IsParsed a (ip.parse_addr_lem (trim_space t) a found))
        ]
      ]
    ]

    -- White space around a text does not matter.
    pub parse_trimmed : (t : Text) → parse_ip_prefix u ip (trim_space t) ≡ parse_ip_prefix u ip t
    unfolding parse_ip_prefix
    parse_trimmed t = ap (parse_trimmed_text u ip) (trim_space_idem t)

    module _ (t : Text) (trimmed : IsTrimmed t) (some_text : is_empty t ≡ false) where
      -- A text that the first parser reads.
      pub parse_written :
          (p : Prefix) → ip.parse_prefix t ≡ some p → parse_ip_prefix u ip t ≡ with_range u p
      unfolding parse_ip_prefix
      parse_written p found = rw (trim_space_stays t trimmed, some_text, found)

      -- A bare address is read as its host prefix.
      pub parse_bare :
          (f : Bool) (a : ℕ)
          → ip.parse_prefix t ≡ none
          → ip.parse_addr t ≡ some (family_addr f a)
          → parse_ip_prefix u ip t ≡ with_range u (prefix_of f a 0)
      unfolding parse_ip_prefix
      parse_bare f a missed found =
          let stays = trim_space_stays t trimmed in
          rw (stays, some_text, missed, stays, found) (host_range_lem f a)

pub is_valid_ip_prefix_lem :
    (u : Uint256) (ip : IpText) (t : Text)
    → is_valid_ip_prefix u ip t ≡ is_ok (parse_ip_prefix u ip t)
unfolding is_valid_ip_prefix
is_valid_ip_prefix_lem u ip t = refl
