-- ===== src/Aggregator/Lists.antt =====
-- The three ways in which `AddPrefix` and the setters take a text, and that what holds of every prefix that is read from a
-- text holds of the lists.
use netjugo.Prelude.{
  ◌+◌, refl, ◌≡◌, sym, subst, Bool, true, false, Bool-cases, inl, inr, List, [], ◌∷◌, ◌++◌, none,
  some, All, All-append,
}
use netjugo.Text.{Text}
use netjugo.IpText.{IpText}
use netjugo.Errors.{ok, err, Error, Result}
use netjugo.Netip.{is4}
use netjugo.Uint256.{Uint256}
use netjugo.IpPrefix.{IpPrefix}
use netjugo.Parse.{parse_ip_prefix}
use netjugo.Aggregator.{Aggregator, Outcome, parse_into, add_prefix}

-- What the reading of a text gives: an error, or a prefix of one of the families.
pub data IsTaken (r : Result IpPrefix) : Type 0 where
  not_taken : (e : Error) → r ≡ err e → IsTaken r
  taken_ipv4 : (p : IpPrefix) → r ≡ ok p → is4 p.prefix.addr ≡ true → IsTaken r
  taken_ipv6 : (p : IpPrefix) → r ≡ ok p → is4 p.prefix.addr ≡ false → IsTaken r

pub taken : (r : Result IpPrefix) → IsTaken r
taken (err e) = not_taken e refl
taken (ok p) = elim (Bool-cases (is4 p.prefix.addr)) [
  | inl four ↦ taken_ipv4 p refl four
  | inr six ↦ taken_ipv6 p refl six
]

-- The lists of both families have the property of their family.
abbrev pub BothAll : (Bool → IpPrefix → Type 0) → List IpPrefix × List IpPrefix → Type 0
BothAll P r = All (P true) r.0 × All (P false) r.1

module _ (u : Uint256) (ip : IpText) where
  -- One step of the setters' loop.
  module _ (t : Text) (ts : List Text) (l4 l6 : List IpPrefix) where
    pub parse_into_fails :
        (e : Error)
        → parse_ip_prefix u ip t ≡ err e
        → parse_into u ip (t ∷ ts) l4 l6 ≡ ((l4, l6), some e)
    unfolding parse_into
    parse_into_fails e found = rw (found, parse_into)

    pub parse_into_ipv4 :
        (p : IpPrefix)
        → parse_ip_prefix u ip t ≡ ok p
        → is4 p.prefix.addr ≡ true
        → parse_into u ip (t ∷ ts) l4 l6 ≡ parse_into u ip ts (l4 ++ (p ∷ [])) l6
    unfolding parse_into
    parse_into_ipv4 p found four = rw (found, parse_into, four)

    pub parse_into_ipv6 :
        (p : IpPrefix)
        → parse_ip_prefix u ip t ≡ ok p
        → is4 p.prefix.addr ≡ false
        → parse_into u ip (t ∷ ts) l4 l6 ≡ parse_into u ip ts l4 (l6 ++ (p ∷ []))
    unfolding parse_into
    parse_into_ipv6 p found six = rw (found, parse_into, six)

  -- `AddPrefix`.
  module _ (t : Text) (pa : Aggregator) where
    pub add_prefix_fails :
        (e : Error) → parse_ip_prefix u ip t ≡ err e → add_prefix u ip t pa ≡ (pa, some e)
    unfolding add_prefix
    add_prefix_fails e found = rw (found, add_prefix)

    pub add_prefix_ipv4 :
        (p : IpPrefix)
        → parse_ip_prefix u ip t ≡ ok p
        → is4 p.prefix.addr ≡ true
        → add_prefix u ip t pa ≡ (
          record pa {
            ipv4_prefixes = pa.ipv4_prefixes ++ (p ∷ []);
            original_count = pa.original_count + 1;
          },
          none,
        )
    unfolding add_prefix
    add_prefix_ipv4 p found four = rw (found, add_prefix, four)

    pub add_prefix_ipv6 :
        (p : IpPrefix)
        → parse_ip_prefix u ip t ≡ ok p
        → is4 p.prefix.addr ≡ false
        → add_prefix u ip t pa ≡ (
          record pa {
            ipv6_prefixes = pa.ipv6_prefixes ++ (p ∷ []);
            original_count = pa.original_count + 1;
          },
          none,
        )
    unfolding add_prefix
    add_prefix_ipv6 p found six = rw (found, add_prefix, six)

  -- `AddPrefix` does the same for two texts that are read alike.
  pub add_prefix_alike :
      (t s : Text) (pa : Aggregator)
      → parse_ip_prefix u ip t ≡ parse_ip_prefix u ip s
      → add_prefix u ip t pa ≡ add_prefix u ip s pa
  unfolding add_prefix
  add_prefix_alike t s pa same = rw (same, add_prefix)

  module _ (P : Bool → IpPrefix → Type 0) where
    -- The text is read as a prefix with the property, if it is read at all.
    abbrev pub IsFine : Text → Type 0
    IsFine t = (p : IpPrefix) → parse_ip_prefix u ip t ≡ ok p → P (is4 p.prefix.addr) p

    -- One more prefix with the property behind a list.
    abbrev with_one :
        (f : Bool) (t : Text) (l : List IpPrefix) (p : IpPrefix)
        → IsFine t
        → parse_ip_prefix u ip t ≡ ok p
        → is4 p.prefix.addr ≡ f
        → All (P f) l
        → All (P f) (l ++ (p ∷ []))
    with_one f t l p fine found family h =
        All-append (P f) l (p ∷ []) h (subst (λ g. P g p) family (fine p found), tt)

    pub parse_into-All :
        (ts : List Text) (l4 l6 : List IpPrefix)
        → All IsFine ts
        → BothAll P (l4, l6)
        → BothAll P (parse_into u ip ts l4 l6).0
    unfolding parse_into
    parse_into-All [] l4 l6 fine both = both
    parse_into-All (t ∷ ts) l4 l6 (one, fine) (h4, h6) = elim (taken (parse_ip_prefix u ip t)) [
      | not_taken e found ↦
          subst (λ r. BothAll P r.0) (sym (parse_into_fails t ts l4 l6 e found)) (h4, h6)
      | taken_ipv4 p found four ↦
          subst (λ r. BothAll P r.0) (sym (parse_into_ipv4 t ts l4 l6 p found four))
            (parse_into-All ts (l4 ++ (p ∷ [])) l6 fine
              (with_one true t l4 p one found four h4, h6))
      | taken_ipv6 p found six ↦
          subst (λ r. BothAll P r.0) (sym (parse_into_ipv6 t ts l4 l6 p found six))
            (parse_into-All ts l4 (l6 ++ (p ∷ [])) fine
              (h4, with_one false t l6 p one found six h6))
    ]

    pub add_prefix-All :
        (t : Text) (pa : Aggregator)
        → IsFine t
        → BothAll P (pa.ipv4_prefixes, pa.ipv6_prefixes)
        → BothAll P ((add_prefix u ip t pa).0.ipv4_prefixes, (add_prefix u ip t pa).0.ipv6_prefixes)
    add_prefix-All t pa one (h4, h6) = elim (taken (parse_ip_prefix u ip t)) [
      | not_taken e found ↦ fold (add_prefix_fails t pa e found) (h4, h6)
      | taken_ipv4 p found four ↦
          fold (add_prefix_ipv4 t pa p found four)
            (with_one true t pa.ipv4_prefixes p one found four h4, h6)
      | taken_ipv6 p found six ↦
          fold (add_prefix_ipv6 t pa p found six)
            (h4, with_one false t pa.ipv6_prefixes p one found six h6)
    ]
      where
        fold :
            {r r' : Outcome}
            → r ≡ r'
            → BothAll P (r'.0.ipv4_prefixes, r'.0.ipv6_prefixes)
            → BothAll P (r.0.ipv4_prefixes, r.0.ipv6_prefixes)
        fold e h = subst (λ s. BothAll P (s.0.ipv4_prefixes, s.0.ipv6_prefixes)) (sym e) h
