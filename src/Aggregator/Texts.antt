-- ===== src/Aggregator/Texts.antt =====
-- A list of texts, as `AddPrefixes`, `SetIncludePrefixes` and `SetExcludePrefixes` take it: up to
-- the first one that is not read.
use mathlib.Core.List.{append_assoc, append-nil}
use netjugo.Prelude.{
  ℕ, ◌+◌, ◌≡◌, refl, sym, ap, ap₂, ◌∙◌, arith, true, false, not, List, [], ◌∷◌, ◌++◌, Option, none,
  some, length, keep,
}
use netjugo.Text.{Text}
use netjugo.IpText.{IpText}
use netjugo.Errors.{ok, err, Error}
use netjugo.Netip.{is4}
use netjugo.Uint256.{Uint256}
use netjugo.IpPrefix.{IpPrefix}
use netjugo.Parse.{parse_ip_prefix}
use netjugo.Aggregator.{
  Aggregator, Outcome, parse_into, set_include_prefixes, set_exclude_prefixes, add_prefixes,
  ◌then_try◌,
}
use netjugo.Aggregator.Lists.{
  taken, not_taken, taken_ipv4, taken_ipv6, parse_into_fails, parse_into_ipv4, parse_into_ipv6,
  add_prefix_fails, add_prefix_ipv4, add_prefix_ipv6,
}

-- The prefixes of a list of one family.
abbrev pub ipv4_of : List IpPrefix → List IpPrefix
ipv4_of = keep (λ p. is4 p.prefix.addr)

abbrev pub ipv6_of : List IpPrefix → List IpPrefix
ipv6_of = keep (λ p. not (is4 p.prefix.addr))

module _ (u : Uint256) (ip : IpText) where
  -- The prefixes before the first text that is not read, and the error that it gives.
  abbrev pub read_before : List Text → List IpPrefix
  read_before [] = []
  read_before (t ∷ ts) = elim (parse_ip_prefix u ip t) [ err e ↦ [] | ok p ↦ p ∷ read_before ts ]

  abbrev pub first_error : List Text → Option Error
  first_error [] = none
  first_error (t ∷ ts) = elim (parse_ip_prefix u ip t) [ err e ↦ some e | ok p ↦ first_error ts ]

  module _ (t : Text) (ts : List Text) where
    pub read_fails :
        (e : Error)
        → parse_ip_prefix u ip t ≡ err e
        → (read_before (t ∷ ts) ≡ []) × (first_error (t ∷ ts) ≡ some e)
    read_fails e found = (rw (found, read_before) refl, rw (found, first_error) refl)

    pub read_reads :
        (p : IpPrefix)
        → parse_ip_prefix u ip t ≡ ok p
        → (read_before (t ∷ ts) ≡ p ∷ read_before ts) × (first_error (t ∷ ts) ≡ first_error ts)
    read_reads p found = (rw (found, read_before) refl, rw (found, first_error) refl)

  -- The lists with prefixes behind them.
  abbrev pub filled :
      List IpPrefix
      → List IpPrefix
      → List IpPrefix
      → Option Error
      → (List IpPrefix × List IpPrefix) × Option Error
  filled l4 l6 ps o = ((l4 ++ ipv4_of ps, l6 ++ ipv6_of ps), o)

  pub filled_none : (l4 l6 : List IpPrefix) (o : Option Error) → filled l4 l6 [] o ≡ ((l4, l6), o)
  filled_none l4 l6 o =
      ap₂ {C = (List IpPrefix × List IpPrefix) × Option Error} (λ x y. ((x, y), o)) (append-nil l4)
        (append-nil l6)

  pub filled_ipv4 :
      (l4 l6 ps : List IpPrefix) (o : Option Error) (p : IpPrefix)
      → is4 p.prefix.addr ≡ true
      → filled (l4 ++ (p ∷ [])) l6 ps o ≡ filled l4 l6 (p ∷ ps) o
  filled_ipv4 l4 l6 ps o p four = rw four (
      ap {B = (List IpPrefix × List IpPrefix) × Option Error} (λ k. ((k, l6 ++ ipv6_of ps), o))
        (append_assoc l4 (p ∷ []) (ipv4_of ps)))

  pub filled_ipv6 :
      (l4 l6 ps : List IpPrefix) (o : Option Error) (p : IpPrefix)
      → is4 p.prefix.addr ≡ false
      → filled l4 (l6 ++ (p ∷ [])) ps o ≡ filled l4 l6 (p ∷ ps) o
  filled_ipv6 l4 l6 ps o p six = rw six (
      ap {B = (List IpPrefix × List IpPrefix) × Option Error} (λ k. ((l4 ++ ipv4_of ps, k), o))
        (append_assoc l6 (p ∷ []) (ipv6_of ps)))

  parse_into_lem :
      (ts : List Text) (l4 l6 : List IpPrefix)
      → parse_into u ip ts l4 l6 ≡ filled l4 l6 (read_before ts) (first_error ts)
  unfolding parse_into
  parse_into_lem [] l4 l6 = sym (filled_none l4 l6 none)
  parse_into_lem (t ∷ ts) l4 l6 = elim (taken (parse_ip_prefix u ip t)) [
    | not_taken e found ↦
        let (none_read, fails) = read_fails t ts e found in
        parse_into_fails u ip t ts l4 l6 e found
        ∙ sym (filled_none l4 l6 (some e))
        ∙ sym (ap₂ (filled l4 l6) none_read fails)
    | taken_ipv4 p found four ↦
        let (reads, fails) = read_reads t ts p found in
        parse_into_ipv4 u ip t ts l4 l6 p found four
        ∙ parse_into_lem ts (l4 ++ (p ∷ [])) l6
        ∙ filled_ipv4 l4 l6 (read_before ts) (first_error ts) p four
        ∙ sym (ap₂ (filled l4 l6) reads fails)
    | taken_ipv6 p found six ↦
        let (reads, fails) = read_reads t ts p found in
        parse_into_ipv6 u ip t ts l4 l6 p found six
        ∙ parse_into_lem ts l4 (l6 ++ (p ∷ []))
        ∙ filled_ipv6 l4 l6 (read_before ts) (first_error ts) p six
        ∙ sym (ap₂ (filled l4 l6) reads fails)
  ]

  set_include_prefixes_lem :
      (ts : List Text) (pa : Aggregator)
      → set_include_prefixes u ip ts pa ≡ (
        record pa {
          include_ipv4 = ipv4_of (read_before ts);
          include_ipv6 = ipv6_of (read_before ts);
        },
        first_error ts,
      )
  unfolding set_include_prefixes
  set_include_prefixes_lem ts pa =
      ap (λ r. (record pa { include_ipv4 = r.0.0; include_ipv6 = r.0.1 }, r.1))
        (parse_into_lem ts [] [])

  set_exclude_prefixes_lem :
      (ts : List Text) (pa : Aggregator)
      → set_exclude_prefixes u ip ts pa ≡ (
        record pa {
          exclude_ipv4 = ipv4_of (read_before ts);
          exclude_ipv6 = ipv6_of (read_before ts);
        },
        first_error ts,
      )
  unfolding set_exclude_prefixes
  set_exclude_prefixes_lem ts pa =
      ap (λ r. (record pa { exclude_ipv4 = r.0.0; exclude_ipv6 = r.0.1 }, r.1))
        (parse_into_lem ts [] [])

  -- A state with prefixes behind its lists, and the error that goes with it.
  abbrev pub with_added : Aggregator → List IpPrefix → Option Error → Outcome
  with_added pa ps o = (
    record pa {
      ipv4_prefixes = pa.ipv4_prefixes ++ ipv4_of ps;
      ipv6_prefixes = pa.ipv6_prefixes ++ ipv6_of ps;
      original_count = pa.original_count + length ps;
    },
    o,
  )

  -- The same, from the lists.
  abbrev pub grown : Aggregator → (List IpPrefix × List IpPrefix) × Option Error → ℕ → Outcome
  grown pa r n =
      (record pa { ipv4_prefixes = r.0.0; ipv6_prefixes = r.0.1; original_count = n }, r.1)

  -- `AddPrefixes` puts the prefixes before the first text that is not read behind the list of
  -- their family, in their order, counts them, and gives the error of that text.
  pub add_prefixes_lem :
      (ts : List Text) (pa : Aggregator)
      → add_prefixes u ip ts pa ≡ with_added pa (read_before ts) (first_error ts)
  unfolding add_prefixes
  add_prefixes_lem [] pa =
      sym (ap₂ (grown pa) (filled_none pa.ipv4_prefixes pa.ipv6_prefixes none) (omega arith))
  add_prefixes_lem (t ∷ ts) pa = elim (taken (parse_ip_prefix u ip t)) [
    | not_taken e found ↦
        let (none_read, fails) = read_fails t ts e found in
        ap (λ r. r then_try add_prefixes u ip ts) (add_prefix_fails u ip t pa e found)
        ∙ sym (
            ap₂ (with_added pa) none_read fails
            ∙ ap₂ (grown pa) (filled_none pa.ipv4_prefixes pa.ipv6_prefixes (some e)) (omega arith))
    | taken_ipv4 p found four ↦
        let (reads, fails) = read_reads t ts p found in
        let rest = read_before ts in
        ap (λ r. r then_try add_prefixes u ip ts) (add_prefix_ipv4 u ip t pa p found four)
        ∙ add_prefixes_lem ts (record pa {
          ipv4_prefixes = pa.ipv4_prefixes ++ (p ∷ []);
          original_count = pa.original_count + 1;
        })
        ∙ ap₂ (grown pa)
            (filled_ipv4 pa.ipv4_prefixes pa.ipv6_prefixes rest (first_error ts) p four)
            (omega arith)
        ∙ sym (ap₂ (with_added pa) reads fails)
    | taken_ipv6 p found six ↦
        let (reads, fails) = read_reads t ts p found in
        let rest = read_before ts in
        ap (λ r. r then_try add_prefixes u ip ts) (add_prefix_ipv6 u ip t pa p found six)
        ∙ add_prefixes_lem ts (record pa {
          ipv6_prefixes = pa.ipv6_prefixes ++ (p ∷ []);
          original_count = pa.original_count + 1;
        })
        ∙ ap₂ (grown pa) (filled_ipv6 pa.ipv4_prefixes pa.ipv6_prefixes rest (first_error ts) p six)
            (omega arith)
        ∙ sym (ap₂ (with_added pa) reads fails)
  ]

  -- `SetIncludePrefixes` and `SetExcludePrefixes` replace their two lists by the prefixes before
  -- the first text that is not read, by family and in their order, and give the error of that
  -- text.
  pub setters_lem :
      (ts : List Text) (pa : Aggregator)
      → (set_include_prefixes u ip ts pa ≡ (
        record pa {
          include_ipv4 = ipv4_of (read_before ts);
          include_ipv6 = ipv6_of (read_before ts);
        },
        first_error ts,
      ))
        × (set_exclude_prefixes u ip ts pa ≡ (
          record pa {
            exclude_ipv4 = ipv4_of (read_before ts);
            exclude_ipv6 = ipv6_of (read_before ts);
          },
          first_error ts,
        ))
  setters_lem ts pa = (set_include_prefixes_lem ts pa, set_exclude_prefixes_lem ts pa)
