-- ===== src/Cli/Pieces.antt =====
-- The lists of prefixes that are given in flags of cmd/ipaggregator/main.go, with commas between.
use netjugo.Prelude.{
  ◌≡◌, refl, ap, ap₂, ◌∙◌, false, List, [], ◌∷◌, map, Option, none, some, Bool-cases, inl, inr, All,
  if◌then◌else◌,
}
use netjugo.Errors.{ok, err, Error}
use netjugo.Text.{Text, trim_space, is_empty}
use netjugo.Text.Split.{joined, IsPiece, split_on-joined}
use netjugo.IpText.{IpText}
use netjugo.Uint256.{Uint256}
use netjugo.IpPrefix.{IpPrefix}
use netjugo.Parse.{parse_ip_prefix}
use netjugo.Parse.Laws.{parse_trimmed}
use netjugo.Aggregator.{Aggregator, Outcome, set_include_prefixes, set_exclude_prefixes}
use netjugo.Aggregator.Texts.{ipv4_of, ipv6_of, read_before, first_error, setters_lem}
use netjugo.Cli.{Flags, World, pieces, include_from_flag, exclude_from_flag}

module _ (u : Uint256) (ip : IpText) where
  -- White space around the texts of a list does not matter.
  read_before-trim_space :
      (ts : List Text) → read_before u ip (map trim_space ts) ≡ read_before u ip ts
  read_before-trim_space [] = refl
  read_before-trim_space (t ∷ ts) =
      rw (read_before, parse_trimmed u ip t)
        (ap
          (λ k. elim (parse_ip_prefix u ip t) as (λ _. List IpPrefix) [ err e ↦ [] | ok p ↦ p ∷ k ])
          (read_before-trim_space ts))

  first_error-trim_space :
      (ts : List Text) → first_error u ip (map trim_space ts) ≡ first_error u ip ts
  first_error-trim_space [] = refl
  first_error-trim_space (t ∷ ts) =
      rw (first_error, parse_trimmed u ip t)
        (ap
          (λ k. elim (parse_ip_prefix u ip t) as (λ _. Option Error) [ err e ↦ some e | ok p ↦ k ])
          (first_error-trim_space ts))

  -- What the flag's pieces are read as.
  pieces_read :
      (ts : List Text)
      → All (IsPiece b',') ts
      → is_empty (joined b',' ts) ≡ false
      → (read_before u ip (pieces (joined b',' ts)) ≡ read_before u ip ts)
        × (first_error u ip (pieces (joined b',' ts)) ≡ first_error u ip ts)
  pieces_read [] free given = absurd cc
  pieces_read (t ∷ ts) free given =
      let split = ap (map trim_space) (split_on-joined b',' t ts free) in
      (
        ap (read_before u ip) split ∙ read_before-trim_space (t ∷ ts),
        ap (first_error u ip) split ∙ first_error-trim_space (t ∷ ts),
      )

  -- A flag that is given sets what its texts are read as, by a setter `set`; else nothing is set.
  from_flag_lem :
      (set : List Text → Outcome) (as_read : List IpPrefix → Option Error → Outcome)
      (unset : Outcome) (flag : Text) (ts : List Text)
      → ((l : List Text) → set l ≡ as_read (read_before u ip l) (first_error u ip l))
      → All (IsPiece b',') ts
      → flag ≡ joined b',' ts
      → (if is_empty flag then unset else set (pieces flag)) ≡ (
          if is_empty (joined b',' ts)
          then unset
          else as_read (read_before u ip ts) (first_error u ip ts))
  from_flag_lem set as_read unset flag ts lem free given =
      ap (λ k. if is_empty k then unset else set (pieces k)) given
      ∙ elim (Bool-cases (is_empty (joined b',' ts))) [
        | inl e ↦ rw e refl
        | inr e ↦
            let (same, fails) = pieces_read ts free e in
            rw e (lem (pieces (joined b',' ts)) ∙ ap₂ as_read same fails)
      ]

  module _ (world : World) (flags : Flags) where
    -- Where the flags of prefixes to include and of prefixes to exclude are texts without a comma,
    -- joined by commas, each flag that is not empty replaces the inclusions, or the exclusions,
    -- that the state had: what is then set are the prefixes of the texts, with any white space
    -- around them, before the first one that is not read, by family and in their order, with the
    -- error of that text. An empty flag leaves the state as it is.
    pub prefix_flags_lem :
        (ts es : List Text) (pa : Aggregator)
        → All (IsPiece b',') ts
        → All (IsPiece b',') es
        → flags.include_pfx ≡ joined b',' ts
        → flags.exclude_pfx ≡ joined b',' es
        → (include_from_flag u ip world flags pa ≡ (
            if is_empty (joined b',' ts) then (pa, none) else (
              record pa {
                include_ipv4 = ipv4_of (read_before u ip ts);
                include_ipv6 = ipv6_of (read_before u ip ts);
              },
              first_error u ip ts,
            )))
          × (exclude_from_flag u ip world flags pa ≡ (
              if is_empty (joined b',' es) then (pa, none) else (
                record pa {
                  exclude_ipv4 = ipv4_of (read_before u ip es);
                  exclude_ipv6 = ipv6_of (read_before u ip es);
                },
                first_error u ip es,
              )))
    unfolding include_from_flag exclude_from_flag
    prefix_flags_lem ts es pa free free' given given' = (
      from_flag_lem (λ l. set_include_prefixes u ip l pa)
          (λ ps o. (record pa { include_ipv4 = ipv4_of ps; include_ipv6 = ipv6_of ps }, o))
          (pa, none) flags.include_pfx ts (λ l. (setters_lem u ip l pa).0) free given,
      from_flag_lem (λ l. set_exclude_prefixes u ip l pa)
          (λ ps o. (record pa { exclude_ipv4 = ipv4_of ps; exclude_ipv6 = ipv6_of ps }, o))
          (pa, none) flags.exclude_pfx es (λ l. (setters_lem u ip l pa).1) free' given',
    )
