-- ===== src/Reader/Bare.antt =====
-- `AddFromReader` on lines with a bare address, which it completes to a host prefix.
use mathlib.Core.List.{reverse}
use netjugo.Prelude.{
  ℕ, ◌^◌, ◌<◌, ◌≡◌, refl, sym, ap, ap₂, ◌∙◌, arith, Bool, true, false, ◌||◌, Bool-cases, inl, inr,
  [], ◌∷◌, ◌++◌, some, ◌==◌,
}
use netjugo.Text.{
  Text, codes, trim_space, is_empty, text_eq, starts_with, contains_char, count_char,
}
use netjugo.Text.Trim.{suffixes-IsTrimmed, IsTrimmed, trim_space-IsTrimmed, IsTrimmed-append}
use netjugo.IpText.{IpText}
use netjugo.Errors.{ok}
use netjugo.Netip.{is4, value}
use netjugo.Uint256.{Uint256}
use netjugo.IpPrefix.{width}
use netjugo.Validation.Blocks.{family_addr, prefix_of, value_lem}
use netjugo.Parse.Blocks.{is4-family_addr}
use netjugo.Aggregator.Lists.{add_prefix_alike}
use netjugo.Parse.{parse_ip_prefix}
use netjugo.Parse.Laws.{ranged, with_range_lem, parse_written, parse_bare, parse_trimmed}
use netjugo.Aggregator.{Aggregator, add_prefix}
use netjugo.Reader.{line_prefix, add_line}
use netjugo.Reader.Lines.{pass_line}

text_eq-≡ : (t s : Text) → text_eq t s ≡ true → t ≡ s
text_eq-≡ [] [] e = refl
text_eq-≡ [] (d ∷ s) e = absurd cc
text_eq-≡ (c ∷ t) [] e = absurd cc
text_eq-≡ (c ∷ t) (d ∷ s) e =
    let head : c ≡ d = ground arith in
    let tail : text_eq t s ≡ true = ground arith in ap₂ (λ x y. x ∷ y) head (text_eq-≡ t s tail)

-- A text that passes a test is none that fails it.
differs : (test : Text → Bool) (t s : Text) → test s ≡ false → test t ≡ true → text_eq t s ≡ false
differs test t s fails passes = elim (Bool-cases (text_eq t s)) [
  | inr no_text ↦ no_text
  | inl same ↦ absurd (cc (ap test (text_eq-≡ t s same)))
]

some_text : (test : Text → Bool) → test [] ≡ false → (t : Text) → test t ≡ true → is_empty t ≡ false
some_text test fails [] h = absurd cc
some_text test fails (d ∷ t) h = refl

addr_fits :
    (ip : IpText) (t : Text) (f : Bool) (a : ℕ)
    → ip.parse_addr t ≡ some (family_addr f a)
    → a < 2 ^ width f
addr_fits ip t f a found =
    let family = ip.parse_addr_lem t (family_addr f a) found in
    let same_family : f ≡ family.is_ipv4 =
      sym (is4-family_addr f a)
      ∙ ap is4 family.same
      ∙ is4-family_addr family.is_ipv4 family.number in
    let same_number : a ≡ family.number =
      sym (value_lem f a) ∙ ap value family.same ∙ value_lem family.is_ipv4 family.number in
    omega (arith, family.number_fits, same_number, ap (λ g. 2 ^ width g) same_family)

abbrev is_skipped : Text → Bool
is_skipped line =
    is_empty line
    || starts_with b'#' line
    || text_eq line (codes "network")
    || text_eq line (codes "prefix")
    || text_eq line (codes "cidr")

not_skipped :
    (test : Text → Bool) (line : Text)
    → test [] ≡ false
    → test (codes "network") ≡ false
    → test (codes "prefix") ≡ false
    → test (codes "cidr") ≡ false
    → test line ≡ true
    → starts_with b'#' line ≡ false
    → is_skipped line ≡ false
not_skipped test line e n p c passes plain = rw (
  differs test line (codes "network") n passes,
  differs test line (codes "prefix") p passes,
  differs test line (codes "cidr") c passes,
  plain,
  some_text test e line passes,
)

module _ (raw : Text) (plain : starts_with b'#' (trim_space raw) ≡ false)
    (no_slash : contains_char b'/' (trim_space raw) ≡ false) where
  dots_line :
      contains_char b':' (trim_space raw) ≡ false
      → count_char b'.' (trim_space raw) ≡ 3
      → line_prefix raw ≡ some (trim_space raw ++ codes "/32")
  unfolding line_prefix
  dots_line no_colon dots =
      let three : (count_char b'.' (trim_space raw) == 3) ≡ true = ground arith in
      rw (
        not_skipped (λ t. count_char b'.' t == 3) (trim_space raw) refl refl refl refl three plain,
        no_slash,
        no_colon,
        three,
      )

  colon_line :
      contains_char b':' (trim_space raw) ≡ true
      → line_prefix raw ≡ some (trim_space raw ++ codes "/128")
  unfolding line_prefix
  colon_line colon = rw (
    not_skipped (contains_char b':') (trim_space raw) refl refl refl refl colon plain,
    no_slash,
    colon,
  )

module _ (u : Uint256) (ip : IpText) (raw : Text) (a : ℕ)
    (plain : starts_with b'#' (trim_space raw) ≡ false) where
  -- The address with its host prefix, in both ways to write it.
  abbrev host_suffix : Bool → Text
  host_suffix true = codes "/32"
  host_suffix false = codes "/128"

  suffix-IsTrimmed : (f : Bool) → IsTrimmed (host_suffix f)
  suffix-IsTrimmed true = suffixes-IsTrimmed.0
  suffix-IsTrimmed false = suffixes-IsTrimmed.1

  some_suffix : (f : Bool) → is_empty (reverse (host_suffix f)) ≡ false
  some_suffix true = refl
  some_suffix false = refl

  completed :
      (f : Bool)
      → is_empty (trim_space raw) ≡ false
      → ip.parse_prefix (trim_space raw ++ host_suffix f) ≡ some (prefix_of f a 0)
      → a < 2 ^ width f
      → parse_ip_prefix u ip (trim_space raw ++ host_suffix f) ≡ ok (ranged f a 0)
  completed f some_text found fits =
      let trimmed =
        IsTrimmed-append (trim_space raw) (host_suffix f) some_text (some_suffix f)
          (trim_space-IsTrimmed raw) (suffix-IsTrimmed f) in
      parse_written u ip (trim_space raw ++ host_suffix f) trimmed
        (some_append (trim_space raw) some_text) (prefix_of f a 0) found
      ∙ with_range_lem u f a 0 fits (omega arith)
    where
      some_append : (t : Text) → is_empty t ≡ false → is_empty (t ++ host_suffix f) ≡ false
      some_append [] e = absurd cc
      some_append (c ∷ t) e = refl

  bare :
      (f : Bool)
      → is_empty (trim_space raw) ≡ false
      → ip.parse_addr (trim_space raw) ≡ some (family_addr f a)
      → contains_char b'/' (trim_space raw) ≡ false
      → a < 2 ^ width f
      → parse_ip_prefix u ip raw ≡ ok (ranged f a 0)
  bare f some_text found no_slash fits =
      sym (parse_trimmed u ip raw)
      ∙ parse_bare u ip (trim_space raw) (trim_space-IsTrimmed raw) some_text f a
          (ip.prefix_slash (trim_space raw) no_slash) found
      ∙ with_range_lem u f a 0 fits (omega arith)

  -- The line and the address give the same prefix of one address.
  abbrev pub IsCompleted : Bool → Aggregator → Type 0
  IsCompleted f pa =
      (add_line u ip raw pa ≡ (add_prefix u ip raw pa).0)
      × (parse_ip_prefix u ip raw ≡ ok (ranged f a 0))

  same_prefix_added :
      (f : Bool) (pa : Aggregator)
      → is_empty (trim_space raw) ≡ false
      → ip.parse_addr (trim_space raw) ≡ some (family_addr f a)
      → contains_char b'/' (trim_space raw) ≡ false
      → ip.parse_prefix (trim_space raw ++ host_suffix f) ≡ some (prefix_of f a 0)
      → line_prefix raw ≡ some (trim_space raw ++ host_suffix f)
      → a < 2 ^ width f
      → IsCompleted f pa
  same_prefix_added f pa some_text addr no_slash prefix line fits =
      let read = bare f some_text addr no_slash fits in
      let read' = completed f some_text prefix fits in
      (
        pass_line u ip raw [] pa (trim_space raw ++ host_suffix f) line
            ∙ ap (λ r. r.0)
                (add_prefix_alike u ip (trim_space raw ++ host_suffix f) raw pa (read' ∙ sym read)),
        read,
      )

  -- A line with a bare address, with no `%` where it is an IPv6 address, does to the state what
  -- `AddPrefix` does with it: both read it as the host prefix of the address. The trimmed line
  -- does not begin with `#`.
  pub bare_line-IsCompleted :
      (f : Bool) (pa : Aggregator)
      → ip.parse_addr (trim_space raw) ≡ some (family_addr f a)
      → (f ≡ false → contains_char b'%' (trim_space raw) ≡ false)
      → IsCompleted f pa
  bare_line-IsCompleted true pa addr no_zone =
      let (no_slash, no_colon, dots) = ip.ipv4_syntax (trim_space raw) a addr in
      same_prefix_added true pa
        (some_text (λ t. count_char b'.' t == 3) refl (trim_space raw) (ground (arith, dots))) addr
        no_slash (ip.ipv4_host (trim_space raw) a addr) (dots_line raw plain no_slash no_colon dots)
        (addr_fits ip (trim_space raw) true a addr)
  bare_line-IsCompleted false pa addr no_zone =
      let (no_slash, colon) = ip.ipv6_syntax (trim_space raw) a addr (no_zone refl) in
      same_prefix_added false pa (some_text (contains_char b':') refl (trim_space raw) colon) addr
        no_slash (ip.ipv6_host (trim_space raw) a addr (no_zone refl))
        (colon_line raw plain no_slash colon) (addr_fits ip (trim_space raw) false a addr)
