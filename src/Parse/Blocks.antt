-- ===== src/Parse/Blocks.antt =====
-- The ranges of the prefixes that are read: CIDR blocks, or at least ordered.
use native.Mathlib.Nat.{div-add-mod', mul-mod_left, mod-lt}
use netjugo.Prelude.{
  ℕ, ◌*◌, ◌/◌, ◌%◌, ◌^◌, ◌≤◌, ◌<◌, ◌≡◌, pos, ◌∙◌, ◌-◌, ap, refl, sym, subst, arith, Bool, true,
  false,
}
use netjugo.Prelude.Powers.{pow_pos}
use netjugo.Netip.{is4, is_valid_addr}
use netjugo.IpPrefix.{IpPrefix, IsBlock, width}
use netjugo.Validation.Blocks.{family_addr, first, last, block_end_lt, value_lem, first_aligned}
use netjugo.Parse.Laws.{ranged, parsed, refused, parse_ip_prefix-IsParsed}
use netjugo.Parse.{parse_ip_prefix}
use netjugo.Text.{Text}
use netjugo.IpText.{IpText}
use netjugo.Errors.{Result, ok, err}
use netjugo.Uint256.{Uint256}

-- Where the code finds the beginning of the block.
abbrev pub IsAligned : Bool → ℕ → ℕ → Type 0
IsAligned f a h = first f a h ≡ a / 2 ^ h * 2 ^ h

pub ipv4-IsAligned : (a h : ℕ) → IsAligned true a h
ipv4-IsAligned a h = refl

-- With no host bits, in either family.
pub clear-IsAligned :
    (f : Bool) (a h : ℕ) → a < 2 ^ width f → h ≤ width f → a % 2 ^ h ≡ 0 → IsAligned f a h
clear-IsAligned f a h fits host clear =
    omega (arith, first_aligned f a h fits host clear, div-add-mod' a (2 ^ h))

pub is4-family_addr : (f : Bool) (a : ℕ) → is4 (family_addr f a) ≡ f
is4-family_addr true a = refl
is4-family_addr false a = refl

pub is_valid_addr-family_addr : (f : Bool) (a : ℕ) → is_valid_addr (family_addr f a) ≡ true
is_valid_addr-family_addr true a = refl
is_valid_addr-family_addr false a = refl

-- The address itself is not behind the last one.
le_last : (a h : ℕ) → a ≤ last a h
le_last a h = omega (arith, div-add-mod' a (2 ^ h), mod-lt a (pow_pos h), pow_pos h)

first_le : (f : Bool) (a h : ℕ) → first f a h ≤ a
first_le true a h = omega (arith, div-add-mod' a (2 ^ h))
first_le false a h = ground (arith, div-add-mod' a (2 ^ h), div-add-mod' a (256 ^ (h / 8)))

-- So is the first one not behind it.
pub first_le-last : (f : Bool) (a h : ℕ) → first f a h ≤ last a h
first_le-last f a h = omega (arith, first_le f a h, le_last a h)

pub ranged-IsBlock :
    (f : Bool) (a h : ℕ)
    → a < 2 ^ width f
    → h ≤ width f
    → IsAligned f a h
    → IsBlock f (ranged f a h)
ranged-IsBlock f a h fits host aligned =
    let low : a / 2 ^ h * 2 ^ h ≤ a = omega (arith, div-add-mod' a (2 ^ h)) in
    record {
      host = h;
      block = a / 2 ^ h;
      host_fits = host;
      min_aligned = aligned;
      max_end = omega (arith, aligned, pow_pos h);
      bounded =
          block_end_lt (width f) (a / 2 ^ h * 2 ^ h) h (omega (arith, low)) host
            (mul-mod_left (a / 2 ^ h) (2 ^ h));
      length = refl;
      family = is4-family_addr f a;
      valid = is_valid_addr-family_addr f a;
      min_le = omega (arith, aligned, value_lem f a, low);
      le_max = omega (arith, value_lem f a, le_last a h);
      read_back = ap (λ n. first f n h) (value_lem f a);
    }

-- What every prefix that is read satisfies: it has an address and a length of the family,
-- and its range is not empty.
pub record IsRange (f : Bool) (p : IpPrefix) : Type 0 where
  pub ordered : p.min ≤ p.max
  pub family : is4 p.prefix.addr ≡ f
  pub length : (n : ℕ) × (n ≤ width f) × (p.prefix.bits ≡ pos n)
  pub valid : is_valid_addr p.prefix.addr ≡ true

module _ (u : Uint256) (ip : IpText) (t : Text) where
  -- A text whose host bits the code clears: every IPv4 text, and an IPv6 text with none set.
  abbrev pub IsClean : Type 0
  IsClean = (f : Bool) (a h : ℕ) → parse_ip_prefix u ip t ≡ ok (ranged f a h) → IsAligned f a h

  module _ (p : IpPrefix) (found : parse_ip_prefix u ip t ≡ ok p) where
    read :
        (P : Bool → IpPrefix → Type 0)
        → ((f : Bool) (a h : ℕ)
            → a < 2 ^ width f
            → h ≤ width f
            → parse_ip_prefix u ip t ≡ ok (ranged f a h)
            → P f (ranged f a h))
        → P (is4 p.prefix.addr) p
    read P holds = elim (parse_ip_prefix-IsParsed u ip t) [
      | parsed f a h fits host e ↦
          let same : p ≡ ranged f a h = cc in
          subst (λ q. P (is4 q.prefix.addr) q) (sym same)
            (subst (λ g. P g (ranged f a h)) (sym (is4-family_addr f a)) (holds f a h fits host e))
      | refused e ↦ absurd cc
    ]

    pub parse_ip_prefix-IsRange : IsRange (is4 p.prefix.addr) p
    parse_ip_prefix-IsRange = read IsRange (λ f a h fits host e. record {
      ordered = first_le-last f a h;
      family = is4-family_addr f a;
      length = (width f - h, omega arith, refl);
      valid = is_valid_addr-family_addr f a;
    })

    pub parse_ip_prefix-IsBlock : IsClean → IsBlock (is4 p.prefix.addr) p
    parse_ip_prefix-IsBlock clean =
        read IsBlock (λ f a h fits host e. ranged-IsBlock f a h fits host (clean f a h e))

  -- An IPv4 text.
  pub ipv4-IsClean :
      (p : IpPrefix) → parse_ip_prefix u ip t ≡ ok p → is4 p.prefix.addr ≡ true → IsClean
  ipv4-IsClean p found four true a h e = refl
  ipv4-IsClean p found four false a h e =
      let same : ok p ≡ ok (ranged false a h) = sym found ∙ e in absurd (cc (ap is4_of same))
    where
      is4_of : Result IpPrefix → Bool
      is4_of (ok q) = is4 q.prefix.addr
      is4_of (err cause) = true
