-- ===== src/IpText/Dotted.antt =====
-- A reader of IPv4 addresses and prefixes, which shows that the laws of `IpText` can hold. It reads
-- no IPv6.
use native.Mathlib.Nat.{mul-le-mul_right, pow-succ'}
use netjugo.Prelude.{
  ℕ, zero, suc, ◌+◌, ◌-◌, ◌*◌, ◌/◌, ◌%◌, ◌^◌, ◌≤◌, ◌<◌, ◌≡◌, refl, ap, ◌∙◌, arith, Bool, true,
  false, ◌&&◌, Bool-cases, inl, inr, Option, none, some, [], ◌∷◌, ◌++◌, leb, ltb, ◌==◌,
  if◌then◌else◌, pos_part,
}
use netjugo.Text.{Text, codes, contains_char, count_char}
use netjugo.Netip.{Addr, v4, v6, Prefix, value}
use netjugo.Validation.Blocks.{prefix_of}
use netjugo.IpText.{IpText, IsFamilyPrefix, IsFamilyAddr}

unfoldable pub is_digit : ℕ → Bool
is_digit c = leb b'0' c && leb c b'9'

-- Four numbers up to 255 with no leading zero, between dots; `left` dots are to come.
unfoldable pub scan : Text → ℕ → ℕ → ℕ → ℕ → Option ℕ
scan [] zero acc val len = if ltb 0 len then some (acc * 256 + val) else none
scan [] (suc left) acc val len = none
scan (c ∷ t) left acc val len = elim (is_digit c) [
  | true ↦
      let next = val * 10 + (c - b'0') in
      if len == 1 && val == 0
      then none
      else if ltb 255 next
      then none
      else scan t left acc next (len + 1)
  | false ↦
      if c == b'.' && ltb 0 len
      then elim left [ zero ↦ none | suc l ↦ scan t l (acc * 256 + val) 0 0 ]
      else none
]

pub scan_syntax :
    (t : Text) (left acc val len a : ℕ)
    → scan t left acc val len ≡ some a
    → (contains_char b'/' t ≡ false) × (contains_char b':' t ≡ false) × (count_char b'.' t ≡ left)
unfolding scan is_digit
scan_syntax [] zero acc val len a e = (refl, refl, refl)
scan_syntax [] (suc left) acc val len a e = cc
scan_syntax (c ∷ t) zero acc val len a e = elim (Bool-cases (is_digit c)) [
  | inl d ↦
      let read = rw (d, scan) at e in
      ground (arith, scan_syntax t zero acc (val * 10 + (c - b'0')) (len + 1) a)
  | inr d ↦ let read = rw (d, scan) at e in ground arith
]
scan_syntax (c ∷ t) (suc left) acc val len a e = elim (Bool-cases (is_digit c)) [
  | inl d ↦
      let read = rw (d, scan) at e in
      ground (arith, scan_syntax t (suc left) acc (val * 10 + (c - b'0')) (len + 1) a)
  | inr d ↦
      let read = rw (d, scan) at e in ground (arith, scan_syntax t left (acc * 256 + val) 0 0 a)
]

-- The number stays below what the octets to come leave room for.
scan_bound :
    (t : Text) (left acc val len a : ℕ)
    → scan t left acc val len ≡ some a
    → val < 256
    → a < (acc + 1) * 256 ^ suc left
unfolding scan is_digit
scan_bound [] zero acc val len a e lt = ground arith
scan_bound [] (suc left) acc val len a e lt = cc
scan_bound (c ∷ t) zero acc val len a e lt = elim (Bool-cases (is_digit c)) [
  | inl d ↦
      let read = rw (d, scan) at e in
      ground (arith, scan_bound t zero acc (val * 10 + (c - b'0')) (len + 1) a)
  | inr d ↦ let read = rw (d, scan) at e in ground arith
]
scan_bound (c ∷ t) (suc left) acc val len a e lt = elim (Bool-cases (is_digit c)) [
  | inl d ↦
      let read = rw (d, scan) at e in
      ground (arith, scan_bound t (suc left) acc (val * 10 + (c - b'0')) (len + 1) a)
  | inr d ↦
      let read = rw (d, scan) at e in
      let more : a < (acc * 256 + val + 1) * 256 ^ suc left =
        ground (arith, scan_bound t left (acc * 256 + val) 0 0 a) in
      let room : acc * 256 + val + 1 ≤ (acc + 1) * 256 = omega arith in
      omega (
        arith,
        more,
        mul-le-mul_right (256 ^ suc left) room,
        ap (λ (m : ℕ). (acc + 1) * m) (pow-succ' 256 (suc left)),
      )
]

abbrev pub quad : Option ℕ → Option Addr
quad none = none
quad (some a) = some (v4 a)

unfoldable pub read_addr : Text → Option Addr
read_addr t = quad (scan t 3 0 0 0)

-- The length, in decimal.
unfoldable pub read_bits : Text → ℕ → Option ℕ
read_bits [] n = if leb n 32 then some n else none
read_bits (c ∷ t) n = if is_digit c then read_bits t (n * 10 + (c - b'0')) else none

-- The parts before and behind the first slash.
unfoldable pub cut_slash : Text → Option (Text × Text)
cut_slash [] = none
cut_slash (c ∷ t) = elim (c == b'/') [
  | true ↦ some ([], t)
  | false ↦ elim (cut_slash t) [ none ↦ none | some (x, y) ↦ some (c ∷ x, y) ]
]

abbrev pub with_bits : Option ℕ → Option ℕ → Option Prefix
with_bits none b = none
with_bits (some a) none = none
with_bits (some a) (some n) = some (prefix_of true a (32 - n))

unfoldable pub read_prefix : Text → Option Prefix
read_prefix t = elim (cut_slash t) [
  | none ↦ none
  | some (x, y) ↦ with_bits (scan x 3 0 0 0) (read_bits y 0)
]

pub cut_slash-none : (t : Text) → contains_char b'/' t ≡ false → cut_slash t ≡ none
unfolding cut_slash
cut_slash-none [] e = refl
cut_slash-none (c ∷ t) e =
    let other : (c == b'/') ≡ false = ground arith in
    let rest = cut_slash-none t (ground arith) in rw (other, cut_slash, rest)

cut_slash-append :
    (t y : Text) → contains_char b'/' t ≡ false → cut_slash (t ++ (b'/' ∷ y)) ≡ some (t, y)
unfolding cut_slash
cut_slash-append [] y e = refl
cut_slash-append (c ∷ t) y e =
    let other : (c == b'/') ≡ false = ground arith in
    let rest = cut_slash-append t y (ground arith) in rw (other, cut_slash, rest)

read_bits_le : (t : Text) (n b : ℕ) → read_bits t n ≡ some b → b ≤ 32
unfolding read_bits
read_bits_le [] n b e = ground arith
read_bits_le (c ∷ t) n b e = ground (arith, read_bits_le t (n * 10 + (c - b'0')) b)

quad-eq_some : (r : Option ℕ) (a : Addr) → quad r ≡ some a → (n : ℕ) × (r ≡ some n) × (v4 n ≡ a)
quad-eq_some none a e = absurd (cc)
quad-eq_some (some n) a e = (n, refl, cc)

pub read_addr_lem : (t : Text) (a : Addr) → read_addr t ≡ some a → IsFamilyAddr a
unfolding read_addr
read_addr_lem t a e =
    let (n, found, same) = quad-eq_some (scan t 3 0 0 0) a e in
    record {
      is_ipv4 = true;
      number = n;
      number_fits = omega (arith, scan_bound t 3 0 0 0 n found (omega arith));
      same = cc;
    }

v4_injective : {a b : ℕ} → v4 a ≡ v4 b → a ≡ b
v4_injective e = cc

pub read_addr_v4 : (t : Text) (a : ℕ) → read_addr t ≡ some (v4 a) → scan t 3 0 0 0 ≡ some a
unfolding read_addr
read_addr_v4 t a e =
    let (n, found, same) = quad-eq_some (scan t 3 0 0 0) (v4 a) e in
    found ∙ ap some (v4_injective same)

pub read_addr_v6 : (t : Text) (a : ℕ) → read_addr t ≡ some (v6 a) → ⊥
unfolding read_addr
read_addr_v6 t a e = let (n, found, same) = quad-eq_some (scan t 3 0 0 0) (v6 a) e in cc same

with_bits_lem :
    (r b : Option ℕ) (p : Prefix)
    → ((a : ℕ) → r ≡ some a → a < 2 ^ 32)
    → with_bits r b ≡ some p
    → IsFamilyPrefix p
with_bits_lem none b p fits e = absurd (cc)
with_bits_lem (some a) none p fits e = absurd (cc)
with_bits_lem (some a) (some n) p fits e = record {
  is_ipv4 = true;
  number = a;
  host = 32 - n;
  number_fits = fits a refl;
  host_fits = omega arith;
  same = cc;
}

pub read_prefix_lem : (t : Text) (p : Prefix) → read_prefix t ≡ some p → IsFamilyPrefix p
unfolding read_prefix
read_prefix_lem t p e = go (cut_slash t) e
  where
    go :
        (c : Option (Text × Text))
        → ◌≡◌ {A = Option Prefix}
            (elim c [ none ↦ none | some (x, y) ↦ with_bits (scan x 3 0 0 0) (read_bits y 0) ])
            (some p)
        → IsFamilyPrefix p
    go none e' = absurd (cc)
    go (some (x, y)) e' =
        with_bits_lem (scan x 3 0 0 0) (read_bits y 0) p
          (λ a found. omega (arith, scan_bound x 3 0 0 0 a found (omega arith))) e'

pub read_host :
    (t : Text) (a : ℕ)
    → read_addr t ≡ some (v4 a)
    → read_prefix (t ++ codes "/32") ≡ some (prefix_of true a 0)
unfolding read_prefix read_bits is_digit
read_host t a e =
    let found = read_addr_v4 t a e in
    let slash = (scan_syntax t 3 0 0 0 a found).0 in
    rw (cut_slash-append t (b'3' ∷ b'2' ∷ []) slash, read_prefix, found)

-- A number up to 255, in decimal.
unfoldable pub octet_text : ℕ → Text
octet_text n =
    if ltb n 10
    then (b'0' + n) ∷ []
    else if ltb n 100
    then (b'0' + n / 10) ∷ (b'0' + n % 10) ∷ []
    else (b'0' + n / 100) ∷ (b'0' + n / 10 % 10) ∷ (b'0' + n % 10) ∷ []

unfoldable pub print_prefix : Prefix → Text
print_prefix p =
    let a = value p.addr in
    octet_text (a / 2 ^ 24)
    ++ (b'.'
        ∷ (octet_text (a / 2 ^ 16 % 256)
            ++ (b'.'
                ∷ (octet_text (a / 2 ^ 8 % 256)
                    ++ (b'.' ∷ (octet_text (a % 256) ++ (b'/' ∷ octet_text (pos_part p.bits))))))))

pub read_prefix_slash : (t : Text) → contains_char b'/' t ≡ false → read_prefix t ≡ none
unfolding read_prefix
read_prefix_slash t e = rw (read_prefix, cut_slash-none t e)

unfoldable pub dotted : IpText
dotted = record {
  parse_prefix = read_prefix;
  parse_addr = read_addr;
  prefix_string = print_prefix;
  parse_prefix_lem = read_prefix_lem;
  parse_addr_lem = read_addr_lem;
  ipv4_syntax = λ t a e. scan_syntax t 3 0 0 0 a (read_addr_v4 t a e);
  ipv4_host = read_host;
  ipv6_syntax = λ t a e zone. absurd (read_addr_v6 t a e);
  ipv6_host = λ t a e zone. absurd (read_addr_v6 t a e);
  prefix_slash = read_prefix_slash;
}
