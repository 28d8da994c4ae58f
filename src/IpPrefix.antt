-- ===== src/IpPrefix.antt =====
-- `IPPrefix` of aggregator.go: a prefix with the first and the last address of its range. A pointer
-- to an `IPPrefix` is modelled by what it points to, which no operation on lists changes.
use netjugo.Prelude.{
  ℕ, ◌+◌, ◌*◌, ◌/◌, ◌%◌, ◌^◌, ltb, not, if◌then◌else◌, ◌-◌, ◌≤◌, ◌<◌, ◌≡◌, Bool, true, false, ◌&&◌,
  ◌||◌, List, [], ◌∷◌, ◌++◌, refl, leb, ◌==◌, ℤ, pos, negsuc, arith,
}
use netjugo.Netip.{Addr, zero_addr, v4, v6, Prefix, is4, value, is_valid_addr}

pub record IpPrefix : Type 0 where
  pub prefix : Prefix
  pub min : ℕ
  pub max : ℕ

-- The equality of two prefixes' contents, field by field.
abbrev pub same_bits : ℤ → ℤ → Bool
same_bits (pos a) (pos b) = a == b
same_bits (pos a) (negsuc b) = false
same_bits (negsuc a) (pos b) = false
same_bits (negsuc a) (negsuc b) = a == b

abbrev pub same_addr : Addr → Addr → Bool
same_addr zero_addr zero_addr = true
same_addr zero_addr (v4 b) = false
same_addr zero_addr (v6 b) = false
same_addr (v4 a) zero_addr = false
same_addr (v4 a) (v4 b) = a == b
same_addr (v4 a) (v6 b) = false
same_addr (v6 a) zero_addr = false
same_addr (v6 a) (v4 b) = false
same_addr (v6 a) (v6 b) = a == b

abbrev pub same_prefix : IpPrefix → IpPrefix → Bool
same_prefix p q =
    p.min == q.min
    && p.max == q.max
    && same_addr p.prefix.addr q.prefix.addr
    && same_bits p.prefix.bits q.prefix.bits

-- The number of bits of an address of the family that `isIPv4` names.
abbrev pub width : Bool → ℕ
width true = 32
width false = 128

-- Whether an address begins with a zero byte, and the end of its host bits divides a byte.
abbrev pub missed : ℕ → ℕ → Bool
missed a h = ltb a (2 ^ 120) && not (h % 8 == 0)

-- The first address that the code computes for `h` host bits: in IPv6 it may keep host bits.
abbrev pub first6 : ℕ → ℕ → ℕ
first6 a h = if missed a h then a / 256 ^ (h / 8) * 256 ^ (h / 8) else a / 2 ^ h * 2 ^ h

abbrev pub first : Bool → ℕ → ℕ → ℕ
first true a h = a / 2 ^ h * 2 ^ h
first false a h = first6 a h

-- The addresses of a range, and those that a list of prefixes covers.
abbrev pub inside : IpPrefix → ℕ → Bool
inside p x = leb p.min x && leb x p.max

abbrev pub covers : List IpPrefix → ℕ → Bool
covers [] x = false
covers (p ∷ ps) x = inside p x || covers ps x

pub covers-append : (l r : List IpPrefix) (x : ℕ) → covers (l ++ r) x ≡ (covers l x || covers r x)
covers-append [] r x = refl
covers-append (p ∷ l) r x = ground (arith, covers-append l r x)

-- A CIDR block of the family: 2^host addresses from a multiple of 2^host, which the prefix names
-- by its length and by one of the addresses, so that the code finds its beginning.
pub record IsBlock (is_ipv4 : Bool) (p : IpPrefix) : Type 0 where
  pub host : ℕ
  pub block : ℕ
  pub host_fits : host ≤ width is_ipv4
  pub min_aligned : p.min ≡ block * 2 ^ host
  pub max_end : p.max + 1 ≡ p.min + 2 ^ host
  pub bounded : p.max < 2 ^ width is_ipv4
  pub length : p.prefix.bits ≡ pos (width is_ipv4 - host)
  pub family : is4 p.prefix.addr ≡ is_ipv4
  pub valid : is_valid_addr p.prefix.addr ≡ true
  pub min_le : p.min ≤ value p.prefix.addr
  pub le_max : value p.prefix.addr ≤ p.max
  pub read_back : first is_ipv4 (value p.prefix.addr) host ≡ p.min

-- The list ascends by first address, from `m` on.
abbrev pub SortedFrom : ℕ → List IpPrefix → Type 0
SortedFrom m [] = Unit
SortedFrom m (p ∷ ps) = (m ≤ p.min) × SortedFrom p.min ps

abbrev pub IsSorted : List IpPrefix → Type 0
IsSorted = SortedFrom 0

-- Each range begins behind the end of the one before it, and the first not below `m`.
abbrev pub DisjointFrom : ℕ → List IpPrefix → Type 0
DisjointFrom m [] = Unit
DisjointFrom m (p ∷ ps) = (m ≤ p.min) × DisjointFrom (p.max + 1) ps

abbrev pub IsDisjoint : List IpPrefix → Type 0
IsDisjoint = DisjointFrom 0

pub SortedFrom-le : {m m' : ℕ} (l : List IpPrefix) → m' ≤ m → SortedFrom m l → SortedFrom m' l
SortedFrom-le [] h s = tt
SortedFrom-le (p ∷ ps) h s = (omega arith, s.1)

pub DisjointFrom-le : {m m' : ℕ} (l : List IpPrefix) → m' ≤ m → DisjointFrom m l → DisjointFrom m' l
DisjointFrom-le [] h s = tt
DisjointFrom-le (p ∷ ps) h s = (omega arith, s.1)
