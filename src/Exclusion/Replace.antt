-- ===== src/Exclusion/Replace.antt =====
-- `replacePrefixesInList`, where what is replaced is what an exclusion meets.
use mathlib.Core.List.{Permᴰ}
use netjugo.Prelude.{
  ℕ, ◌+◌, ◌≡◌, refl, sym, ap, subst, arith, Bool, true, ◌&&◌, ◌||◌, not, Bool-cases, inl, inr, List,
  [], ◌∷◌, ◌++◌, any, keep, All, All-mono, ℤ, pos, negsuc,
}
use netjugo.Netip.{Addr, zero_addr, v4, v6}
use netjugo.Uint256.{Uint256}
use netjugo.IpPrefix.{
  IpPrefix, IsBlock, inside, covers, same_prefix, same_addr, same_bits, DisjointFrom,
  DisjointFrom-le, IsSorted,
}
use netjugo.Sorting.{SortSlice}
use netjugo.Sorting.Laws.{sort-IsSorted}
use netjugo.Algorithms.{overlaps, min_less}
use netjugo.Algorithms.Ranges.{overlaps_lem, min_less_lem}
use netjugo.Algorithms.Join.{ordered_of}
use netjugo.Maximal.{holds}
use netjugo.Exclusion.{replace_prefixes_in_list}

-- `any` and `keep` on lists of prefixes.
same_addr_self : (a : Addr) → same_addr a a ≡ true
same_addr_self zero_addr = refl
same_addr_self (v4 a) = ground arith
same_addr_self (v6 a) = ground arith

same_bits_self : (b : ℤ) → same_bits b b ≡ true
same_bits_self (pos b) = ground arith
same_bits_self (negsuc b) = ground arith

same_prefix_self : (p : IpPrefix) → same_prefix p p ≡ true
same_prefix_self p = ground (arith, same_addr_self p.prefix.addr, same_bits_self p.prefix.bits)

any_self : (l : List IpPrefix) → All (λ p. any (λ r. same_prefix r p) l ≡ true) l
any_self [] = tt
any_self (q ∷ l) =
    (ground (arith, same_prefix_self q), All-mono (λ p h. ground arith) l (any_self l))

keep_same :
    (t t' : IpPrefix → Bool) (l : List IpPrefix) → All (λ p. t p ≡ t' p) l → keep t l ≡ keep t' l
keep_same t t' [] h = refl
keep_same t t' (p ∷ l) (e, h) = rw (e, keep_same t t' l h)

pub All-keep :
    (P : IpPrefix → Type 0) (t : IpPrefix → Bool) (l : List IpPrefix) → All P l → All P (keep t l)
All-keep P t [] h = tt
All-keep P t (p ∷ l) (h, k) = elim (Bool-cases (t p)) [
  | inl e ↦ rw e (h, All-keep P t l k)
  | inr e ↦ rw e (All-keep P t l k)
]

module _ (u : Uint256) (e : IpPrefix) where
  meets_same : (r p : IpPrefix) → same_prefix r p ≡ true → overlaps u e r ≡ overlaps u e p
  meets_same r p h = ground (arith, overlaps_lem u e r, overlaps_lem u e p)

  -- Which prefixes are among those that meet the exclusion.
  any_met :
      (p : IpPrefix) (l : List IpPrefix)
      → any (λ r. same_prefix r p) (keep (overlaps u e) l)
        ≡ (overlaps u e p && any (λ r. same_prefix r p) l)
  any_met p [] = ground arith
  any_met p (q ∷ l) = elim (Bool-cases (overlaps u e q)) [
    | inl h ↦ rw (h, any_met p l) (ground (arith, meets_same q p))
    | inr h ↦ rw (h, any_met p l) (ground (arith, meets_same q p))
  ]

  -- The prefixes that stay are those that do not meet it.
  keep_unmet :
      (l : List IpPrefix)
      → keep (λ p. not (any (λ r. same_prefix r p) (keep (overlaps u e) l))) l
        ≡ keep (λ p. not (overlaps u e p)) l
  keep_unmet l = keep_same _ _ l (All-mono (λ p h. ground (arith, any_met p l)) l (any_self l))

  -- The two parts of the list, less the exclusion.
  pub covers_parts :
      (l : List IpPrefix) (x : ℕ)
      → (covers (keep (λ p. not (overlaps u e p)) l) x
          || (covers (keep (overlaps u e) l) x && not (inside e x)))
        ≡ (covers l x && not (inside e x))
  covers_parts [] x = refl
  covers_parts (p ∷ l) x = elim (Bool-cases (overlaps u e p)) [
    | inl h ↦ rw h (ground (arith, covers_parts l x))
    | inr h ↦ rw h (ground (arith, covers_parts l x, overlaps_lem u e p))
  ]

  -- A block that is spared and lies in the list lies in one of its two parts.
  pub holds_parts :
      (l : List IpPrefix) (b : IpPrefix)
      → (holds (keep (λ p. not (overlaps u e p)) l) b || holds (keep (overlaps u e) l) b)
        ≡ holds l b
  holds_parts [] b = refl
  holds_parts (p ∷ l) b = elim (Bool-cases (overlaps u e p)) [
    | inl h ↦ rw h (ground (arith, holds_parts l b))
    | inr h ↦ rw h (ground (arith, holds_parts l b))
  ]

  pub DisjointFrom-keep :
      (t : IpPrefix → Bool) (f : Bool) (l : List IpPrefix) (m : ℕ)
      → All (IsBlock f) l
      → DisjointFrom m l
      → DisjointFrom m (keep t l)
  DisjointFrom-keep t f [] m h d = tt
  DisjointFrom-keep t f (p ∷ l) m (h, k) (low, d) =
      let rest = DisjointFrom-keep t f l (p.max + 1) k d in
      elim (Bool-cases (t p)) [
        | inl y ↦ rw y (low, rest)
        | inr n ↦ rw n (DisjointFrom-le (keep t l) (omega (arith, ordered_of f p h)) rest)
      ]

module _ (u : Uint256) (s : SortSlice) (e : IpPrefix) where
  -- The list less the prefixes that meet the exclusion, with what is left of them.
  module _ (l new : List IpPrefix) where
    abbrev pub replaced : List IpPrefix
    replaced = keep (λ p. not (overlaps u e p)) l ++ new

    replace_lem :
        replace_prefixes_in_list u s l (keep (overlaps u e) l) new ≡ s.sort (min_less u) replaced
    unfolding replace_prefixes_in_list
    replace_lem = ap (λ r. s.sort (min_less u) (r ++ new)) (keep_unmet u e l)

    abbrev pub result : List IpPrefix
    result = replace_prefixes_in_list u s l (keep (overlaps u e) l) new

    pub result_perm : Permᴰ result replaced
    result_perm =
        subst (λ r. Permᴰ r replaced) (sym replace_lem) (s.sort_perm (min_less u) replaced)

    pub result-IsSorted : IsSorted result
    result-IsSorted =
        subst IsSorted (sym replace_lem) (sort-IsSorted (min_less u) (min_less_lem u) s replaced)
