-- ===== src/Exclusion/Overlapping.antt =====
-- `findOverlappingPrefixes`: on a list of disjoint blocks the binary search and the scan give the
-- prefixes that meet the target, in order.
use netjugo.Prelude.{
  ℕ, zero, suc, ◌+◌, ◌-◌, ◌/◌, ◌≤◌, ◌<◌, ◌≡◌, refl, ap, ◌∙◌, arith, Bool, true, false, Bool-cases,
  inl, inr, List, [], ◌∷◌, Option, some, none, length, get_elem?, leb, ltb, if◌then◌else◌, All,
}
use netjugo.Uint256.{Uint256, le_zero}
use netjugo.IpPrefix.{IpPrefix, IsBlock, DisjointFrom}
use netjugo.Algorithms.Join.{ordered_of}
use netjugo.Exclusion.{last_below}

-- The number of prefixes that begin within the limit, and the index before one.
abbrev pub count_below : ℕ → List IpPrefix → ℕ
count_below limit [] = 0
count_below limit (p ∷ l) = if leb p.min limit then suc (count_below limit l) else 0

abbrev pub before : ℕ → Option ℕ
before zero = none
before (suc n) = some n

abbrev pub first_of : ℕ → List IpPrefix → List IpPrefix
first_of zero l = []
first_of (suc n) [] = []
first_of (suc n) (p ∷ l) = p ∷ first_of n l

pub some_injective : {a b : IpPrefix} → some a ≡ some b → a ≡ b
some_injective g = cc

module _ (u : Uint256) (f : Bool) (limit : ℕ) where
  -- In a list of disjoint blocks, an element begins at or after `m`.
  pub elem_from :
      (l : List IpPrefix) (i m : ℕ) (p : IpPrefix)
      → All (IsBlock f) l
      → DisjointFrom m l
      → get_elem? l i ≡ some p
      → (m ≤ p.min) × (p.min ≤ p.max)
  elem_from [] i m p h d e = absurd cc
  elem_from (q ∷ l) zero m p (h, t) (low, d) e =
      let same : q ≡ p = some_injective e in
      let first = ap (λ r. r.min) same in
      let last = ap (λ r. r.max) same in (omega arith, omega (arith, ordered_of f q h))
  elem_from (q ∷ l) (suc i) m p (h, t) (low, d) e =
      let rest = elem_from l i (q.max + 1) p t d e in
      (omega (arith, ordered_of f q h, rest.0), rest.1)

  pub count_le : (l : List IpPrefix) → count_below limit l ≤ length l
  count_le [] = omega arith
  count_le (p ∷ l) = ground (arith, count_le l)

  -- The count divides the list.
  count_divides :
      (l : List IpPrefix) (i m : ℕ) (p : IpPrefix)
      → All (IsBlock f) l
      → DisjointFrom m l
      → get_elem? l i ≡ some p
      → leb p.min limit ≡ ltb i (count_below limit l)
  count_divides [] i m p h d e = absurd cc
  count_divides (q ∷ l) zero m p h d e =
      let same : q.min ≡ p.min = ap (λ r. r.min) (some_injective e) in ground arith
  count_divides (q ∷ l) (suc i) m p (h, t) (low, d) e =
      let behind = (elem_from l i (q.max + 1) p t d e).0 in
      ground (arith, count_divides l i (q.max + 1) p t d e, ordered_of f q h)

  pub elem_at :
      (l : List IpPrefix) (i : ℕ) → i < length l → (p : IpPrefix) × (get_elem? l i ≡ some p)
  elem_at [] i lt = absurd (omega arith)
  elem_at (p ∷ l) zero lt = (p, refl)
  elem_at (p ∷ l) (suc i) lt = elem_at l i (omega arith)

  module _ (l : List IpPrefix) (rounds left stop : ℕ) (p : IpPrefix) (more : ltb left stop ≡ true)
      (at : get_elem? l (left + (stop - 1 - left) / 2) ≡ some p) where
    search_up :
        le_zero (u.cmp p.min limit) ≡ true
        → last_below u (suc rounds) l limit left stop (before left)
          ≡ last_below u rounds l limit
              (left + (stop - 1 - left) / 2 + 1)
              stop
              (before (left + (stop - 1 - left) / 2 + 1))
    unfolding last_below
    search_up below =
        let mid = left + (stop - 1 - left) / 2 in
        let mid_next : suc mid ≡ mid + 1 = omega arith in
        let last : before (suc mid) ≡ before (mid + 1) = ap before mid_next in
        rw (more, last_below, at, below) (ap (last_below u rounds l limit (mid + 1) stop) last)

    search_down :
        le_zero (u.cmp p.min limit) ≡ false
        → last_below u (suc rounds) l limit left stop (before left)
          ≡ last_below u rounds l limit left (left + (stop - 1 - left) / 2) (before left)
    unfolding last_below
    search_down above = rw (more, last_below, at, above)

  -- The search ends at the count, where every round leaves it between `left` and `stop`.
  pub last_below_lem :
      (l : List IpPrefix) (m : ℕ)
      → All (IsBlock f) l
      → DisjointFrom m l
      → (rounds left stop : ℕ) → left ≤ count_below limit l
      → count_below limit l ≤ stop
      → stop ≤ length l
      → stop ≤ left + rounds
      → last_below u rounds l limit left stop (before left) ≡ before (count_below limit l)
  unfolding last_below
  last_below_lem l m h d zero left stop lo hi fits enough = ap before (omega arith)
  last_below_lem l m h d (suc rounds) left stop lo hi fits enough =
      elim (Bool-cases (ltb left stop)) [
        | inr done ↦
            let same : left ≡ count_below limit l = ground arith in
            rw (done, last_below) (ap before same)
        | inl more ↦
            let mid = left + (stop - 1 - left) / 2 in
            let room : left < stop = ground arith in
            let (p, at) = elem_at l mid (omega arith) in
            let divides = count_divides l mid m p h d at in
            elim (Bool-cases (le_zero (u.cmp p.min limit))) [
              | inl below ↦
                  let part : mid < count_below limit l = ground (arith, u.cmp_lem p.min limit) in
                  search_up l rounds left stop p more at below
                  ∙ last_below_lem l m h d rounds (mid + 1) stop (omega arith) hi fits (omega arith)
              | inr above ↦
                  let part : count_below limit l ≤ mid = ground (arith, u.cmp_lem p.min limit) in
                  search_down l rounds left stop p more at above
                  ∙ last_below_lem l m h d rounds left mid lo part (omega arith) (omega arith)
            ]
      ]
