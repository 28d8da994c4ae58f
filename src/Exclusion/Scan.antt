-- ===== src/Exclusion/Scan.antt =====
-- The scan of `findOverlappingPrefixes` from the last prefix that can meet the target.
use mathlib.Core.List.{reverse, reverse-cons, append-nil}
use netjugo.Prelude.{
  ℕ, zero, suc, ◌+◌, ◌≤◌, ◌<◌, ◌≡◌, refl, sym, ap, ◌∙◌, arith, Bool, true, false, Bool-cases, inl,
  inr, List, [], ◌∷◌, ◌++◌, some, length, get_elem?, keep, if◌then◌else◌, All,
}
use netjugo.Uint256.{Uint256, lt_zero}
use netjugo.IpPrefix.{IpPrefix, IsBlock, DisjointFrom}
use netjugo.Algorithms.{overlaps}
use netjugo.Algorithms.Ranges.{overlaps_lem}
use netjugo.Exclusion.{scan_back}
use netjugo.Exclusion.Overlapping.{first_of, elem_at, elem_from, some_injective}

keep-append : (t : IpPrefix → Bool) (l r : List IpPrefix) → keep t (l ++ r) ≡ keep t l ++ keep t r
keep-append t [] r = refl
keep-append t (p ∷ l) r = elim (Bool-cases (t p)) [
  | inl e ↦ rw (e, keep-append t l r)
  | inr e ↦ rw (e, keep-append t l r)
]

first_of-suc :
    (l : List IpPrefix) (i : ℕ) (p : IpPrefix)
    → get_elem? l i ≡ some p
    → first_of (suc i) l ≡ first_of i l ++ (p ∷ [])
first_of-suc [] i p e = absurd cc
first_of-suc (q ∷ l) zero p e = ap (λ r. r ∷ []) (some_injective e)
first_of-suc (q ∷ l) (suc i) p e = ap (λ r. q ∷ r) (first_of-suc l i p e)

module _ (u : Uint256) (f : Bool) (target : IpPrefix) where
  apart_test : (p : IpPrefix) → p.max < target.min → overlaps u target p ≡ false
  apart_test p lt = ground (arith, overlaps_lem u target p)

  -- Nothing before a block that ends before the target meets it.
  ends_before :
      (l : List IpPrefix) (i m : ℕ) (p : IpPrefix)
      → All (IsBlock f) l
      → DisjointFrom m l
      → get_elem? l i ≡ some p
      → p.max < target.min
      → keep (overlaps u target) (first_of (suc i) l) ≡ []
  ends_before [] i m p h d e lt = absurd cc
  ends_before (q ∷ l) zero m p h d e lt =
      let same : q ≡ p = some_injective e in rw (apart_test q (omega (arith, ap (λ r. r.max) same)))
  ends_before (q ∷ l) (suc i) m p (h, t) (low, d) e lt =
      let behind = elem_from u f (target.max) l i (q.max + 1) p t d e in
      let within : q.max < target.min = omega (arith, behind.0, behind.1) in
      rw (apart_test q within, ends_before l i (q.max + 1) p t d e lt)

  module _ (l : List IpPrefix) (i : ℕ) (p : IpPrefix) (at : get_elem? l i ≡ some p) where
    stops : lt_zero (u.cmp p.max target.min) ≡ true → scan_back u target l (suc i) ≡ []
    unfolding scan_back
    stops e = rw (at, scan_back, e)

    goes_on :
        lt_zero (u.cmp p.max target.min) ≡ false
        → scan_back u target l (suc i)
          ≡ (if overlaps u target p then p ∷ scan_back u target l i else scan_back u target l i)
    unfolding scan_back
    goes_on e = rw (at, scan_back, e)

    -- One round that goes on.
    scan_step :
        lt_zero (u.cmp p.max target.min) ≡ false
        → reverse (scan_back u target l i) ≡ keep (overlaps u target) (first_of i l)
        → reverse (scan_back u target l (suc i)) ≡ keep (overlaps u target) (first_of (suc i) l)
    scan_step e before =
        rw
          (
            goes_on e,
            first_of-suc l i p at,
            keep-append (overlaps u target) (first_of i l) (p ∷ []),
          )
          (elim (Bool-cases (overlaps u target p)) [
            | inl meets ↦ rw (meets, reverse-cons p (scan_back u target l i), before)
            | inr apart ↦ rw (apart, append-nil (keep (overlaps u target) (first_of i l))) before
          ])

  -- The scan gives the prefixes that meet the target, from the first `i`.
  pub scan_back_lem :
      (l : List IpPrefix) (m : ℕ)
      → All (IsBlock f) l
      → DisjointFrom m l
      → (i : ℕ) → i ≤ length l
      → reverse (scan_back u target l i) ≡ keep (overlaps u target) (first_of i l)
  unfolding scan_back
  scan_back_lem l m h d zero le = refl
  scan_back_lem l m h d (suc i) le =
      let (p, at) = elem_at u f target.max l i le in
      elim (Bool-cases (lt_zero (u.cmp p.max target.min))) [
        | inl e ↦
            let lt : p.max < target.min = ground (arith, u.cmp_lem p.max target.min) in
            ap reverse (stops l i p at e) ∙ sym (ends_before l i m p h d at lt)
        | inr e ↦ scan_step l i p at e (scan_back_lem l m h d i (omega arith))
      ]
