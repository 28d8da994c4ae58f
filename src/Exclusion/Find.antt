-- ===== src/Exclusion/Find.antt =====
-- `findOverlappingPrefixes` as a whole, against a filter.
use mathlib.Core.List.{reverse}
use netjugo.Prelude.{
  ℕ, zero, suc, ◌+◌, ◌<◌, ◌≡◌, refl, sym, ap, ◌∙◌, arith, Bool, false, Bool-cases, inl, inr, List,
  [], ◌∷◌, none, length, keep, leb, if◌then◌else◌, All,
}
use netjugo.Uint256.{Uint256}
use netjugo.IpPrefix.{IpPrefix, IsBlock, DisjointFrom, IsDisjoint}
use netjugo.Algorithms.{overlaps}
use netjugo.Algorithms.Ranges.{overlaps_lem}
use netjugo.Algorithms.Join.{ordered_of}
use netjugo.Exclusion.{last_below, scan_back, find_overlapping_prefixes}
use netjugo.Exclusion.Overlapping.{first_of, before, count_below, count_le, last_below_lem}
use netjugo.Exclusion.Scan.{scan_back_lem}

module _ (u : Uint256) (f : Bool) (target : IpPrefix) where
  -- Blocks that all begin behind the target do not meet it.
  none_behind :
      (l : List IpPrefix) (m : ℕ)
      → All (IsBlock f) l
      → DisjointFrom m l
      → target.max < m
      → keep (overlaps u target) l ≡ []
  none_behind [] m h d lt = refl
  none_behind (p ∷ l) m (h, t) (low, d) lt =
      let apart : overlaps u target p ≡ false = ground (arith, overlaps_lem u target p) in
      let within = ordered_of f p h in rw (apart, none_behind l (p.max + 1) t d (omega arith))

  keep_counted :
      (l : List IpPrefix) (m : ℕ)
      → All (IsBlock f) l
      → DisjointFrom m l
      → keep (overlaps u target) (first_of (count_below target.max l) l)
        ≡ keep (overlaps u target) l
  keep_counted [] m h d = refl
  keep_counted (p ∷ l) m (h, t) (low, d) = elim (Bool-cases (leb p.min target.max)) [
    | inl e ↦
        rw e (ap (λ r. if overlaps u target p then p ∷ r else r) (keep_counted l (p.max + 1) t d))
    | inr e ↦
        let behind : target.max < p.min = ground arith in
        rw e (sym (none_behind (p ∷ l) p.min (h, t) (omega arith, d) behind))
  ]

  -- The search and then the scan.
  scan_from :
      (l : List IpPrefix) (c : ℕ)
      → last_below u (length l) l target.max 0 (length l) none ≡ before c
      → find_overlapping_prefixes u target l ≡ reverse (scan_back u target l c)
  unfolding find_overlapping_prefixes scan_back
  scan_from l zero e = rw (e, find_overlapping_prefixes)
  scan_from l (suc n) e =
      let next : n + 1 ≡ suc n = omega arith in
      rw (e, find_overlapping_prefixes) (ap (λ i. reverse (scan_back u target l i)) next)

  -- On disjoint blocks in ascending order, the binary search and the scan give the prefixes that
  -- meet the target, in the order of the list.
  pub find_overlapping_prefixes_lem :
      (l : List IpPrefix)
      → All (IsBlock f) l
      → IsDisjoint l
      → find_overlapping_prefixes u target l ≡ keep (overlaps u target) l
  find_overlapping_prefixes_lem l h d =
      let count = count_below target.max l in
      let fits = count_le u f target.max l in
      let search =
        last_below_lem u f target.max l 0 h d (length l) 0 (length l) (omega arith) fits
          (omega arith) (omega arith) in
      scan_from l count search ∙ scan_back_lem u f target l 0 h d count fits ∙ keep_counted l 0 h d
