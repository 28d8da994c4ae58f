-- ===== src/Algorithms/Pass.antt =====
-- One pass of the aggregation: the addresses, the order and the blocks that it keeps, and what it
-- means that it changed nothing.
use netjugo.Prelude.{
  ℕ, ◌≤◌, ◌<◌, ◌≡◌, refl, sym, ap, subst, arith, Bool, true, false, ◌||◌, List, [], ◌∷◌, Option,
  some, none, Option-cases, inl, inr, length, All, Chain, ChainFrom,
}
use netjugo.Uint256.{Uint256}
use netjugo.IpPrefix.{IpPrefix, IsBlock, inside, covers, SortedFrom, SortedFrom-le}
use netjugo.Algorithms.{join, pass}
use netjugo.Algorithms.Join.{join-IsHull, inside-IsHull}

-- How a pass goes over a list: the list that it returns, and whether it changed something.
pub data Run (u : Uint256) : List IpPrefix → List IpPrefix → Bool → Type 0 where
  empty : Run u [] [] false
  single : (c : IpPrefix) → Run u (c ∷ []) (c ∷ []) false
  joined :
      (c n p : IpPrefix) {rest out : List IpPrefix} {changed : Bool}
      → join u c n ≡ some p
      → Run u rest out changed
      → Run u (c ∷ n ∷ rest) (p ∷ out) true
  kept :
      (c n : IpPrefix) {rest out : List IpPrefix} {changed : Bool}
      → join u c n ≡ none
      → Run u (n ∷ rest) out changed
      → Run u (c ∷ n ∷ rest) (c ∷ out) changed

module _ (u : Uint256) where
  -- What a pass makes of two neighbours, by the result of `join`.
  abbrev next : IpPrefix → IpPrefix → List IpPrefix → Option IpPrefix → List IpPrefix × Bool
  next c n rest (some p) = (p ∷ (pass u rest).0, true)
  next c n rest none = (c ∷ (pass u (n ∷ rest)).0, (pass u (n ∷ rest)).1)

  pub pass-Run : (l : List IpPrefix) → Run u l (pass u l).0 (pass u l).1
  unfolding pass
  pass-Run [] = empty
  pass-Run (c ∷ []) = single c
  pass-Run (c ∷ n ∷ rest) = elim (Option-cases (join u c n)) [
    | inl e ↦
        subst (λ o. Run u (c ∷ n ∷ rest) (next c n rest o).0 (next c n rest o).1) (sym e)
          (kept c n e (pass-Run (n ∷ rest)))
    | inr (p, e) ↦
        subst (λ o. Run u (c ∷ n ∷ rest) (next c n rest o).0 (next c n rest o).1) (sym e)
          (joined c n p e (pass-Run rest))
  ]

  pub Run-le : {l out : List IpPrefix} {b : Bool} → Run u l out b → length out ≤ length l
  Run-le empty = omega arith
  Run-le (single c) = omega arith
  Run-le (joined c n p e run) = omega (arith, Run-le run)
  Run-le (kept c n e run) = omega (arith, Run-le run)

  -- A pass that changes something shortens the list.
  pub Run-lt : {l out : List IpPrefix} {b : Bool} → Run u l out b → b ≡ true → length out < length l
  Run-lt empty t = cc
  Run-lt (single c) t = cc
  Run-lt (joined c n p e run) t = omega (arith, Run-le run)
  Run-lt (kept c n e run) t = omega (arith, Run-lt run t)

  pub Run-nonempty : {l out : List IpPrefix} {b : Bool} → Run u l out b → b ≡ true → 0 < length out
  Run-nonempty empty t = cc
  Run-nonempty (single c) t = cc
  Run-nonempty (joined c n p e run) t = omega arith
  Run-nonempty (kept c n e run) t = omega arith

  -- No two neighbours can be joined.
  abbrev pub Apart : IpPrefix → IpPrefix → Type 0
  Apart a b = join u a b ≡ none

  pub Chain-tail : (q : IpPrefix) (l : List IpPrefix) → ChainFrom Apart q l → Chain Apart l
  Chain-tail q [] c = tt
  Chain-tail q (n ∷ l) c = c.1

  -- A pass that changes nothing returns the list, and no neighbours in it can be joined.
  pub Run-same :
      {l out : List IpPrefix} {b : Bool} → Run u l out b → b ≡ false → (out ≡ l) × Chain Apart l
  Run-same empty t = (refl, tt)
  Run-same (single c) t = (refl, tt)
  Run-same (joined c n p e run) t = cc
  Run-same (kept c n e run) t =
      let (same, apart) = Run-same run t in (ap (λ r. c ∷ r) same, (e, apart))

  module _ (f : Bool) where
    pub Run-IsBlock :
        {l out : List IpPrefix} {b : Bool} → Run u l out b → All (IsBlock f) l → All (IsBlock f) out
    Run-IsBlock empty h = tt
    Run-IsBlock (single c) h = h
    Run-IsBlock (joined c n p e run) (hc, (hn, h)) =
        ((join-IsHull u f c n p hc hn e).0.block, Run-IsBlock run h)
    Run-IsBlock (kept c n e run) (hc, h) = (hc, Run-IsBlock run h)

    -- A pass keeps the addresses of the list.
    pub Run-covers :
        {l out : List IpPrefix} {b : Bool}
        → Run u l out b
        → All (IsBlock f) l
        → (x : ℕ) → covers out x ≡ covers l x
    Run-covers empty h x = refl
    Run-covers (single c) h x = refl
    Run-covers (joined c n p e run) (hc, (hn, h)) x =
        ground (
          arith,
          Run-covers run h x,
          inside-IsHull u f c n p hc hn (join-IsHull u f c n p hc hn e) x,
        )
    Run-covers (kept c n e run) (hc, h) x = ap (λ b. inside c x || b) (Run-covers run h x)

    -- A pass keeps the order by first address.
    pub Run-SortedFrom :
        {l out : List IpPrefix} {b : Bool} (m : ℕ)
        → Run u l out b
        → All (IsBlock f) l
        → SortedFrom m l
        → SortedFrom m out
    Run-SortedFrom m empty h s = tt
    Run-SortedFrom m (single c) h s = s
    Run-SortedFrom m (joined c n p {rest} e run) (hc, (hn, h)) (low, (order, s)) =
        let hull = (join-IsHull u f c n p hc hn e).0 in
        let start : p.min ≡ c.min = omega (arith, hull.from_min) in
        (omega arith, Run-SortedFrom p.min run h (SortedFrom-le rest (omega arith) s))
    Run-SortedFrom m (kept c n e run) (hc, h) (low, s) = (low, Run-SortedFrom c.min run h s)
