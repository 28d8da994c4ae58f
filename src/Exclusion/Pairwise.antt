-- ===== src/Exclusion/Pairwise.antt =====
-- Lists of blocks of which no two meet, in any order.
use mathlib.Core.List.{Permᴰ}
use netjugo.Prelude.{
  ℕ, ◌+◌, ◌≤◌, ◌<◌, ◌≡◌, subst, arith, Bool, true, false, ◌&&◌, Bool-cases, inl, inr, List, [], ◌∷◌,
  ◌++◌, leb, All, All-append, All-mono, dec_lt,
}
use netjugo.IpPrefix.{IpPrefix, IsBlock, inside, covers, DisjointFrom, SortedFrom}
use netjugo.Sorting.Laws.{All-perm}
use netjugo.Algorithms.Join.{ordered_of}

abbrev pub Apart : IpPrefix → IpPrefix → Type 0
Apart p q = (leb p.min q.max && leb q.min p.max) ≡ false

abbrev pub Pairwise : List IpPrefix → Type 0
Pairwise [] = Unit
Pairwise (p ∷ l) = All (Apart p) l × Pairwise l

pub Pairwise-perm : {l r : List IpPrefix} → Permᴰ l r → Pairwise l → Pairwise r
Pairwise-perm Permᴰ.nil h = tt
Pairwise-perm (Permᴰ.cons {b = b} {l₁ = rest} e d) (h, t) =
    (All-perm (Apart b) d (subst (λ c. All (Apart c) rest) e h), Pairwise-perm d t)
Pairwise-perm (Permᴰ.swap {a} {b} {a'} {b'} {l} e e') ((h, ha), (hb, t)) =
    let turned : Apart b a = ground arith in
    let both : Apart a' b' = subst (λ c. Apart c b') e' (subst (λ c. Apart b c) e turned) in
    ((both, subst (λ c. All (Apart c) l) e' hb), (subst (λ c. All (Apart c) l) e ha, t))
Pairwise-perm (Permᴰ.trans d d') h = Pairwise-perm d' (Pairwise-perm d h)

module _ (f : Bool) where
  from_disjoint :
      (l : List IpPrefix) (m : ℕ) → All (IsBlock f) l → DisjointFrom m l → All (λ q. m ≤ q.min) l
  from_disjoint [] m h d = tt
  from_disjoint (p ∷ l) m (h, t) (low, d) =
      (low, All-mono (λ q le. omega (arith, ordered_of f p h)) l (from_disjoint l (p.max + 1) t d))

  pub Pairwise-DisjointFrom :
      (l : List IpPrefix) (m : ℕ) → All (IsBlock f) l → DisjointFrom m l → Pairwise l
  Pairwise-DisjointFrom [] m h d = tt
  Pairwise-DisjointFrom (p ∷ l) m (h, t) (low, d) = (
    All-mono (λ q le. ground arith) l (from_disjoint l (p.max + 1) t d),
    Pairwise-DisjointFrom l (p.max + 1) t d,
  )

  -- Behind a block, in a list that ascends and does not meet it.
  behind :
      (p : IpPrefix) (l : List IpPrefix) (m : ℕ)
      → p.min ≤ m
      → All (IsBlock f) l
      → SortedFrom m l
      → All (Apart p) l
      → SortedFrom (p.max + 1) l
  behind p [] m le h s a = tt
  behind p (q ∷ l) m le (h, t) (low, s) (a, b) =
      let ends = ordered_of f q h in let after : p.max < q.min = ground arith in (omega arith, s)

  pub disjoint_of_sorted :
      (l : List IpPrefix) (m : ℕ)
      → All (IsBlock f) l
      → SortedFrom m l
      → Pairwise l
      → DisjointFrom m l
  disjoint_of_sorted [] m h s w = tt
  disjoint_of_sorted (p ∷ l) m (h, t) (low, s) (a, w) =
      (low, disjoint_of_sorted l (p.max + 1) t (behind p l p.min (omega arith) t s a) w)

  Apart-one :
      (p q : IpPrefix) (r : List IpPrefix)
      → IsBlock f p
      → IsBlock f q
      → ((x : ℕ) → inside p x ≡ true → covers (q ∷ r) x ≡ false)
      → Apart p q
  Apart-one p q r hp hq away =
      let ep = ordered_of f p hp in
      let eq = ordered_of f q hq in
      elim (Bool-cases (leb p.min q.max && leb q.min p.max)) [
        | inr n ↦ n
        | inl y ↦ elim (dec_lt p.min q.min) [
          | yes lt ↦ absurd (ground (arith, away q.min))
          | no ge ↦ absurd (ground (arith, away p.min))
        ]
      ]

  Apart-all :
      (p : IpPrefix) (r : List IpPrefix)
      → IsBlock f p
      → All (IsBlock f) r
      → ((x : ℕ) → inside p x ≡ true → covers r x ≡ false)
      → All (Apart p) r
  Apart-all p [] hp h away = tt
  Apart-all p (q ∷ r) hp (hq, h) away =
      (Apart-one p q r hp hq away, Apart-all p r hp h (λ x y. ground (arith, away x y)))

  pub Pairwise-append :
      (l r : List IpPrefix)
      → All (IsBlock f) l
      → All (IsBlock f) r
      → ((x : ℕ) → covers l x ≡ true → covers r x ≡ false)
      → Pairwise l
      → Pairwise r
      → Pairwise (l ++ r)
  Pairwise-append [] r h k away w v = v
  Pairwise-append (p ∷ l) r (h, t) k away (a, w) v = (
    All-append (Apart p) l r a (Apart-all p r h k (λ x y. away x (ground arith))),
    Pairwise-append l r t k (λ x y. away x (ground arith)) w v,
  )
