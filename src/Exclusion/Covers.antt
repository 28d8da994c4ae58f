-- ===== src/Exclusion/Covers.antt =====
-- Covers that are put together.
use netjugo.Prelude.{
  ℕ, ◌≤◌, ◌<◌, ◌≡◌, refl, ◌∙◌, arith, Bool, true, false, ◌||◌, List, [], ◌∷◌, ◌++◌, All, All-append,
  All-mono,
}
use netjugo.Errors.{Result, ok, ◌>>=◌}
use netjugo.IpPrefix.{IpPrefix, IsBlock, inside, covers-append, DisjointFrom, DisjointFrom-le}
use netjugo.Exclusion.Optimal.{IsCover}
use netjugo.Maximal.{encloses, holds-append}

DisjointFrom-append :
    (l r : List IpPrefix) {lo hi lo' : ℕ}
    → lo ≤ lo'
    → hi < lo'
    → DisjointFrom lo l
    → All (λ p. p.max ≤ hi) l
    → DisjointFrom lo' r
    → DisjointFrom lo (l ++ r)
DisjointFrom-append [] r low behind d h d' = DisjointFrom-le r low d'
DisjointFrom-append (p ∷ l) r low behind (from, d) (to, h) d' =
    (from, DisjointFrom-append l r (omega arith) behind d h d')

module _ {f : Bool} where
  pub IsCover-none : {lo hi : ℕ} → IsCover f lo hi (λ x. false) (λ b. false) (ok [])
  IsCover-none = record {
    prefixes = [];
    returned = refl;
    blocks = tt;
    disjoint = tt;
    ends = tt;
    exact = λ x. refl;
    complete = λ b h t. t;
  }

  -- A block as it is.
  pub IsCover-one :
      (p : IpPrefix) → IsBlock f p → IsCover f p.min p.max (inside p) (encloses p) (ok (p ∷ []))
  IsCover-one p block = record {
    prefixes = p ∷ [];
    returned = refl;
    blocks = (block, tt);
    disjoint = (omega arith, tt);
    ends = (omega arith, tt);
    exact = λ x. ground arith;
    complete = λ b h t. ground arith;
  }

  -- Another name for the same addresses, and wider bounds.
  pub IsCover-same :
      {lo hi lo' hi' : ℕ} {wanted wanted' : ℕ → Bool} {parts parts' : IpPrefix → Bool}
      {r : Result (List IpPrefix)}
      → lo' ≤ lo
      → hi ≤ hi'
      → ((x : ℕ) → wanted x ≡ wanted' x)
      → ((b : IpPrefix) → IsBlock f b → parts' b ≡ true → parts b ≡ true)
      → IsCover f lo hi wanted parts r
      → IsCover f lo' hi' wanted' parts' r
  IsCover-same low high same fewer c = record {
    prefixes = c.prefixes;
    returned = c.returned;
    blocks = c.blocks;
    disjoint = DisjointFrom-le c.prefixes low c.disjoint;
    ends = All-mono (λ p h. omega arith) c.prefixes c.ends;
    exact = λ x. c.exact x ∙ same x;
    complete = λ b h t. c.complete b h (fewer b h t);
  }

  -- Two calls in a row.
  pub IsCover-append :
      {lo hi lo' : ℕ} (hi' : ℕ) {wanted wanted' : ℕ → Bool} {parts parts' : IpPrefix → Bool}
      {r r' : Result (List IpPrefix)}
      → lo ≤ lo'
      → hi < lo'
      → hi ≤ hi'
      → IsCover f lo hi wanted parts r
      → IsCover f lo' hi' wanted' parts' r'
      → IsCover f lo hi'
          (λ x. wanted x || wanted' x)
          (λ b. parts b || parts' b)
          (r >>= λ a. r' >>= λ b. ok (a ++ b))
  IsCover-append hi' low behind high c d = record {
    prefixes = c.prefixes ++ d.prefixes;
    returned = rw (c.returned, d.returned);
    blocks = All-append (IsBlock f) c.prefixes d.prefixes c.blocks d.blocks;
    disjoint = DisjointFrom-append c.prefixes d.prefixes low behind c.disjoint c.ends d.disjoint;
    ends =
        All-append (λ p. p.max ≤ hi') c.prefixes d.prefixes
          (All-mono (λ p h. omega arith) c.prefixes c.ends) d.ends;
    exact = λ x. ground (arith, covers-append c.prefixes d.prefixes x, c.exact x, d.exact x);
    complete = λ b h t.
        ground (arith, holds-append c.prefixes d.prefixes b, c.complete b h, d.complete b h);
  }
