-- ===== src/Maximal.antt =====
-- The lists with which the aggregation ends: every block that such a list covers lies in one of its
-- prefixes. Children: Fewest (no list of blocks with the same addresses is shorter).
pub mod Fewest
pub mod Unique
use mathlib.Core.List.{Permᴰ}
use netjugo.Prelude.{
  ℕ, ◌+◌, ◌≤◌, ◌≡◌, refl, sym, ap₂, ◌∙◌, arith, Bool, true, false, ◌&&◌, ◌||◌, List, [], ◌∷◌, ◌++◌,
  leb, All,
}
use netjugo.IpPrefix.{IpPrefix, IsBlock, inside, covers, DisjointFrom}
use netjugo.Algorithms.Join.{ordered_of}

-- The range of the second lies in the range of the first.
abbrev pub encloses : IpPrefix → IpPrefix → Bool
encloses q p = leb q.min p.min && leb p.max q.max

-- Whether the range of a prefix lies in one of a list.
abbrev pub holds : List IpPrefix → IpPrefix → Bool
holds [] p = false
holds (q ∷ l) p = encloses q p || holds l p

-- All the addresses of a range are covered.
abbrev pub IsCovered : List IpPrefix → IpPrefix → Type 0
IsCovered l p = (x : ℕ) → inside p x ≡ true → covers l x ≡ true

unfoldable pub IsMaximal : Bool → List IpPrefix → Type 0
IsMaximal f l = (p : IpPrefix) → IsBlock f p → IsCovered l p → holds l p ≡ true

pub holds-append :
    (l r : List IpPrefix) (p : IpPrefix) → holds (l ++ r) p ≡ (holds l p || holds r p)
holds-append [] r p = refl
holds-append (q ∷ l) r p = ground (arith, holds-append l r p)

pub holds-perm : {l r : List IpPrefix} (p : IpPrefix) → Permᴰ l r → holds l p ≡ holds r p
holds-perm p Permᴰ.nil = refl
holds-perm p (Permᴰ.cons e d) = ap₂ (λ q b. encloses q p || b) e (holds-perm p d)
holds-perm p (Permᴰ.swap {a} {b} {a'} {b'} {l} e e') =
    or_swap (encloses a p) (encloses b p) (holds l p)
    ∙ ap₂ (λ q r. encloses q p || (encloses r p || holds l p)) e' e
  where
    or_swap : (s t r : Bool) → (s || (t || r)) ≡ (t || (s || r))
    or_swap s t r = ground arith
holds-perm p (Permᴰ.trans d d') = holds-perm p d ∙ holds-perm p d'

-- A single address that is covered lies in a prefix.
pub holds-single : (l : List IpPrefix) (p : IpPrefix) → p.min ≡ p.max → holds l p ≡ covers l p.min
holds-single [] p e = refl
holds-single (q ∷ l) p e = ground (arith, holds-single l p e)

-- What lies in a list that begins at `m` begins there or behind it.
pub holds-DisjointFrom :
    (f : Bool) (l : List IpPrefix) (m : ℕ) (p : IpPrefix)
    → All (IsBlock f) l
    → DisjointFrom m l
    → holds l p ≡ true
    → m ≤ p.min
holds-DisjointFrom f [] m p h d e = cc
holds-DisjointFrom f (q ∷ l) m p (hq, h) (low, d) e =
    ground (arith, ordered_of f q hq, holds-DisjointFrom f l (q.max + 1) p h d)

-- Whoever covers the same and holds as much is maximal too.
pub IsMaximal-same :
    (f : Bool) (l r : List IpPrefix)
    → ((x : ℕ) → covers r x ≡ covers l x)
    → ((p : IpPrefix) → holds r p ≡ holds l p)
    → IsMaximal f l
    → IsMaximal f r
unfolding IsMaximal
IsMaximal-same f l r same alike maximal p block covered =
    alike p ∙ maximal p block (λ x e. sym (same x) ∙ covered x e)
