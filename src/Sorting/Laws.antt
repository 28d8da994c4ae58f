-- ===== src/Sorting/Laws.antt =====
-- What a rearrangement keeps, and the order of a list that is sorted by first address.
use mathlib.Core.List.{Permᴰ}
use netjugo.Prelude.{
  ℕ, ◌≡◌, refl, ap₂, subst, ◌∙◌, arith, Bool, ◌||◌, List, [], ◌∷◌, length, All, Chain, ChainFrom,
  ltb,
}
use netjugo.IpPrefix.{IpPrefix, inside, covers, SortedFrom, IsSorted}
use netjugo.Sorting.{SortSlice, IsOrder, MayFollow}

pub All-perm : (P : IpPrefix → Type 0) {l r : List IpPrefix} → Permᴰ l r → All P l → All P r
All-perm P Permᴰ.nil h = tt
All-perm P (Permᴰ.cons e d) (h, t) = (subst P e h, All-perm P d t)
All-perm P (Permᴰ.swap e e') (h, (k, t)) = (subst P e' k, (subst P e h, t))
All-perm P (Permᴰ.trans d d') h = All-perm P d' (All-perm P d h)

pub covers-perm : {l r : List IpPrefix} (x : ℕ) → Permᴰ l r → covers l x ≡ covers r x
covers-perm x Permᴰ.nil = refl
covers-perm x (Permᴰ.cons e d) = ap₂ (λ p b. inside p x || b) e (covers-perm x d)
covers-perm x (Permᴰ.swap {a} {b} {a'} {b'} {l} e e') =
    or_swap (inside a x) (inside b x) (covers l x)
    ∙ ap₂ (λ p q. inside p x || (inside q x || covers l x)) e' e
  where
    or_swap : (s t r : Bool) → (s || (t || r)) ≡ (t || (s || r))
    or_swap s t r = ground arith
covers-perm x (Permᴰ.trans d d') = covers-perm x d ∙ covers-perm x d'

pub length-perm : {l r : List IpPrefix} → Permᴰ l r → length l ≡ length r
length-perm Permᴰ.nil = refl
length-perm (Permᴰ.cons e d) = omega (arith, length-perm d)
length-perm (Permᴰ.swap e e') = refl
length-perm (Permᴰ.trans d d') = length-perm d ∙ length-perm d'

module _ (less : IpPrefix → IpPrefix → Bool)
    (by_min : (p q : IpPrefix) → less p q ≡ ltb p.min q.min) where
  pub by_min-IsOrder : IsOrder less
  by_min-IsOrder = record {
    asym = λ p q h. ground (arith, by_min p q, by_min q p);
    trans = λ p q r h k. ground (arith, by_min q p, by_min r q, by_min r p);
  }

  chain_sorted :
      (p : IpPrefix) (l : List IpPrefix) → ChainFrom (MayFollow less) p l → SortedFrom p.min l
  chain_sorted p [] c = tt
  chain_sorted p (q ∷ l) (first, c) = (ground (arith, by_min q p), chain_sorted q l c)

  IsSorted-of_Chain : (l : List IpPrefix) → Chain (MayFollow less) l → IsSorted l
  IsSorted-of_Chain [] c = tt
  IsSorted-of_Chain (p ∷ l) c = (omega arith, chain_sorted p l c)

  pub sort-IsSorted : (s : SortSlice) (l : List IpPrefix) → IsSorted (s.sort less l)
  sort-IsSorted s l = IsSorted-of_Chain (s.sort less l) (s.sort_ordered less l by_min-IsOrder)
