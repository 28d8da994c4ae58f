-- ===== src/Sorting.antt =====
-- Go's `sort.Slice`: it returns a rearrangement of the slice in which no element is less than the
-- one before it, and it leaves the order of equal elements open. So it is a parameter.
pub mod Insertion
pub mod Laws
use mathlib.Core.List.{Permᴰ}
use netjugo.Prelude.{Bool, true, false, List, [], ◌∷◌, ◌≡◌, Chain}
use netjugo.IpPrefix.{IpPrefix}

-- What `sort.Slice` asks of `less`.
pub record IsOrder (less : IpPrefix → IpPrefix → Bool) : Type 0 where
  pub asym : (p q : IpPrefix) → less p q ≡ true → less q p ≡ false
  pub trans : (p q r : IpPrefix) → less q p ≡ false → less r q ≡ false → less r p ≡ false

-- An element may be followed by one that is not less.
abbrev pub MayFollow : (IpPrefix → IpPrefix → Bool) → IpPrefix → IpPrefix → Type 0
MayFollow less p q = less q p ≡ false

pub record SortSlice : Type 0 where
  pub sort : (IpPrefix → IpPrefix → Bool) → List IpPrefix → List IpPrefix
  pub sort_perm : (less : IpPrefix → IpPrefix → Bool) (l : List IpPrefix) → Permᴰ (sort less l) l
  pub sort_ordered :
      (less : IpPrefix → IpPrefix → Bool) (l : List IpPrefix)
      → IsOrder less
      → Chain (MayFollow less) (sort less l)
