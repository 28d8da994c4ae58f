-- ===== src/Sorting/Insertion.antt =====
-- Insertion sort as a concrete `sort.Slice`.
use mathlib.Core.List.{Permᴰ}
use mathlib.Core.List.Permᴰ
use netjugo.Prelude.{
  Bool, List, [], ◌∷◌, refl, Chain, ChainFrom, if◌then◌else◌, Bool-cases, inl, inr,
}
use netjugo.IpPrefix.{IpPrefix}
use netjugo.Sorting.{SortSlice, IsOrder, MayFollow}

module _ (less : IpPrefix → IpPrefix → Bool) where
  abbrev pub insert : IpPrefix → List IpPrefix → List IpPrefix
  insert p [] = p ∷ []
  insert p (q ∷ qs) = if less q p then q ∷ insert p qs else p ∷ q ∷ qs

  abbrev pub insertion_sort : List IpPrefix → List IpPrefix
  insertion_sort [] = []
  insertion_sort (p ∷ ps) = insert p (insertion_sort ps)

  pub insert-perm : (p : IpPrefix) (l : List IpPrefix) → Permᴰ (insert p l) (p ∷ l)
  insert-perm p [] = Permᴰ.refl (p ∷ [])
  insert-perm p (q ∷ qs) = elim (Bool-cases (less q p)) [
    | inl lt ↦
        rw lt
          (Permᴰ.trans (Permᴰ.cons refl (insert-perm p qs)) (Permᴰ.swap {a = q} {b = p} refl refl))
    | inr ge ↦ rw ge (Permᴰ.refl (p ∷ q ∷ qs))
  ]

  pub insertion_sort-perm : (l : List IpPrefix) → Permᴰ (insertion_sort l) l
  insertion_sort-perm [] = Permᴰ.nil
  insertion_sort-perm (p ∷ ps) =
      Permᴰ.trans (insert-perm p (insertion_sort ps)) (Permᴰ.cons refl (insertion_sort-perm ps))

  module _ (order : IsOrder less) where
    insert-ChainFrom :
        (p q : IpPrefix) (qs : List IpPrefix)
        → MayFollow less q p
        → ChainFrom (MayFollow less) q qs
        → ChainFrom (MayFollow less) q (insert p qs)
    insert-ChainFrom p q [] first rest = (first, tt)
    insert-ChainFrom p q (r ∷ rs) first rest = elim (Bool-cases (less r p)) [
      | inl lt ↦ rw lt (rest.0, insert-ChainFrom p r rs (order.asym r p lt) rest.1)
      | inr ge ↦ rw ge (first, (ge, rest.1))
    ]

    insert-Chain :
        (p : IpPrefix) (l : List IpPrefix)
        → Chain (MayFollow less) l
        → Chain (MayFollow less) (insert p l)
    insert-Chain p [] h = tt
    insert-Chain p (q ∷ qs) h = elim (Bool-cases (less q p)) [
      | inl lt ↦ rw lt (insert-ChainFrom p q qs (order.asym q p lt) h)
      | inr ge ↦ rw ge (ge, h)
    ]

    pub insertion_sort-Chain : (l : List IpPrefix) → Chain (MayFollow less) (insertion_sort l)
    insertion_sort-Chain [] = tt
    insertion_sort-Chain (p ∷ ps) = insert-Chain p (insertion_sort ps) (insertion_sort-Chain ps)

abbrev pub by_insertion : SortSlice
by_insertion = record {
  sort = insertion_sort;
  sort_perm = insertion_sort-perm;
  sort_ordered = λ less l order. insertion_sort-Chain less order l;
}
