-- ===== src/Algorithms/Held.antt =====
-- Sorting and the removal of duplicates: the blocks that lie in a prefix of the list.
use netjugo.Prelude.{◌≡◌, refl, ◌∙◌, arith, ◌||◌, List, [], ◌∷◌}
use netjugo.Uint256.{Uint256}
use netjugo.IpPrefix.{IpPrefix}
use netjugo.Sorting.{SortSlice}
use netjugo.Algorithms.{min_less, deduplicate_from, deduplicate, sort_and_deduplicate}
use netjugo.Algorithms.Ranges.{is_duplicate_prefix_lem}
use netjugo.Maximal.{encloses, holds, holds-perm}

module _ (u : Uint256) (b : IpPrefix) where
  from-holds :
      (p : IpPrefix) (l : List IpPrefix)
      → (encloses p b || holds (deduplicate_from u p l) b) ≡ (encloses p b || holds l b)
  unfolding deduplicate_from
  from-holds p [] = refl
  from-holds p (q ∷ l) =
      ground (arith, is_duplicate_prefix_lem u q p, from-holds p l, from-holds q l)

  deduplicate-holds : (l : List IpPrefix) → holds (deduplicate u l) b ≡ holds l b
  unfolding deduplicate
  deduplicate-holds [] = refl
  deduplicate-holds (p ∷ l) = from-holds p l

  pub sort_and_deduplicate-holds :
      (s : SortSlice) (l : List IpPrefix) → holds (sort_and_deduplicate u s l) b ≡ holds l b
  unfolding sort_and_deduplicate
  sort_and_deduplicate-holds s [] = refl
  sort_and_deduplicate-holds s (p ∷ l) =
      deduplicate-holds (s.sort (min_less u) (p ∷ l))
      ∙ holds-perm b (s.sort_perm (min_less u) (p ∷ l))
