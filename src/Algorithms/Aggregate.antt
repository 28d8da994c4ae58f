-- ===== src/Algorithms/Aggregate.antt =====
-- `aggregatePrefixes`: the addresses that it keeps, when it ends without an error, and the list that
-- it then leaves.
use netjugo.Prelude.{
  ℕ, zero, suc, ◌+◌, ◌≤◌, ◌<◌, ◌≡◌, refl, sym, ap, subst, ◌∙◌, arith, Bool, true, false, List, [],
  ◌∷◌, some, none, Bool-cases, inl, inr, length, All, Chain, leb, ◌==◌, dec_lt, if◌then◌else◌,
}
use netjugo.Errors.{Error}
use netjugo.Uint256.{Uint256}
use netjugo.IpPrefix.{IpPrefix, IsBlock, covers, SortedFrom, IsSorted, DisjointFrom, IsDisjoint}
use netjugo.Algorithms.{max_iterations, join, pass, aggregate_loop, aggregate_prefixes}
use netjugo.Algorithms.Ranges.{contains_lem}
use netjugo.Algorithms.Join.{ordered_of}
use netjugo.Algorithms.Nested.{nested}
use netjugo.Algorithms.Pass.{
  pass-Run, Run-lt, Run-nonempty, Run-same, Run-IsBlock, Run-covers, Run-SortedFrom, Apart,
}

module _ (u : Uint256) where
  pub loop_changed :
      (left : ℕ) (l : List IpPrefix)
      → (pass u l).1 ≡ true
      → aggregate_loop u (suc left) l ≡ aggregate_loop u left (pass u l).0
  unfolding aggregate_loop
  loop_changed left l e = rw (e, aggregate_loop)

  pub loop_same :
      (left : ℕ) (l : List IpPrefix)
      → (pass u l).1 ≡ false
      → aggregate_loop u (suc left) l ≡ (l, if left == 0 then some Error.plain else none)
  unfolding aggregate_loop
  loop_same left l e =
      rw (e, aggregate_loop)
        (ap (λ r. (r, if left == 0 then some Error.plain else none))
          (Run-same u (pass-Run u l) e).0)

  -- What every pass keeps, the loop keeps.
  loop_invariant :
      (P : List IpPrefix → Type 0)
      → ((l : List IpPrefix) → P l → P (pass u l).0)
      → (left : ℕ) (l : List IpPrefix) → P l
      → P (aggregate_loop u left l).0
  unfolding aggregate_loop
  loop_invariant P keeps zero l h = h
  loop_invariant P keeps (suc left) l h = elim (Bool-cases (pass u l).1) [
    | inl e ↦
        subst (λ r. P r.0) (sym (loop_changed left l e))
          (loop_invariant P keeps left (pass u l).0 (keeps l h))
    | inr e ↦ subst (λ r. P r.0) (sym (loop_same left l e)) h
  ]

  -- More rounds than the list has elements are enough.
  loop_converges :
      (left : ℕ) (l : List IpPrefix)
      → length l < left
      → 1 < left
      → (aggregate_loop u left l).1 ≡ none
  loop_converges zero l h k = absurd (omega arith)
  loop_converges (suc left) l h k = elim (Bool-cases (pass u l).1) [
    | inl e ↦
        let run = pass-Run u l in
        let short = Run-lt u run e in
        let more = Run-nonempty u run e in
        rw (loop_changed left l e) (loop_converges left (pass u l).0 (omega arith) (omega arith))
    | inr e ↦ rw (loop_same left l e) (ground arith)
  ]

  loop_ends-Apart :
      (left : ℕ) (l : List IpPrefix)
      → (aggregate_loop u left l).1 ≡ none
      → Chain (Apart u) (aggregate_loop u left l).0
  unfolding aggregate_loop
  loop_ends-Apart zero l e = cc
  loop_ends-Apart (suc left) l e = elim (Bool-cases (pass u l).1) [
    | inl c ↦
        let same = loop_changed left l c in
        subst (λ r. Chain (Apart u) r.0) (sym same)
          (loop_ends-Apart left (pass u l).0 (ap (λ r. r.1) (sym same) ∙ e))
    | inr c ↦
        subst (λ r. Chain (Apart u) r.0) (sym (loop_same left l c)) (Run-same u (pass-Run u l) c).1
  ]

  aggregate_invariant :
      (P : List IpPrefix → Type 0)
      → ((l : List IpPrefix) → P l → P (pass u l).0)
      → (l : List IpPrefix) → P l
      → P (aggregate_prefixes u l).0
  unfolding aggregate_prefixes
  aggregate_invariant P keeps l h = elim (Bool-cases (leb (length l) 1)) [
    | inl e ↦ rw e h
    | inr e ↦ rw e (loop_invariant P keeps max_iterations l h)
  ]

  pub aggregate_prefixes-IsBlock :
      (f : Bool) (l : List IpPrefix)
      → All (IsBlock f) l
      → All (IsBlock f) (aggregate_prefixes u l).0
  aggregate_prefixes-IsBlock f =
      aggregate_invariant (All (IsBlock f)) (λ l h. Run-IsBlock u f (pass-Run u l) h)

  -- Aggregation keeps the addresses, for CIDR blocks of a family in any order, with an error or
  -- not.
  pub aggregate_prefixes-covers :
      (f : Bool) (l : List IpPrefix) (x : ℕ)
      → All (IsBlock f) l
      → covers (aggregate_prefixes u l).0 x ≡ covers l x
  aggregate_prefixes-covers f l x h =
      (aggregate_invariant (λ r. All (IsBlock f) r × (covers r x ≡ covers l x))
        (λ r (blocks, same).
          let run = pass-Run u r in
          (Run-IsBlock u f run blocks, Run-covers u f run blocks x ∙ same))
        l (h, refl)).1

  -- Aggregation ends without an error on a list of less than `maxIterations` prefixes.
  pub aggregate_prefixes_converges :
      (l : List IpPrefix) → length l < max_iterations → (aggregate_prefixes u l).1 ≡ none
  unfolding aggregate_prefixes
  aggregate_prefixes_converges l h = elim (Bool-cases (leb (length l) 1)) [
    | inl e ↦ rw e
    | inr e ↦ rw e (loop_converges max_iterations l h (omega arith))
  ]

  aggregate_prefixes-SortedFrom :
      (f : Bool) (l : List IpPrefix)
      → All (IsBlock f) l
      → IsSorted l
      → IsSorted (aggregate_prefixes u l).0
  aggregate_prefixes-SortedFrom f l h s =
      (aggregate_invariant (λ r. All (IsBlock f) r × IsSorted r)
        (λ r (blocks, sorted).
          let run = pass-Run u r in
          (Run-IsBlock u f run blocks, Run-SortedFrom u f 0 run blocks sorted))
        l (h, s)).1

  short-Apart : (l : List IpPrefix) → leb (length l) 1 ≡ true → Chain (Apart u) l
  short-Apart [] e = tt
  short-Apart (p ∷ []) e = tt
  short-Apart (p ∷ q ∷ l) e = absurd (ground arith)

  aggregate_prefixes_ends-Apart :
      (l : List IpPrefix)
      → (aggregate_prefixes u l).1 ≡ none
      → Chain (Apart u) (aggregate_prefixes u l).0
  unfolding aggregate_prefixes
  aggregate_prefixes_ends-Apart l = elim (Bool-cases (leb (length l) 1)) [
    | inl e ↦ rw e (λ _. short-Apart l e)
    | inr e ↦ rw e (loop_ends-Apart max_iterations l)
  ]

  -- Neighbours that cannot be joined do not meet.
  Apart-before :
      (f : Bool) (a b : IpPrefix)
      → IsBlock f a
      → IsBlock f b
      → a.min ≤ b.min
      → Apart u a b
      → a.max < b.min
  unfolding join
  Apart-before f a b ha hb order apart = elim (dec_lt a.max b.min) [
    | yes before ↦ before
    | no meets ↦
        let ends = ordered_of f b hb in
        elim (nested f a b ha hb (omega arith) (omega arith)) [
          | inl within ↦ absurd (ground (arith, contains_lem u a b))
          | inr within ↦ absurd (ground (arith, contains_lem u b a))
        ]
  ]

  disjoint_of_Apart :
      (f : Bool) (m : ℕ) (l : List IpPrefix)
      → All (IsBlock f) l
      → SortedFrom m l
      → Chain (Apart u) l
      → DisjointFrom m l
  disjoint_of_Apart f m [] h s c = tt
  disjoint_of_Apart f m (p ∷ []) h s c = (s.0, tt)
  disjoint_of_Apart f m (p ∷ q ∷ l) (hp, (hq, h)) (low, (order, s)) (apart, c) =
      let before = Apart-before f p q hp hq order apart in
      (low, disjoint_of_Apart f (p.max + 1) (q ∷ l) (hq, h) (omega arith, s) c)

  -- Where aggregation of a sorted list of blocks ends without an error, each range of the result
  -- lies behind the one before it, and no two neighbours can be joined any more.
  pub aggregate_prefixes-IsDisjoint :
      (f : Bool) (l : List IpPrefix)
      → All (IsBlock f) l
      → IsSorted l
      → (aggregate_prefixes u l).1 ≡ none
      → IsDisjoint (aggregate_prefixes u l).0 × Chain (Apart u) (aggregate_prefixes u l).0
  aggregate_prefixes-IsDisjoint f l h s e =
      let apart = aggregate_prefixes_ends-Apart l e in
      (
        disjoint_of_Apart f 0 (aggregate_prefixes u l).0 (aggregate_prefixes-IsBlock f l h)
            (aggregate_prefixes-SortedFrom f l h s) apart,
        apart,
      )
