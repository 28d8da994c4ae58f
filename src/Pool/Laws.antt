-- ===== src/Pool/Laws.antt =====
-- How often a pointer is held, by the lists and by the pool.
use netjugo.Prelude.{
  ℕ_discrete, ℕ, suc, ◌+◌, ◌≤◌, ◌≡◌, refl, sym, ap, ◌∙◌, arith, List, [], ◌∷◌, ◌++◌, if◌then◌else◌,
  ◌==◌,
}
use netjugo.Pool.{Pool, release_ip_prefix, release_all, Pointers, reset_pointers}

-- How often a pointer stands in a list.
abbrev pub count : ℕ → List ℕ → ℕ
count p [] = 0
count p (q ∷ l) = (if p == q then 1 else 0) + count p l

pub count-append : (p : ℕ) (l k : List ℕ) → count p (l ++ k) ≡ count p l + count p k
count-append p [] k = omega arith
count-append p (q ∷ l) k = omega (arith, count-append p l k)

count_self : (p : ℕ) (l : List ℕ) → count p (p ∷ l) ≡ suc (count p l)
count_self p l = ground arith

count-release_all :
    (p : ℕ) (l : List ℕ) (pool : Pool)
    → count p (release_all l pool).free ≡ count p l + count p pool.free
unfolding release_all release_ip_prefix
count-release_all p [] pool = omega arith
count-release_all p (q ∷ l) pool = omega (arith, count-release_all p l (release_ip_prefix q pool))

release_all_next : (l : List ℕ) (pool : Pool) → (release_all l pool).next ≡ pool.next
unfolding release_all release_ip_prefix
release_all_next [] pool = refl
release_all_next (q ∷ l) pool = release_all_next l (release_ip_prefix q pool)

-- How often a pointer is held, by the lists and by the pool.
abbrev pub listed : ℕ → Pointers → ℕ
listed p held =
    count p held.ipv4_prefixes
    + count p held.ipv6_prefixes
    + count p held.include_ipv4
    + count p held.include_ipv6
    + count p held.exclude_ipv4
    + count p held.exclude_ipv6

abbrev pub owners : ℕ → Pointers → Pool → ℕ
owners p held pool = listed p held + count p pool.free

pub reset_count :
    (p : ℕ) (held : Pointers) (pool : Pool)
    → count p (reset_pointers held pool).1.free ≡ owners p held pool
unfolding reset_pointers
reset_count p held pool =
    let a = release_all held.ipv4_prefixes pool in
    let b = release_all held.ipv6_prefixes a in
    let c = release_all held.include_ipv4 b in
    let d = release_all held.include_ipv6 c in
    let e = release_all held.exclude_ipv4 d in
    omega (
      arith,
      count-release_all p held.ipv4_prefixes pool,
      count-release_all p held.ipv6_prefixes a,
      count-release_all p held.include_ipv4 b,
      count-release_all p held.include_ipv6 c,
      count-release_all p held.exclude_ipv4 d,
      count-release_all p held.exclude_ipv6 e,
    )

pub reset_next : (held : Pointers) (pool : Pool) → (reset_pointers held pool).1.next ≡ pool.next
unfolding reset_pointers
reset_next held pool =
    let a = release_all held.ipv4_prefixes pool in
    let b = release_all held.ipv6_prefixes a in
    let c = release_all held.include_ipv4 b in
    let d = release_all held.include_ipv6 c in
    let e = release_all held.exclude_ipv4 d in
    release_all_next held.exclude_ipv6 e
    ∙ release_all_next held.exclude_ipv4 d
    ∙ release_all_next held.include_ipv6 c
    ∙ release_all_next held.include_ipv4 b
    ∙ release_all_next held.ipv6_prefixes a
    ∙ release_all_next held.ipv4_prefixes pool

-- A pool that holds no pointer twice, and none that is not made yet.
pub record IsSound (pool : Pool) : Type 0 where
  pub once : (p : ℕ) → count p pool.free ≤ 1
  pub made : (p : ℕ) → pool.next ≤ p → count p pool.free ≡ 0

pub split_count :
    (p : ℕ) (l before behind : List ℕ)
    → l ≡ before ++ (p ∷ behind)
    → count p l ≡ suc (count p (before ++ behind))
split_count p l before behind e = omega (
  arith,
  ap (count p) e,
  count-append p before (p ∷ behind),
  count_self p behind,
  count-append p before behind,
)

-- A pointer that stands in a list.
pub found_in :
    (p : ℕ) (l : List ℕ)
    → 1 ≤ count p l
    → (before : List ℕ) × (behind : List ℕ) × (l ≡ before ++ (p ∷ behind))
found_in p [] h = absurd (omega arith)
found_in p (q ∷ l) h = elim (ℕ_discrete p q) [
  | yes same ↦ ([], l, ap (λ r. r ∷ l) (sym same))
  | no other ↦
      let (before, behind, e) = found_in p l (ground (arith, h)) in
      (q ∷ before, behind, ap (λ k. q ∷ k) e)
]
