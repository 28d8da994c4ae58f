-- ===== src/Pool/Stands.antt =====
-- Where no pointer is held twice, the pointers of an aggregator stand for its lists: `AddPrefix` on
-- pointers does what it does on what is pointed to.
use netjugo.Prelude.{
  ℕ, ◌+◌, ◌≤◌, ◌≡◌, refl, sym, ap, ap₂, ◌∙◌, subst, arith, true, false, List, [], ◌∷◌, ◌++◌, Option,
  ◌==◌, if◌then◌else◌,
}
use netjugo.Text.{Text}
use netjugo.IpText.{IpText}
use netjugo.Errors.{Error}
use netjugo.Uint256.{Uint256}
use netjugo.IpPrefix.{IpPrefix}
use netjugo.Aggregator.{Aggregator, add_prefix}
use netjugo.Aggregator.Lists.{add_prefix_fails, add_prefix_ipv4, add_prefix_ipv6}
use netjugo.Pool.{
  Store, write, Pool, Acquired, taken_back, newly_made, Pointers, Added, refused, added_ipv4,
  added_ipv6,
}
use netjugo.Pool.Laws.{count, count-append, listed, owners}

-- What a list of pointers points to.
abbrev pub values : Store → List ℕ → List IpPrefix
values store [] = []
values store (p ∷ l) = store p ∷ values store l

-- The lists of a state are what the pointers point to.
pub record Stands (held : Pointers) (store : Store) (pa : Aggregator) : Type 0 where
  pub ipv4 : pa.ipv4_prefixes ≡ values store held.ipv4_prefixes
  pub ipv6 : pa.ipv6_prefixes ≡ values store held.ipv6_prefixes
  pub include_ipv4 : pa.include_ipv4 ≡ values store held.include_ipv4
  pub include_ipv6 : pa.include_ipv6 ≡ values store held.include_ipv6
  pub exclude_ipv4 : pa.exclude_ipv4 ≡ values store held.exclude_ipv4
  pub exclude_ipv6 : pa.exclude_ipv6 ≡ values store held.exclude_ipv6

-- No pointer is held twice, by the lists or the pool, and none that is not made yet.
pub record IsApart (held : Pointers) (pool : Pool) : Type 0 where
  pub once : (r : ℕ) → owners r held pool ≤ 1
  pub made : (r : ℕ) → pool.next ≤ r → owners r held pool ≡ 0

values-append :
    (store : Store) (l k : List ℕ) → values store (l ++ k) ≡ values store l ++ values store k
values-append store [] k = refl
values-append store (p ∷ l) k = ap (λ m. store p ∷ m) (values-append store l k)

abbrev one_at : ℕ → ℕ → ℕ
one_at r p = if r == p then 1 else 0

-- A pointer that the pool gave is in no list, and held once with the lists and the pool.
record IsTaken (held : Pointers) (pool after : Pool) (p : ℕ) : Type 0 where
  fresh : listed p held ≡ 0
  once : (r : ℕ) → owners r held after + one_at r p ≤ 1
  made : (r : ℕ) → after.next ≤ r → owners r held after + one_at r p ≡ 0
  kept : (q : ℕ) → 1 ≤ listed q held → after.store q ≡ pool.store q

split_at :
    (r p : ℕ) (l before behind : List ℕ)
    → l ≡ before ++ (p ∷ behind)
    → count r l ≡ count r (before ++ behind) + one_at r p
split_at r p l before behind e =
    omega (arith, ap (count r) e, count-append r before (p ∷ behind), count-append r before behind)

module _ (held : Pointers) (pool : Pool) (apart : IsApart held pool) where
  IsTaken-Acquired : (after : Pool) (p : ℕ) → Acquired pool p after → IsTaken held pool after p
  IsTaken-Acquired _ _ (taken_back before behind p e) = record {
    fresh = ground (arith, split_at p p pool.free before behind e, apart.once p);
    once = λ r. omega (arith, split_at r p pool.free before behind e, apart.once r);
    made = λ r le. omega (arith, split_at r p pool.free before behind e, apart.made r le);
    kept = λ q h. refl;
  }
  IsTaken-Acquired _ _ newly_made = record {
    fresh = omega (arith, apart.made pool.next (omega arith));
    once = λ r. ground (arith, apart.once r, apart.made r);
    made = λ r le. ground (arith, apart.made r);
    kept = λ q h. ground (arith, apart.made q);
  }

values_kept :
    (s s' : Store) (l : List ℕ) → ((q : ℕ) → 1 ≤ count q l → s' q ≡ s q) → values s' l ≡ values s l
values_kept s s' [] h = refl
values_kept s s' (p ∷ l) h =
    ap₂ (λ a k. a ∷ k) (h p (ground arith)) (values_kept s s' l (λ q le. h q (ground arith)))

pub write_self : (p : ℕ) (v : IpPrefix) (s : Store) → write p v s p ≡ v
write_self p v s = let same : (p == p) ≡ true = ground arith in rw same

values_added :
    (s s' : Store) (l : List ℕ) (p : ℕ) (v : IpPrefix)
    → values s' l ≡ values s l
    → s' p ≡ v
    → values s l ++ (v ∷ []) ≡ values s' (l ++ (p ∷ []))
values_added s s' l p v same new =
    sym (values-append s' l (p ∷ []) ∙ ap₂ (λ k a. k ++ (a ∷ [])) same new)

module _ (held : Pointers) (pool after : Pool) (p : ℕ) (v : IpPrefix)
    (taken : IsTaken held pool after p) where
  abbrev later : Store
  later = write p v after.store

  stays : (q : ℕ) → 1 ≤ listed q held → later q ≡ pool.store q
  stays q h =
      let other : (q == p) ≡ false = ground (arith, taken.fresh) in rw other (taken.kept q h)

  list_stays :
      (l : List ℕ) → ((q : ℕ) → count q l ≤ listed q held) → values later l ≡ values pool.store l
  list_stays l part = values_kept pool.store later l (λ q h. stays q (omega (arith, part q)))

  Stands-stays : (pa : Aggregator) → Stands held pool.store pa → Stands held later pa
  Stands-stays pa s = record {
    ipv4 = s.ipv4 ∙ sym (list_stays held.ipv4_prefixes (λ q. omega arith));
    ipv6 = s.ipv6 ∙ sym (list_stays held.ipv6_prefixes (λ q. omega arith));
    include_ipv4 = s.include_ipv4 ∙ sym (list_stays held.include_ipv4 (λ q. omega arith));
    include_ipv6 = s.include_ipv6 ∙ sym (list_stays held.include_ipv6 (λ q. omega arith));
    exclude_ipv4 = s.exclude_ipv4 ∙ sym (list_stays held.exclude_ipv4 (λ q. omega arith));
    exclude_ipv6 = s.exclude_ipv6 ∙ sym (list_stays held.exclude_ipv6 (λ q. omega arith));
  }

-- The pointers after a call stand for the state after it, and none is held twice.
pub record IsAdded (u : Uint256) (ip : IpText) (t : Text) (pa : Aggregator) (held : Pointers)
    (pool : Pool) (o : Option Error) : Type 0 where
  pub stands : Stands held pool.store (add_prefix u ip t pa).0
  pub apart : IsApart held pool
  pub same_error : o ≡ (add_prefix u ip t pa).1

module _ (u : Uint256) (ip : IpText) (t : Text) (pa : Aggregator) where
  -- One call of `AddPrefix`.
  pub Added-Stands :
      {held later : Pointers} {pool after : Pool} {o : Option Error}
      → Added u ip t held pool later after o
      → Stands held pool.store pa
      → IsApart held pool
      → IsAdded u ip t pa later after o
  Added-Stands {held} {pool} (refused e wrong) s apart =
      let same = add_prefix_fails u ip t pa e wrong in
      record {
        stands = subst (λ r. Stands held pool.store r.0) (sym same) s;
        apart = apart;
        same_error = ap (λ r. r.1) (sym same);
      }
  Added-Stands {held} {pool} (added_ipv4 v p after found four acquired) s apart =
      let taken = IsTaken-Acquired held pool apart after p acquired in
      let same = add_prefix_ipv4 u ip t pa v found four in
      let s' = Stands-stays held pool after p v taken pa s in
      let store = write p v after.store in
      record {
        stands =
            subst
              (λ r.
                Stands (record held { ipv4_prefixes = held.ipv4_prefixes ++ (p ∷ []) }) store r.0)
              (sym same)
              (record {
                ipv4 =
                    ap (λ l. l ++ (v ∷ [])) s'.ipv4
                    ∙ values_added store store held.ipv4_prefixes p v refl
                        (write_self p v after.store);
                ipv6 = s'.ipv6;
                include_ipv4 = s'.include_ipv4;
                include_ipv6 = s'.include_ipv6;
                exclude_ipv4 = s'.exclude_ipv4;
                exclude_ipv6 = s'.exclude_ipv6;
              });
        apart = record {
          once = λ r. omega (arith, taken.once r, count-append r held.ipv4_prefixes (p ∷ []));
          made = λ r le. omega (arith, taken.made r le, count-append r held.ipv4_prefixes (p ∷ []));
        };
        same_error = ap (λ r. r.1) (sym same);
      }
  Added-Stands {held} {pool} (added_ipv6 v p after found six acquired) s apart =
      let taken = IsTaken-Acquired held pool apart after p acquired in
      let same = add_prefix_ipv6 u ip t pa v found six in
      let s' = Stands-stays held pool after p v taken pa s in
      let store = write p v after.store in
      record {
        stands =
            subst
              (λ r.
                Stands (record held { ipv6_prefixes = held.ipv6_prefixes ++ (p ∷ []) }) store r.0)
              (sym same)
              (record {
                ipv4 = s'.ipv4;
                ipv6 =
                    ap (λ l. l ++ (v ∷ [])) s'.ipv6
                    ∙ values_added store store held.ipv6_prefixes p v refl
                        (write_self p v after.store);
                include_ipv4 = s'.include_ipv4;
                include_ipv6 = s'.include_ipv6;
                exclude_ipv4 = s'.exclude_ipv4;
                exclude_ipv6 = s'.exclude_ipv6;
              });
        apart = record {
          once = λ r. omega (arith, taken.once r, count-append r held.ipv6_prefixes (p ∷ []));
          made = λ r le. omega (arith, taken.made r le, count-append r held.ipv6_prefixes (p ∷ []));
        };
        same_error = ap (λ r. r.1) (sym same);
      }
