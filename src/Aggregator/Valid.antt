-- ===== src/Aggregator/Valid.antt =====
-- The invariant of `PrefixAggregator`, which its methods keep.
use netjugo.Prelude.{
  Bool, ℕ, ◌≤◌, ◌≡◌, refl, sym, subst, arith, true, false, Bool-cases, inl, inr, List, [], ◌∷◌,
  none, none, some, All, All-mono, ℤ, pos, negsuc, ltb_ℤ, ◌||◌,
}
use netjugo.Text.{Text}
use netjugo.IpText.{IpText}
use netjugo.Errors.{Error}
use netjugo.Uint256.{Uint256}
use netjugo.IpPrefix.{IsBlock}
use netjugo.Parse.{parse_ip_prefix}
use netjugo.Parse.Blocks.{IsRange, IsClean, parse_ip_prefix-IsRange, parse_ip_prefix-IsBlock}
use netjugo.Aggregator.{
  set_warning_handler, ◌then_try◌, add_prefixes, Aggregator, Outcome, new_prefix_aggregator,
  set_min_prefix_length, set_include_prefixes, set_exclude_prefixes, add_prefix,
}
use netjugo.Aggregator.Lists.{
  taken, not_taken, taken_ipv4, taken_ipv6, add_prefix_fails, add_prefix_ipv4, add_prefix_ipv6,
  IsFine, BothAll, parse_into-All, add_prefix-All,
}

-- A length from 0 to `k`.
abbrev pub IsLength : ℕ → ℤ → Type 0
IsLength k n = (m : ℕ) × (m ≤ k) × (n ≡ pos m)

-- The lists hold CIDR blocks of their family, the exclusions are ranges of theirs, and the minimum
-- lengths are ones that the families have.
pub record IsValid (pa : Aggregator) : Type 0 where
  pub main : BothAll IsBlock (pa.ipv4_prefixes, pa.ipv6_prefixes)
  pub included : BothAll IsBlock (pa.include_ipv4, pa.include_ipv6)
  pub excluded : BothAll IsRange (pa.exclude_ipv4, pa.exclude_ipv6)
  pub length_ipv4 : IsLength 32 pa.min_prefix_len_ipv4
  pub length_ipv6 : IsLength 128 pa.min_prefix_len_ipv6

pub new_prefix_aggregator-IsValid : IsValid new_prefix_aggregator
new_prefix_aggregator-IsValid = record {
  main = (tt, tt);
  included = (tt, tt);
  excluded = (tt, tt);
  length_ipv4 = (0, omega arith, refl);
  length_ipv6 = (0, omega arith, refl);
}

pub set_warning_handler_lem :
    (b : Bool) (pa : Aggregator) → set_warning_handler b pa ≡ record pa { has_handler = b }
unfolding set_warning_handler
set_warning_handler_lem b pa = refl

pub set_warning_handler-IsValid :
    (b : Bool) (pa : Aggregator) → IsValid pa → IsValid (set_warning_handler b pa)
unfolding set_warning_handler
set_warning_handler-IsValid b pa v = record {
  main = v.main;
  included = v.included;
  excluded = v.excluded;
  length_ipv4 = v.length_ipv4;
  length_ipv6 = v.length_ipv6;
}

in_range : (n : ℤ) (k : ℕ) → (ltb_ℤ n (pos 0) || ltb_ℤ (pos k) n) ≡ false → IsLength k n
in_range (pos m) k h = (m, ground arith, refl)
in_range (negsuc m) k h = absurd (ground arith)

-- A call either changes the two lengths, to ones in range, and gives no error, or it gives an
-- error and changes nothing.
pub data IsConfigured (n m : ℤ) (pa : Aggregator) (r : Outcome) : Type 0 where
  is_set :
      IsLength 32 n
      → IsLength 128 m
      → r ≡ (record pa { min_prefix_len_ipv4 = n; min_prefix_len_ipv6 = m }, none)
      → IsConfigured n m pa r
  not_set :
      (ltb_ℤ n (pos 0) || ltb_ℤ (pos 32) n || ltb_ℤ m (pos 0) || ltb_ℤ (pos 128) m) ≡ true
      → r ≡ (pa, some Error.invalid_min_prefix_len)
      → IsConfigured n m pa r

-- `SetMinPrefixLength` either finds an IPv4 length from 0 to 32 and an IPv6 length from 0 to 128,
-- sets both and gives no error, or one of the lengths is out of its bounds, and it changes nothing
-- and gives the sentinel for it.
pub set_min_prefix_length-IsConfigured :
    (n m : ℤ) (pa : Aggregator) → IsConfigured n m pa (set_min_prefix_length n m pa)
unfolding set_min_prefix_length
set_min_prefix_length-IsConfigured n m pa =
    elim (Bool-cases (ltb_ℤ n (pos 0) || ltb_ℤ (pos 32) n)) [
      | inl bad ↦ not_set (ground arith) (rw bad)
      | inr good ↦ elim (Bool-cases (ltb_ℤ m (pos 0) || ltb_ℤ (pos 128) m)) [
        | inl bad ↦ not_set (ground arith) (rw (good, bad))
        | inr fine ↦ is_set (in_range n 32 good) (in_range m 128 fine) (rw (good, fine))
      ]
    ]

pub set_min_prefix_length-IsValid :
    (n m : ℤ) (pa : Aggregator) → IsValid pa → IsValid (set_min_prefix_length n m pa).0
set_min_prefix_length-IsValid n m pa v = elim (set_min_prefix_length-IsConfigured n m pa) [
  | not_set bad e ↦ subst (λ r. IsValid r.0) (sym e) v
  | is_set four six e ↦
      subst (λ r. IsValid r.0) (sym e)
        (record {
          main = v.main;
          included = v.included;
          excluded = v.excluded;
          length_ipv4 = four;
          length_ipv6 = six;
        })
]

module _ (u : Uint256) (ip : IpText) where
  -- The texts are read as CIDR blocks, if they are read.
  IsFine-blocks : (ts : List Text) → All (IsClean u ip) ts → All (IsFine u ip IsBlock) ts
  IsFine-blocks ts clean =
      All-mono (λ t one p found. parse_ip_prefix-IsBlock u ip t p found one) ts clean

  IsFine-ranges : (ts : List Text) → All (IsFine u ip IsRange) ts
  IsFine-ranges [] = tt
  IsFine-ranges (t ∷ ts) = (λ p found. parse_ip_prefix-IsRange u ip t p found, IsFine-ranges ts)

  pub set_include_prefixes-IsValid :
      (ts : List Text) (pa : Aggregator)
      → All (IsClean u ip) ts
      → IsValid pa
      → IsValid (set_include_prefixes u ip ts pa).0
  unfolding set_include_prefixes
  set_include_prefixes-IsValid ts pa clean v = record {
    main = v.main;
    included = parse_into-All u ip IsBlock ts [] [] (IsFine-blocks ts clean) (tt, tt);
    excluded = v.excluded;
    length_ipv4 = v.length_ipv4;
    length_ipv6 = v.length_ipv6;
  }

  pub set_exclude_prefixes-IsValid :
      (ts : List Text) (pa : Aggregator) → IsValid pa → IsValid (set_exclude_prefixes u ip ts pa).0
  unfolding set_exclude_prefixes
  set_exclude_prefixes-IsValid ts pa v = record {
    main = v.main;
    included = v.included;
    excluded = parse_into-All u ip IsRange ts [] [] (IsFine-ranges ts) (tt, tt);
    length_ipv4 = v.length_ipv4;
    length_ipv6 = v.length_ipv6;
  }

  -- What `AddPrefix` leaves alone.
  pub add_prefix-same :
      (t : Text) (pa : Aggregator)
      → (add_prefix u ip t pa).0 ≡ record pa {
        ipv4_prefixes = (add_prefix u ip t pa).0.ipv4_prefixes;
        ipv6_prefixes = (add_prefix u ip t pa).0.ipv6_prefixes;
        original_count = (add_prefix u ip t pa).0.original_count;
      }
  add_prefix-same t pa = elim (taken (parse_ip_prefix u ip t)) [
    | not_taken e found ↦ fold (add_prefix_fails u ip t pa e found) refl
    | taken_ipv4 p found four ↦ fold (add_prefix_ipv4 u ip t pa p found four) refl
    | taken_ipv6 p found six ↦ fold (add_prefix_ipv6 u ip t pa p found six) refl
  ]
    where
      IsSame : Outcome → Type 0
      IsSame r = r.0 ≡ record pa {
        ipv4_prefixes = r.0.ipv4_prefixes;
        ipv6_prefixes = r.0.ipv6_prefixes;
        original_count = r.0.original_count;
      }

      fold : {r r' : Outcome} → r ≡ r' → IsSame r' → IsSame r
      fold e h = subst IsSame (sym e) h

  pub add_prefix-IsValid :
      (t : Text) (pa : Aggregator) → IsClean u ip t → IsValid pa → IsValid (add_prefix u ip t pa).0
  add_prefix-IsValid t pa clean v = subst IsValid (sym (add_prefix-same t pa)) (record {
    main =
        add_prefix-All u ip IsBlock t pa (λ p found. parse_ip_prefix-IsBlock u ip t p found clean)
          v.main;
    included = v.included;
    excluded = v.excluded;
    length_ipv4 = v.length_ipv4;
    length_ipv6 = v.length_ipv6;
  })

  pub add_prefixes-IsValid :
      (ts : List Text) (pa : Aggregator)
      → All (IsClean u ip) ts
      → IsValid pa
      → IsValid (add_prefixes u ip ts pa).0
  unfolding add_prefixes
  add_prefixes-IsValid [] pa clean v = v
  add_prefixes-IsValid (t ∷ ts) pa (one, clean) v =
      next_IsValid (add_prefix u ip t pa) (add_prefix-IsValid t pa one v)
        (λ qa h. add_prefixes-IsValid ts qa clean h)
    where
      next_IsValid :
          (r : Outcome)
          → IsValid r.0
          → ((qa : Aggregator) → IsValid qa → IsValid (add_prefixes u ip ts qa).0)
          → IsValid (r then_try add_prefixes u ip ts).0
      next_IsValid (qa, none) h rest = rest qa h
      next_IsValid (qa, some e) h rest = h
