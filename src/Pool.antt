-- ===== src/Pool.antt =====
-- The pool of prefixes of aggregator.go, the pointers that `AddPrefix` takes from it, and `Reset`,
-- which gives them back to it. A pointer is a number: this is the part of the state that shares objects.
pub mod Laws
pub mod Lived
pub mod Shared
pub mod Stands
use netjugo.Prelude.{
  ℕ, suc, ◌≡◌, Bool, true, false, List, [], ◌∷◌, ◌++◌, map, Option, none, some, negsuc, ◌==◌,
  if◌then◌else◌,
}
use netjugo.Text.{Text}
use netjugo.IpText.{IpText}
use netjugo.Errors.{Result, ok, err, Error}
use netjugo.Netip.{zero_addr, is4}
use netjugo.Uint256.{Uint256}
use netjugo.IpPrefix.{IpPrefix}
use netjugo.Parse.{parse_ip_prefix}
use netjugo.Aggregator.{Aggregator, Outcome, clear_warnings}

-- What a pointer points to.
abbrev pub Store : Type 0
Store = ℕ → IpPrefix

abbrev pub write : ℕ → IpPrefix → Store → Store
write p v store q = if q == p then v else store q

-- The zero `netip.Prefix`, which has no length, and zeros.
abbrev pub blank : IpPrefix
blank = record { prefix = record { addr = zero_addr; bits = negsuc 0 }; min = 0; max = 0 }

-- The pointers in the pool, the first one that is not in use yet, and what is pointed to.
pub record Pool : Type 0 where
  pub free : List ℕ
  pub next : ℕ
  pub store : Store

-- `acquireIPPrefix`: `sync.Pool` gives any pointer that it holds, or makes a new one.
pub data Acquired (pool : Pool) : ℕ → Pool → Type 0 where
  taken_back :
      (before behind : List ℕ) (p : ℕ)
      → pool.free ≡ before ++ (p ∷ behind)
      → Acquired pool p (record pool { free = before ++ behind })
  newly_made :
      Acquired pool pool.next
        (record pool { next = suc pool.next; store = write pool.next blank pool.store })

unfoldable pub release_ip_prefix : ℕ → Pool → Pool
release_ip_prefix p pool = record pool { free = p ∷ pool.free; store = write p blank pool.store }

-- One of the loops of `Reset`.
unfoldable pub release_all : List ℕ → Pool → Pool
release_all [] pool = pool
release_all (p ∷ ps) pool = release_all ps (release_ip_prefix p pool)

-- The pointers in the lists of an aggregator.
pub record Pointers : Type 0 where
  pub ipv4_prefixes : List ℕ
  pub ipv6_prefixes : List ℕ
  pub include_ipv4 : List ℕ
  pub include_ipv6 : List ℕ
  pub exclude_ipv4 : List ℕ
  pub exclude_ipv6 : List ℕ

abbrev pub no_pointers : Pointers
no_pointers = record {
  ipv4_prefixes = [];
  ipv6_prefixes = [];
  include_ipv4 = [];
  include_ipv6 = [];
  exclude_ipv4 = [];
  exclude_ipv6 = [];
}

-- `processInclusions` copies the pointers of the inclusions.
unfoldable pub include_pointers : Pointers → Pointers
include_pointers held = record held {
  ipv4_prefixes = held.ipv4_prefixes ++ held.include_ipv4;
  ipv6_prefixes = held.ipv6_prefixes ++ held.include_ipv6;
}

-- The releases of `Reset`, and the lists that it leaves.
unfoldable pub reset_pointers : Pointers → Pool → Pointers × Pool
reset_pointers held pool = (
  no_pointers,
  release_all held.exclude_ipv6 (
      release_all held.exclude_ipv4 (
        release_all held.include_ipv6 (
          release_all held.include_ipv4
            (release_all held.ipv6_prefixes (release_all held.ipv4_prefixes pool))))),
)

-- `Reset`, with what it does to the state besides.
unfoldable pub reset : Pointers → Pool → Aggregator → (Pointers × Pool) × Outcome
reset held pool pa = (
  reset_pointers held pool,
  (
    clear_warnings (record pa {
      ipv4_prefixes = [];
      ipv6_prefixes = [];
      include_ipv4 = [];
      include_ipv6 = [];
      exclude_ipv4 = [];
      exclude_ipv6 = [];
      original_count = 0;
      last_process_time = 0;
    }),
    none,
  ),
)

-- `AddPrefix`: a text that is not read takes no pointer; else the prefix is written to the pointer
-- that the pool gives, which is put behind the list of its family.
pub data Added (u : Uint256) (ip : IpText) (t : Text) (held : Pointers) (pool : Pool)
    : Pointers → Pool → Option Error → Type 0 where
  refused : (e : Error) → parse_ip_prefix u ip t ≡ err e → Added u ip t held pool held pool (some e)
  added_ipv4 :
      (v : IpPrefix) (p : ℕ) (after : Pool)
      → parse_ip_prefix u ip t ≡ ok v
      → is4 v.prefix.addr ≡ true
      → Acquired pool p after
      → Added u ip t held pool
          (record held { ipv4_prefixes = held.ipv4_prefixes ++ (p ∷ []) })
          (record after { store = write p v after.store })
          none
  added_ipv6 :
      (v : IpPrefix) (p : ℕ) (after : Pool)
      → parse_ip_prefix u ip t ≡ ok v
      → is4 v.prefix.addr ≡ false
      → Acquired pool p after
      → Added u ip t held pool
          (record held { ipv6_prefixes = held.ipv6_prefixes ++ (p ∷ []) })
          (record after { store = write p v after.store })
          none
