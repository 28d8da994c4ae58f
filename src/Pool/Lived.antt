-- ===== src/Pool/Lived.antt =====
-- The pointers of an aggregator over calls of `AddPrefix` and `Reset`.
use netjugo.Prelude.{ℕ, ◌≡◌, refl, arith, Option}
use netjugo.Text.{Text}
use netjugo.IpText.{IpText}
use netjugo.Errors.{Error}
use netjugo.Uint256.{Uint256}
use netjugo.Aggregator.{Aggregator, new_prefix_aggregator, add_prefix, clear_warnings}
use netjugo.Pool.{Pool, Pointers, no_pointers, reset_pointers, reset, Added}
use netjugo.Pool.Laws.{listed, IsSound, reset_count, reset_next}
use netjugo.Pool.Stands.{Stands, IsApart, Added-Stands}

reset-Stands :
    (held : Pointers) (pool : Pool) (pa : Aggregator)
    → Stands (reset held pool pa).0.0 (reset held pool pa).0.1.store (reset held pool pa).1.0
unfolding reset_pointers reset clear_warnings
reset-Stands held pool pa = record {
  ipv4 = refl;
  ipv6 = refl;
  include_ipv4 = refl;
  include_ipv6 = refl;
  exclude_ipv4 = refl;
  exclude_ipv6 = refl;
}

reset_listed : (r : ℕ) (h : Pointers) (k : Pool) → listed r (reset_pointers h k).0 ≡ 0
unfolding reset_pointers
reset_listed r h k = refl

reset-IsApart :
    (held : Pointers) (pool : Pool) (pa : Aggregator)
    → IsApart held pool
    → IsApart (reset held pool pa).0.0 (reset held pool pa).0.1
unfolding reset
reset-IsApart held pool pa apart = record {
  once = λ r. omega (arith, reset_count r held pool, reset_listed r held pool, apart.once r);
  made = λ r le. omega (
    arith,
    reset_count r held pool,
    reset_listed r held pool,
    reset_next held pool,
    apart.made r (omega (arith, reset_next held pool)),
  );
}

module _ (u : Uint256) (ip : IpText) where
  -- The pointers of an aggregator over calls of `AddPrefix` and `Reset`, and the state that the
  -- model of the other files has after them.
  pub data Lived : Pointers → Pool → Aggregator → Type 0 where
    begun : (pool : Pool) → IsSound pool → Lived no_pointers pool new_prefix_aggregator
    then_added :
        {held later : Pointers} {pool after : Pool} {pa : Aggregator} {o : Option Error} (t : Text)
        → Lived held pool pa
        → Added u ip t held pool later after o
        → Lived later after (add_prefix u ip t pa).0
    then_reset :
        {held : Pointers} {pool : Pool} {pa : Aggregator}
        → Lived held pool pa
        → Lived (reset held pool pa).0.0 (reset held pool pa).0.1 (reset held pool pa).1.0

  -- Over calls of `AddPrefix` and `Reset` from a new aggregator and a pool that holds no pointer
  -- twice and none that is not made yet, whatever pointers the pool gives, what the pointers of
  -- the aggregator point to is the state that the methods give when they work on prefixes
  -- themselves, and no pointer is held twice, by the lists or the pool.
  pub Lived-Stands :
      {held : Pointers} {pool : Pool} {pa : Aggregator}
      → Lived held pool pa
      → Stands held pool.store pa × IsApart held pool
  Lived-Stands (begun pool sound) = (
    record {
      ipv4 = refl;
      ipv6 = refl;
      include_ipv4 = refl;
      include_ipv6 = refl;
      exclude_ipv4 = refl;
      exclude_ipv6 = refl;
    },
    record {
      once = λ r. omega (arith, sound.once r);
      made = λ r le. omega (arith, sound.made r le);
    },
  )
  Lived-Stands (then_added {pa} t before step) =
      let (stands, apart) = Lived-Stands before in
      let after = Added-Stands u ip t pa step stands apart in (after.stands, after.apart)
  Lived-Stands (then_reset {held} {pool} {pa} before) =
      let (stands, apart) = Lived-Stands before in
      (reset-Stands held pool pa, reset-IsApart held pool pa apart)
