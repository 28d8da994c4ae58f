-- ===== src/Pool/Shared.antt =====
-- Where two lists share a pointer, `Reset` gives it back twice, and two prefixes are written to it.
use netjugo.Prelude.{ℕ, ◌+◌, ◌≤◌, ◌≡◌, ap₂, arith, true, [], ◌∷◌, ◌++◌, none}
use netjugo.Text.{Text}
use netjugo.IpText.{IpText}
use netjugo.Errors.{ok}
use netjugo.Netip.{is4}
use netjugo.Uint256.{Uint256}
use netjugo.IpPrefix.{IpPrefix}
use netjugo.Parse.{parse_ip_prefix}
use netjugo.Pool.{
  Pool, taken_back, Pointers, no_pointers, include_pointers, reset_pointers, Added, added_ipv4,
  write,
}
use netjugo.Pool.Laws.{count, count-append, split_count, found_in, reset_count}
use netjugo.Pool.Stands.{values, write_self}

module _ (u : Uint256) (ip : IpText) (t t' : Text) (v v' : IpPrefix)
    (found : parse_ip_prefix u ip t ≡ ok v) (found' : parse_ip_prefix u ip t' ≡ ok v')
    (four : is4 v.prefix.addr ≡ true) (four' : is4 v'.prefix.addr ≡ true) where
  -- From a pool that holds a pointer twice, both calls can get it.
  both_at :
      (pool : Pool) (p : ℕ)
      → 2 ≤ count p pool.free
      → (held : Pointers) × (first : Pool) × (last : Pointers) × (after : Pool) × Added u ip t
          no_pointers pool held first none
        × Added u ip t' held first last after none
        × (values after.store last.ipv4_prefixes ≡ v' ∷ v' ∷ [])
  both_at pool p h =
      let (before, behind, e) = found_in p pool.free (omega arith) in
      let rest = before ++ behind in
      let (before', behind', e') =
        found_in p rest (omega (arith, split_count p pool.free before behind e)) in
      let first = record pool { free = rest; store = write p v pool.store } in
      let after = record first { free = before' ++ behind'; store = write p v' first.store } in
      let same = write_self p v' first.store in
      (
        record no_pointers { ipv4_prefixes = p ∷ [] },
        first,
        record no_pointers { ipv4_prefixes = p ∷ p ∷ [] },
        after,
        added_ipv4 v p (record pool { free = rest }) found four (taken_back before behind p e),
        added_ipv4 v' p (record first { free = before' ++ behind' }) found' four'
            (taken_back before' behind' p e'),
        ap₂ (λ a b. a ∷ b ∷ []) same same,
      )

  -- Where an IPv4 or IPv6 inclusion is held, there is a run of `processInclusions`, `Reset` and
  -- two calls of `AddPrefix` with texts of two IPv4 prefixes after which the IPv4 list holds the
  -- second prefix twice and the first one is lost: the pool gives the same pointer to both calls,
  -- since the lists held it twice and `Reset` releases each of them.
  pub reset_pointers-overwritten :
      (held : Pointers) (pool : Pool) (p : ℕ)
      → 1 ≤ count p held.include_ipv4 + count p held.include_ipv6
      → (next : Pointers) × (first : Pool) × (last : Pointers) × (after : Pool) × Added u ip t
          (reset_pointers (include_pointers held) pool).0
          (reset_pointers (include_pointers held) pool).1
          next
          first
          none
        × Added u ip t' next first last after none
        × (values after.store last.ipv4_prefixes ≡ v' ∷ v' ∷ [])
  unfolding include_pointers reset_pointers
  reset_pointers-overwritten held pool p included =
      both_at (reset_pointers (include_pointers held) pool).1 p (
        omega (
          arith,
          reset_count p (include_pointers held) pool,
          count-append p held.ipv4_prefixes held.include_ipv4,
          count-append p held.ipv6_prefixes held.include_ipv6,
        ))
