-- ===== src/Algorithms/Limit.antt =====
-- `maxIterations`: a list that takes more passes than the limit.
use netjugo.Prelude.{
  ℕ, zero, suc, ◌≤◌, ◌≡◌, refl, ap, ◌∙◌, arith, true, false, List, [], ◌∷◌, none, some, length, leb,
  All, Chain,
}
use netjugo.Errors.{Error}
use netjugo.Uint256.{Uint256}
use netjugo.IpPrefix.{IpPrefix}
use netjugo.Algorithms.{max_iterations, contains, join, pass, aggregate_loop, aggregate_prefixes}
use netjugo.Algorithms.Aggregate.{loop_changed, loop_same}
use netjugo.Algorithms.Pass.{Apart, Chain-tail}

module _ (u : Uint256) where
  pass_keeps : (l : List IpPrefix) → Chain (Apart u) l → pass u l ≡ (l, false)
  unfolding pass
  pass_keeps [] c = refl
  pass_keeps (p ∷ []) c = refl
  pass_keeps (p ∷ n ∷ l) (apart, c) =
      rw (apart, pass) (ap (λ r. (p ∷ r.0, r.1)) (pass_keeps (n ∷ l) c))

  module _ (c : IpPrefix) where
    swallows : (n : IpPrefix) → contains u c n ≡ true → join u c n ≡ some c
    unfolding join
    swallows n t = rw t

    -- One pass takes one of them away.
    pass_swallows :
        (n : IpPrefix) (l : List IpPrefix)
        → contains u c n ≡ true
        → Chain (Apart u) l
        → pass u (c ∷ n ∷ l) ≡ (c ∷ l, true)
    unfolding pass
    pass_swallows n l t apart =
        rw (swallows n t, pass) (ap (λ r. (c ∷ r.0, true)) (pass_keeps l apart))

    round_lem :
        (left : ℕ) (n : IpPrefix) (l : List IpPrefix)
        → contains u c n ≡ true
        → Chain (Apart u) l
        → aggregate_loop u (suc left) (c ∷ n ∷ l) ≡ aggregate_loop u left (c ∷ l)
    round_lem left n l t apart =
        let e = pass_swallows n l t apart in
        loop_changed u left (c ∷ n ∷ l) (ap (λ r. r.1) e) ∙ ap (λ r. aggregate_loop u left r.0) e

    loop_stops :
        (left : ℕ) (l : List IpPrefix)
        → All (λ n. contains u c n ≡ true) l
        → Chain (Apart u) l
        → left ≤ length l
        → (aggregate_loop u left (c ∷ l)).1 ≡ some Error.plain
    unfolding aggregate_loop
    loop_stops zero l h apart le = refl
    loop_stops (suc left) [] h apart le = absurd (omega arith)
    loop_stops (suc left) (n ∷ l) (t, h) apart le =
        ap (λ r. r.1) (round_lem left n l t (Chain-tail u n l apart))
        ∙ loop_stops left l h (Chain-tail u n l apart) (omega arith)

    loop_ends :
        (l : List IpPrefix)
        → All (λ n. contains u c n ≡ true) l
        → Chain (Apart u) l
        → aggregate_loop u (suc (suc (length l))) (c ∷ l) ≡ (c ∷ [], none)
    loop_ends [] h apart = loop_same u 1 (c ∷ []) (ap (λ r. r.1) (pass_keeps (c ∷ []) tt))
    loop_ends (n ∷ l) (t, h) apart =
        round_lem (suc (suc (length l))) n l t (Chain-tail u n l apart)
        ∙ loop_ends l h (Chain-tail u n l apart)

    -- On a prefix and, behind it, 5000 or more prefixes that it contains and of which no
    -- neighbours can be joined, aggregation gives an error, since each pass takes one of them away
    -- and the passes are limited to `maxIterations`; with two more passes than those prefixes the
    -- loop would end without an error, with the one prefix that contains the others.
    pub aggregate_prefixes_stops :
        (l : List IpPrefix)
        → All (λ n. contains u c n ≡ true) l
        → Chain (Apart u) l
        → max_iterations ≤ length l
        → ((aggregate_prefixes u (c ∷ l)).1 ≡ some Error.plain)
          × (aggregate_loop u (suc (suc (length l))) (c ∷ l) ≡ (c ∷ [], none))
    unfolding aggregate_prefixes
    aggregate_prefixes_stops l h apart many =
        let more : leb (length (c ∷ l)) 1 ≡ false = ground arith in
        (rw more (loop_stops max_iterations l h apart many), loop_ends l h apart)
