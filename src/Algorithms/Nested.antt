-- ===== src/Algorithms/Nested.antt =====
-- Two CIDR blocks of a family are nested or have no address in common.
use native.Mathlib.Nat.{lt_of_mul-lt-mul_right, mul-le-mul_right, mul_assoc}
use native.Mathlib.Decide.{dec_le}
use netjugo.Prelude.{◌+◌, ◌-◌, ◌*◌, ◌^◌, ◌≤◌, ◌<◌, ◌≡◌, ◌⊎◌, inl, inr, ap, ◌∙◌, sym, arith, Bool}
use netjugo.Prelude.Powers.{pow_split}
use netjugo.IpPrefix.{IpPrefix, IsBlock}

-- The range of the first lies in the range of the second.
abbrev pub Within : IpPrefix → IpPrefix → Type 0
Within p q = (q.min ≤ p.min) × (p.max ≤ q.max)

module _ (f : Bool) (a b : IpPrefix) (block_a : IsBlock f a) (block_b : IsBlock f b)
    (meets : a.min ≤ b.max) (meets' : b.min ≤ a.max) where
  pub smaller-Within : block_b.host ≤ block_a.host → Within b a
  smaller-Within le =
      let size = 2 ^ block_b.host in
      let more = 2 ^ (block_a.host - block_b.host) in
      let whole : more * size ≡ 2 ^ block_a.host =
        pow_split (block_a.host - block_b.host) block_b.host block_a.host (omega arith) in
      let start : a.min ≡ block_a.block * more * size =
        block_a.min_aligned
        ∙ ap (λ n. block_a.block * n) (sym whole)
        ∙ sym (mul_assoc block_a.block more size) in
      let low : block_a.block * more < block_b.block + 1 =
        lt_of_mul-lt-mul_right size (omega (arith, start, block_b.min_aligned, block_b.max_end)) in
      let high : block_b.block < block_a.block * more + more =
        lt_of_mul-lt-mul_right size
          (omega (arith, start, whole, block_b.min_aligned, block_a.max_end)) in
      (
        omega (arith, start, block_b.min_aligned, mul-le-mul_right size low),
        omega (
          arith,
          start,
          whole,
          block_b.min_aligned,
          block_b.max_end,
          block_a.max_end,
          mul-le-mul_right size high,
        ),
      )

pub nested :
    (f : Bool) (a b : IpPrefix)
    → IsBlock f a
    → IsBlock f b
    → a.min ≤ b.max
    → b.min ≤ a.max
    → Within b a ⊎ Within a b
nested f a b block_a block_b h k = elim (dec_le block_b.host block_a.host) [
  | yes le ↦ inl (smaller-Within f a b block_a block_b h k le)
  | no gt ↦ inr (smaller-Within f b a block_b block_a k h (omega arith))
]
