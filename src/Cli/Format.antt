-- ===== src/Cli/Format.antt =====
-- `formatBytes`: how far the size that is printed may be off.
use native.Mathlib.Nat.{div-add-mod', mod-lt, lt_of_mul-lt-mul_right}
use native.Mathlib.Decide.{dec_le}
use netjugo.Prelude.{
  ℕ, suc, ◌+◌, ◌*◌, ◌/◌, ◌%◌, ◌^◌, ◌≤◌, ◌<◌, ◌≡◌, ◌⊎◌, refl, ap, arith, true, false, Bool-cases,
  inl, inr, ◌++◌, leb, ltb, ◌==◌, pos,
}
use netjugo.Text.{Text, codes}
use netjugo.Cli.Report.{round_even, float_from, float64, decimal, fixed_two, in_unit, format_bytes}

-- The rounded quotient is at most half of the divisor off.
abbrev IsNear : ℕ → ℕ → ℕ → Type 0
IsNear n d q = (q * d * 2 ≤ n * 2 + d) × (n * 2 ≤ q * d * 2 + d)

round_even-IsNear : (n d : ℕ) → 1 ≤ d → IsNear n d (round_even n d)
unfolding round_even
round_even-IsNear n d positive =
    let whole = div-add-mod' n d in
    let less = mod-lt n positive in
    let q = n / d in
    elim (Bool-cases (ltb (n % d * 2) d)) [
      | inl below ↦ let lt : n % d * 2 < d = ground arith in rw (below, round_even) (omega arith)
      | inr above ↦
          let ge : d ≤ n % d * 2 = ground arith in
          elim (Bool-cases (ltb d (n % d * 2))) [
            | inl over ↦ rw (above, over, round_even) (omega arith)
            | inr half ↦
                let same : n % d * 2 ≡ d = ground arith in
                elim (Bool-cases (q % 2 == 0)) [
                  | inl even ↦ rw (above, half, even, round_even) (omega arith)
                  | inr odd ↦ rw (above, half, odd, round_even) (omega arith)
                ]
          ]
    ]

-- A number of at most 53 binary digits is a `float64`.
float_here : (left n : ℕ) → n < 2 ^ 53 → float_from (suc left) 1 n ≡ round_even n 1 * 1
unfolding float_from
float_here left n small =
    let t : ltb n (2 ^ 53 * 1) ≡ true = ground arith in rw (t, float_from) refl

float64_small : (n : ℕ) → n < 2 ^ 53 → float64 n ≡ n
unfolding float64
float64_small n small = omega (arith, float_here 10 n small, round_even-IsNear n 1 (omega arith))

-- What is printed for a size in a unit: hundredths, at least one whole, and at most half a hundredth
-- off.
pub record IsShown (n unit : ℕ) (name t : Text) : Type 0 where
  pub hundredths : ℕ
  pub shown : t ≡ fixed_two hundredths ++ name
  pub whole : 100 ≤ hundredths
  pub not_above : hundredths * unit * 2 ≤ n * 200 + unit
  pub not_below : n * 200 ≤ hundredths * unit * 2 + unit

in_unit-IsShown :
    (n unit : ℕ) (name : Text)
    → n < 2 ^ 53
    → 1 ≤ unit
    → unit ≤ n
    → IsShown n unit name (in_unit n unit ++ name)
unfolding in_unit
in_unit-IsShown n unit name small positive le =
    let near = round_even-IsNear (n * 100) unit positive in
    let h = round_even (n * 100) unit in
    let less : 99 * unit < h * unit = omega (arith, near.1) in
    let more : 99 < h = lt_of_mul-lt-mul_right unit less in
    record {
      hundredths = h;
      shown = ap (λ m. fixed_two (round_even (m * 100) unit) ++ name) (float64_small n small);
      whole = omega (arith, more);
      not_above = omega (arith, near.0);
      not_below = omega (arith, near.1);
    }

-- A size below 2^53 bytes that is not negative is printed in the largest of the units GB, MB and
-- KB that is not above it, as a number of hundredths of the unit with two decimals, which is at
-- least 1.00 and at most half a hundredth off; and below 1024 bytes it is printed as it is.
pub format_bytes-IsShown :
    (n : ℕ)
    → n < 2 ^ 53
    → ((2 ^ 30 ≤ n) × IsShown n (2 ^ 30) (codes " GB") (format_bytes (pos n)))
      ⊎ ((2 ^ 20 ≤ n) × (n < 2 ^ 30) × IsShown n (2 ^ 20) (codes " MB") (format_bytes (pos n)))
      ⊎ ((2 ^ 10 ≤ n) × (n < 2 ^ 20) × IsShown n (2 ^ 10) (codes " KB") (format_bytes (pos n)))
      ⊎ ((n < 2 ^ 10) × (format_bytes (pos n) ≡ decimal n ++ codes " B"))
unfolding format_bytes
format_bytes-IsShown n small = elim (dec_le (2 ^ 30) n) [
  | yes giga ↦
      let t : leb (2 ^ 30) n ≡ true = ground arith in
      inl (giga, rw t (in_unit-IsShown n (2 ^ 30) (codes " GB") small (omega arith) giga))
  | no less ↦
      let t : leb (2 ^ 30) n ≡ false = ground arith in
      elim (dec_le (2 ^ 20) n) [
        | yes mega ↦
            let t' : leb (2 ^ 20) n ≡ true = ground arith in
            inr (
              inl (
                mega,
                omega arith,
                rw (t, t') (in_unit-IsShown n (2 ^ 20) (codes " MB") small (omega arith) mega),
              ))
        | no less' ↦
            let t' : leb (2 ^ 20) n ≡ false = ground arith in
            elim (dec_le (2 ^ 10) n) [
              | yes kilo ↦
                  let t'' : leb (2 ^ 10) n ≡ true = ground arith in
                  inr (
                    inr (
                      inl (
                        kilo,
                        omega arith,
                        rw (t, t', t'')
                            (in_unit-IsShown n (2 ^ 10) (codes " KB") small (omega arith) kilo),
                      )))
              | no less'' ↦
                  let t'' : leb (2 ^ 10) n ≡ false = ground arith in
                  inr (inr (inr (omega arith, rw (t, t', t'') refl)))
            ]
      ]
]
