-- ===== src/Optimize/Cells.antt =====
-- What rounding up to a minimum length covers: the blocks of that length that the prefixes meet.
use native.Mathlib.Nat.{div-add-mod', mod-lt, mul-le-mul_right, lt_of_mul-lt-mul_right, mul_assoc}
use netjugo.Prelude.{
  ℕ, zero, suc, ◌+◌, ◌-◌, ◌*◌, ◌/◌, ◌^◌, ◌≤◌, ◌<◌, ◌≡◌, refl, sym, ap, subst, ◌∙◌, arith, Bool,
  true, Bool-cases, inl, inr, List, [], ◌∷◌, All,
}
use netjugo.Prelude.Powers.{pow_pos, pow_split, quotient_of}
use netjugo.Errors.{ok}
use netjugo.IpPrefix.{IpPrefix, IsBlock, width, inside, covers}
use netjugo.Algorithms.Join.{ordered_of}
use netjugo.Algorithms.RoundUp.{IsRounded, AllRounded}
use netjugo.Optimize.Family.{IsRoundedTo, ok_injective}

-- Numbers with the same quotient lie between the same multiples.
same_cell :
    (t a c x y : ℕ) → 1 ≤ t → a * t ≤ y → y < c * t → y / t ≡ x / t → (a * t ≤ x) × (x < c * t)
same_cell t a c x y positive low high e =
    let whole = div-add-mod' y t in
    let less = mod-lt y positive in
    let whole' = div-add-mod' x t in
    let less' = mod-lt x positive in
    let q = y / t in
    let q' = x / t in
    let over : q * t ≡ q' * t = ap (λ (n : ℕ). n * t) e in
    let below : a < q + 1 = lt_of_mul-lt-mul_right t (omega (arith, whole, less)) in
    let above : q < c = lt_of_mul-lt-mul_right t (omega (arith, whole, less)) in
    let below' : a * t ≤ q * t = mul-le-mul_right t (omega arith) in
    let above' : (q + 1) * t ≤ c * t = mul-le-mul_right t (omega arith) in
    (omega (arith, whole', less'), omega (arith, whole', less'))

module _ (f : Bool) (n : ℕ) where
  -- The number of addresses of a block of the length, and the block that has an address.
  abbrev size : ℕ
  size = 2 ^ (width f - n)

  abbrev Meets : List IpPrefix → ℕ → Type 0
  Meets l x = (y : ℕ) × (covers l y ≡ true) × (y / size ≡ x / size)

  module _ (p q : IpPrefix) (block : IsBlock f p) (one : IsRounded f n p (ok q)) where
    same : one.rounded ≡ q
    same = sym (ok_injective one.returned)

    rounded_meets :
        (x : ℕ)
        → inside one.rounded x ≡ true
        → (y : ℕ) × (inside p y ≡ true) × (y / size ≡ x / size)
    rounded_meets x e = elim one.tight [
      | inl whole ↦ (x, subst (λ r. inside r x ≡ true) whole e, refl)
      | inr tight ↦
          let order = ordered_of f p block in
          let b = one.block in
          let power : 2 ^ b.host ≡ size = ap (λ k. 2 ^ k) tight in
          let start : one.rounded.min ≡ b.block * size =
            b.min_aligned ∙ ap (λ k. b.block * k) power in
          let low = one.low in
          let high = one.high in
          let end = b.max_end in
          let positive = pow_pos (width f - n) in
          let within : (one.rounded.min ≤ x) × (x ≤ one.rounded.max) = ground arith in
          (
            p.min,
            ground arith,
            quotient_of size b.block p.min positive (omega arith) (omega arith)
                ∙ sym (quotient_of size b.block x positive (omega arith) (omega arith)),
          )
    ]

    meets_rounded :
        (x y : ℕ) → inside p y ≡ true → y / size ≡ x / size → inside one.rounded x ≡ true
    meets_rounded x y e same_quotient =
        let b = one.block in
        let c = 2 ^ (b.host - (width f - n)) in
        let power : c * size ≡ 2 ^ b.host =
          pow_split (b.host - (width f - n)) (width f - n) b.host (omega (arith, one.short)) in
        let start : one.rounded.min ≡ b.block * c * size =
          b.min_aligned ∙ ap (λ k. b.block * k) (sym power) ∙ sym (mul_assoc b.block c size) in
        let low = one.low in
        let high = one.high in
        let end = b.max_end in
        let within : (p.min ≤ y) × (y ≤ p.max) = ground arith in
        let held =
          same_cell size (b.block * c) (b.block * c + c) x y (pow_pos (width f - n)) (omega arith)
            (omega arith) same_quotient in
        let (from, to) = held in
        let first : one.rounded.min ≤ x = omega arith in
        let last : x ≤ one.rounded.max = omega arith in ground arith

  rounded-Meets :
      (l m : List IpPrefix) (x : ℕ)
      → All (IsBlock f) l
      → AllRounded f n l m
      → covers m x ≡ true
      → Meets l x
  rounded-Meets [] [] x h around e = cc
  rounded-Meets [] (q ∷ m) x h around e = absurd around
  rounded-Meets (p ∷ l) [] x h around e = absurd around
  rounded-Meets (p ∷ l) (q ∷ m) x (hp, h) (one, around) e = elim (Bool-cases (inside q x)) [
    | inl here ↦
        let (y, held, near) =
          rounded_meets p q hp one x
            (subst (λ r. inside r x ≡ true) (sym (same p q hp one)) here) in
        (y, ground arith, near)
    | inr away ↦
        let (y, held, near) = rounded-Meets l m x h around (rw away at e) in (y, ground arith, near)
  ]

  Meets-rounded :
      (l m : List IpPrefix) (x y : ℕ)
      → All (IsBlock f) l
      → AllRounded f n l m
      → covers l y ≡ true
      → y / size ≡ x / size
      → covers m x ≡ true
  Meets-rounded [] m x y h around e near = cc
  Meets-rounded (p ∷ l) [] x y h around e near = absurd around
  Meets-rounded (p ∷ l) (q ∷ m) x y (hp, h) (one, around) e near = elim (Bool-cases (inside p y)) [
    | inl here ↦
        let held : inside q x ≡ true =
          subst (λ r. inside r x ≡ true) (same p q hp one)
            (meets_rounded p q hp one x y here near) in
        ground arith
    | inr away ↦ let held = Meets-rounded l m x y h around (rw away at e) near in ground arith
  ]

-- Two addresses that rounding up to a minimum length does not tell apart.
abbrev pub Near : Bool → ℕ → ℕ → ℕ → Type 0
Near f zero y x = y ≡ x
Near f (suc n) y x = y / 2 ^ (width f - suc n) ≡ x / 2 ^ (width f - suc n)

pub Near-sym : (f : Bool) (n y x : ℕ) → Near f n y x → Near f n x y
Near-sym f zero y x e = sym e
Near-sym f (suc n) y x e = sym e

pub Near-trans : (f : Bool) (n z y x : ℕ) → Near f n z y → Near f n y x → Near f n z x
Near-trans f zero z y x e e' = e ∙ e'
Near-trans f (suc n) z y x e e' = e ∙ e'

pub Near-self : (f : Bool) (n x : ℕ) → Near f n x x
Near-self f zero x = refl
Near-self f (suc n) x = refl

-- What the rounded prefixes cover is near what the prefixes cover.
pub rounded-Near :
    (f : Bool) (n : ℕ) (l m : List IpPrefix) (x : ℕ)
    → All (IsBlock f) l
    → IsRoundedTo f n l m
    → covers m x ≡ true
    → (y : ℕ) × (covers l y ≡ true) × Near f n y x
rounded-Near f zero l m x h around e = (x, ap (λ k. covers k x) (sym around) ∙ e, refl)
rounded-Near f (suc n) l m x h around e = rounded-Meets f (suc n) l m x h around e

pub Near-rounded :
    (f : Bool) (n : ℕ) (l m : List IpPrefix) (x y : ℕ)
    → All (IsBlock f) l
    → IsRoundedTo f n l m
    → covers l y ≡ true
    → Near f n y x
    → covers m x ≡ true
Near-rounded f zero l m x y h around e near =
    ap (λ k. covers k x) around ∙ ap (λ k. covers l k) (sym near) ∙ e
Near-rounded f (suc n) l m x y h around e near = Meets-rounded f (suc n) l m x y h around e near
