-- ===== src/Prelude/ByteLists.antt =====
-- Changing one byte of a number, and numbers written with the fewest bytes.
use Prim.Native.Nat.{ℕ, zero, suc, ◌+◌, ◌*◌, ◌/◌, ◌%◌, ◌^◌, ◌≤◌, ◌<◌}
use mathlib.Core.Path.{◌≡◌, refl, sym, ap, ◌∙◌}
use mathlib.Core.List.{List, [], ◌∷◌, ◌++◌}
use native.Mathlib.Decide.{dec_lt}
use native.Mathlib.Nat.{pow-succ', one-le-pow, zero-add, suc-add}
use native.Mathlib.Omega.{arith}
use netjugo.Prelude.Lists.{length, replicate}
use netjugo.Prelude.Bytes.{be_bytes, of_bytes_from, byte_at}
use netjugo.Prelude.Powers.{pow-add, quotient_unique}

pub length-be_bytes : (n a : ℕ) → length (be_bytes n a) ≡ n
length-be_bytes zero a = refl
length-be_bytes (suc n) a = ap suc (length-be_bytes n a)

pub byte_at-be_bytes : (n p a i : ℕ) → i + p + 1 ≡ n → byte_at (be_bytes n a) i ≡ a / 256 ^ p % 256
byte_at-be_bytes zero p a i e = absurd (omega arith)
byte_at-be_bytes (suc n) p a zero e = ap (λ k. a / 256 ^ k % 256) (omega arith)
byte_at-be_bytes (suc n) p a (suc i) e = byte_at-be_bytes n p a i (omega arith)

pub of_bytes_from-append :
    (acc : ℕ) (xs ys : List ℕ)
    → of_bytes_from acc (xs ++ ys) ≡ of_bytes_from (of_bytes_from acc xs) ys
of_bytes_from-append acc [] ys = refl
of_bytes_from-append acc (x ∷ xs) ys = of_bytes_from-append (acc * 256 + x) xs ys

-- What stands before counts by the number of bytes that follow.
pub of_bytes_from-add :
    (acc more : ℕ) (bs : List ℕ)
    → of_bytes_from (acc + more) bs ≡ of_bytes_from acc bs + more * 256 ^ length bs
of_bytes_from-add acc more [] = omega arith
of_bytes_from-add acc more (b ∷ bs) =
    ap (λ n. of_bytes_from n bs) regroup
    ∙ of_bytes_from-add (acc * 256 + b) (more * 256) bs
    ∙ rw (pow-succ' 256 (length bs)) (omega arith)
  where
    regroup : (acc + more) * 256 + b ≡ acc * 256 + b + more * 256
    regroup = omega arith

pub of_bytes_from-replicate_zero : (n acc : ℕ) → of_bytes_from acc (replicate n 0) ≡ acc * 256 ^ n
of_bytes_from-replicate_zero zero acc = omega arith
of_bytes_from-replicate_zero (suc n) acc =
    of_bytes_from-replicate_zero n (acc * 256 + 0) ∙ rw (pow-succ' 256 n) (omega arith)

pub of_bytes_from-replicate_ones :
    (n acc : ℕ) → of_bytes_from acc (replicate n 0xFF) + 1 ≡ (acc + 1) * 256 ^ n
of_bytes_from-replicate_ones zero acc = omega arith
of_bytes_from-replicate_ones (suc n) acc =
    of_bytes_from-replicate_ones n (acc * 256 + 255) ∙ rw (pow-succ' 256 n) (omega arith)

pub pow256 : (n : ℕ) → 256 ^ n ≡ 2 ^ (8 * n)
pow256 zero = refl
pow256 (suc n) = pow-succ' 256 n ∙ omega (arith, pow256 n, pow-add 8 (8 * n)) ∙ ap (λ k. 2 ^ k) more
  where
    more : 8 + 8 * n ≡ 8 * suc n
    more = omega arith

pub pow256_pos : (n : ℕ) → 1 ≤ 256 ^ n
pow256_pos n = one-le-pow n 256 (omega arith)

-- The number of bytes of a positive number, less one.
pub top_byte :
    (m a : ℕ) → 1 ≤ a → a < 256 ^ m → (n : ℕ) × (n < m) × (256 ^ n ≤ a) × (a < 256 ^ suc n)
top_byte zero a h lt = absurd (omega arith)
top_byte (suc m) a h lt = elim (dec_lt a (256 ^ m)) [
  | yes below ↦ let (n, less, lo, hi) = top_byte m a h below in (n, omega arith, lo, hi)
  | no above ↦ (m, omega arith, omega arith, lt)
]

pub pow256-add : (j k : ℕ) → 256 ^ (j + k) ≡ 256 ^ j * 256 ^ k
pow256-add zero k = rw zero-add (omega arith)
pow256-add (suc j) k =
    ap (λ n. 256 ^ n) (suc-add j k)
    ∙ rw (pow-succ' 256 (j + k), pow256-add j k, pow-succ' 256 j) (omega arith)

-- A multiple of 256^c has zero bytes below.
pub low_byte-zero : (y c p d : ℕ) → d + suc p ≡ c → y * 256 ^ c / 256 ^ p % 256 ≡ 0
low_byte-zero y c p d e =
    let split : 256 ^ c ≡ 256 ^ d * (256 * 256 ^ p) =
      ap (λ n. 256 ^ n) (sym e) ∙ pow256-add d (suc p) ∙ ap (λ n. 256 ^ d * n) (pow-succ' 256 p) in
    let whole : y * (256 ^ d * (256 * 256 ^ p)) ≡ y * 256 ^ d * 256 * 256 ^ p + 0 = omega arith in
    rw (split, whole, quotient_unique (256 ^ p) (y * 256 ^ d * 256) 0 (pow256_pos p)) (omega arith)
