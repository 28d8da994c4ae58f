-- ===== src/Prelude/Bytes.antt =====
-- Big-endian byte strings.
use Prim.Native.Nat.{ℕ, zero, suc, ◌+◌, ◌*◌, ◌/◌, ◌%◌, ◌^◌, ◌≤◌, ◌<◌}
use mathlib.Core.Path.{◌≡◌}
use mathlib.Core.List.{List, [], ◌∷◌}
use native.Mathlib.Nat.{pow-succ', one-le-pow, mod-eq_of_lt}
use native.Mathlib.Omega.{arith}
use netjugo.Prelude.Powers.{mod-mul}

-- The bytes of a number, the most significant first.
abbrev pub be_bytes : ℕ → ℕ → List ℕ
be_bytes zero a = []
be_bytes (suc n) a = (a / 256 ^ n % 256) ∷ be_bytes n a

-- The number that big-endian bytes stand for.
abbrev pub of_bytes_from : ℕ → List ℕ → ℕ
of_bytes_from acc [] = acc
of_bytes_from acc (b ∷ bs) = of_bytes_from (acc * 256 + b) bs

abbrev pub of_bytes : List ℕ → ℕ
of_bytes bs = of_bytes_from 0 bs

-- `bs[i]`, for an index within the array.
abbrev pub byte_at : List ℕ → ℕ → ℕ
byte_at [] i = 0
byte_at (b ∷ bs) zero = b
byte_at (b ∷ bs) (suc i) = byte_at bs i

pub of_bytes_from-be_bytes :
    (n acc a : ℕ) → of_bytes_from acc (be_bytes n a) ≡ acc * 256 ^ n + a % 256 ^ n
of_bytes_from-be_bytes zero acc a = omega arith
of_bytes_from-be_bytes (suc n) acc a =
    rw (of_bytes_from-be_bytes n, pow-succ' 256 n, mod-mul 256 (256 ^ n) a (omega arith) (pos n))
      (omega arith)
  where
    pos : (k : ℕ) → 1 ≤ 256 ^ k
    pos k = one-le-pow k 256 (omega arith)

pub of_bytes-be_bytes : (n a : ℕ) → a < 256 ^ n → of_bytes (be_bytes n a) ≡ a
of_bytes-be_bytes n a h = omega (arith, of_bytes_from-be_bytes n 0 a, mod-eq_of_lt h)
