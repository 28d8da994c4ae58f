-- ===== src/Errors.antt =====
-- errors.go, and how Go's pair of a value and an error is written.
use netjugo.Prelude.{◌≡◌, refl, Bool, true, false}

-- The sentinels of errors.go. `plain` is an error that wraps none of them: `fmt.Errorf` with no
-- `%w`. A wrapped error is the sentinel that `errors.Is` finds in it; the texts are left out.
pub data Error : Type 0 where
  invalid_prefix invalid_min_prefix_len unsupported_ip_version nil_pointer : Error
  file_not_found invalid_format : Error
  plain : Error

pub data Result {ℓ} (V : Type ℓ) : Type ℓ where
  err : Error → Result V
  ok : V → Result V

-- Whether `err == nil`.
abbrev pub is_ok {ℓ} : {V : Type ℓ} → Result V → Bool
is_ok (err cause) = false
is_ok (ok v) = true

-- The early return where a call gives an error.
infixl 5 ◌>>=◌
abbrev pub ◌>>=◌ {ℓ κ} : {V : Type ℓ} {W : Type κ} → Result V → (V → Result W) → Result W
err cause >>= next = err cause
ok v >>= next = next v

-- A chain that succeeds is one whose first call and whose rest do.
pub >>=-eq-ok {ℓ κ} :
    {V : Type ℓ} {W : Type κ} (first : Result V) (next : V → Result W) {w : W}
    → (first >>= next) ≡ ok w
    → (v : V) × (first ≡ ok v) × (next v ≡ ok w)
>>=-eq-ok (err cause) next found = cc
>>=-eq-ok (ok v) next found = (v, refl, found)
