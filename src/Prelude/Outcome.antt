-- ===== src/Prelude/Outcome.antt =====
-- The values of a Go call that returns a result and an error.
use Prim.Native.String.{String}
use mathlib.Core.Path.{◌≡◌, refl}
use mathlib.Core.Bool.{Bool, true, false}

-- internal/domain/errors.go names the first five; `busy_group` is the error of Redis with the text
-- "BUSYGROUP Consumer Group name already exists", and `unavailable` any other error of a driver.
pub data Error : Type 0 where
  duplicate not_found forbidden unauthorized : Error
  bad_request : String → Error
  busy_group unavailable : Error

-- The value is looked at only where the error is nil.
pub data Result {ℓ} (A : Type ℓ) : Type ℓ where
  err : Error → Result A
  ok : A → Result A

-- `if !b { return e }`
abbrev pub require : Bool → Error → Result (Unit {0})
require false e = err e
require true e = ok tt

-- `if err != nil { return …, err }`
infixl 5 ◌>>=◌ ◌>>◌
abbrev pub ◌>>=◌ {ℓ ℓ'} : {A : Type ℓ} {B : Type ℓ'} → Result A → (A → Result B) → Result B
err e >>= next = err e
ok a >>= next = next a

abbrev pub ◌>>◌ {ℓ} : {B : Type ℓ} → Result (Unit {0}) → Result B → Result B
err e >> rest = err e
ok _ >> rest = rest

-- A chain of guards that passes, taken apart at its first guard.
pub require-eq-ok :
    (b : Bool) (e : Error) (k : Result (Unit {0}))
    → (require b e >> k) ≡ ok tt
    → (b ≡ true) × (k ≡ ok tt)
require-eq-ok true e k h = (refl, h)
require-eq-ok false e k h = cc

pub ok-injective : {A : Type 0} {a b : A} → ok a ≡ ok b → a ≡ b
ok-injective e = cc
