-- ===== src/Result.antt =====
-- What a Go call that returns `(A, error)` ends in: a value, an error, or a panic.
use agscheduler.Base.{◌≡◌, refl, Option, none, some}
use agscheduler.Errors.{Error, Panic}

pub data Result {ℓ} (A : Type ℓ) : Type ℓ where
  ok : A → Result A
  err : Error → Result A
  panic : Panic → Result A

-- The statements after a call that can fail.
abbrev pub ◌>>=◌ {ℓ κ} : {A : Type ℓ} {B : Type κ} → Result A → (A → Result B) → Result B
◌>>=◌ (panic p) rest = panic p
◌>>=◌ (err e) rest = err e
◌>>=◌ (ok a) rest = rest a

abbrev pub ◌>>◌ {ℓ κ} : {A : Type ℓ} {B : Type κ} → Result A → Result B → Result B
◌>>◌ first second = first >>= λ _. second

infixl 5 ◌>>=◌ ◌>>◌
-- `if err := …; err != nil { return …, err }` on a value that may be missing.
abbrev pub require {ℓ} : {A : Type ℓ} → Error → Option A → Result A
require e none = err e
require e (some a) = ok a

-- Where a call and the statements after it succeed, both halves did.
module _ {ℓ κ} {A : Type ℓ} {B : Type κ} (rest : A → Result B) {b : B} where
  pub >>=-ok :
      (call : Result A) → (call >>= rest) ≡ ok b → (a : A) × (rest a ≡ ok b) × (call ≡ ok a)
  >>=-ok (panic p) done = cc
  >>=-ok (err e) done = cc
  >>=-ok (ok a) done = (a, done, refl)

pub ok-injective {ℓ} : {A : Type ℓ} {a b : A} → ok a ≡ ok b → a ≡ b
ok-injective e = cc

pub ok≢err {ℓ} : {A : Type ℓ} {a : A} {e : Error} → err e ≡ ok a → ⊥
ok≢err h = cc

pub ok≢panic {ℓ} : {A : Type ℓ} {p : Panic} {a : A} → panic p ≡ ok a → ⊥
ok≢panic h = cc
