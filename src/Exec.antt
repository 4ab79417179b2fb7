-- ===== src/Exec.antt =====
-- Methods that change a state and may fail. What was written before an error or a panic stays
-- written, so the state comes back on every path.
use agscheduler.Errors.{Panic}
use agscheduler.Result.{Result, ok, err, panic}

abbrev pub Exec {ℓ} : Type ℓ → Type ℓ → Type ℓ
Exec S A = S → Result A × S

module _ {ℓ} {S A : Type ℓ} where
  abbrev pub pure : A → Exec S A
  pure a s = (ok a, s)

  -- A result that was computed without the state.
  abbrev pub lift : Result A → Exec S A
  lift r s = (r, s)

  -- A method that only reads.
  abbrev pub reads : (S → Result A) → Exec S A
  reads f s = (f s, s)

  abbrev pub gets : (S → A) → Exec S A
  gets f s = (ok (f s), s)

  abbrev pub stop : Panic → Exec S A
  stop p s = (panic p, s)

module _ {ℓ} {S : Type ℓ} where
  abbrev pub modify : (S → S) → S → Result (Unit {0}) × S
  modify f s = (ok tt, f s)

module _ {ℓ κ μ} {S : Type ℓ} {A : Type κ} {B : Type μ} where
  abbrev pub continue : Result A × S → (A → S → Result B × S) → Result B × S
  continue (ok a, s) f = f a s
  continue (err e, s) f = (err e, s)
  continue (panic p, s) f = (panic p, s)

  infixl 5 ◌>>=◌ ◌>>◌
  abbrev pub ◌>>=◌ : (S → Result A × S) → (A → S → Result B × S) → S → Result B × S
  ◌>>=◌ m f s = continue (m s) f

  abbrev pub ◌>>◌ : (S → Result A × S) → (S → Result B × S) → S → Result B × S
  ◌>>◌ m n s = continue (m s) (λ _. n)
