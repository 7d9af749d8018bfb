-- ===== src/Base/Errors.antt =====
-- Go's `(value, error)` returns, and the errors that the program makes.
use Prim.Native.String.{String}
use mathlib.Core.Path.{◌≡◌, refl}
use mathlib.Core.Logic.{◌⊎◌, inl, inr}

-- `new` is errors.New, `wrap` is errors.Wrap and fmt.Errorf with %w; the other cases stand for the
-- errors of the libraries, whose texts no code here reads.
pub data Error : Type 0 where
  new : String → Error
  wrap : String → Error → Error
  json_error time_error : Error

pub data Result {ℓ} (A : Type ℓ) : Type ℓ where
  err : Error → Result A
  ok : A → Result A

pub Result-cases {ℓ} :
    {A : Type ℓ} (r : Result A) → ((a : A) × (r ≡ ok a)) ⊎ ((e : Error) × (r ≡ err e))
Result-cases (ok a) = inl (a, refl)
Result-cases (err e) = inr (e, refl)

-- `if err != nil { return errors.Wrap(err, text) }`
abbrev pub or_wrap {ℓ} : {A : Type ℓ} → String → Result A → Result A
or_wrap text (ok a) = ok a
or_wrap text (err e) = err (wrap text e)

abbrev pub map_ok {ℓ κ} : {A : Type ℓ} {B : Type κ} → (A → B) → Result A → Result B
map_ok f (ok a) = ok (f a)
map_ok f (err e) = err e

module _ {ℓ κ} {A : Type ℓ} {B : Type κ} where
  infixl 5 ◌>>=◌
  -- `if err != nil { return err }`, and else what follows
  abbrev pub ◌>>=◌ : Result A → (A → Result B) → Result B
  err e >>= rest = err e
  ok value >>= rest = rest value

  -- Where the whole has no error, neither has the first part.
  pub >>=-eq-ok :
      (r : Result A) (rest : A → Result B) {b : B}
      → (r >>= rest) ≡ ok b
      → (value : A) × (r ≡ ok value) × (rest value ≡ ok b)
  >>=-eq-ok (err e) rest same = cc
  >>=-eq-ok (ok value) rest same = (value, refl, same)
