-- ===== src/Base/Result.antt =====
-- What a call returns or raises, and the chain of calls that the first exception leaves.
use Prim.Native.String.{String}
use mathlib.Core.Path.{◌≡◌, refl, ap}
use mathlib.Core.Bool.{Bool, true, false}
use mathlib.Core.Logic.{◌⊎◌, inl, inr}

-- `invalid` is the exception that the module raises on purpose (OracleValidationError, InputError,
-- ValueError). `nondeterminism` is SameBackendNondeterminism. `crash` is an exception of Python's own
-- (AttributeError, KeyError, TypeError) that the code does not mean to raise.
pub data Error : Type 0 where
  invalid : String → Error
  nondeterminism : String → Error
  crash : String → Error

pub data Result {ℓ} (A : Type ℓ) : Type ℓ where
  err : Error → Result A
  ok : A → Result A

-- The next call is made unless an exception was raised.
module _ {ℓ κ} {A : Type ℓ} {B : Type κ} where
  infixl 5 ◌>>=◌
  abbrev pub ◌>>=◌ : Result A → (A → Result B) → Result B
  err raised >>= next = err raised
  ok value >>= next = next value

  -- Where the chain returned, so did its first call.
  pub >>=-eq-ok :
      (call : Result A) (next : A → Result B) {final : B}
      → (call >>= next) ≡ ok final
      → (value : A) × (call ≡ ok value) × (next value ≡ ok final)
  >>=-eq-ok (err raised) next e = cc
  >>=-eq-ok (ok value) next e = (value, refl, e)

-- `if not test: raise ...`
abbrev pub guard : Bool → Error → Result (Unit {0})
guard false raised = err raised
guard true raised = ok tt

pub guard-eq-ok :
    (test : Bool) (raised : Error) {u : Unit {0}} → guard test raised ≡ ok u → test ≡ true
guard-eq-ok false raised e = cc
guard-eq-ok true raised e = refl

module _ {ℓ} {B : Type ℓ} where
  infixl 5 ◌>>◌
  abbrev pub ◌>>◌ : Result (Unit {0}) → Result B → Result B
  check >> rest = check >>= λ _. rest

  pub >>-eq-ok :
      (check : Result (Unit {0})) (rest : Result B) {final : B}
      → (check >> rest) ≡ ok final
      → (check ≡ ok tt) × (rest ≡ ok final)
  >>-eq-ok (err raised) rest e = cc
  >>-eq-ok (ok tt) rest e = (refl, e)

abbrev value_or {ℓ} : {A : Type ℓ} → A → Result A → A
value_or a (ok b) = b
value_or a (err e) = a

pub ok_inj {ℓ} : {A : Type ℓ} {a b : A} → ok a ≡ ok b → a ≡ b
ok_inj {a = a} h = ap (value_or a) h

-- To split on what a call did and keep the equation.
pub Result-cases {ℓ} :
    {A : Type ℓ} (r : Result A) → ((a : A) × (r ≡ ok a)) ⊎ ((e : Error) × (r ≡ err e))
Result-cases (err e) = inr (e, refl)
Result-cases (ok a) = inl (a, refl)
