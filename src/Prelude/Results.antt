-- ===== src/Prelude/Results.antt =====
-- The exceptions that the modelled code raises, and the two shapes of code that raises them. The
-- message of an exception is left out.
use mathlib.Core.Path.{◌≡◌, refl}
use mathlib.Core.Logic.{◌⊎◌, inl, inr}
use mathlib.Core.Bool.{Bool, true, false}

pub data Error : Type 0 where
  vault_error not_found version_conflict invalid_key shared_refusal no_home : Error
  frontmatter_error value_error os_error unreadable validation_error : Error

pub data Result {ℓ} (A : Type ℓ) : Type ℓ where
  ok : A → Result A
  err : Error → Result A

-- `except NotFound`, whose subclass `InvalidKey` it takes too.
unfoldable pub is_not_found : Error → Bool
is_not_found not_found = true
is_not_found invalid_key = true
is_not_found _ = false

-- What a call without a result returns.
abbrev pub Done : Type 0
Done = Unit {0}

pub Result-cases {ℓ} :
    {A : Type ℓ} (r : Result A) → ((a : A) × (r ≡ ok a)) ⊎ ((e : Error) × (r ≡ err e))
Result-cases (ok a) = inl (a, refl)
Result-cases (err e) = inr (e, refl)

-- `if not test: raise raised`
abbrev pub guard : Bool → Error → Result Done
guard true raised = ok tt
guard false raised = err raised

pub guard-eq-ok :
    (test : Bool) (raised : Error) {done : Done} → guard test raised ≡ ok done → test ≡ true
guard-eq-ok true raised h = refl
guard-eq-ok false raised h = cc

module _ {ℓ κ} {A : Type ℓ} {B : Type κ} where
  -- One call, then another on what it returned; an exception passes.
  infixl 5 ◌>>=◌
  abbrev pub ◌>>=◌ : Result A → (A → Result B) → Result B
  err raised >>= next = err raised
  ok value >>= next = next value

  pub >>=-eq-ok :
      (call : Result A) (next : A → Result B) {out : B}
      → (call >>= next) ≡ ok out
      → (value : A) × (call ≡ ok value) × (next value ≡ ok out)
  >>=-eq-ok (err raised) next h = cc
  >>=-eq-ok (ok value) next h = (value, refl, h)

infixl 5 ◌>>◌
abbrev pub ◌>>◌ {κ} : {B : Type κ} → Result Done → Result B → Result B
call >> next = call >>= λ _. next
