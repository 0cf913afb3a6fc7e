-- ===== src/ImplementationService/Returned.antt =====
-- Reasoning on the values of backend/app/services/implementation_service.py: what holds if nothing was raised.
use issue_pilot.Prelude.{◌≡◌, refl, ap, Bool, true, false, arith}
use issue_pilot.Result.{Result, ok, err}
use issue_pilot.ImplementationService.Failures.{
  Service, ServiceError, done, failed, check, from_store, ◌>>=◌,
}

module _ {ℓ} {A : Type ℓ} where
  -- What holds of a returned value.
  abbrev pub Holds {κ} : (A → Type κ) → Service A → Type κ
  Holds P (done a) = P a
  Holds P (failed error) = Unit

module _ {ℓ κ} {A : Type ℓ} {B : Type κ} where
  pub Holds-bind {ι} :
      (Q : B → Type ι) (first : Service A) (next : A → Service B)
      → ((a : A) → first ≡ done a → Holds Q (next a))
      → Holds Q (first >>= next)
  Holds-bind Q (done a) next f = f a refl
  Holds-bind Q (failed error) next f = tt

module _ {ℓ} {B : Type ℓ} where
  pub Holds-check {ι} :
      (Q : B → Type ι) (test : Bool) (error : ServiceError) (next : Service B)
      → (test ≡ true → Holds Q next)
      → Holds Q (check test error >>= λ _. next)
  Holds-check Q true error next f = f refl
  Holds-check Q false error next f = tt

-- After the last test.
pub Holds-last {ℓ} :
    (P : Unit {0} → Type ℓ) (test : Bool) (error : ServiceError)
    → (test ≡ true → P tt)
    → Holds P (check test error)
Holds-last P true error f = f refl
Holds-last P false error f = tt

pub from_store_done : {A : Type 0} (r : Result A) (a : A) → from_store r ≡ done a → r ≡ ok a
from_store_done (ok b) a h = ap (λ s. elim s [ done c ↦ ok c | failed _ ↦ ok b ]) h
from_store_done (err error) a h = ground (arith, h)
