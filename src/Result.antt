-- ===== src/Result.antt =====
-- The exceptions that the two stores raise, as values. A conflict carries its code; the Chinese
-- text that is shown beside it is left out.
use issue_pilot.Prelude.{Bool, true, false}

pub data ConflictCode : Type 0 where
  decision_not_found approval_not_ready idempotency_key_conflict : ConflictCode
  plan_version_conflict decision_already_applied plan_revision_limit : ConflictCode
  implementation_request_mismatch implementation_already_exists : ConflictCode
  implementation_not_approved implementation_state_conflict : ConflictCode
  patch_state_conflict patch_not_ready patch_version_conflict : ConflictCode
  test_request_mismatch test_already_exists test_state_conflict : ConflictCode

pub data Error : Type 0 where
  database_unavailable task_not_found workspace_inconsistent : Error
  implementation_not_ready : Error
  planning_conflict implementation_conflict : ConflictCode → Error

pub data Result {ℓ} (A : Type ℓ) : Type ℓ where
  ok : A → Result A
  err : Error → Result A

-- `if not test: raise e`
abbrev pub require : Bool → Error → Result (Unit {0})
require false e = err e
require true e = ok tt

-- The next statement runs unless an exception was raised.
infixl 5 ◌>>=◌ ◌>>◌
abbrev pub ◌>>=◌ {ℓ κ} : {A : Type ℓ} {B : Type κ} → Result A → (A → Result B) → Result B
err raised >>= next = err raised
ok value >>= next = next value

abbrev pub ◌>>◌ {ℓ} : {B : Type ℓ} → Result (Unit {0}) → Result B → Result B
check >> next = check >>= λ _. next
