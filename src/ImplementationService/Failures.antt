-- ===== src/ImplementationService/Failures.antt =====
-- The exceptions that reach ImplementationService, and what it records of them:
-- `_failure_code` and FAILURE_MESSAGES of backend/app/services/implementation_service.py.
use issue_pilot.Prelude.{String, Bool, true, false}
use issue_pilot.Result.{Error, Result, ok, err}

-- The exceptions of the services; those of the store are `store_error`. A
-- PatchSourceChangedError is a PatchValidationError too.
pub data ServiceError : Type 0 where
  scope_invalid inconsistent unsafe_workspace_path : ServiceError
  source_changed patch_validation llm_invalid_response llm_unavailable : ServiceError
  runner_unavailable checkpointer_unavailable git_error value_error other_error : ServiceError
  disabled : ServiceError
  store_error : Error → ServiceError

pub data Service {ℓ} (A : Type ℓ) : Type ℓ where
  done : A → Service A
  failed : ServiceError → Service A

infixl 5 ◌>>=◌ ◌>>◌
abbrev pub ◌>>=◌ {ℓ κ} : {A : Type ℓ} {B : Type κ} → Service A → (A → Service B) → Service B
done a >>= next = next a
failed error >>= next = failed error

abbrev pub ◌>>◌ {ℓ} : {B : Type ℓ} → Service (Unit {0}) → Service B → Service B
first >> next = first >>= λ _. next

-- `if not test: raise error`
abbrev pub check : Bool → ServiceError → Service (Unit {0})
check true error = done tt
check false error = failed error

abbrev pub from_store {ℓ} : {A : Type ℓ} → Result A → Service A
from_store (ok a) = done a
from_store (err error) = failed (store_error error)

-- The keys of FAILURE_MESSAGES.
pub data FailureCode : Type 0 where
  implementation_scope_invalid patch_output_invalid llm_is_unavailable : FailureCode
  llm_answer_invalid test_runner_unavailable workspace_is_inconsistent : FailureCode
  implementation_failed : FailureCode

unfoldable pub code_text : FailureCode → String
code_text implementation_scope_invalid = "IMPLEMENTATION_SCOPE_INVALID"
code_text patch_output_invalid = "PATCH_OUTPUT_INVALID"
code_text llm_is_unavailable = "LLM_UNAVAILABLE"
code_text llm_answer_invalid = "LLM_INVALID_RESPONSE"
code_text test_runner_unavailable = "TEST_RUNNER_UNAVAILABLE"
code_text workspace_is_inconsistent = "WORKSPACE_INCONSISTENT"
code_text implementation_failed = "IMPLEMENTATION_FAILED"

unfoldable pub failure_message : FailureCode → String
failure_message implementation_scope_invalid = "批准计划的文件范围不适合安全实现"
failure_message patch_output_invalid = "本地模型生成的代码修改未通过安全校验"
failure_message llm_is_unavailable = "本地代码生成模型暂时不可用"
failure_message llm_answer_invalid = "本地代码生成模型返回了非法结果"
failure_message test_runner_unavailable = "安全 pytest Runner 暂时不可用"
failure_message workspace_is_inconsistent = "实现记录与真实工作区不一致"
failure_message implementation_failed = "本地 Patch 生成失败"

unfoldable pub failure_code : ServiceError → FailureCode
failure_code scope_invalid = implementation_scope_invalid
failure_code source_changed = patch_output_invalid
failure_code patch_validation = patch_output_invalid
failure_code llm_invalid_response = patch_output_invalid
failure_code llm_unavailable = llm_is_unavailable
failure_code runner_unavailable = test_runner_unavailable
failure_code inconsistent = workspace_is_inconsistent
failure_code unsafe_workspace_path = workspace_is_inconsistent
failure_code _ = implementation_failed

-- The first `except` of process_implementation.
unfoldable pub is_inconsistency : ServiceError → Bool
is_inconsistency inconsistent = true
is_inconsistency unsafe_workspace_path = true
is_inconsistency source_changed = true
is_inconsistency _ = false

-- The first `except` of process_test.
unfoldable pub is_test_inconsistency : ServiceError → Bool
is_test_inconsistency value_error = true
is_test_inconsistency error = is_inconsistency error

-- The exceptions that are raised again: CheckpointerUnavailableError, DatabaseUnavailableError.
unfoldable pub is_outage : ServiceError → Bool
is_outage checkpointer_unavailable = true
is_outage (store_error Error.database_unavailable) = true
is_outage _ = false
