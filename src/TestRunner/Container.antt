-- ===== src/TestRunner/Container.antt =====
-- The commands of backend/app/services/test_runner.py and the removal of a container.
use issue_pilot.Prelude.{
  ℕ, String, Option, none, some, List, [], ◌∷◌, ◌++◌, Bool, true, false, not, ◌&&◌, ◌||◌, ◌==◌,
  str_eq, if◌then◌else◌,
}
use issue_pilot.Schemas.{ℤ, is_zero}
use issue_pilot.TestRunner.Capture.{
  Bytes, CommandResult, CommandOutcome, Process, completed, timed_out_error, os_error,
  could_not_start, over_time, exited, read_bounded, collect,
}
use text.Mathlib.Text.{starts_with}

-- The arguments of `run_command`.
pub record Call : Type 0 where
  pub arguments : List String
  pub timeout_seconds : ℕ
  pub output_limit : ℕ

-- The commands so far, oldest first.
abbrev pub History : Type 0
History = List Call

-- What a method returns or raises: TestRunnerUnavailableError, or an OSError.
pub data Answer {ℓ} (A : Type ℓ) : Type ℓ where
  done : A → Answer A
  unavailable system_error : Answer A

abbrev pub Step {ℓ} : Type ℓ → Type ℓ
Step A = History → Answer A × History

abbrev pub done_step {ℓ} : {A : Type ℓ} → A → Step A
done_step a history = (done a, history)

abbrev pub unavailable_step {ℓ} : {A : Type ℓ} → Step A
unavailable_step history = (unavailable, history)

abbrev pub system_error_step {ℓ} : {A : Type ℓ} → Step A
system_error_step history = (system_error, history)

pub record Platform : Type 0 where
  pub processes : History → Process
  pub runner : Option (History → CommandOutcome)
  pub docker_host : String
  pub decode : Bytes → String  -- errors="replace"
  pub strip : String → String
  pub sha256 : Bytes → ℕ
  pub stream_output_hash : ℕ → ℕ → ℕ
  pub show_uuid : ℕ → String
  pub show_int : ℕ → String

-- The constructor raises ValueError unless the limits are positive and the image is not blank.
pub record DockerTestRunner : Type 0 where
  pub image : String
  pub timeout_seconds : ℕ
  pub max_output_bytes : ℕ

abbrev pub continue {ℓ κ} :
    {A : Type ℓ} {B : Type κ} → Answer A × History → (A → Step B) → Answer B × History
continue (done a, history) next = next a history
continue (unavailable, history) next = (unavailable, history)
continue (system_error, history) next = (system_error, history)

infixl 5 ◌>>=◌ ◌>>◌
abbrev pub ◌>>=◌ {ℓ κ} : {A : Type ℓ} {B : Type κ} → Step A → (A → Step B) → Step B
(first >>= next) history = continue (first history) next

abbrev pub ◌>>◌ {ℓ} : {B : Type ℓ} → Step (Unit {0}) → Step B → Step B
first >> next = first >>= λ _. next

-- The outcome of one more command.
unfoldable pub ask : (History → CommandOutcome) → Call → Step CommandOutcome
ask answer call history = let now = history ++ call ∷ [] in (done (answer now), now)

abbrev pub is_infrastructure_code : ℤ → Bool
is_infrastructure_code (ℤ.pos n) = n == 125 || (n == 126 || n == 127)
is_infrastructure_code (ℤ.negsuc n) = false

-- `b"No such container"`
abbrev pub no_such_container : Bytes
no_such_container =
    78 ∷ 111 ∷ 32 ∷ 115 ∷ 117 ∷ 99 ∷ 104 ∷ 32 ∷ 99 ∷ 111 ∷ 110 ∷ 116 ∷ 97 ∷ 105 ∷ 110 ∷ 101 ∷ 114
    ∷ []

abbrev pub begins : Bytes → Bytes → Bool
begins [] text = true
begins (b ∷ rest) [] = false
begins (b ∷ rest) (c ∷ text) = b == c && begins rest text

-- `part in text`
abbrev pub contains : Bytes → Bytes → Bool
contains part [] = begins part []
contains part (b ∷ text) = begins part (b ∷ text) || contains part text

abbrev pub timeout_result : CommandResult
timeout_result = record {
  return_code = ℤ.negsuc 0;
  stdout = [];
  stderr =
      116 ∷ 101 ∷ 115 ∷ 116 ∷ 32 ∷ 101 ∷ 120 ∷ 101 ∷ 99 ∷ 117 ∷ 116 ∷ 105 ∷ 111 ∷ 110 ∷ 32 ∷ 116
      ∷ 105 ∷ 109 ∷ 101 ∷ 100 ∷ 32 ∷ 111 ∷ 117 ∷ 116 ∷ [];
  stdout_truncated = false;
  stderr_truncated = false;
  output_sha256 = none;
}

module _ (platform : Platform) where
  -- `self._runner is None`
  abbrev pub is_real : Bool
  is_real = elim platform.runner [ none ↦ true | some _ ↦ false ]

  unfoldable pub require_local_docker_host : Step (Unit {0})
  require_local_docker_host =
      if not (str_eq platform.docker_host "") && not (starts_with platform.docker_host "unix://")
      then unavailable_step
      else done_step tt

  unfoldable pub outcome_of : (limit : ℕ) → Process → CommandOutcome
  outcome_of limit could_not_start = os_error
  outcome_of limit over_time = timed_out_error
  outcome_of limit (exited stdout stderr return_code) = completed (
      collect platform.sha256 platform.stream_output_hash limit (read_bounded (some stdout) limit)
        (read_bounded (some stderr) limit) return_code)

  unfoldable pub run_command :
      (arguments : List String) → (timeout_seconds output_limit : ℕ) → Step CommandOutcome
  run_command arguments timeout_seconds output_limit =
      ask (λ now. outcome_of output_limit (platform.processes now))
        (record {
          arguments = arguments;
          timeout_seconds = timeout_seconds;
          output_limit = output_limit;
        })

  -- The tests on `inspected`.
  unfoldable pub confirm_removed : CommandResult → Step (Unit {0})
  confirm_removed inspected =
      if is_zero inspected.return_code
      then unavailable_step
      else if not (contains no_such_container inspected.stderr)
      then unavailable_step
      else done_step tt

  unfoldable pub after_inspection : CommandOutcome → Step (Unit {0})
  after_inspection (completed inspected) = confirm_removed inspected
  after_inspection _ = unavailable_step

  unfoldable pub inspect_container : (name : String) → Step (Unit {0})
  inspect_container name =
      run_command ("docker" ∷ "container" ∷ "inspect" ∷ name ∷ []) 10 4096 >>= after_inspection

  -- The test on `removed`, and the rest.
  unfoldable pub after_removal : (name : String) → CommandOutcome → Step (Unit {0})
  after_removal name (completed removed) =
      if not (is_zero removed.return_code) && not (contains no_such_container removed.stderr)
      then unavailable_step
      else inspect_container name
  after_removal name _ = unavailable_step

  unfoldable pub remove_container : (name : String) → Step (Unit {0})
  remove_container name = do
    require_local_docker_host
    removed ← run_command ("docker" ∷ "rm" ∷ "-f" ∷ name ∷ []) 10 4096
    after_removal name removed
