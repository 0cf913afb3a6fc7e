-- ===== src/TestRunner.antt =====
-- backend/app/services/test_runner.py: the pytest container. A process, which the operating
-- system runs, is a parameter: what becomes of a command is a function of all the commands
-- so far, itself included. So a method takes the commands so far and returns them with its own
-- added. Decoding, `strip`, hashing, DOCKER_HOST and the text of a UUID are parameters as well.
pub mod Capture
pub mod Container
pub mod Post
pub mod Report
pub mod Removal
pub mod Examples
unfoldable pub use Capture.*
unfoldable pub use Container.*
use issue_pilot.Prelude.{
  ℕ, ◌-◌, ◌+◌, String, Option, none, some, List, [], ◌∷◌, ◌++◌, Bool, true, false, not, ◌&&◌, ◌||◌,
  ltb, if◌then◌else◌, length, take,
}
use issue_pilot.Schemas.{ℤ, TestExecutionResult, is_zero, test_command}
use Prim.Native.String.{◌++◌ as ◌+++◌}
use text.Mathlib.Text.{starts_with}

module _ (platform : Platform) where
  unfoldable pub docker_arguments :
      (image worktree name : String) → (hard_timeout_seconds : ℕ) → List String
  docker_arguments image worktree name hard_timeout_seconds =
      "docker"
      ∷ "run"
      ∷ "--rm"
      ∷ "--name"
      ∷ name
      ∷ "--network"
      ∷ "none"
      ∷ "--read-only"
      ∷ "--user"
      ∷ "65534:65534"
      ∷ "--cap-drop"
      ∷ "ALL"
      ∷ "--security-opt"
      ∷ "no-new-privileges"
      ∷ "--cpus"
      ∷ "1"
      ∷ "--memory"
      ∷ "512m"
      ∷ "--pids-limit"
      ∷ "64"
      ∷ "--tmpfs"
      ∷ "/tmp:rw,nosuid,nodev,noexec,size=64m"
      ∷ "--env"
      ∷ "PYTHONDONTWRITEBYTECODE=1"
      ∷ "--env"
      ∷ ("ISSUEPILOT_HARD_TIMEOUT_SECONDS=" +++ platform.show_int hard_timeout_seconds)
      ∷ "--mount"
      ∷ ("type=bind,src=" +++ (worktree +++ ",dst=/workspace,readonly"))
      ∷ "--workdir"
      ∷ "/workspace"
      ∷ image
      ∷ "-q"
      ∷ "-p"
      ∷ "no:cacheprovider"
      ∷ []

  unfoldable pub limited_text : Bytes → ℕ → String × Bool
  limited_text value limit = (platform.decode (take limit value), ltb limit (length value))

  unfoldable pub direct_output_hash : CommandResult → ℕ
  direct_output_hash result = platform.sha256 (result.stdout ++ 0 ∷ result.stderr)

  unfoldable pub execution_result :
      CommandResult
      → (image : String) → (exit_code : Option ℤ) → (timed_out : Bool) → (duration_ms limit : ℕ)
      → TestExecutionResult
  execution_result result image exit_code timed_out duration_ms limit = record {
    command_argv = test_command;
    runner_image = image;
    exit_code = exit_code;
    timed_out = timed_out;
    duration_ms = duration_ms;
    stdout = (limited_text result.stdout limit).0;
    stderr = (limited_text result.stderr limit).0;
    output_sha256 = elim result.output_sha256 [
      | none ↦ direct_output_hash result
      | some hash ↦ hash
    ];
    output_truncated =
        (limited_text result.stdout limit).1
        || ((limited_text result.stderr limit).1
            || (result.stdout_truncated || result.stderr_truncated));
  }

  -- `_execute`: the tests of the repository inject a runner in place of `run_command`.
  unfoldable pub execute :
      (arguments : List String) → (timeout_seconds limit : ℕ) → Step CommandOutcome
  execute arguments timeout_seconds limit = elim platform.runner [
    | none ↦ do
      require_local_docker_host platform
      run_command platform arguments timeout_seconds limit
    | some runner ↦
        ask runner (record {
          arguments = arguments;
          timeout_seconds = timeout_seconds;
          output_limit = limit;
        })
  ]

  unfoldable pub resolve_image : (image : String) → Step String
  resolve_image image = do
    outcome ← execute ("docker" ∷ "image" ∷ "inspect" ∷ "--format" ∷ "{{.Id}}" ∷ image ∷ []) 10 4096
    elim outcome [
      | completed result ↦
          let image_id = platform.strip (platform.decode result.stdout) in
          if not (is_zero result.return_code) || not (starts_with image_id "sha256:")
          then unavailable_step
          else done_step image_id
      | _ ↦ unavailable_step
    ]

  unfoldable pub container_name : ℕ → String
  container_name run_id = "issuepilot-test-" +++ platform.show_uuid run_id

  unfoldable pub cleanup : ℕ → Step (Unit {0})
  cleanup run_id = remove_container platform (container_name run_id)

  -- The first test of `run` on a command that ended by itself.
  unfoldable pub remove_truncated : (name : String) → CommandResult → Step (Unit {0})
  remove_truncated name result =
      if is_real platform && (result.stdout_truncated || result.stderr_truncated)
      then remove_container platform name
      else done_step tt

  -- The second test, and the result.
  unfoldable pub conclude :
      DockerTestRunner
      → (image_id name : String) → (elapsed : ℕ) → CommandResult
      → Step TestExecutionResult
  conclude runner image_id name elapsed result =
      if is_infrastructure_code result.return_code
      then remove_container platform name >> unavailable_step
      else done_step (
          execution_result result image_id (some result.return_code) false elapsed
            runner.max_output_bytes)

  unfoldable pub handle_outcome :
      DockerTestRunner
      → (image_id name : String) → (elapsed : ℕ) → CommandOutcome
      → Step TestExecutionResult
  handle_outcome runner image_id name elapsed (completed result) = do
    remove_truncated name result
    conclude runner image_id name elapsed result
  handle_outcome runner image_id name elapsed timed_out_error = do
    remove_container platform name
    done_step (execution_result timeout_result image_id none true elapsed runner.max_output_bytes)
  handle_outcome runner image_id name elapsed os_error = system_error_step

  -- `run` with the image that `_resolve_image` found.
  unfoldable pub run_image :
      DockerTestRunner
      → (worktree : String) → (run_id elapsed : ℕ) → (image_id : String) → Step TestExecutionResult
  run_image runner worktree run_id elapsed image_id = do
    let name = container_name run_id
    let arguments = docker_arguments image_id worktree name (runner.timeout_seconds + 10)
    outcome ← execute arguments runner.timeout_seconds runner.max_output_bytes
    handle_outcome runner image_id name elapsed outcome

  unfoldable pub run :
      DockerTestRunner → (worktree : String) → (run_id elapsed : ℕ) → Step TestExecutionResult
  run runner worktree run_id elapsed = do
    image_id ← resolve_image runner.image
    run_image runner worktree run_id elapsed image_id
