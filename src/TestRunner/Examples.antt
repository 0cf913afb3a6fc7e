-- ===== src/TestRunner/Examples.antt =====
-- The theorems on the test runner for a test that times out.
use issue_pilot.Prelude.{
  ℕ, zero, suc, ◌≡◌, refl, String, none, some, List, [], ◌∷◌, true, false, length, take, ltb, arith,
  ◌+◌,
}
use issue_pilot.Schemas.{pos, TestExecutionResult, test_command, is_zero}
use issue_pilot.TestRunner.{
  Bytes, Platform, DockerTestRunner, Process, Call, History, done, exited, over_time, run,
  run_image, handle_outcome, execute, resolve_image, execution_result, limited_text,
  direct_output_hash, remove_container, container_name, docker_arguments, inspect_container,
  confirm_removed, after_removal, after_inspection, run_command, outcome_of, ask,
  require_local_docker_host, no_such_container, collect, read_bounded, read_bounded_loop,
}
use issue_pilot.TestRunner.Capture.{join, read_bounded_lem}
use issue_pilot.TestRunner.Report.{IsReport, run-IsReport}
use issue_pilot.TestRunner.Removal.{IsGone, run-timeout_IsGone}

-- The image is inspected, the test runs for too long, the container is removed, and is gone.
abbrev pub answers : ℕ → Process
answers (suc zero) = exited [] [] (pos 0)
answers (suc (suc zero)) = over_time
answers (suc (suc (suc zero))) = exited [] [] (pos 0)
answers _ = exited [] (no_such_container ∷ []) (pos 1)

abbrev pub platform : Platform
platform = record {
  processes = λ history. answers (length history);
  runner = none;
  docker_host = "";
  decode = λ _. "sha256:1";
  strip = λ text. text;
  sha256 = length;
  stream_output_hash = λ a b. a + b;
  show_uuid = λ _. "1";
  show_int = λ _. "70";
}

abbrev pub runner : DockerTestRunner
runner = record { image = "tests"; timeout_seconds = 60; max_output_bytes = 100 }

abbrev call : List String → ℕ → ℕ → Call
call arguments timeout limit = record {
  arguments = arguments;
  timeout_seconds = timeout;
  output_limit = limit;
}

abbrev calls : History
calls =
    call ("docker" ∷ "image" ∷ "inspect" ∷ "--format" ∷ "{{.Id}}" ∷ "tests" ∷ []) 10 4096
    ∷ call (docker_arguments platform "sha256:1" "/w" "issuepilot-test-1" 70) 60 100
    ∷ call ("docker" ∷ "rm" ∷ "-f" ∷ "issuepilot-test-1" ∷ []) 10 4096
    ∷ call ("docker" ∷ "container" ∷ "inspect" ∷ "issuepilot-test-1" ∷ []) 10 4096
    ∷ []

abbrev late : TestExecutionResult
late = record {
  command_argv = test_command;
  runner_image = "sha256:1";
  exit_code = none;
  timed_out = true;
  duration_ms = 60000;
  stdout = "sha256:1";
  stderr = "sha256:1";
  output_sha256 = 25;
  output_truncated = false;
}

run_late : run platform runner "/w" 1 60000 [] ≡ (done late, calls)
unfolding run run_image handle_outcome execute resolve_image execution_result limited_text
    direct_output_hash remove_container container_name inspect_container confirm_removed
    after_removal after_inspection run_command outcome_of ask require_local_docker_host collect
    read_bounded read_bounded_loop is_zero
run_late = refl

run-IsReport_example : IsReport platform 100 late
run-IsReport_example = run-IsReport platform runner "/w" 1 60000 [] calls late run_late

run-timeout_IsGone_example : IsGone platform (container_name platform 1) calls
run-timeout_IsGone_example =
    run-timeout_IsGone platform runner "/w" 1 60000 [] calls late run_late refl

abbrev chunks : List Bytes
chunks = (1 ∷ 2 ∷ []) ∷ (3 ∷ 4 ∷ []) ∷ []

read_bounded_example : read_bounded (some chunks) 3 ≡ record {
  captured = take 3 (join chunks);
  digested = join chunks;
  overflow = ltb 3 (length (join chunks));
}
read_bounded_example = read_bounded_lem 3 chunks (omega arith, (omega arith, tt))
