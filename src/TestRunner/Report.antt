-- ===== src/TestRunner/Report.antt =====
-- On the results of `DockerTestRunner.run` of backend/app/services/test_runner.py, and on the removal of its
-- container.
use issue_pilot.Prelude.{
  ℕ, ◌+◌, ◌≤◌, ◌≡◌, refl, ◌⊎◌, inl, inr, String, Option, none, some, Bool, true, false, length,
  take, length-take, arith,
}
use issue_pilot.Schemas.{ℤ, TestExecutionResult, test_command}
use issue_pilot.TestRunner.Post.{Post, Post-after, Post-result, Post-if}
use issue_pilot.TestRunner.{
  Bytes, Platform, DockerTestRunner, CommandResult, CommandOutcome, History, done, completed,
  timed_out_error, os_error, is_infrastructure_code, run, remove_truncated, conclude,
  handle_outcome, run_image, execute, resolve_image, execution_result, limited_text,
  remove_container, container_name, unavailable_step, done_step, timeout_result, docker_arguments,
  continue,
}

module _ (platform : Platform) where
  -- A text decoded from at most so many bytes.
  abbrev pub IsLimited : ℕ → String → Type 0
  IsLimited limit text = (b : Bytes) × (text ≡ platform.decode b) × (length b ≤ limit)

  -- A timeout without an exit code, or the exit code of pytest itself.
  abbrev pub IsVerdict : TestExecutionResult → Type 0
  IsVerdict r =
      ((r.timed_out ≡ true) × (r.exit_code ≡ none))
      ⊎ ((r.timed_out ≡ false)
          × ((code : ℤ) × (r.exit_code ≡ some code) × (is_infrastructure_code code ≡ false)))

  pub record IsReport (limit : ℕ) (r : TestExecutionResult) : Type 0 where
    pub command : r.command_argv ≡ test_command
    pub stdout_limited : IsLimited limit r.stdout
    pub stderr_limited : IsLimited limit r.stderr
    pub verdict : IsVerdict r

  limited_text-IsLimited :
      (b : Bytes) (limit : ℕ) → IsLimited limit (limited_text platform b limit).0
  unfolding limited_text
  limited_text-IsLimited b limit = (take limit b, refl, omega (arith, length-take limit b))

  execution_result-IsReport :
      (result : CommandResult) (image : String) (code : Option ℤ) (timed_out : Bool)
      (elapsed limit : ℕ)
      → IsVerdict (execution_result platform result image code timed_out elapsed limit)
      → IsReport limit (execution_result platform result image code timed_out elapsed limit)
  unfolding execution_result
  execution_result-IsReport result image code timed_out elapsed limit v = record {
    command = refl;
    stdout_limited = limited_text-IsLimited result.stdout limit;
    stderr_limited = limited_text-IsLimited result.stderr limit;
    verdict = v;
  }

  IsVerdict-timeout :
      (result : CommandResult) (image : String) (elapsed limit : ℕ)
      → IsVerdict (execution_result platform result image none true elapsed limit)
  unfolding execution_result
  IsVerdict-timeout result image elapsed limit = inl (refl, refl)

  IsVerdict-code :
      (result : CommandResult) (image : String) (code : ℤ) (elapsed limit : ℕ)
      → is_infrastructure_code code ≡ false
      → IsVerdict (execution_result platform result image (some code) false elapsed limit)
  unfolding execution_result
  IsVerdict-code result image code elapsed limit h = inr (refl, (code, refl, h))

  abbrev Reports : DockerTestRunner → TestExecutionResult → History → Type 0
  Reports runner r _ = IsReport runner.max_output_bytes r

  conclude-IsReport :
      (runner : DockerTestRunner) (image name : String) (elapsed : ℕ) (result : CommandResult)
      (history : History)
      → Post (Reports runner) (conclude platform runner image name elapsed result history)
  unfolding conclude
  conclude-IsReport runner image name elapsed result history =
      Post-if (Reports runner) (is_infrastructure_code result.return_code)
        (λ h. continue (remove_container platform name h) (λ _. unavailable_step))
        (done_step (
          execution_result platform result image (some result.return_code) false elapsed
            runner.max_output_bytes))
        history
        (λ _.
          Post-after (Reports runner) (remove_container platform name) (λ _. unavailable_step)
            history (λ _ _. tt))
        (λ e.
          execution_result-IsReport result image (some result.return_code) false elapsed
            runner.max_output_bytes
            (IsVerdict-code result image result.return_code elapsed runner.max_output_bytes e))

  handle_outcome-IsReport :
      (runner : DockerTestRunner) (image name : String) (elapsed : ℕ) (outcome : CommandOutcome)
      (history : History)
      → Post (Reports runner) (handle_outcome platform runner image name elapsed outcome history)
  unfolding handle_outcome
  handle_outcome-IsReport runner image name elapsed (completed result) history =
      Post-after (Reports runner) (remove_truncated platform name result)
        (λ _. conclude platform runner image name elapsed result) history
        (λ _ h. conclude-IsReport runner image name elapsed result h)
  handle_outcome-IsReport runner image name elapsed timed_out_error history =
      Post-after (Reports runner) (remove_container platform name)
        (λ _. done_step (
          execution_result platform timeout_result image none true elapsed runner.max_output_bytes))
        history
        (λ _ _.
          execution_result-IsReport timeout_result image none true elapsed runner.max_output_bytes
            (IsVerdict-timeout timeout_result image elapsed runner.max_output_bytes))
  handle_outcome-IsReport runner image name elapsed os_error history = tt

  run-Reports :
      (runner : DockerTestRunner) (worktree : String) (run_id elapsed : ℕ) (history : History)
      → Post (Reports runner) (run platform runner worktree run_id elapsed history)
  unfolding run run_image
  run-Reports runner worktree run_id elapsed history =
      Post-after (Reports runner) (resolve_image platform runner.image)
        (run_image platform runner worktree run_id elapsed) history
        (λ image h.
          Post-after (Reports runner)
            (execute platform
              (docker_arguments platform image worktree (container_name platform run_id)
                (runner.timeout_seconds + 10))
              runner.timeout_seconds runner.max_output_bytes)
            (handle_outcome platform runner image (container_name platform run_id) elapsed) h
            (λ outcome g.
              handle_outcome-IsReport runner image (container_name platform run_id) elapsed outcome
                g))

  -- A result of `DockerTestRunner.run` has the fixed command, texts decoded from at most
  -- `max_output_bytes` bytes each, and either a timeout and no exit code, or no timeout and an
  -- exit code that is none of Docker's own 125, 126 and 127.
  pub run-IsReport :
      (runner : DockerTestRunner) (worktree : String) (run_id elapsed : ℕ) (before after : History)
      (result : TestExecutionResult)
      → run platform runner worktree run_id elapsed before ≡ (done result, after)
      → IsReport runner.max_output_bytes result
  run-IsReport runner worktree run_id elapsed before after result e =
      Post-result (Reports runner) (run platform runner worktree run_id elapsed before) result after
        (run-Reports runner worktree run_id elapsed before) e
