-- ===== src/TestRunner/Removal.antt =====
-- On `_remove_container` of backend/app/services/test_runner.py: what is known when it returns.
use issue_pilot.Prelude.{
  ℕ, ◌+◌, ◌≡◌, refl, String, none, some, [], ◌∷◌, ◌++◌, true, false, not, ◌&&◌, if◌then◌else◌,
  arith,
}
use issue_pilot.Schemas.{TestExecutionResult, is_zero}
use issue_pilot.TestRunner.Post.{Post, Post-after, Post-continue, Post-result, Post-if}
use issue_pilot.TestRunner.{
  Platform, DockerTestRunner, CommandResult, CommandOutcome, Call, History, completed, done,
  timed_out_error, os_error, run, remove_truncated, conclude, handle_outcome, run_image, execute,
  resolve_image, execution_result, remove_container, container_name, unavailable_step, done_step,
  timeout_result, docker_arguments, is_infrastructure_code, continue, contains, no_such_container,
  inspect_container, after_inspection, after_removal, confirm_removed, run_command, outcome_of, ask,
  require_local_docker_host,
}

module _ (platform : Platform) where
  abbrev inspect_call : String → Call
  inspect_call name = record {
    arguments = "docker" ∷ "container" ∷ "inspect" ∷ name ∷ [];
    timeout_seconds = 10;
    output_limit = 4096;
  }

  -- The last command asked for the container, and Docker answered that there is none.
  abbrev pub IsGone : String → History → Type 0
  IsGone name history =
      (before : History) × (history ≡ before ++ inspect_call name ∷ [])
      × ((answer : CommandResult) × (outcome_of platform 4096 (platform.processes history)
            ≡ completed answer)
          × (is_zero answer.return_code ≡ false)
          × (contains no_such_container answer.stderr ≡ true))

  confirm_removed-IsGone :
      (name : String) (answer : CommandResult) (before : History)
      → outcome_of platform 4096 (platform.processes (before ++ inspect_call name ∷ []))
        ≡ completed answer
      → Post
          (λ _ h. IsGone name h)
          (confirm_removed platform answer (before ++ inspect_call name ∷ []))
  unfolding confirm_removed
  confirm_removed-IsGone name answer before e =
      Post-if (λ _ h. IsGone name h) (is_zero answer.return_code) unavailable_step
        (if not (contains no_such_container answer.stderr) then unavailable_step else done_step tt)
        (before ++ inspect_call name ∷ []) (λ _. tt)
        (λ zero.
          Post-if (λ _ h. IsGone name h) (not (contains no_such_container answer.stderr))
            unavailable_step (done_step tt) (before ++ inspect_call name ∷ []) (λ _. tt)
            (λ found. (before, refl, (answer, e, zero, ground (arith, found)))))

  after_inspection-IsGone :
      (name : String) (before : History) (o : CommandOutcome)
      → outcome_of platform 4096 (platform.processes (before ++ inspect_call name ∷ [])) ≡ o
      → Post (λ _ h. IsGone name h) (after_inspection platform o (before ++ inspect_call name ∷ []))
  unfolding after_inspection
  after_inspection-IsGone name before (completed answer) e =
      confirm_removed-IsGone name answer before e
  after_inspection-IsGone name before timed_out_error e = tt
  after_inspection-IsGone name before os_error e = tt

  inspect_container-IsGone :
      (name : String) (before : History)
      → Post (λ _ h. IsGone name h) (inspect_container platform name before)
  unfolding inspect_container run_command ask
  inspect_container-IsGone name before =
      after_inspection-IsGone name before
        (outcome_of platform 4096 (platform.processes (before ++ inspect_call name ∷ []))) refl

  after_removal-IsGone :
      (name : String) (o : CommandOutcome) (h : History)
      → Post (λ _ h. IsGone name h) (after_removal platform name o h)
  unfolding after_removal
  after_removal-IsGone name (completed removed) h =
      Post-if (λ _ h. IsGone name h)
        (not (is_zero removed.return_code) && not (contains no_such_container removed.stderr))
        unavailable_step (inspect_container platform name) h (λ _. tt)
        (λ _. inspect_container-IsGone name h)
  after_removal-IsGone name timed_out_error h = tt
  after_removal-IsGone name os_error h = tt

  -- `_remove_container` returns only if the last command asked Docker for the container and was
  -- answered, with an exit code that is not 0, that there is no such container.
  pub remove_container-IsGone :
      (name : String) (history : History)
      → Post (λ _ h. IsGone name h) (remove_container platform name history)
  unfolding remove_container
  remove_container-IsGone name history =
      Post-after (λ _ h. IsGone name h) (require_local_docker_host platform)
        (λ _ h.
          continue (run_command platform ("docker" ∷ "rm" ∷ "-f" ∷ name ∷ []) 10 4096 h)
            (after_removal platform name))
        history
        (λ _ h.
          Post-after (λ _ h. IsGone name h)
            (run_command platform ("docker" ∷ "rm" ∷ "-f" ∷ name ∷ []) 10 4096)
            (after_removal platform name) h (λ o g. after_removal-IsGone name o g))

  -- A result without a timeout, or a removed container.
  abbrev Settled : String → TestExecutionResult → History → Type 0
  Settled name r history = r.timed_out ≡ true → IsGone name history

  conclude-Settled :
      (runner : DockerTestRunner) (image name : String) (elapsed : ℕ) (result : CommandResult)
      (history : History)
      → Post (Settled name) (conclude platform runner image name elapsed result history)
  unfolding conclude execution_result
  conclude-Settled runner image name elapsed result history =
      Post-if (Settled name) (is_infrastructure_code result.return_code)
        (λ h. continue (remove_container platform name h) (λ _. unavailable_step))
        (done_step (
          execution_result platform result image (some result.return_code) false elapsed
            runner.max_output_bytes))
        history
        (λ _.
          Post-after (Settled name) (remove_container platform name) (λ _. unavailable_step) history
            (λ _ _. tt))
        (λ _ late. ground (arith, late))

  handle_outcome-Settled :
      (runner : DockerTestRunner) (image name : String) (elapsed : ℕ) (outcome : CommandOutcome)
      (history : History)
      → Post (Settled name) (handle_outcome platform runner image name elapsed outcome history)
  unfolding handle_outcome
  handle_outcome-Settled runner image name elapsed (completed result) history =
      Post-after (Settled name) (remove_truncated platform name result)
        (λ _. conclude platform runner image name elapsed result) history
        (λ _ h. conclude-Settled runner image name elapsed result h)
  handle_outcome-Settled runner image name elapsed timed_out_error history =
      Post-continue (λ _ h. IsGone name h) (Settled name) (remove_container platform name history)
        (λ _. done_step (
          execution_result platform timeout_result image none true elapsed runner.max_output_bytes))
        (remove_container-IsGone name history) (λ _ _ gone _. gone)
  handle_outcome-Settled runner image name elapsed os_error history = tt

  run-Settled :
      (runner : DockerTestRunner) (worktree : String) (run_id elapsed : ℕ) (history : History)
      → Post
          (Settled (container_name platform run_id))
          (run platform runner worktree run_id elapsed history)
  unfolding run run_image
  run-Settled runner worktree run_id elapsed history =
      let name = container_name platform run_id in
      Post-after (Settled name) (resolve_image platform runner.image)
        (run_image platform runner worktree run_id elapsed) history
        (λ image h.
          Post-after (Settled name)
            (execute platform
              (docker_arguments platform image worktree name (runner.timeout_seconds + 10))
              runner.timeout_seconds runner.max_output_bytes)
            (handle_outcome platform runner image name elapsed) h
            (λ outcome g. handle_outcome-Settled runner image name elapsed outcome g))

  -- A result of `run` that timed out is returned only once Docker has answered the last command,
  -- with an exit code that is not 0, that there is no container of the test.
  pub run-timeout_IsGone :
      (runner : DockerTestRunner) (worktree : String) (run_id elapsed : ℕ) (before after : History)
      (result : TestExecutionResult)
      → run platform runner worktree run_id elapsed before ≡ (done result, after)
      → result.timed_out ≡ true
      → IsGone (container_name platform run_id) after
  run-timeout_IsGone runner worktree run_id elapsed before after result e late =
      Post-result (Settled (container_name platform run_id))
        (run platform runner worktree run_id elapsed before) result after
        (run-Settled runner worktree run_id elapsed before) e late
