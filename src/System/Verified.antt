-- ===== src/System/Verified.antt =====
-- A second invariant, of the runs, the patches and the tests, between two transactions.
mod Frames
mod Steps
pub mod Reach
mod Examples
use issue_pilot.Prelude.{
  ℕ, ◌+◌, ◌≤◌, ◌≡◌, Option, none, some, List, [], ◌∷◌, ◌++◌, Bool, true, false, not, ◌&&◌, ◌||◌,
  ◌==◌, ==_iff, if◌then◌else◌, All, All-append, All-map, if-cases, refl, arith,
}
use issue_pilot.Prelude.Table.{
  count, get, find, modify, find_sound, count-append, count-modify, All-modify,
}
use issue_pilot.Status.{RunStatus, TestStatus, test_is_running}
use issue_pilot.Schemas.{TestExecutionResult, is_zero}
use issue_pilot.Db.{Db, ImplementationRun, PatchArtifact, TestRun, run_key, patch_key, test_key}
use issue_pilot.ImplementationStore.{running_row, finished_row, run_status_row, test_passed}

unfoldable pub is_passed : TestStatus → Bool
is_passed TestStatus.passed = true
is_passed _ = false

-- Exit code 0, in time.
unfoldable pub is_clean : TestRun → Bool
is_clean x = elim x.exit_code [ none ↦ false | some code ↦ is_zero code && not x.timed_out ]

abbrev pub patch_of : ℕ → ℕ → PatchArtifact → Bool
patch_of run sha p = p.implementation_run_id == run && p.diff_sha256 == sha

abbrev pub passed_of : ℕ → TestRun → Bool
passed_of run x = x.implementation_run_id == run && is_passed x.status

-- How many passed tests a run must have.
unfoldable pub passes_due : RunStatus → ℕ
passes_due RunStatus.tested = 1
passes_due _ = 0

pub record Tested (runs : List ImplementationRun) (patches : List PatchArtifact)
    (tests : List TestRun) : Type 0 where
  pub honest : All (λ x. (not (is_passed x.status) || is_clean x) ≡ true) tests
  pub patched :
      All (λ x. 1 ≤ count (patch_of x.implementation_run_id x.expected_patch_sha256) patches) tests
  pub proven : All (λ r. passes_due r.status ≤ count (passed_of r.id) tests) runs

-- A passed test is clean, each test is of a stored patch, and a tested run has a passed test.
abbrev pub IsVerified : Db → Type 0
IsVerified db = Tested db.implementation_runs db.patches db.tests

module _ (runs : List ImplementationRun) (patches : List PatchArtifact) (tests : List TestRun)
    (h : Tested runs patches tests) where
  pub run_changed :
      (k : ℕ) (f : ImplementationRun → ImplementationRun)
      → ((r : ImplementationRun) → (f r).id ≡ r.id)
      → ((r : ImplementationRun) → passes_due (f r).status ≡ 0)
      → Tested (modify run_key k f runs) patches tests
  run_changed k f same free = record {
    honest = h.honest;
    patched = h.patched;
    proven = All-modify run_key _ k f runs (λ r p. omega (arith, free r)) h.proven;
  }

  pub run_added :
      (r : ImplementationRun) → passes_due r.status ≡ 0 → Tested (runs ++ r ∷ []) patches tests
  run_added r free = record {
    honest = h.honest;
    patched = h.patched;
    proven = All-append _ runs (r ∷ []) h.proven (omega (arith, free), tt);
  }

  pub patch_added : (p : PatchArtifact) → Tested runs (patches ++ p ∷ []) tests
  patch_added p = record {
    honest = h.honest;
    patched =
        All-map _ _ tests
          (λ x one. omega (
            arith,
            one,
            count-append (patch_of x.implementation_run_id x.expected_patch_sha256) patches
                (p ∷ []),
          ))
          h.patched;
    proven = h.proven;
  }

  pub test_added :
      (x : TestRun)
      → is_passed x.status ≡ false
      → 1 ≤ count (patch_of x.implementation_run_id x.expected_patch_sha256) patches
      → Tested runs patches (tests ++ x ∷ [])
  test_added x new one = record {
    honest = All-append _ tests (x ∷ []) h.honest (ground (arith, new), tt);
    patched = All-append _ tests (x ∷ []) h.patched (one, tt);
    proven =
        All-map _ _ runs (λ r p. omega (arith, p, count-append (passed_of r.id) tests (x ∷ [])))
          h.proven;
  }

  -- A test that has not passed is changed, and stays honest.
  pub test_changed :
      (k : ℕ) (f : TestRun → TestRun) (x : TestRun)
      → get test_key k tests ≡ some x
      → is_passed x.status ≡ false
      → ((y : TestRun) → (f y).implementation_run_id ≡ y.implementation_run_id)
      → ((y : TestRun) → (f y).expected_patch_sha256 ≡ y.expected_patch_sha256)
      → ((y : TestRun) → (not (is_passed (f y).status) || is_clean (f y)) ≡ true)
      → Tested runs patches (modify test_key k f tests)
  test_changed k f x found new same_run same_patch fair = record {
    honest = All-modify test_key _ k f tests (λ y p. fair y) h.honest;
    patched =
        All-modify test_key _ k f tests (λ y one. rw (same_run y) (rw (same_patch y) one))
          h.patched;
    proven =
        All-map _ _ runs
          (λ r p. ground (arith, p, new, count-modify test_key (passed_of r.id) k f tests x found))
          h.proven;
  }

finished_row-fair :
    (now : ℕ) (result : TestExecutionResult) (y : TestRun)
    → (not (is_passed (finished_row now result y).status) || is_clean (finished_row now result y))
      ≡ true
unfolding is_passed is_clean test_passed
finished_row-fair now result y = ground arith

running-unpassed : (s : TestStatus) → test_is_running s ≡ true → is_passed s ≡ false
unfolding is_passed test_is_running
running-unpassed s h = ground arith

-- An update of the rows with one key keeps a property that those rows get.
All-modify_at :
    (P : ImplementationRun → Type 0) (k : ℕ) (f : ImplementationRun → ImplementationRun)
    (rows : List ImplementationRun)
    → ((r : ImplementationRun) → r.id ≡ k → P r → P (f r))
    → All P rows
    → All P (modify run_key k f rows)
unfolding modify
All-modify_at P k f [] keep h = tt
All-modify_at P k f (r ∷ rows) keep (p, h) =
    if-cases (All P) (r.id == k) _ _ (λ e. (keep r ((==_iff r.id k).0 e) p, h))
      (λ e. (p, All-modify_at P k f rows keep h))

-- The result of a running test is recorded in the test and in its run.
pub result_recorded :
    (runs : List ImplementationRun) (patches : List PatchArtifact) (tests : List TestRun)
    (now k : ℕ) (result : TestExecutionResult) (x : TestRun)
    → Tested runs patches tests
    → get test_key k tests ≡ some x
    → test_is_running x.status ≡ true
    → Tested
        (modify run_key x.implementation_run_id
          (run_status_row (if test_passed result then RunStatus.tested else RunStatus.test_failed))
          runs)
        patches
        (modify test_key k (finished_row now result) tests)
unfolding passes_due is_passed
result_recorded runs patches tests now k result x h found running =
    let after =
      test_changed runs patches tests h k (finished_row now result) x found
        (running-unpassed x.status running) (λ y. refl) (λ y. refl)
        (finished_row-fair now result) in
    record {
      honest = after.honest;
      patched = after.patched;
      proven =
          All-modify_at _ x.implementation_run_id _ runs
            (λ r own p. ground (
              arith,
              own,
              running-unpassed x.status running,
              ==_iff x.implementation_run_id r.id,
              count-modify test_key (passed_of r.id) k (finished_row now result) tests x found,
            ))
            after.proven;
    }
