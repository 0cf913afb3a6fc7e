-- ===== src/ImplementationService/Checkpoint/Examples.antt =====
-- The theorem on `_resume_test` for a graph that waits for the approval of the example's patch.
use issue_pilot.Prelude.{◌≡◌, refl, some, [], ◌∷◌, true}
use issue_pilot.Prelude.Table.{find}
use issue_pilot.Status.{plan_is_approved}
use issue_pilot.Db.{Db}
use issue_pilot.ImplementationStore.{load_context}
use issue_pilot.ImplementationService.Failures.{done}
use issue_pilot.ImplementationService.Source.{
  verify_source, verify_workspace, one_commit, is_current,
}
use issue_pilot.ImplementationService.Running.Examples.{host, db}
use issue_pilot.ImplementationService.Checkpoint.{
  Snapshot, Graph, await_test_approval_node, verify_checkpoint_values, is_next_apply, is_next_await,
  check_resume, check_approval, catch_up, resume_if, resume_after, resume_snapshot, resume_checked,
  resume_test,
}
use issue_pilot.ImplementationService.Checkpoint.Resumed.{Resumed, resume_test-Resumed}

abbrev snapshot : Snapshot
snapshot = record {
  next = await_test_approval_node ∷ [];
  values = record {
    implementation_run_id = some 5;
    commit_sha = some 7;
    plan_version = some 1;
    patch_sha256 = some 1;
  };
}

abbrev graph : Graph Db
graph = record {
  db_of = λ d. d;
  has_checkpoint = λ _. done true;
  get_state = λ _. done snapshot;
  invoke = λ _ d. (done tt, d);
}

resumes : resume_test host graph 5 6 1 db ≡ (done tt, db)
unfolding resume_test resume_checked resume_snapshot resume_after resume_if catch_up check_resume
    check_approval verify_checkpoint_values is_next_apply is_next_await load_context find
    verify_source verify_workspace one_commit is_current plan_is_approved
resumes = refl

resume_test-Resumed_example : Resumed host graph 5 6 1 db db
resume_test-Resumed_example = resume_test-Resumed host graph 5 6 1 db db resumes
