-- ===== src/ImplementationService/Checkpoint/Resumed.antt =====
-- On when `_resume_test` of backend/app/services/implementation_service.py lets a graph run its tests.
use issue_pilot.Prelude.{
  ℕ, ◌≡◌, ◌≢◌, ◌∙◌, ◌⊎◌, inl, inr, refl, ap, Option, none, some, List, [], ◌∷◌, true, false, ==_iff,
  arith, if-cases,
}
use issue_pilot.Result.{ok}
use issue_pilot.ImplementationStore.{ImplementationContext, load_context}
use issue_pilot.ImplementationService.Failures.{Service, done, failed, from_store, inconsistent}
use issue_pilot.ImplementationService.Source.{Host, verify_source}
use issue_pilot.ImplementationService.Returned.{
  Holds, Holds-bind, Holds-check, Holds-last, from_store_done,
}
use issue_pilot.ImplementationService.Checkpoint.{
  Node, Snapshot, Graph, apply_patch_node, await_test_approval_node, go_on, run_tests, holds_value,
  verify_checkpoint_values, is_next_await, is_next_apply, check_resume, check_approval, go_on_if,
  catch_up, resume_if, resume_after, resume_snapshot, resume_checked, resume_test,
}

holds_value-some : (o : Option ℕ) (n : ℕ) → holds_value o n ≡ true → o ≡ some n
holds_value-some none n h = ground (arith, h)
holds_value-some (some m) n h = ap some ((==_iff m n).0 h)

is_next_await-at :
    (next : List Node) → is_next_await next ≡ true → next ≡ await_test_approval_node ∷ []
unfolding is_next_await
is_next_await-at (await_test_approval_node ∷ []) h = refl
is_next_await-at [] h = ground (arith, h)
is_next_await-at (Node.load_context_node ∷ rest) h = ground (arith, h)
is_next_await-at (Node.generate_replacements_node ∷ rest) h = ground (arith, h)
is_next_await-at (Node.apply_patch_node ∷ rest) h = ground (arith, h)
is_next_await-at (Node.run_tests_node ∷ rest) h = ground (arith, h)
is_next_await-at (await_test_approval_node ∷ node ∷ rest) h = ground (arith, h)

is_next_apply-at : (next : List Node) → is_next_apply next ≡ true → next ≡ apply_patch_node ∷ []
unfolding is_next_apply
is_next_apply-at (apply_patch_node ∷ []) h = refl
is_next_apply-at [] h = ground (arith, h)
is_next_apply-at (Node.load_context_node ∷ rest) h = ground (arith, h)
is_next_apply-at (Node.generate_replacements_node ∷ rest) h = ground (arith, h)
is_next_apply-at (Node.await_test_approval_node ∷ rest) h = ground (arith, h)
is_next_apply-at (Node.run_tests_node ∷ rest) h = ground (arith, h)
is_next_apply-at (apply_patch_node ∷ node ∷ rest) h = ground (arith, h)

is_next_apply-not : (next : List Node) → is_next_apply next ≡ false → next ≢ apply_patch_node ∷ []
unfolding is_next_apply
is_next_apply-not next h same = ground (arith, h, ap is_next_apply same)

-- The state is one of this run.
pub record IsOfRun (context : ImplementationContext) (snapshot : Snapshot) : Type 0 where
  pub same_run : snapshot.values.implementation_run_id ≡ some context.run.id
  pub same_commit : snapshot.values.commit_sha ≡ some context.run.base_commit
  pub same_version : snapshot.values.plan_version ≡ some context.run.plan_version

verify_checkpoint_values-IsOfRun :
    (context : ImplementationContext) (snapshot : Snapshot)
    → verify_checkpoint_values snapshot.values context ≡ done tt
    → IsOfRun context snapshot
unfolding verify_checkpoint_values
verify_checkpoint_values-IsOfRun context snapshot v =
    let values = snapshot.values in
    record {
      same_run = holds_value-some values.implementation_run_id context.run.id (ground (arith, v));
      same_commit = holds_value-some values.commit_sha context.run.base_commit (ground (arith, v));
      same_version =
          holds_value-some values.plan_version context.run.plan_version (ground (arith, v));
    }

-- The graph waits for the approval of this run's patch.
pub record IsWaiting (context : ImplementationContext) (patch_sha256 : ℕ) (snapshot : Snapshot)
    : Type 0 where
  pub at_approval : snapshot.next ≡ await_test_approval_node ∷ []
  pub of_run : IsOfRun context snapshot
  pub same_patch : snapshot.values.patch_sha256 ≡ some patch_sha256

waiting :
    (context : ImplementationContext) (patch_sha256 : ℕ) (snapshot : Snapshot)
    → is_next_await snapshot.next ≡ true
    → verify_checkpoint_values snapshot.values context ≡ done tt
    → holds_value snapshot.values.patch_sha256 patch_sha256 ≡ true
    → IsWaiting context patch_sha256 snapshot
waiting context patch_sha256 snapshot n v p = record {
  at_approval = is_next_await-at snapshot.next n;
  of_run = verify_checkpoint_values-IsOfRun context snapshot v;
  same_patch = holds_value-some snapshot.values.patch_sha256 patch_sha256 p;
}

module _ {W : Type 0} (host : Host) (graph : Graph W) where
  abbrev Waits : ImplementationContext → ℕ → W → Type 0
  Waits context patch_sha256 w =
      (snapshot : Snapshot) × (graph.get_state w ≡ done snapshot)
      × IsWaiting context patch_sha256 snapshot

  check_approval-Waits :
      (context : ImplementationContext) (patch_sha256 : ℕ) (w : W)
      → Holds (λ _. Waits context patch_sha256 w) (check_approval host graph context patch_sha256 w)
  unfolding check_approval
  check_approval-Waits context patch_sha256 w =
      let P = (λ (_ : Unit {0}). Waits context patch_sha256 w) in
      Holds-bind P (graph.get_state w) _ (λ snapshot g.
        Holds-check P (is_next_await snapshot.next) inconsistent _ (λ n.
          Holds-bind P (verify_checkpoint_values snapshot.values context) _ (λ _ v.
            Holds-last P (holds_value snapshot.values.patch_sha256 patch_sha256) inconsistent
              (λ p. (snapshot, g, waiting context patch_sha256 snapshot n v p)))))

  check_resume_done :
      (run_id : ℕ) (w : W)
      → Holds
          (λ context.
            (load_context run_id (graph.db_of w) ≡ ok context)
            × (verify_source host context ≡ done tt)
            × (graph.has_checkpoint w ≡ done true))
          (check_resume host graph run_id w)
  unfolding check_resume
  check_resume_done run_id w =
      let P = (λ (context : ImplementationContext).
        (load_context run_id (graph.db_of w) ≡ ok context)
        × (verify_source host context ≡ done tt)
        × (graph.has_checkpoint w ≡ done true)) in
      Holds-bind P (from_store (load_context run_id (graph.db_of w))) _ (λ context l.
        Holds-bind P (verify_source host context) _ (λ _ v.
          Holds-bind P (graph.has_checkpoint w) _ (λ saved g.
            Holds-check P saved inconsistent (done context) (λ t. (
              from_store_done (load_context run_id (graph.db_of w)) context l,
              v,
              g ∙ ap done t,
            )))))

  -- How `_resume_test` comes from one state of the graph to the next, before the test: it has not
  -- moved it, and it was not before apply_patch; or it was, in a state of this run, and went on.
  abbrev CaughtUp : ImplementationContext → W → Service (Unit {0}) × W → Type 0
  CaughtUp context before caught =
      (found : Snapshot) × (graph.get_state before ≡ done found)
      × (((found.next ≢ apply_patch_node ∷ []) × (caught ≡ (done tt, before)))
          ⊎ ((found.next ≡ apply_patch_node ∷ [])
              × IsOfRun context found
              × (graph.invoke go_on before ≡ caught)))

  -- The graph was resumed, at a state that waits for the approval.
  pub record Resumed (run_id test_id patch_sha256 : ℕ) (before after : W) : Type 0 where
    pub context : ImplementationContext
    pub at : W
    pub loaded : load_context run_id (graph.db_of before) ≡ ok context
    pub source : verify_source host context ≡ done tt
    pub saved : graph.has_checkpoint before ≡ done true
    pub reached : CaughtUp context before (done tt, at)
    pub waits : Waits context patch_sha256 at
    pub resumed : graph.invoke (run_tests test_id patch_sha256) at ≡ (done tt, after)

  abbrev EndsIn : W → Service (Unit {0}) × W → Type 0
  EndsIn after r = r ≡ (done tt, after)

  module _ (run_id test_id patch_sha256 : ℕ) (before after : W) (context : ImplementationContext)
      (loaded : load_context run_id (graph.db_of before) ≡ ok context)
      (source : verify_source host context ≡ done tt)
      (saved : graph.has_checkpoint before ≡ done true) where
    resume_if-Resumed :
        (at : W)
        → CaughtUp context before (done tt, at)
        → (checks : Service (Unit {0})) → Holds (λ _. Waits context patch_sha256 at) checks
        → EndsIn after (resume_if host graph test_id patch_sha256 checks at)
        → Resumed run_id test_id patch_sha256 before after
    unfolding resume_if
    resume_if-Resumed at r (done _) h e = record {
      context = context;
      at = at;
      loaded = loaded;
      source = source;
      saved = saved;
      reached = r;
      waits = h;
      resumed = e;
    }
    resume_if-Resumed at r (failed error) h e = ground (arith, ap (λ p. p.0) e)

    resume_after-Resumed :
        (caught : Service (Unit {0}) × W)
        → (caught.0 ≡ done tt → CaughtUp context before caught)
        → EndsIn after (resume_after host graph context test_id patch_sha256 caught)
        → Resumed run_id test_id patch_sha256 before after
    unfolding resume_after
    resume_after-Resumed (done _, at) r e =
        resume_if-Resumed at (r refl) (check_approval host graph context patch_sha256 at)
          (check_approval-Waits context patch_sha256 at) e
    resume_after-Resumed (failed error, at) r e = ground (arith, ap (λ p. p.0) e)

    go_on_if-CaughtUp :
        (found : Snapshot)
        → graph.get_state before ≡ done found
        → found.next ≡ apply_patch_node ∷ []
        → (checks : Service (Unit {0})) → (checks ≡ done tt → IsOfRun context found)
        → (go_on_if host graph checks before).0 ≡ done tt
        → CaughtUp context before (go_on_if host graph checks before)
    unfolding go_on_if
    go_on_if-CaughtUp found g n (done _) h r = (found, g, inr (n, h refl, refl))
    go_on_if-CaughtUp found g n (failed error) h r = ground (arith, r)

    catch_up-CaughtUp :
        (found : Snapshot)
        → graph.get_state before ≡ done found
        → (catch_up host graph context found before).0 ≡ done tt
        → CaughtUp context before (catch_up host graph context found before)
    unfolding catch_up
    catch_up-CaughtUp found g =
        if-cases (λ (r : Service (Unit {0}) × W). r.0 ≡ done tt → CaughtUp context before r)
          (is_next_apply found.next)
          (go_on_if host graph (verify_checkpoint_values found.values context) before)
          (done tt, before)
          (λ n.
            go_on_if-CaughtUp found g (is_next_apply-at found.next n)
              (verify_checkpoint_values found.values context)
              (verify_checkpoint_values-IsOfRun context found))
          (λ n _. (found, g, inl (is_next_apply-not found.next n, refl)))

    resume_snapshot-Resumed :
        (state : Service Snapshot)
        → graph.get_state before ≡ state
        → EndsIn after (resume_snapshot host graph context test_id patch_sha256 state before)
        → Resumed run_id test_id patch_sha256 before after
    unfolding resume_snapshot
    resume_snapshot-Resumed (done snapshot) g e =
        resume_after-Resumed (catch_up host graph context snapshot before)
          (catch_up-CaughtUp snapshot g) e
    resume_snapshot-Resumed (failed error) g e = ground (arith, ap (λ p. p.0) e)

  resume_checked-Resumed :
      (run_id test_id patch_sha256 : ℕ) (before after : W) (checks : Service ImplementationContext)
      → Holds
          (λ context.
            (load_context run_id (graph.db_of before) ≡ ok context)
            × (verify_source host context ≡ done tt)
            × (graph.has_checkpoint before ≡ done true))
          checks
      → EndsIn after (resume_checked host graph test_id patch_sha256 checks before)
      → Resumed run_id test_id patch_sha256 before after
  unfolding resume_checked
  resume_checked-Resumed run_id test_id patch_sha256 before after (done context) (l, v, c) e =
      resume_snapshot-Resumed run_id test_id patch_sha256 before after context l v c
        (graph.get_state before) refl e
  resume_checked-Resumed run_id test_id patch_sha256 before after (failed error) h e =
      ground (arith, ap (λ p. p.0) e)

  -- `_resume_test` returns only if the source of the run was verified, the graph has a checkpoint, and
  -- the graph was resumed with the test in a state in which it waits for the approval of a test, and
  -- whose run, commit, plan version and patch hash are those of the run and of the approved
  -- test. That state is the one that was found, if the graph was not before apply_patch; if it
  -- was, then the state found had this run's run, commit and plan version, and the graph
  -- went on from it first.
  pub resume_test-Resumed :
      (run_id test_id patch_sha256 : ℕ) (before after : W)
      → resume_test host graph run_id test_id patch_sha256 before ≡ (done tt, after)
      → Resumed run_id test_id patch_sha256 before after
  unfolding resume_test
  resume_test-Resumed run_id test_id patch_sha256 before after e =
      resume_checked-Resumed run_id test_id patch_sha256 before after
        (check_resume host graph run_id before) (check_resume_done run_id before) e
