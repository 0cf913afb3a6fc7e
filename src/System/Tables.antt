-- ===== src/System/Tables.antt =====
-- Single changes of single tables, against the invariant of the workflow.
use Prim.Native.Nat.{zero-le}
use native.Mathlib.Nat.{le_trans}
use issue_pilot.Prelude.{
  ℕ, ◌+◌, ◌≤◌, ◌≡◌, refl, Option, none, some, List, [], ◌∷◌, ◌++◌, Bool, true, false, ◌==◌,
  if◌then◌else◌, arith, All-append, All-map, Bool-cases, ==_iff, ==_refl, inl, inr, subst,
}
use issue_pilot.Prelude.Table.{
  count, exists, get, modify, find, get-modify_all, get-append_all, count-modify, count-append,
  count-one, count-none, find-append_old, All-modify,
}
use issue_pilot.Status.{DecisionStatus, decision_is_pending, decision_is_applied}
use issue_pilot.Db.{
  Task, PlanningRun, PlanningDecision, ImplementationRun, task_key, decision_key, run_key,
}
use issue_pilot.PlanningStore.{run_of_task}
use issue_pilot.System.Invariant.{Inv, pending_on, approval_of, pending_slack, approvals_due}

-- A decision row changes to one that is no longer pending, and no approval is lost.
abbrev pub Settles : PlanningDecision → PlanningDecision → Type 0
Settles d d' =
    (d'.task_id ≡ d.task_id)
    × (decision_is_pending d'.status ≡ false)
    × (decision_is_pending d.status ≡ true)

pending-modify :
    (ds : List PlanningDecision) (d : ℕ) (f : PlanningDecision → PlanningDecision)
    (x : PlanningDecision)
    → get decision_key d ds ≡ some x
    → Settles x (f x)
    → (t : ℕ)
    → count (pending_on t) (modify decision_key d f ds) + (if x.task_id == t then 1 else 0)
      ≡ count (pending_on t) ds
pending-modify ds d f x found s t =
    ground (arith, count-modify decision_key (pending_on t) d f ds x)

approvals-modify :
    (ds : List PlanningDecision) (d : ℕ) (f : PlanningDecision → PlanningDecision)
    (x : PlanningDecision)
    → get decision_key d ds ≡ some x
    → Settles x (f x)
    → (t : ℕ)
    → count (approval_of t) ds
        + (if x.task_id == t then (if approval_of t (f x) then 1 else 0) else 0)
      ≡ count (approval_of t) (modify decision_key d f ds)
unfolding decision_is_pending decision_is_applied
approvals-modify ds d f x found s t =
    ground (arith, count-modify decision_key (approval_of t) d f ds x)

-- The last pending decision of its task goes.
pending-settled :
    (ds : List PlanningDecision) (d : ℕ) (f : PlanningDecision → PlanningDecision)
    (x : PlanningDecision)
    → get decision_key d ds ≡ some x
    → Settles x (f x)
    → count (pending_on x.task_id) ds ≤ 1
    → count (pending_on x.task_id) (modify decision_key d f ds) ≡ 0
pending-settled ds d f x found s one =
    ground (arith, pending-modify ds d f x found s x.task_id, ==_refl x.task_id)

approvals-settled :
    (ds : List PlanningDecision) (d : ℕ) (f : PlanningDecision → PlanningDecision)
    (x : PlanningDecision)
    → get decision_key d ds ≡ some x
    → Settles x (f x)
    → (if approval_of x.task_id (f x) then 1 else 0)
      ≤ count (approval_of x.task_id) (modify decision_key d f ds)
approvals-settled ds d f x found s =
    ground (arith, approvals-modify ds d f x found s x.task_id, ==_refl x.task_id)

pub slack-le_one : (o : Option Task) → pending_slack o ≤ 1
slack-le_one o = ground arith

exists-append {ℓ} :
    {A : Type ℓ} (q : A → Bool) (xs : List A) (y : A)
    → exists q xs ≡ true
    → exists q (xs ++ y ∷ []) ≡ true
exists-append {A = A} q xs y h = go (find q xs) refl h
  where
    go :
        (o : Option A)
        → find q xs ≡ o
        → elim o [ none ↦ false | some _ ↦ true ] ≡ true
        → exists q (xs ++ y ∷ []) ≡ true
    go none e k = cc
    go (some r) e k = rw (find-append_old q xs (y ∷ []) r e, exists)

module _ (ts : List Task) (rs : List PlanningRun) (ds : List PlanningDecision)
    (is : List ImplementationRun) (h : Inv ts rs ds is) where
  -- The status of one task changes.
  pub Inv-mark :
      (t : ℕ) (f : Task → Task)
      → ((x : Task) → (f x).id ≡ x.id)
      → ((x : Task)
          → get task_key t ts ≡ some x
          → (count (pending_on t) ds ≤ pending_slack (some (f x)))
            × (approvals_due (some (f x)) ≤ count (approval_of t) ds))
      → Inv (modify task_key t f ts) rs ds is
  Inv-mark t f same new = record {
    pending_bound =
        get-modify_all task_key (λ j o. count (pending_on j) ds ≤ pending_slack o) t f ts same
          h.pending_bound (λ x e. (new x e).0);
    decided_planned = h.decided_planned;
    status_approved =
        get-modify_all task_key (λ j o. approvals_due o ≤ count (approval_of j) ds) t f ts same
          h.status_approved (λ x e. (new x e).1);
    runs_approved = h.runs_approved;
  }

  -- A task is created.
  pub Inv-task :
      (x : Task)
      → (count (pending_on x.id) ds ≤ pending_slack (some x))
      → (approvals_due (some x) ≤ count (approval_of x.id) ds)
      → Inv (ts ++ x ∷ []) rs ds is
  Inv-task x bound due = record {
    pending_bound =
        get-append_all task_key (λ j o. count (pending_on j) ds ≤ pending_slack o) ts x
          h.pending_bound bound;
    decided_planned = h.decided_planned;
    status_approved =
        get-append_all task_key (λ j o. approvals_due o ≤ count (approval_of j) ds) ts x
          h.status_approved due;
    runs_approved = h.runs_approved;
  }

  -- A pending decision is carried out or fails.
  pub Inv-settle :
      (d : ℕ) (f : PlanningDecision → PlanningDecision) (x : PlanningDecision)
      → get decision_key d ds ≡ some x
      → Settles x (f x)
      → ((r : PlanningDecision) → (f r).task_id ≡ r.task_id)
      → Inv ts rs (modify decision_key d f ds) is
  Inv-settle d f x found s same = record {
    pending_bound = λ t. omega (arith, pending-modify ds d f x found s t, h.pending_bound t);
    decided_planned =
        All-modify decision_key (λ r. exists (run_of_task r.task_id) rs ≡ true) d f ds
          (λ r p. rw (same r) p) h.decided_planned;
    status_approved = λ t. omega (arith, approvals-modify ds d f x found s t, h.status_approved t);
    runs_approved =
        All-map _ (λ r. 1 ≤ count (approval_of r.task_id) (modify decision_key d f ds)) is
          (λ r p. omega (arith, approvals-modify ds d f x found s r.task_id, p)) h.runs_approved;
  }

  -- A pending decision is submitted for a planned task with none.
  pub Inv-decide :
      (x : PlanningDecision)
      → x.status ≡ DecisionStatus.pending
      → exists (run_of_task x.task_id) rs ≡ true
      → (pending_slack (get task_key x.task_id ts) ≡ 1)
      → (count (pending_on x.task_id) ds ≡ 0)
      → Inv ts rs (ds ++ x ∷ []) is
  Inv-decide x new planned room clear = record {
    pending_bound = λ t. elim (Bool-cases (x.task_id == t)) [
      | inl e ↦
          subst (λ j. count (pending_on j) (ds ++ x ∷ []) ≤ pending_slack (get task_key j ts))
            ((==_iff x.task_id t).0 e)
            (rw room (
              omega (
                arith,
                clear,
                count-append (pending_on x.task_id) ds (x ∷ []),
                count-one (pending_on x.task_id) x,
              )))
      | inr e ↦ omega (
        arith,
        h.pending_bound t,
        count-append (pending_on t) ds (x ∷ []),
        count-none (pending_on t) x (ground arith),
      )
    ];
    decided_planned = All-append _ ds (x ∷ []) h.decided_planned (planned, tt);
    status_approved =
        λ t. omega (arith, count-append (approval_of t) ds (x ∷ []), h.status_approved t);
    runs_approved =
        All-map _ (λ r. 1 ≤ count (approval_of r.task_id) (ds ++ x ∷ [])) is
          (λ r p. omega (arith, count-append (approval_of r.task_id) ds (x ∷ []), p))
          h.runs_approved;
  }

  -- A task is planned.
  pub Inv-plan : (x : PlanningRun) → Inv ts (rs ++ x ∷ []) ds is
  Inv-plan x = record {
    pending_bound = h.pending_bound;
    decided_planned =
        All-map _ (λ d. exists (run_of_task d.task_id) (rs ++ x ∷ []) ≡ true) ds
          (λ d p. exists-append (run_of_task d.task_id) rs x p) h.decided_planned;
    status_approved = h.status_approved;
    runs_approved = h.runs_approved;
  }

  -- An implementation run starts for an approved task.
  pub Inv-start :
      (x : ImplementationRun) → 1 ≤ count (approval_of x.task_id) ds → Inv ts rs ds (is ++ x ∷ [])
  Inv-start x due = record {
    pending_bound = h.pending_bound;
    decided_planned = h.decided_planned;
    status_approved = h.status_approved;
    runs_approved = All-append _ is (x ∷ []) h.runs_approved (due, tt);
  }

  -- An implementation run changes, and stays with its task.
  pub Inv-run :
      (r : ℕ) (f : ImplementationRun → ImplementationRun)
      → ((x : ImplementationRun) → (f x).task_id ≡ x.task_id)
      → Inv ts rs ds (modify run_key r f is)
  Inv-run r f same = record {
    pending_bound = h.pending_bound;
    decided_planned = h.decided_planned;
    status_approved = h.status_approved;
    runs_approved =
        All-modify run_key (λ x. 1 ≤ count (approval_of x.task_id) ds) r f is (λ x p. rw (same x) p)
          h.runs_approved;
  }

-- A pending decision is carried out or fails, and its task takes the status that follows from it.
pub Inv-conclude :
    (ts : List Task) (rs : List PlanningRun) (ds : List PlanningDecision)
    (is : List ImplementationRun)
    → Inv ts rs ds is
    → (d : ℕ) (f : PlanningDecision → PlanningDecision) (x : PlanningDecision)
    → get decision_key d ds ≡ some x
    → Settles x (f x)
    → ((r : PlanningDecision) → (f r).task_id ≡ r.task_id)
    → (t : ℕ) (g : Task → Task) → (t ≡ x.task_id)
    → ((y : Task) → (g y).id ≡ y.id)
    → ((y : Task) → approvals_due (some (g y)) ≤ (if approval_of x.task_id (f x) then 1 else 0))
    → Inv (modify task_key t g ts) rs (modify decision_key d f ds) is
Inv-conclude ts rs ds is h d f x found s same t g at_t same_id due =
    Inv-mark ts rs (modify decision_key d f ds) is (Inv-settle ts rs ds is h d f x found s same) t g
      same_id
      (λ y _. (
        rw
            (
              at_t,
              pending-settled ds d f x found s
                  (le_trans (h.pending_bound x.task_id) (slack-le_one _)),
            )
            zero-le,
        rw at_t (le_trans (due y) (approvals-settled ds d f x found s)),
      ))
