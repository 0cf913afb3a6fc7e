-- ===== src/WorkerQueue/Pending.antt =====
-- The work that an earlier process left open, and `pending_work` of
-- backend/app/services/implementation_store.py.
use issue_pilot.Prelude.{
  ℕ, zero, suc, ◌-◌, ◌≡◌, refl, ap, ◌∙◌, List, [], ◌∷◌, ◌++◌, map, Bool, true, false, not, length,
  take, if◌then◌else◌, arith,
}
use issue_pilot.Prelude.Table.{filter}
use issue_pilot.Status.{RunStatus, TestStatus, run_can_generate, test_is_finished}
use issue_pilot.Db.{Db, ImplementationRun, TestRun, run_key, test_key}
use issue_pilot.ImplementationStore.{
  WorkItem, implementation_work, test_work, pending_work, run_is_open, test_is_open,
}

-- A run without a patch.
abbrev lacks_patch : RunStatus → Bool
lacks_patch RunStatus.pending = true
lacks_patch RunStatus.generating_patch = true
lacks_patch RunStatus.patch_ready = false
lacks_patch RunStatus.test_pending = false
lacks_patch RunStatus.testing = false
lacks_patch RunStatus.tested = false
lacks_patch RunStatus.test_failed = false
lacks_patch RunStatus.failed = false
lacks_patch RunStatus.recovery_blocked = false

-- A test without a result.
abbrev lacks_result : TestStatus → Bool
lacks_result TestStatus.pending = true
lacks_result TestStatus.running = true
lacks_result TestStatus.passed = false
lacks_result TestStatus.failed = false

-- The runs without a patch, then the tests without a result, each oldest first.
abbrev pub open_work : Db → List WorkItem
open_work db =
    map (λ (r : ImplementationRun). implementation_work r.id)
      (filter (λ r. lacks_patch r.status) db.implementation_runs)
    ++ map (λ (x : TestRun). test_work x.id) (filter (λ x. lacks_result x.status) db.tests)

module _ {A : Type 0} where
  take-append :
      (n : ℕ) (xs ys : List A) → take n (xs ++ ys) ≡ take n xs ++ take (n - length (take n xs)) ys
  take-append zero xs ys = refl
  take-append (suc n) [] ys = ap (λ m. take m ys) {x = suc n} (omega arith)
  take-append (suc n) (x ∷ xs) ys =
      ap (λ zs. x ∷ zs) (take-append n xs ys) ∙ ap (λ m. x ∷ take n xs ++ take m ys) (omega arith)

  filter_same : (q p : A → Bool) → ((x : A) → q x ≡ p x) → (xs : List A) → filter q xs ≡ filter p xs
  unfolding filter
  filter_same q p same [] = refl
  filter_same q p same (x ∷ xs) =
      ap (λ b. if b then x ∷ filter q xs else filter q xs) (same x)
      ∙ ap (λ rest. if p x then x ∷ rest else rest) (filter_same q p same xs)

module _ {A B C : Type 0} where
  map-take_of :
      (f : B → C) (g : A → B) (n : ℕ) (xs : List A)
      → map f (take n (map g xs)) ≡ take n (map (λ x. f (g x)) xs)
  map-take_of f g zero xs = refl
  map-take_of f g (suc n) [] = refl
  map-take_of f g (suc n) (x ∷ xs) = ap (λ zs. f (g x) ∷ zs) (map-take_of f g n xs)

  length-take_of :
      (f : A → B) (g : A → C) (n : ℕ) (xs : List A)
      → length (take n (map f xs)) ≡ length (take n (map g xs))
  length-take_of f g zero xs = refl
  length-take_of f g (suc n) [] = refl
  length-take_of f g (suc n) (x ∷ xs) = ap suc (length-take_of f g n xs)

run_is_open_same : (r : ImplementationRun) → run_is_open r ≡ lacks_patch r.status
unfolding run_can_generate
run_is_open_same r = same r.status
  where
    same : (s : RunStatus) → run_can_generate s ≡ lacks_patch s
    same RunStatus.pending = refl
    same RunStatus.generating_patch = refl
    same RunStatus.patch_ready = refl
    same RunStatus.test_pending = refl
    same RunStatus.testing = refl
    same RunStatus.tested = refl
    same RunStatus.test_failed = refl
    same RunStatus.failed = refl
    same RunStatus.recovery_blocked = refl

test_is_open_same : (x : TestRun) → test_is_open x ≡ lacks_result x.status
unfolding test_is_finished
test_is_open_same x = same x.status
  where
    same : (s : TestStatus) → not (test_is_finished s) ≡ lacks_result s
    same TestStatus.pending = refl
    same TestStatus.running = refl
    same TestStatus.passed = refl
    same TestStatus.failed = refl

-- The two limited queries of `pending_work` find the first of all the open work.
pub pending_work-take : (limit : ℕ) (db : Db) → pending_work limit db ≡ take limit (open_work db)
unfolding pending_work
pending_work-take limit db =
    rw
      (
        filter_same run_is_open (λ r. lacks_patch r.status) run_is_open_same db.implementation_runs,
        filter_same test_is_open (λ x. lacks_result x.status) test_is_open_same db.tests,
      )
      (two_queries (filter (λ r. lacks_patch r.status) db.implementation_runs)
        (filter (λ x. lacks_result x.status) db.tests))
  where
    two_queries :
        (runs : List ImplementationRun) (tests : List TestRun)
        → let run_ids = take limit (map run_key runs) in
          map implementation_work run_ids
            ++ map test_work (take (limit - length run_ids) (map test_key tests))
          ≡ take limit (
              map (λ (r : ImplementationRun). implementation_work r.id) runs
              ++ map (λ (x : TestRun). test_work x.id) tests)
    two_queries runs tests =
        let works = map (λ (r : ImplementationRun). implementation_work r.id) runs in
        rw
          (
            map-take_of implementation_work run_key limit runs,
            map-take_of test_work test_key (limit - length (take limit (map run_key runs))) tests,
            length-take_of run_key (λ (r : ImplementationRun). implementation_work r.id) limit runs,
            take-append limit works (map (λ (x : TestRun). test_work x.id) tests),
          )
          refl
