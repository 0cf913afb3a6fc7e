-- ===== src/ImplementationService/Scope/Chosen.antt =====
-- On the paths that `_allowed_paths` of backend/app/services/implementation_service.py chooses.
use issue_pilot.Prelude.{
  ◌≤◌, ◌≡◌, refl, sym, subst, String, some, List, [], ◌∷◌, Bool, true, false, not, ◌&&◌, ◌||◌, ltb,
  str_eq, eq_iff, eq_refl, length, All, arith, Bool-cases, if-some, inl, inr,
}
use issue_pilot.Prelude.Table.{filter, count}
use issue_pilot.PlanningOutputs.{every}
use issue_pilot.Schemas.{PlanStep, TestStrategyItem, TreeItem}
use issue_pilot.PatchService.{PurePath, is_in, is_subset, is_empty}
use issue_pilot.ImplementationService.Scope.{
  to_set, step_paths, test_paths, planned_paths, is_permitted, allowed_paths, IsScope,
}

is_in-filter :
    (f : String → Bool) (q : String) (xs : List String)
    → is_in q (filter f xs) ≡ (is_in q xs && f q)
unfolding filter
is_in-filter f q [] = refl
is_in-filter f q (x ∷ xs) = elim (Bool-cases (str_eq q x)) [
  | inl e ↦ rw (sym ((eq_iff q x).0 e)) (ground (arith, is_in-filter f q xs, eq_refl q))
  | inr e ↦ ground (arith, is_in-filter f q xs, e)
]

is_in-to_set : (q : String) (xs : List String) → is_in q (to_set xs) ≡ is_in q xs
unfolding to_set
is_in-to_set q [] = refl
is_in-to_set q (x ∷ xs) = elim (Bool-cases (str_eq q x)) [
  | inl e ↦ rw (sym ((eq_iff q x).0 e)) (ground (arith, is_in-to_set q xs, eq_refl q))
  | inr e ↦ ground (arith, is_in-to_set q xs, e)
]

-- `count` of one text is that of a member at most.
count-absent : (q : String) (xs : List String) → is_in q xs ≡ false → count (str_eq q) xs ≡ 0
unfolding count
count-absent q [] h = refl
count-absent q (x ∷ xs) h = ground (arith, h, count-absent q xs)

count-to_set : (q : String) (xs : List String) → count (str_eq q) (to_set xs) ≤ 1
unfolding to_set count
count-to_set q [] = omega arith
count-to_set q (x ∷ xs) = elim (Bool-cases (str_eq q x)) [
  | inl e ↦
      rw (sym ((eq_iff q x).0 e)) (ground (arith, count-to_set q xs, count-absent q (to_set xs)))
  | inr e ↦ ground (arith, count-to_set q xs, e)
]

count-filter :
    (f : String → Bool) (q : String) (xs : List String)
    → count (str_eq q) (filter f xs) ≤ count (str_eq q) xs
unfolding filter count
count-filter f q [] = omega arith
count-filter f q (x ∷ xs) = ground (arith, count-filter f q xs)

every-is_in :
    (f : String → Bool) (q : String) (xs : List String)
    → every f xs ≡ true
    → is_in q xs ≡ true
    → f q ≡ true
every-is_in f q [] h m = ground (arith, m)
every-is_in f q (x ∷ xs) h m = elim (Bool-cases (str_eq q x)) [
  | inl e ↦ rw ((eq_iff q x).0 e) (ground (arith, h))
  | inr e ↦ every-is_in f q xs (ground (arith, h)) (ground (arith, m, e))
]

All-is_in {ℓ} :
    (P : String → Type ℓ) (xs : List String) → ((q : String) → is_in q xs ≡ true → P q) → All P xs
All-is_in P [] f = tt
All-is_in P (x ∷ xs) f =
    (f x (ground (arith, eq_refl x)), All-is_in P xs (λ q m. f q (ground (arith, m))))

module _ (pure_path : String → PurePath) where
  is_in-planned_paths :
      (q : String) (steps : List PlanStep) (tests : List TestStrategyItem)
      → is_in q (planned_paths pure_path steps tests)
        ≡ (is_in q (step_paths steps) && is_in q (test_paths tests))
  unfolding planned_paths
  is_in-planned_paths q steps tests = ground (
    arith,
    is_in-filter (λ path. is_in path (test_paths tests)) q (to_set (step_paths steps)),
    is_in-to_set q (step_paths steps),
  )

  planned_paths_once :
      (q : String) (steps : List PlanStep) (tests : List TestStrategyItem)
      → count (str_eq q) (planned_paths pure_path steps tests) ≤ 1
  unfolding planned_paths
  planned_paths_once q steps tests = omega (
    arith,
    count-filter (λ path. is_in path (test_paths tests)) q (to_set (step_paths steps)),
    count-to_set q (step_paths steps),
  )

  nonempty :
      (paths allowed : List String)
      → is_empty paths ≡ false
      → is_subset paths allowed ≡ true
      → 1 ≤ length allowed
  nonempty [] allowed e s = ground (arith, e)
  nonempty (p ∷ ps) [] e s = ground (arith, s)
  nonempty (p ∷ ps) (q ∷ qs) e s = omega arith

  permitted-IsScope :
      (steps : List PlanStep) (tests : List TestStrategyItem) (tree_manifest : List TreeItem)
      → is_empty (planned_paths pure_path steps tests) ≡ false
      → is_subset
          (planned_paths pure_path steps tests)
          (filter (is_permitted pure_path tree_manifest) (planned_paths pure_path steps tests))
        ≡ true
      → length (filter (is_permitted pure_path tree_manifest) (planned_paths pure_path steps tests))
        ≤ 4
      → IsScope pure_path steps tests tree_manifest
          (filter (is_permitted pure_path tree_manifest) (planned_paths pure_path steps tests))
  permitted-IsScope steps tests tree_manifest e s few =
      let planned = planned_paths pure_path steps tests in
      let permitted = is_permitted pure_path tree_manifest in
      let allowed = filter permitted planned in
      record {
        chosen = All-is_in _ allowed (λ q m. (
          ground (arith, m, is_in-filter permitted q planned, is_in-planned_paths q steps tests),
          ground (arith, m, is_in-filter permitted q planned, is_in-planned_paths q steps tests),
          ground (arith, m, is_in-filter permitted q planned),
          ground (arith, m, is_in-filter permitted q planned),
        ));
        complete = λ q in_steps in_tests.
            every-is_in (λ p. is_in p allowed) q planned s
              (ground (arith, is_in-planned_paths q steps tests, in_steps, in_tests));
        once =
            λ q. omega (arith, count-filter permitted q planned, planned_paths_once q steps tests);
        some_path = nonempty planned allowed e s;
        few = few;
      }

  -- The paths that `_allowed_paths` returns are exactly those that both a step and the tests of
  -- the plan name, each once; they are files of the manifest and safe Python paths, at least one and
  -- at most four.
  pub allowed_paths-IsScope :
      (steps : List PlanStep) (tests : List TestStrategyItem) (tree_manifest : List TreeItem)
      (paths : List String)
      → allowed_paths pure_path steps tests tree_manifest ≡ some paths
      → IsScope pure_path steps tests tree_manifest paths
  unfolding allowed_paths
  allowed_paths-IsScope steps tests tree_manifest paths h =
      let planned = planned_paths pure_path steps tests in
      let allowed = filter (is_permitted pure_path tree_manifest) planned in
      let (good, same) =
        if-some (is_empty planned || (not (is_subset planned allowed) || ltb 4 (length allowed)))
          allowed paths h in
      subst (IsScope pure_path steps tests tree_manifest) same (
        permitted-IsScope steps tests tree_manifest (ground (arith, good)) (ground (arith, good))
          (ground (arith, good)))
