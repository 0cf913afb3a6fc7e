-- ===== src/ImplementationService/Scope.antt =====
-- Which files an approved plan lets a patch replace: `_allowed_paths` and `_is_safe_python_path` of
-- backend/app/services/implementation_service.py. A set is a list in which no text is repeated.
pub mod Chosen
use issue_pilot.Prelude.{
  ℕ, ◌+◌, ◌≤◌, ◌≡◌, refl, sym, String, Option, none, some, List, [], ◌∷◌, ◌++◌, map, Bool, true,
  false, not, ◌&&◌, ◌||◌, ltb, str_eq, eq_iff, eq_refl, if◌then◌else◌, length, All, arith,
  Bool-cases, inl, inr,
}
use issue_pilot.Prelude.Table.{filter, count}
use issue_pilot.PlanningOutputs.{any, every}
use issue_pilot.Schemas.{PlanStep, TestStrategyItem, TreeItem}
use issue_pilot.PatchService.{PurePath, is_in, is_subset, is_empty, first_is}

-- `set(paths)`
unfoldable pub to_set : List String → List String
to_set [] = []
to_set (path ∷ paths) = let rest = to_set paths in if is_in path rest then rest else path ∷ rest

unfoldable pub step_paths : List PlanStep → List String
step_paths [] = []
step_paths (step ∷ steps) = step.paths ++ step_paths steps

unfoldable pub test_paths : List TestStrategyItem → List String
test_paths [] = []
test_paths (item ∷ items) = item.target_paths ++ test_paths items

abbrev pub is_file : TreeItem → Bool
is_file item = str_eq item.kind "file"

abbrev pub item_path : TreeItem → String
item_path item = item.path

unfoldable pub manifest_paths : List TreeItem → List String
manifest_paths items = map item_path (filter is_file items)

module _ (pure_path : String → PurePath) where
  unfoldable pub is_safe_python_path : String → Bool
  is_safe_python_path value =
      let path = pure_path value in
      not path.is_absolute
      && (not (is_empty path.parts)
          && (every (λ part. not (str_eq part "" || (str_eq part "." || str_eq part "..")))
                path.parts
              && (not (first_is ".git" path.parts) && str_eq path.suffix ".py")))

  -- `implementation_paths & test_paths`
  unfoldable pub planned_paths : List PlanStep → List TestStrategyItem → List String
  planned_paths steps test_strategy =
      filter (λ path. is_in path (test_paths test_strategy)) (to_set (step_paths steps))

  abbrev pub is_permitted : List TreeItem → String → Bool
  is_permitted tree_manifest path =
      is_in path (manifest_paths tree_manifest) && is_safe_python_path path

  -- `none` for ImplementationScopeError
  unfoldable pub allowed_paths :
      List PlanStep → List TestStrategyItem → (tree_manifest : List TreeItem) → Option (List String)
  allowed_paths steps test_strategy tree_manifest =
      let paths = planned_paths steps test_strategy in
      let allowed = filter (is_permitted tree_manifest) paths in
      if is_empty paths || (not (is_subset paths allowed) || ltb 4 (length allowed))
      then none
      else some allowed

  -- A scope: what the plan names both as code and as a target of tests, each path once.
  pub record IsScope (steps : List PlanStep) (test_strategy : List TestStrategyItem)
      (tree_manifest : List TreeItem) (paths : List String) : Type 0 where
    pub chosen :
        All
          (λ path.
            (is_in path (step_paths steps) ≡ true)
            × (is_in path (test_paths test_strategy) ≡ true)
            × (is_in path (manifest_paths tree_manifest) ≡ true)
            × (is_safe_python_path path ≡ true))
          paths
    pub complete :
        (path : String)
        → is_in path (step_paths steps) ≡ true
        → is_in path (test_paths test_strategy) ≡ true
        → is_in path paths ≡ true
    pub once : (path : String) → count (str_eq path) paths ≤ 1
    pub some_path : 1 ≤ length paths
    pub few : length paths ≤ 4
