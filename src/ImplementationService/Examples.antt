-- ===== src/ImplementationService/Examples.antt =====
-- The theorems on the scope and the sources of a patch, for a plan that changes and tests one file.
use issue_pilot.Prelude.{◌≡◌, ◌≤◌, refl, String, Option, some, List, [], ◌∷◌, map, All, length}
use issue_pilot.Prelude.Table.{filter}
use issue_pilot.Schemas.{TreeItem}
use issue_pilot.PatchService.{Bytes, str_lt}
use issue_pilot.Chunker.Ordering.{sorted, sorted_onto, insert_sorted}
use issue_pilot.ImplementationService.Scope.{
  to_set, step_paths, test_paths, manifest_paths, is_safe_python_path, planned_paths, allowed_paths,
  IsScope,
}
use issue_pilot.ImplementationService.Scope.Chosen.{allowed_paths-IsScope}
use issue_pilot.ImplementationService.Sources.{
  ImplementationSourceFile, Found, contents, load_source_files, source_loop, source_file,
  decoded_file, join_file, within_total, IsSource, total_size, load_source_files-IsSource,
}
use issue_pilot.ImplementationService.Running.Examples.{host, step, strategy}

abbrev items : List TreeItem
items = record { path = "a.py"; kind = "file" } ∷ record { path = "b.py"; kind = "file" } ∷ []

scope : allowed_paths host.pure_path (step ∷ []) (strategy ∷ []) items ≡ some ("a.py" ∷ [])
unfolding allowed_paths planned_paths to_set step_paths test_paths manifest_paths
    is_safe_python_path filter
scope = refl

allowed_paths-IsScope_example :
    IsScope host.pure_path (step ∷ []) (strategy ∷ []) items ("a.py" ∷ [])
allowed_paths-IsScope_example =
    allowed_paths-IsScope host.pure_path (step ∷ []) (strategy ∷ []) items ("a.py" ∷ []) scope

abbrev look : String → Found
look _ = contents (1 ∷ 2 ∷ [])

abbrev decode : Bytes → Option String
decode _ = some "pass"

abbrev files : List ImplementationSourceFile
files = record { path = "a.py"; sha256 = 2; content = "pass" } ∷ []

loaded : load_source_files look decode length ("a.py" ∷ []) ≡ some files
unfolding load_source_files source_loop source_file decoded_file join_file within_total sorted
    sorted_onto insert_sorted
loaded = refl

load_source_files-IsSource_example :
    (map (λ f. f.path) files ≡ sorted str_lt ("a.py" ∷ []))
    × All (IsSource look decode length) files
    × (total_size look decode length files ≤ 163840)
load_source_files-IsSource_example =
    load_source_files-IsSource look decode length ("a.py" ∷ []) files loaded
