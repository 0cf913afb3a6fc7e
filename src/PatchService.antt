-- ===== src/PatchService.antt =====
-- backend/app/services/patch_service.py: replacing files of a worktree by drafts. The worktree is a
-- function from the parts of a path to what is there. Git, pathlib, the codecs, SHA-256 and whether a write
-- succeeds are a record of functions, Platform; what git answers depends on the worktree as it
-- is when it is asked.
mod Files
pub mod Originals
pub mod Rollback
pub mod Accepted
pub mod Examples
unfoldable pub use Files.*
use issue_pilot.Prelude.{
  ℕ, ◌+◌, String, Option, none, some, List, [], ◌∷◌, ◌++◌, map, Bool, true, false, not, ◌&&◌, ◌||◌,
  ltb, ◌==◌, str_eq, if◌then◌else◌, length,
}
use issue_pilot.PlanningOutputs.{any, every}
use issue_pilot.Schemas.{PatchFile, PatchArtifactDraft}
use issue_pilot.Chunker.Ordering.{sorted}
use Prim.Native.String.{compare}
use text.Mathlib.Text.{is_lt}

pub record PatchLimits : Type 0 where
  pub max_files : ℕ
  pub max_file_bytes : ℕ
  pub max_total_bytes : ℕ
  pub max_diff_bytes : ℕ
  pub max_changed_lines : ℕ

pub record FileReplacementDraft : Type 0 where
  pub path : String
  pub original_sha256 : ℕ
  pub content : String

-- `a < b`, by code points
abbrev pub str_lt : String → String → Bool
str_lt a b = is_lt (compare a b)

-- `path in paths`
abbrev pub is_in : String → List String → Bool
is_in path paths = any (str_eq path) paths

-- `set(a) <= set(b)`
abbrev pub is_subset : List String → List String → Bool
is_subset a b = every (λ path. is_in path b) a

abbrev pub SavedFiles : Type 0
SavedFiles = List (String × Bytes)

-- `originals[path] = content`
unfoldable pub put_original : String → Bytes → SavedFiles → SavedFiles
put_original path content [] = (path, content) ∷ []
put_original path content ((p, c) ∷ rest) =
    let later = put_original path content rest in
    if str_eq p path then (p, content) ∷ rest else (p, c) ∷ later

-- `originals.get(path)`
unfoldable pub get_original : String → SavedFiles → Option Bytes
get_original path [] = none
get_original path ((p, c) ∷ rest) = if str_eq p path then some c else get_original path rest

abbrev pub is_empty {ℓ} : {A : Type ℓ} → List A → Bool
is_empty [] = true
is_empty (x ∷ xs) = false

abbrev pub insertions_of : List (ℕ × ℕ × String) → ℕ
insertions_of [] = 0
insertions_of ((inserted, _, _) ∷ rows) = inserted + insertions_of rows

abbrev pub deletions_of : List (ℕ × ℕ × String) → ℕ
deletions_of [] = 0
deletions_of ((_, deleted, _) ∷ rows) = deleted + deletions_of rows

abbrev pub path_of_row : ℕ × ℕ × String → String
path_of_row (_, _, path) = path

module _ (platform : Platform) where
  -- The loop of `apply`, with the worktree that it leaves.
  unfoldable pub write_all : List FileReplacementDraft → Worktree → Attempt (Unit {0}) × Worktree
  write_all [] tree = (returned tt, tree)
  write_all (replacement ∷ rest) tree =
      atomic_write platform replacement.path (platform.encode replacement.content) tree
      then_in write_all rest

  -- One turn of the loop of the exception handler, with the decoded original.
  unfoldable pub restore_file : String → Option String → Worktree → Attempt (Unit {0}) × Worktree
  restore_file path none tree = (raised undecodable, tree)
  restore_file path (some text) tree = atomic_write platform path (platform.encode text) tree

  unfoldable pub restore : SavedFiles → Worktree → Attempt (Unit {0}) × Worktree
  restore [] tree = (returned tt, tree)
  restore ((path, content) ∷ rest) tree =
      restore_file path (platform.decode content) tree then_in restore rest

  -- `raise` at the end of the handler, unless the handler has raised itself.
  unfoldable pub recover :
      PatchError → Attempt (Unit {0}) × Worktree → Attempt PatchArtifactDraft × Worktree
  recover error (returned _, tree) = (raised error, tree)
  recover error (raised later, tree) = (raised later, tree)

  -- `except Exception`: a CancelledError, which it does not catch, is no exception of the model.
  unfoldable pub or_restore :
      SavedFiles → Attempt PatchArtifactDraft × Worktree → Attempt PatchArtifactDraft × Worktree
  or_restore originals (returned artifact, tree) = (returned artifact, tree)
  or_restore originals (raised error, tree) = recover error (restore originals tree)

module _ (platform : Platform) (limits : PatchLimits) where
  -- One turn of the loop of `_validate_replacements`; the total comes last.
  unfoldable pub validate_replacement :
      Worktree
      → (allowed : List String) → FileReplacementDraft
      → SavedFiles × ℕ
      → Attempt (SavedFiles × ℕ)
  validate_replacement tree allowed replacement (originals, total) = do
    check (is_in replacement.path allowed) patch_invalid
    let content = platform.encode replacement.content
    check (not (ltb limits.max_file_bytes (length content))) patch_invalid
    original ← read_regular_file platform tree replacement.path
    check (platform.sha256 original == replacement.original_sha256) source_changed
    returned (put_original replacement.path original originals, total + length content)

  unfoldable pub validate_loop :
      Worktree
      → (allowed : List String) → List FileReplacementDraft
      → SavedFiles × ℕ
      → Attempt (SavedFiles × ℕ)
  validate_loop tree allowed [] found = returned found
  validate_loop tree allowed (replacement ∷ rest) found =
      validate_replacement tree allowed replacement found >>= validate_loop tree allowed rest

  unfoldable pub validate_replacements :
      Worktree → (allowed : List String) → List FileReplacementDraft → Attempt SavedFiles
  validate_replacements tree allowed replacements = do
    check (not (is_empty replacements) && not (ltb limits.max_files (length replacements)))
        patch_invalid
    (originals, total) ← validate_loop tree allowed replacements ([], 0)
    check (not (ltb limits.max_total_bytes total)) patch_invalid
    returned originals

  unfoldable pub manifest_entry : Worktree → SavedFiles → String → Attempt PatchFile
  manifest_entry tree originals path = do
    current ← read_regular_file platform tree path
    returned (record {
      path = path;
      original_sha256 = elim (get_original path originals) [
        | none ↦ none
        | some original ↦ if is_empty original then none else some (platform.sha256 original)
      ];
      patched_sha256 = platform.sha256 current;
    })

  unfoldable pub manifest : Worktree → SavedFiles → List String → Attempt (List PatchFile)
  manifest tree originals [] = returned []
  manifest tree originals (path ∷ paths) = do
    entry ← manifest_entry tree originals path
    entries ← manifest tree originals paths
    returned (entry ∷ entries)

  -- `originals or {}` is `originals` with [] for None.
  unfoldable pub inspect :
      Worktree → (allowed : List String) → SavedFiles → Attempt PatchArtifactDraft
  inspect tree allowed originals = do
    untracked ← platform.untracked_paths tree
    check (is_empty untracked) source_changed
    changed ← platform.changed_paths tree
    check (not (is_empty changed) && is_subset changed allowed) patch_invalid
    stats ← platform.diff_numstat tree
    let paths = map path_of_row stats
    check (is_subset paths changed && is_subset changed paths) patch_invalid
    let insertions = insertions_of stats
    let deletions = deletions_of stats
    check (not (ltb limits.max_changed_lines (insertions + deletions))) patch_invalid
    unified_diff ← platform.diff tree
    let encoded_diff = platform.encode unified_diff
    check (not (str_eq unified_diff "") && not (ltb limits.max_diff_bytes (length encoded_diff)))
        patch_invalid
    entries ← manifest tree originals (sorted str_lt changed)
    returned (record {
      unified_diff = unified_diff;
      diff_sha256 = platform.sha256 encoded_diff;
      file_manifest = entries;
      file_count = length changed;
      insertions = insertions;
      deletions = deletions;
    })

  unfoldable pub inspect_written :
      (allowed : List String)
      → SavedFiles
      → Attempt (Unit {0}) × Worktree
      → Attempt PatchArtifactDraft × Worktree
  inspect_written allowed originals (raised error, tree) = (raised error, tree)
  inspect_written allowed originals (returned _, tree) = (inspect tree allowed originals, tree)

  unfoldable pub apply_validated :
      (allowed : List String)
      → List FileReplacementDraft
      → Worktree
      → Attempt SavedFiles
      → Attempt PatchArtifactDraft × Worktree
  apply_validated allowed replacements tree (raised error) = (raised error, tree)
  apply_validated allowed replacements tree (returned originals) =
      or_restore platform originals
        (inspect_written allowed originals (write_all platform replacements tree))

  unfoldable pub apply :
      (allowed : List String)
      → List FileReplacementDraft
      → Worktree
      → Attempt PatchArtifactDraft × Worktree
  apply allowed replacements tree =
      apply_validated allowed replacements tree (validate_replacements tree allowed replacements)
