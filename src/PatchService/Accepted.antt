-- ===== src/PatchService/Accepted.antt =====
-- On the artifacts that `PatchService.apply` and `inspect` of backend/app/services/patch_service.py return.
use issue_pilot.Prelude.{◌+◌, ◌≤◌, ◌≡◌, String, List, [], map, true, length}
use issue_pilot.Schemas.{PatchArtifactDraft}
use issue_pilot.Chunker.Ordering.{sorted}
use issue_pilot.PatchService.{
  Worktree, Platform, Attempt, returned, raised, PatchLimits, str_lt, is_subset,
}

module _ (platform : Platform) (limits : PatchLimits) where
  -- What an artifact says of a worktree.
  pub record IsPatch (tree : Worktree) (allowed : List String) (patch : PatchArtifactDraft)
      : Type 0 where
    pub changed : List String
    pub no_untracked : platform.untracked_paths tree ≡ returned []
    pub changed_now : platform.changed_paths tree ≡ returned changed
    pub only_allowed : is_subset changed allowed ≡ true
    pub counted : patch.file_count ≡ length changed
    pub listed : map (λ f. f.path) patch.file_manifest ≡ sorted str_lt changed
    pub few_lines : patch.insertions + patch.deletions ≤ limits.max_changed_lines
    pub diff_now : platform.diff tree ≡ returned patch.unified_diff
    pub small : length (platform.encode patch.unified_diff) ≤ limits.max_diff_bytes
    pub hashed : patch.diff_sha256 ≡ platform.sha256 (platform.encode patch.unified_diff)

  -- What holds of a returned artifact and the worktree it comes with.
  abbrev Accepted : List String → Attempt PatchArtifactDraft × Worktree → Type 0
  Accepted allowed (returned patch, tree) = IsPatch tree allowed patch
  Accepted allowed (raised error, tree) = Unit
