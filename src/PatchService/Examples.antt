-- ===== src/PatchService/Examples.antt =====
-- The theorems on patches for one draft that is applied, and that is taken back when git fails.
use issue_pilot.Prelude.{
  ◌≡◌, refl, sym, ap, subst, String, Option, none, some, List, [], ◌∷◌, Bool, true, false, str_eq,
  if◌then◌else◌, length, arith,
}
use issue_pilot.Schemas.{PatchArtifactDraft}
use issue_pilot.PatchService.{
  Bytes, Worktree, Node, regular, Platform, returned, raised, git_failed, parts_eq, replaced,
  atomic_write, read_regular_file, read_node, is_unsafe, PatchLimits, FileReplacementDraft,
  put_original, validate_replacements, validate_loop, validate_replacement, inspect, write_all,
  restore, restore_file, recover, inspect_written, or_restore, apply_validated, apply,
}
use issue_pilot.PatchService.Originals.{IsSaved, IsWritable}
use issue_pilot.PatchService.Rollback.{apply-rollback}

-- The empty text is the only one that is stored, until "new" is.
abbrev pub encode : String → Bytes
encode text = if str_eq text "new" then 1 ∷ [] else []

abbrev pub decode : Bytes → Option String
decode [] = some "old"
decode (b ∷ bs) = none

abbrev pub platform : Platform
platform = record {
  pure_path = λ path. record { is_absolute = false; parts = path ∷ []; suffix = ".py" };
  parent_is_inside = λ _. true;
  encode = encode;
  decode = decode;
  sha256 = length;
  can_write = λ _ _. true;
  untracked_paths = λ _. returned [];
  changed_paths = λ _. returned ("a.py" ∷ []);
  diff_numstat = λ _. returned ((1, 0, "a.py") ∷ []);
  diff = λ _. returned "new";
}

abbrev failing : Platform
failing = record platform { diff = λ _. raised git_failed }

abbrev pub limits : PatchLimits
limits = record {
  max_files = 4;
  max_file_bytes = 10;
  max_total_bytes = 20;
  max_diff_bytes = 10;
  max_changed_lines = 5;
}

abbrev pub tree : Worktree
tree p = if parts_eq p ("a.py" ∷ []) then regular [] else Node.missing

abbrev pub drafts : List FileReplacementDraft
drafts = record { path = "a.py"; original_sha256 = 0; content = "new" } ∷ []

abbrev pub allowed : List String
allowed = "a.py" ∷ []

abbrev pub written : Worktree
written = replaced ("a.py" ∷ []) (1 ∷ []) tree

abbrev artifact : PatchArtifactDraft
artifact = record {
  unified_diff = "new";
  diff_sha256 = 1;
  file_manifest = record { path = "a.py"; original_sha256 = none; patched_sha256 = 1 } ∷ [];
  file_count = 1;
  insertions = 1;
  deletions = 0;
}

abbrev restored : Worktree
restored = replaced ("a.py" ∷ []) [] written

taken_back : apply failing limits allowed drafts tree ≡ (raised git_failed, restored)
unfolding apply apply_validated or_restore recover restore restore_file inspect_written inspect
    write_all atomic_write replaced parts_eq validate_replacements validate_loop
    validate_replacement read_regular_file read_node is_unsafe put_original
taken_back = refl

codec : (b : Bytes) (text : String) → decode b ≡ some text → encode text ≡ b
codec [] text h = ap (λ o. elim o [ none ↦ [] | some t ↦ encode t ]) (sym h)
codec (b ∷ bs) text h = ground (arith, h)

abbrev bytes_of : Node → Bytes
bytes_of (regular content) = content
bytes_of _ = []

stored_empty :
    (b : Bool) (content : Bytes)
    → (if b then regular [] else Node.missing) ≡ regular content
    → content ≡ []
stored_empty true content h = ap bytes_of (sym h)
stored_empty false content h = ground (arith, h)

writable :
    (path : String) (content : Bytes)
    → IsSaved failing tree (path, content)
    → IsWritable failing path content
writable path content h =
    subst (IsWritable failing path)
      (sym (stored_empty (parts_eq (path ∷ []) ("a.py" ∷ [])) content h)) (("old", refl), refl)

apply-rollback_example : restored ("a.py" ∷ []) ≡ tree ("a.py" ∷ [])
apply-rollback_example =
    apply-rollback failing codec limits tree restored allowed drafts git_failed writable taken_back
      ("a.py" ∷ [])
