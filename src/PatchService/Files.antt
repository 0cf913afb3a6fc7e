-- ===== src/PatchService/Files.antt =====
-- The files of a worktree, and `_read_regular_file` and `_atomic_write` of
-- backend/app/services/patch_service.py.
use issue_pilot.Prelude.{
  ℕ, String, Option, List, [], ◌∷◌, Bool, true, false, not, ◌&&◌, ◌||◌, str_eq, if◌then◌else◌,
}
use issue_pilot.PlanningOutputs.{any}

abbrev pub Bytes : Type 0
Bytes = List ℕ

-- The part of a PurePosixPath that is read. Its parts hold no "" and no ".", except for the
-- root of an absolute path.
pub record PurePath : Type 0 where
  pub is_absolute : Bool
  pub parts : List String
  pub suffix : String

-- What `lstat` and `read_bytes` find.
pub data Node : Type 0 where
  missing special unreadable : Node
  regular : Bytes → Node

abbrev pub Worktree : Type 0
Worktree = List String → Node

-- PatchValidationError, PatchSourceChangedError, GitClientError, OSError, UnicodeDecodeError
pub data PatchError : Type 0 where
  patch_invalid source_changed git_failed os_failed undecodable : PatchError

pub data Attempt {ℓ} (A : Type ℓ) : Type ℓ where
  returned : A → Attempt A
  raised : PatchError → Attempt A

abbrev pub check : Bool → PatchError → Attempt (Unit {0})
check true error = returned tt
check false error = raised error

infixl 5 ◌>>=◌ ◌>>◌
abbrev pub ◌>>=◌ {ℓ κ} : {A : Type ℓ} {B : Type κ} → Attempt A → (A → Attempt B) → Attempt B
returned a >>= next = next a
raised error >>= next = raised error

abbrev pub ◌>>◌ {ℓ} : {B : Type ℓ} → Attempt (Unit {0}) → Attempt B → Attempt B
first >> next = first >>= λ _. next

-- The next statement on the worktree, unless an exception was raised.
infixl 4 ◌then_in◌
abbrev pub ◌then_in◌ :
    Attempt (Unit {0}) × Worktree
    → (Worktree → Attempt (Unit {0}) × Worktree)
    → Attempt (Unit {0}) × Worktree
(returned _, tree) then_in next = next tree
(raised error, tree) then_in next = (raised error, tree)

pub record Platform : Type 0 where
  pub pure_path : String → PurePath
  -- the parent directory exists and resolves to one inside the worktree
  pub parent_is_inside : List String → Bool
  pub encode : String → Bytes
  pub decode : Bytes → Option String
  pub sha256 : Bytes → ℕ
  -- creating, filling and renaming the temporary file succeeds
  pub can_write : List String → Bytes → Bool
  pub untracked_paths : Worktree → Attempt (List String)
  pub changed_paths : Worktree → Attempt (List String)
  pub diff_numstat : Worktree → Attempt (List (ℕ × ℕ × String))
  pub diff : Worktree → Attempt String

unfoldable pub parts_eq : List String → List String → Bool
parts_eq [] [] = true
parts_eq (a ∷ as') (b ∷ bs) = str_eq a b && parts_eq as' bs
parts_eq _ _ = false

abbrev pub first_is : String → List String → Bool
first_is name [] = false
first_is name (part ∷ parts) = str_eq part name

abbrev has_no_parts : List String → Bool
has_no_parts [] = true
has_no_parts (part ∷ parts) = false

-- The first test of `_read_regular_file`.
unfoldable pub is_unsafe : PurePath → Bool
is_unsafe path =
    path.is_absolute
    || (has_no_parts path.parts
        || (any (λ part. str_eq part "" || (str_eq part "." || str_eq part "..")) path.parts
            || first_is ".git" path.parts))

unfoldable pub read_node : Node → Attempt Bytes
read_node (regular content) = returned content
read_node _ = raised patch_invalid

-- `worktree / path` becomes a regular file with these bytes.
unfoldable pub replaced : List String → Bytes → Worktree → Worktree
replaced parts content tree = λ p. if parts_eq p parts then regular content else tree p

-- `lstat` of a missing file raises.
abbrev pub is_present : Node → Bool
is_present missing = false
is_present _ = true

module _ (platform : Platform) where
  abbrev pub parts_of : String → List String
  parts_of path = (platform.pure_path path).parts

  unfoldable pub read_regular_file : Worktree → String → Attempt Bytes
  read_regular_file tree path = do
    check (not (is_unsafe (platform.pure_path path))) patch_invalid
    check (platform.parent_is_inside (parts_of path)) patch_invalid
    read_node (tree (parts_of path))

  unfoldable pub atomic_write : String → Bytes → Worktree → Attempt (Unit {0}) × Worktree
  atomic_write path content tree =
      if is_present (tree (parts_of path)) && platform.can_write (parts_of path) content
      then (returned tt, replaced (parts_of path) content tree)
      else (raised os_failed, tree)
