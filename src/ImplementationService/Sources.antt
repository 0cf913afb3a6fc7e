-- ===== src/ImplementationService/Sources.antt =====
-- `_load_source_files` of backend/app/services/implementation_service.py. What lies at a path of the
-- repository is a parameter, and so are the UTF-8 decoder and SHA-256.
use issue_pilot.Prelude.{
  ℕ, ◌+◌, ◌≤◌, ◌≡◌, refl, ap, subst, ◌∙◌, String, Option, none, some, List, [], ◌∷◌, map, ltb,
  if◌then◌else◌, length, All, arith, if-cases, if-some,
}
use issue_pilot.PatchService.{Bytes, str_lt}
use issue_pilot.Chunker.Ordering.{sorted}

pub record ImplementationSourceFile : Type 0 where
  pub path : String
  pub sha256 : ℕ
  pub content : String

-- A path is absent or resolves outside the repository, is a link or no file, or has these bytes.
pub data Found : Type 0 where
  unavailable irregular : Found
  contents : Bytes → Found

-- One more file before the others, with the bytes of both.
unfoldable pub join_file :
    Option (ImplementationSourceFile × ℕ)
    → Option (List ImplementationSourceFile × ℕ)
    → Option (List ImplementationSourceFile × ℕ)
join_file none rest = none
join_file (some one) none = none
join_file (some (file, size)) (some (files, total)) = some (file ∷ files, size + total)

unfoldable pub within_total :
    Option (List ImplementationSourceFile × ℕ) → Option (List ImplementationSourceFile)
within_total none = none
within_total (some (files, total)) = if ltb 163840 total then none else some files

module _ (look : String → Found) (decode : Bytes → Option String) (sha256 : Bytes → ℕ) where
  unfoldable pub decoded_file :
      String → Bytes → Option String → Option (ImplementationSourceFile × ℕ)
  decoded_file path bytes none = none
  decoded_file path bytes (some text) =
      some (record { path = path; sha256 = sha256 bytes; content = text }, length bytes)

  -- One turn of the loop, with the number of bytes; `none` for ImplementationScopeError.
  unfoldable pub source_file : String → Found → Option (ImplementationSourceFile × ℕ)
  source_file path (contents bytes) =
      if ltb 81920 (length bytes) then none else decoded_file path bytes (decode bytes)
  source_file path _ = none

  unfoldable pub source_loop : List String → Option (List ImplementationSourceFile × ℕ)
  source_loop [] = some ([], 0)
  source_loop (path ∷ paths) = join_file (source_file path (look path)) (source_loop paths)

  unfoldable pub load_source_files :
      (allowed : List String) → Option (List ImplementationSourceFile)
  load_source_files allowed = within_total (source_loop (sorted str_lt allowed))

  -- A file as it lies in the repository.
  abbrev pub IsSource : ImplementationSourceFile → Type 0
  IsSource file =
      (bytes : Bytes) × (look file.path ≡ contents bytes)
      × (decode bytes ≡ some file.content)
      × (file.sha256 ≡ sha256 bytes)
      × (length bytes ≤ 81920)

  -- The bytes of a file that is there.
  abbrev pub size_of : Found → ℕ
  size_of (contents bytes) = length bytes
  size_of _ = 0

  pub total_size : List ImplementationSourceFile → ℕ
  total_size [] = 0
  total_size (file ∷ files) = size_of (look file.path) + total_size files

  abbrev IsOne : String → Option (ImplementationSourceFile × ℕ) → Type 0
  IsOne path none = Unit
  IsOne path (some (file, size)) =
      (file.path ≡ path) × IsSource file × (size ≡ size_of (look file.path))

  abbrev IsLoaded : List String → Option (List ImplementationSourceFile × ℕ) → Type 0
  IsLoaded paths none = Unit
  IsLoaded paths (some (files, total)) =
      (map (λ f. f.path) files ≡ paths) × All IsSource files × (total ≡ total_size files)

  decoded_file-IsOne :
      (path : String) (bytes : Bytes) (text : Option String)
      → look path ≡ contents bytes
      → decode bytes ≡ text
      → length bytes ≤ 81920
      → IsOne path (decoded_file path bytes text)
  unfolding decoded_file
  decoded_file-IsOne path bytes none h d s = tt
  decoded_file-IsOne path bytes (some text) h d s = (refl, (bytes, h, d, refl, s), rw h refl)

  source_file-IsOne :
      (path : String) (found : Found) → look path ≡ found → IsOne path (source_file path found)
  unfolding source_file
  source_file-IsOne path Found.unavailable h = tt
  source_file-IsOne path Found.irregular h = tt
  source_file-IsOne path (contents bytes) h =
      if-cases (IsOne path) (ltb 81920 (length bytes)) none (decoded_file path bytes (decode bytes))
        (λ _. tt) (λ e. decoded_file-IsOne path bytes (decode bytes) h refl (ground (arith, e)))

  join_file-IsLoaded :
      (path : String) (paths : List String) (one : Option (ImplementationSourceFile × ℕ))
      (rest : Option (List ImplementationSourceFile × ℕ))
      → IsOne path one
      → IsLoaded paths rest
      → IsLoaded (path ∷ paths) (join_file one rest)
  unfolding join_file total_size
  join_file-IsLoaded path paths none rest h k = tt
  join_file-IsLoaded path paths (some one) none h k = tt
  join_file-IsLoaded path paths (some (file, size)) (some (files, total)) (p, s, n) (ps, ss, t) = (
    ap (λ q. q ∷ map (λ f. f.path) files) p ∙ ap (λ qs. path ∷ qs) ps,
    (s, ss),
    omega (arith, n, t),
  )

  source_loop-IsLoaded : (paths : List String) → IsLoaded paths (source_loop paths)
  unfolding source_loop total_size
  source_loop-IsLoaded [] = (refl, tt, refl)
  source_loop-IsLoaded (path ∷ paths) =
      join_file-IsLoaded path paths (source_file path (look path)) (source_loop paths)
        (source_file-IsOne path (look path) refl) (source_loop-IsLoaded paths)

  within_total-some :
      (paths : List String) (found : Option (List ImplementationSourceFile × ℕ))
      (files : List ImplementationSourceFile)
      → IsLoaded paths found
      → within_total found ≡ some files
      → (map (λ f. f.path) files ≡ paths) × All IsSource files × (total_size files ≤ 163840)
  unfolding within_total
  within_total-some paths none files l h = ground (arith, h)
  within_total-some paths (some (found, total)) files (p, s, t) h =
      let (small, same) = if-some (ltb 163840 total) found files h in
      subst (λ fs. (map (λ f. f.path) fs ≡ paths) × All IsSource fs × (total_size fs ≤ 163840)) same
        (p, s, ground (arith, small, t))

  -- The files that `_load_source_files` returns are those of the allowed paths, in the order of the
  -- names; each has the decoded text and the hash of what lies there, in at most 81920 bytes,
  -- and all together have at most 163840 bytes.
  pub load_source_files-IsSource :
      (allowed : List String) (files : List ImplementationSourceFile)
      → load_source_files allowed ≡ some files
      → (map (λ f. f.path) files ≡ sorted str_lt allowed)
        × All IsSource files
        × (total_size files ≤ 163840)
  unfolding load_source_files
  load_source_files-IsSource allowed files h =
      within_total-some (sorted str_lt allowed) (source_loop (sorted str_lt allowed)) files
        (source_loop-IsLoaded (sorted str_lt allowed)) h
