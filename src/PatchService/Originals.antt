-- ===== src/PatchService/Originals.antt =====
-- On what `_validate_replacements` of backend/app/services/patch_service.py saves of a worktree.
use issue_pilot.Prelude.{
  ℕ, ◌+◌, ◌≡◌, refl, sym, subst, String, some, List, [], ◌∷◌, Bool, true, false, not, ◌&&◌, ◌||◌,
  str_eq, eq_iff, eq_refl, All, arith, Bool-cases, inl, inr, ltb, ◌==◌, length,
}
use issue_pilot.PlanningOutputs.{any}
use issue_pilot.PatchService.{
  Bytes, Worktree, Node, regular, Platform, Attempt, PatchError, returned, raised, check, ◌>>=◌,
  parts_eq, parts_of, read_regular_file, read_node, is_unsafe, PatchLimits, FileReplacementDraft,
  SavedFiles, put_original, validate_replacement, validate_loop, validate_replacements, is_in,
  is_empty, patch_invalid, source_changed,
}

pub parts_eq_sound : (a b : List String) → parts_eq a b ≡ true → a ≡ b
unfolding parts_eq
parts_eq_sound [] [] h = refl
parts_eq_sound [] (b ∷ bs) h = ground (arith, h)
parts_eq_sound (a ∷ as') [] h = ground (arith, h)
parts_eq_sound (a ∷ as') (b ∷ bs) h = ground (arith, h, eq_iff a b, parts_eq_sound as' bs)

pub parts_eq_refl : (a : List String) → parts_eq a a ≡ true
unfolding parts_eq
parts_eq_refl [] = refl
parts_eq_refl (a ∷ as') = ground (arith, eq_refl a, parts_eq_refl as')

module _ {ℓ} {A : Type ℓ} where
  -- What holds of a returned value.
  abbrev pub Holds {κ} : (A → Type κ) → Attempt A → Type κ
  Holds P (returned a) = P a
  Holds P (raised error) = Unit

  pub Holds-result {κ} : (P : A → Type κ) (r : Attempt A) (a : A) → Holds P r → r ≡ returned a → P a
  Holds-result P r a h e = subst (Holds P) e h

  pub Holds-map {ι κ} :
      (P : A → Type ι) (Q : A → Type κ) (r : Attempt A)
      → Holds P r
      → ((a : A) → P a → Q a)
      → Holds Q r
  Holds-map P Q (returned a) h f = f a h
  Holds-map P Q (raised error) h f = tt

module _ {ℓ κ} {A : Type ℓ} {B : Type κ} where
  pub Holds-bind {ι μ} :
      (P : A → Type ι) (Q : B → Type μ) (first : Attempt A) (next : A → Attempt B)
      → Holds P first
      → ((a : A) → P a → Holds Q (next a))
      → Holds Q (first >>= next)
  Holds-bind P Q (returned a) next p f = f a p
  Holds-bind P Q (raised error) next p f = tt

-- After a test, which holds if nothing was raised.
pub Holds-check {κ} :
    {B : Type κ} (Q : B → Type κ) (test : Bool) (error : PatchError) (next : Attempt B)
    → (test ≡ true → Holds Q next)
    → Holds Q (check test error >>= λ _. next)
Holds-check Q true error next f = f refl
Holds-check Q false error next f = tt

module _ (platform : Platform) where
  -- The bytes can be written back: they decode, and the write succeeds.
  abbrev pub IsWritable : String → Bytes → Type 0
  IsWritable path content =
      ((text : String) × (platform.decode content ≡ some text))
      × (platform.can_write (parts_of platform path) content ≡ true)

  -- A saved file: it has these bytes in the worktree.
  abbrev pub IsSaved : Worktree → String × Bytes → Type 0
  IsSaved tree (path, content) = tree (parts_of platform path) ≡ regular content

  -- Some saved file lies at these parts.
  abbrev pub covers : List String → SavedFiles → Bool
  covers p originals = any (λ e. parts_eq p (parts_of platform e.0)) originals

  read_node-regular : (node : Node) → Holds (λ content. node ≡ regular content) (read_node node)
  unfolding read_node
  read_node-regular (regular content) = refl
  read_node-regular Node.missing = tt
  read_node-regular Node.special = tt
  read_node-regular Node.unreadable = tt

  pub read_regular_file-IsSaved :
      (tree : Worktree) (path : String)
      → Holds (λ content. IsSaved tree (path, content)) (read_regular_file platform tree path)
  unfolding read_regular_file
  read_regular_file-IsSaved tree path =
      let P = (λ (content : Bytes). IsSaved tree (path, content)) in
      Holds-check P (not (is_unsafe (platform.pure_path path))) patch_invalid
        (check (platform.parent_is_inside (parts_of platform path)) patch_invalid >>= λ _.
          read_node (tree (parts_of platform path)))
        (λ _.
          Holds-check P (platform.parent_is_inside (parts_of platform path)) patch_invalid
            (read_node (tree (parts_of platform path)))
            (λ _. read_node-regular (tree (parts_of platform path))))

  put_original-IsSaved :
      (tree : Worktree) (path : String) (content : Bytes) (saved : SavedFiles)
      → IsSaved tree (path, content)
      → All (IsSaved tree) saved
      → All (IsSaved tree) (put_original path content saved)
  unfolding put_original
  put_original-IsSaved tree path content [] new h = (new, tt)
  put_original-IsSaved tree path content ((p, c) ∷ rest) new (old, h) =
      elim (Bool-cases (str_eq p path)) [
        | inl e ↦ rw e (subst (λ q. IsSaved tree (q, content)) (sym ((eq_iff p path).0 e)) new, h)
        | inr e ↦ rw e (old, put_original-IsSaved tree path content rest new h)
      ]

  covers-put_original :
      (q : List String) (path : String) (content : Bytes) (saved : SavedFiles)
      → covers q (put_original path content saved)
        ≡ (covers q saved || parts_eq q (parts_of platform path))
  unfolding put_original
  covers-put_original q path content [] = ground arith
  covers-put_original q path content ((p, c) ∷ rest) = elim (Bool-cases (str_eq p path)) [
    | inl e ↦ rw (e, (eq_iff p path).0 e) (ground arith)
    | inr e ↦ rw (e, covers-put_original q path content rest) (ground arith)
  ]

  module _ (limits : PatchLimits) where
    -- After one more replacement.
    abbrev Extends : Worktree → FileReplacementDraft → SavedFiles → SavedFiles × ℕ → Type 0
    Extends tree r before found =
        All (IsSaved tree) found.0
        × ((q : List String)
            → covers q found.0 ≡ (covers q before || parts_eq q (parts_of platform r.path)))

    validate_replacement-Extends :
        (tree : Worktree) (allowed : List String) (r : FileReplacementDraft)
        (found : SavedFiles × ℕ)
        → All (IsSaved tree) found.0
        → Holds (Extends tree r found.0) (validate_replacement platform limits tree allowed r found)
    unfolding validate_replacement
    validate_replacement-Extends tree allowed r (saved, total) h =
        let content = platform.encode r.content in
        let Q = Extends tree r saved in
        let keep = (λ (original : Bytes).
          returned (put_original r.path original saved, total + length content)) in
        let compare_hash = (λ (original : Bytes).
          check (platform.sha256 original == r.original_sha256) source_changed >>= λ _.
          keep original) in
        let read = read_regular_file platform tree r.path in
        Holds-check Q (is_in r.path allowed) patch_invalid
          (check (not (ltb limits.max_file_bytes (length content))) patch_invalid >>= λ _.
            read >>= compare_hash)
          (λ _.
            Holds-check Q (not (ltb limits.max_file_bytes (length content))) patch_invalid
              (read >>= compare_hash)
              (λ _.
                Holds-bind (λ original. IsSaved tree (r.path, original)) Q read compare_hash
                  (read_regular_file-IsSaved tree r.path)
                  (λ original saved_now.
                    Holds-check Q (platform.sha256 original == r.original_sha256) source_changed
                      (keep original)
                      (λ _. (
                        put_original-IsSaved tree r.path original saved saved_now h,
                        λ q. covers-put_original q r.path original saved,
                      )))))

    -- Every file that one of these replaces is saved, and so is what was saved before.
    abbrev Saves : Worktree → List FileReplacementDraft → SavedFiles → SavedFiles × ℕ → Type 0
    Saves tree rs before found =
        All (IsSaved tree) found.0
        × All (λ r. covers (parts_of platform r.path) found.0 ≡ true) rs
        × ((q : List String) → covers q before ≡ true → covers q found.0 ≡ true)

    validate_loop-Saves :
        (tree : Worktree) (allowed : List String) (rs : List FileReplacementDraft)
        (found : SavedFiles × ℕ)
        → All (IsSaved tree) found.0
        → Holds (Saves tree rs found.0) (validate_loop platform limits tree allowed rs found)
    unfolding validate_loop
    validate_loop-Saves tree allowed [] found h = (h, tt, λ q c. c)
    validate_loop-Saves tree allowed (r ∷ rs) found h =
        Holds-bind (Extends tree r found.0) (Saves tree (r ∷ rs) found.0)
          (validate_replacement platform limits tree allowed r found)
          (validate_loop platform limits tree allowed rs)
          (validate_replacement-Extends tree allowed r found h)
          (λ next (all, grown).
            Holds-map (Saves tree rs next.0) (Saves tree (r ∷ rs) found.0)
              (validate_loop platform limits tree allowed rs next)
              (validate_loop-Saves tree allowed rs next all)
              (λ last (kept, covered, older). (
                kept,
                (
                  older (parts_of platform r.path) (
                      ground (
                        arith,
                        grown (parts_of platform r.path),
                        parts_eq_refl (parts_of platform r.path),
                      )),
                  covered,
                ),
                λ q c. older q (ground (arith, grown q, c)),
              )))

    -- `_validate_replacements` saves the bytes of every file that is going to be replaced.
    pub validate_replacements-Saves :
        (tree : Worktree) (allowed : List String) (rs : List FileReplacementDraft)
        → Holds
            (λ saved.
              All (IsSaved tree) saved
              × All (λ r. covers (parts_of platform r.path) saved ≡ true) rs)
            (validate_replacements platform limits tree allowed rs)
    unfolding validate_replacements
    validate_replacements-Saves tree allowed rs =
        let Q = (λ (saved : SavedFiles).
          All (IsSaved tree) saved
          × All (λ r. covers (parts_of platform r.path) saved ≡ true) rs) in
        let keep = (λ (found : SavedFiles × ℕ).
          check (not (ltb limits.max_total_bytes found.1)) patch_invalid >>= λ _.
          returned found.0) in
        let loop = validate_loop platform limits tree allowed rs ([], 0) in
        Holds-check Q (not (is_empty rs) && not (ltb limits.max_files (length rs))) patch_invalid
          (loop >>= keep)
          (λ _.
            Holds-bind (Saves tree rs []) Q loop keep
              (validate_loop-Saves tree allowed rs ([], 0) tt)
              (λ found (kept, covered, _).
                Holds-check Q (not (ltb limits.max_total_bytes found.1)) patch_invalid
                  (returned found.0) (λ _. (kept, covered))))
