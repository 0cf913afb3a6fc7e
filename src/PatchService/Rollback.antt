-- ===== src/PatchService/Rollback.antt =====
-- On what `PatchService.apply` of backend/app/services/patch_service.py leaves of a worktree.
use issue_pilot.Prelude.{
  ◌≡◌, refl, sym, subst, ap, ◌∙◌, String, some, List, [], ◌∷◌, true, false, ◌&&◌, All, arith,
  Bool-cases, if-cases, inl, inr,
}
use issue_pilot.Schemas.{PatchArtifactDraft}
use issue_pilot.PatchService.{
  Bytes, Worktree, Platform, Attempt, PatchError, returned, raised, parts_eq, parts_of, ◌then_in◌,
  replaced, atomic_write, is_present, PatchLimits, FileReplacementDraft, SavedFiles,
  validate_replacements, write_all, restore, restore_file, recover, inspect_written, or_restore,
  apply_validated, apply,
}
use issue_pilot.PatchService.Originals.{
  Holds, IsSaved, IsWritable, covers, parts_eq_sound, validate_replacements-Saves,
}

module _ (platform : Platform) where
  -- Between the writes: no file is lost, and only saved files may differ.
  abbrev IsKept : Worktree → SavedFiles → Worktree → Type 0
  IsKept tree saved now =
      ((p : List String) → is_present (tree p) ≡ true → is_present (now p) ≡ true)
      × ((p : List String) → covers platform p saved ≡ false → now p ≡ tree p)

  atomic_write-IsKept :
      (tree now : Worktree) (saved : SavedFiles) (path : String) (content : Bytes)
      → covers platform (parts_of platform path) saved ≡ true
      → IsKept tree saved now
      → IsKept tree saved (atomic_write platform path content now).1
  unfolding atomic_write replaced
  atomic_write-IsKept tree now saved path content c (here, same) =
      if-cases (λ (r : Attempt (Unit {0}) × Worktree). IsKept tree saved r.1)
        (is_present (now (parts_of platform path))
          && platform.can_write (parts_of platform path) content)
        (returned tt, replaced (parts_of platform path) content now)
        (raised PatchError.os_failed, now)
        (λ _. (
          λ p h. ground (arith, here p, h),
          λ p u. elim (Bool-cases (parts_eq p (parts_of platform path))) [
            | inl e ↦ ground (
              arith,
              c,
              u,
              ap (λ q. covers platform q saved) (parts_eq_sound p (parts_of platform path) e),
            )
            | inr e ↦ rw e (same p u)
          ],
        ))
        (λ _. (here, same))

  abbrev IsCovered : SavedFiles → FileReplacementDraft → Type 0
  IsCovered saved r = covers platform (parts_of platform r.path) saved ≡ true

  write_all-IsKept :
      (tree now : Worktree) (saved : SavedFiles) (rs : List FileReplacementDraft)
      → All (IsCovered saved) rs
      → IsKept tree saved now
      → IsKept tree saved (write_all platform rs now).1
  unfolding write_all
  write_all-IsKept tree now saved [] c h = h
  write_all-IsKept tree now saved (r ∷ rs) (c, cs) h =
      after (atomic_write platform r.path (platform.encode r.content) now)
        (atomic_write-IsKept tree now saved r.path (platform.encode r.content) c h)
        (λ next k. write_all-IsKept tree next saved rs cs k)
    where
      after :
          (w : Attempt (Unit {0}) × Worktree)
          → IsKept tree saved w.1
          → ((next : Worktree)
              → IsKept tree saved next
              → IsKept tree saved (write_all platform rs next).1)
          → IsKept tree saved (w then_in write_all platform rs).1
      after (returned _, next) k go = go next k
      after (raised error, next) k go = k

  -- The handler's loop has ended, and every file reads as before.
  abbrev IsRestored : Worktree → Attempt (Unit {0}) × Worktree → Type 0
  IsRestored tree (returned _, now) = (p : List String) → now p ≡ tree p
  IsRestored tree (raised _, now) = true ≡ false

  atomic_write-present :
      (path : String) (content : Bytes) (now : Worktree)
      → is_present (now (parts_of platform path)) ≡ true
      → platform.can_write (parts_of platform path) content ≡ true
      → atomic_write platform path content now
        ≡ (returned tt, replaced (parts_of platform path) content now)
  unfolding atomic_write
  atomic_write-present path content now h w = rw (h, w) refl

  replaced-IsKept :
      (tree now : Worktree) (path : String) (content : Bytes) (rest : SavedFiles)
      → IsSaved platform tree (path, content)
      → IsKept tree ((path, content) ∷ rest) now
      → IsKept tree rest (replaced (parts_of platform path) content now)
  unfolding replaced
  replaced-IsKept tree now path content rest saved (here, same) = (
    λ p h. ground (arith, here p, h),
    λ p u. elim (Bool-cases (parts_eq p (parts_of platform path))) [
      | inl e ↦ rw e (sym saved ∙ ap tree (sym (parts_eq_sound p (parts_of platform path) e)))
      | inr e ↦ rw e (same p (rw e u))
    ],
  )

  module _
      (codec : (b : Bytes) (text : String)
        → platform.decode b ≡ some text
        → platform.encode text ≡ b) where
    restore_step :
        (path : String) (content : Bytes) (text : String) (rest : SavedFiles) (now : Worktree)
        → platform.decode content ≡ some text
        → atomic_write platform path content now
          ≡ (returned tt, replaced (parts_of platform path) content now)
        → restore platform ((path, content) ∷ rest) now
          ≡ restore platform rest (replaced (parts_of platform path) content now)
    unfolding restore restore_file
    restore_step path content text rest now d w =
        ap (λ o. restore_file platform path o now then_in restore platform rest) d
        ∙ ap (λ b. atomic_write platform path b now then_in restore platform rest)
            (codec content text d)
        ∙ ap (λ r. r then_in restore platform rest) w

    restore-IsRestored :
        (tree now : Worktree) (saved : SavedFiles)
        → All (IsSaved platform tree) saved
        → All (λ e. IsWritable platform e.0 e.1) saved
        → IsKept tree saved now
        → IsRestored tree (restore platform saved now)
    unfolding restore
    restore-IsRestored tree now [] s w (here, same) = λ p. same p refl
    restore-IsRestored tree now ((path, content) ∷ rest) (s, ss) (((text, d), can), ws) k =
        subst (IsRestored tree)
          (sym (
            restore_step path content text rest now d (
              atomic_write-present path content now (k.0 (parts_of platform path) (rw s refl))
                can)))
          (restore-IsRestored tree (replaced (parts_of platform path) content now) rest ss ws
            (replaced-IsKept tree now path content rest s k))

    -- A raised exception comes with the worktree as it was.
    abbrev Undone : Worktree → Attempt PatchArtifactDraft × Worktree → Type 0
    Undone tree (returned artifact, now) = Unit
    Undone tree (raised error, now) = (p : List String) → now p ≡ tree p

    recover-Undone :
        (tree : Worktree) (error : PatchError) (r : Attempt (Unit {0}) × Worktree)
        → IsRestored tree r
        → Undone tree (recover platform error r)
    unfolding recover
    recover-Undone tree error (returned _, now) h = h
    recover-Undone tree error (raised later, now) h = ground (arith, h)

    or_restore-Undone :
        (tree : Worktree) (saved : SavedFiles) (r : Attempt PatchArtifactDraft × Worktree)
        → IsRestored tree (restore platform saved r.1)
        → Undone tree (or_restore platform saved r)
    unfolding or_restore
    or_restore-Undone tree saved (returned artifact, now) h = tt
    or_restore-Undone tree saved (raised error, now) h =
        recover-Undone tree error (restore platform saved now) h

    module _ (limits : PatchLimits) where
      inspect_written_same :
          (allowed : List String) (saved : SavedFiles) (r : Attempt (Unit {0}) × Worktree)
          → (inspect_written platform limits allowed saved r).1 ≡ r.1
      unfolding inspect_written
      inspect_written_same allowed saved (returned _, now) = refl
      inspect_written_same allowed saved (raised error, now) = refl

      All-IsWritable :
          (tree : Worktree) (saved : SavedFiles)
          → ((path : String) (content : Bytes)
              → IsSaved platform tree (path, content)
              → IsWritable platform path content)
          → All (IsSaved platform tree) saved
          → All (λ e. IsWritable platform e.0 e.1) saved
      All-IsWritable tree [] f h = tt
      All-IsWritable tree ((path, content) ∷ rest) f (s, ss) =
          (f path content s, All-IsWritable tree rest f ss)

      apply_validated-Undone :
          (tree : Worktree) (allowed : List String) (rs : List FileReplacementDraft)
          (validated : Attempt SavedFiles)
          → ((path : String) (content : Bytes)
              → IsSaved platform tree (path, content)
              → IsWritable platform path content)
          → Holds (λ saved. All (IsSaved platform tree) saved × All (IsCovered saved) rs) validated
          → Undone tree (apply_validated platform limits allowed rs tree validated)
      unfolding apply_validated
      apply_validated-Undone tree allowed rs (raised error) f h = λ p. refl
      apply_validated-Undone tree allowed rs (returned saved) f (s, c) =
          let written = write_all platform rs tree in
          or_restore-Undone tree saved (inspect_written platform limits allowed saved written) (
            rw (inspect_written_same allowed saved written) (
              restore-IsRestored tree written.1 saved s (All-IsWritable tree saved f s)
                (write_all-IsKept tree tree saved rs c (λ p h. h, λ p h. refl))))

      Undone-result :
          (tree after : Worktree) (error : PatchError) (r : Attempt PatchArtifactDraft × Worktree)
          → r ≡ (raised error, after)
          → Undone tree r
          → (p : List String) → after p ≡ tree p
      Undone-result tree after error r e h = subst (Undone tree) e h

      -- If `apply` raises, whatever it raises and wherever, every path of the worktree reads as
      -- before, provided that every regular file decodes as UTF-8 and its bytes can be written
      -- back to it, and that encoding inverts decoding.
      pub apply-rollback :
          (tree after : Worktree) (allowed : List String) (rs : List FileReplacementDraft)
          (error : PatchError)
          → ((path : String) (content : Bytes)
              → IsSaved platform tree (path, content)
              → IsWritable platform path content)
          → apply platform limits allowed rs tree ≡ (raised error, after)
          → (p : List String) → after p ≡ tree p
      unfolding apply
      apply-rollback tree after allowed rs error f e =
          Undone-result tree after error (apply platform limits allowed rs tree) e (
            apply_validated-Undone tree allowed rs
              (validate_replacements platform limits tree allowed rs) f
              (validate_replacements-Saves platform limits tree allowed rs))
