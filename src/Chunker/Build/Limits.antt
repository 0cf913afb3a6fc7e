-- ===== src/Chunker/Build/Limits.antt =====
-- On `build_python_chunks` of backend/app/retrieval/chunker.py and its limits.
use issue_pilot.Prelude.{
  ◌≤◌, not, ltb, Bool, true, false, Option, none, some, List, [], ◌∷◌, ◌++◌, length, All,
  All-append, Bool-cases, if-cases, inl, inr, arith,
}
use issue_pilot.Chunker.Source.{Text, ChunkLimits, IsValid, limits_invalid, limits-IsValid}
use issue_pilot.Chunker.Drafts.{
  IndexedFile, IndexedSymbol, CodeChunkDraft, ChunkError, Chunked, chunked, failed, unsafe_source,
  chunk_limit, os_error, decode_error, encode_error, unfinished, and_then, symbols_of_file,
}
use issue_pilot.Chunker.Drafts.Bounds.{IsPiece, IsBuilt, IsBuilt-then, chunks_for_file-IsBuilt}
use issue_pilot.Chunker.Deduplicate.{deduplicate_chunks-All}
use issue_pilot.Chunker.Build.{
  Platform, Decoded, decoded, invalid, raised, of_bytes, of_decoded, of_location, safe_source_path,
  read_source, file_chunks, build_onto, build_python_chunks,
}

module _ (platform : Platform) (limits : ChunkLimits) where
  -- An error of the source.
  abbrev IsRefusal : ChunkError → Type 0
  IsRefusal unfinished = ⊥
  IsRefusal _ = Unit

  -- What `build_python_chunks` promises: not too many chunks, each a piece of its file, or an error.
  abbrev pub IsWithin : Chunked (List CodeChunkDraft) → Type 0
  IsWithin (chunked ds) =
      (length ds ≤ limits.max_chunks) × All (IsPiece platform.sha256 platform.encode limits) ds
  IsWithin (failed e) = IsRefusal e

  -- A value or an error of the source.
  abbrev Ends : {A : Type 0} → Chunked A → Type 0
  Ends (chunked _) = Unit
  Ends (failed e) = IsBuilt platform.sha256 platform.encode limits (failed e)

  Ends-then :
      {A B : Type 0} (m : Chunked A) (f : A → Chunked B)
      → Ends m
      → ((a : A) → Ends (f a))
      → Ends (and_then m f)
  Ends-then (chunked a) f h k = k a
  Ends-then (failed e) f h k = h

  of_bytes-Ends : (r : Option Text) → Ends (of_bytes r)
  of_bytes-Ends none = tt
  of_bytes-Ends (some raw) = tt

  of_decoded-Ends : (r : Decoded) → Ends (of_decoded r)
  of_decoded-Ends (decoded lines) = tt
  of_decoded-Ends invalid = tt
  of_decoded-Ends raised = tt

  of_location-Ends : (path : Text) (r : Option Bool) → Ends (of_location path r)
  of_location-Ends path none = tt
  of_location-Ends path (some false) = tt
  of_location-Ends path (some true) = tt

  read_source-Ends :
      (code_file : IndexedFile) (tracked_paths : List Text)
      → Ends (read_source platform code_file tracked_paths)
  unfolding read_source safe_source_path
  read_source-Ends code_file tracked_paths =
      Ends-then _ _
        (if-cases Ends _ (failed unsafe_source) _ (λ _. tt)
          (λ _. of_location-Ends code_file.path (platform.is_regular_inside code_file.path)))
        λ path. Ends-then _ _ (of_bytes-Ends (platform.read_bytes path)) λ raw.
          if-cases Ends _ _ (failed unsafe_source)
            (λ _. of_decoded-Ends (platform.decode_lines raw)) (λ _. tt)

  read_source-cases :
      (f : List Text → Chunked (List CodeChunkDraft)) (m : Chunked (List Text))
      → Ends m
      → ((lines : List Text) → IsBuilt platform.sha256 platform.encode limits (f lines))
      → IsBuilt platform.sha256 platform.encode limits (and_then m f)
  read_source-cases f (chunked lines) h k = k lines
  read_source-cases f (failed e) h k = h

  file_chunks-IsBuilt :
      (code_file : IndexedFile) (symbols : List IndexedSymbol) (tracked_paths : List Text)
      → IsValid limits
      → IsBuilt platform.sha256 platform.encode limits
          (file_chunks platform code_file symbols tracked_paths limits)
  unfolding file_chunks
  file_chunks-IsBuilt code_file symbols tracked_paths valid =
      read_source-cases _ (read_source platform code_file tracked_paths)
        (read_source-Ends code_file tracked_paths)
        λ lines.
          IsBuilt-then platform.sha256 platform.encode limits _ _
            (chunks_for_file-IsBuilt platform.sha256 platform.encode limits platform.is_space valid
              code_file lines (symbols_of_file code_file.id symbols))
            λ ds h. deduplicate_chunks-All (IsPiece platform.sha256 platform.encode limits) ds h

  and_then-IsWithin :
      (m : Chunked (List CodeChunkDraft)) (f : List CodeChunkDraft → Chunked (List CodeChunkDraft))
      → IsBuilt platform.sha256 platform.encode limits m
      → ((ds : List CodeChunkDraft)
          → All (IsPiece platform.sha256 platform.encode limits) ds
          → IsWithin (f ds))
      → IsWithin (and_then m f)
  and_then-IsWithin (chunked ds) f h k = k ds h
  and_then-IsWithin (failed unsafe_source) f h k = tt
  and_then-IsWithin (failed chunk_limit) f h k = tt
  and_then-IsWithin (failed os_error) f h k = tt
  and_then-IsWithin (failed decode_error) f h k = tt
  and_then-IsWithin (failed encode_error) f h k = tt
  and_then-IsWithin (failed unfinished) f h k = h

  build_onto-IsWithin :
      (chunks : List CodeChunkDraft) (files : List IndexedFile) (symbols : List IndexedSymbol)
      (tracked_paths : List Text)
      → IsValid limits
      → length chunks ≤ limits.max_chunks
      → All (IsPiece platform.sha256 platform.encode limits) chunks
      → IsWithin (build_onto platform chunks files symbols tracked_paths limits)
  unfolding build_onto
  build_onto-IsWithin chunks [] symbols tracked_paths valid few pieces = (few, pieces)
  build_onto-IsWithin chunks (code_file ∷ files) symbols tracked_paths valid few pieces =
      if-cases IsWithin (not code_file.is_parsed) _ _
        (λ _. build_onto-IsWithin chunks files symbols tracked_paths valid few pieces)
        (λ _.
          and_then-IsWithin _ _ (file_chunks-IsBuilt code_file symbols tracked_paths valid)
            λ more h.
              if-cases IsWithin (ltb limits.max_chunks (length (chunks ++ more))) _ _ (λ _. tt)
                λ room.
                  build_onto-IsWithin (chunks ++ more) files symbols tracked_paths valid
                    (ground arith) (All-append _ chunks more pieces h))

  -- `build_python_chunks` returns at most `max_chunks` chunks, each from a line to one that is not
  -- before it, with at most `max_characters` characters, and under the hash of the UTF-8 bytes of its
  -- own content; or it raises one of its two errors, or an exception of the file system, of a
  -- codec or of the encoding that it does not catch. Its loops always come to an end.
  pub build_python_chunks-IsWithin :
      (files : List IndexedFile) (symbols : List IndexedSymbol) (tracked_paths : List Text)
      → IsWithin (build_python_chunks platform files symbols tracked_paths limits)
  unfolding build_python_chunks
  build_python_chunks-IsWithin files symbols tracked_paths =
      elim (Bool-cases (limits_invalid limits)) [
        | inl e ↦ rw e tt
        | inr e ↦ rw e (
            build_onto-IsWithin [] _ symbols tracked_paths (limits-IsValid limits e) (omega arith)
              tt)
      ]
