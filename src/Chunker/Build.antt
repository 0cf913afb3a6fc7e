-- ===== src/Chunker/Build.antt =====
-- `build_python_chunks`, `_read_source` and `_safe_source_path` of backend/app/retrieval/chunker.py.
pub mod Limits
use issue_pilot.Prelude.{
  ℕ, Bool, true, false, not, ◌&&◌, ◌||◌, if◌then◌else◌, Option, none, some, List, [], ◌∷◌, ◌++◌,
  length, ltb,
}
use issue_pilot.Chunker.Source.{Text, ChunkLimits, limits_invalid}
use issue_pilot.Chunker.Ordering.{text_eq, text_lt, sorted}
use issue_pilot.Chunker.Drafts.{
  IndexedFile, IndexedSymbol, CodeChunkDraft, ChunkError, Chunked, chunked, failed, unsafe_source,
  chunk_limit, os_error, decode_error, and_then, symbols_of_file, chunks_for_file,
}
use issue_pilot.Chunker.Deduplicate.{deduplicate_chunks}

-- What becomes of the bytes of a file: its lines, one of the LookupError, SyntaxError and
-- UnicodeDecodeError that the chunker catches, or another exception of the codec.
pub data Decoded : Type 0 where
  decoded : List Text → Decoded
  invalid raised : Decoded

-- What the chunker takes from Python and the file system.
pub record Platform : Type 0 where
  -- hashlib.sha256 of bytes, and `encode("utf-8")` of a text; `none` for a UnicodeEncodeError.
  pub sha256 : Text → Text
  pub encode : Text → Option Text
  pub is_space : ℕ → Bool
  -- A relative path without `..` whose suffix is `.py`.
  pub is_safe_path : Text → Bool
  -- A regular file, no symbolic link, that resolves to a path inside the repository; `none` for an
  -- exception of the file system.
  pub is_regular_inside : Text → Option Bool
  -- `none` for an OSError.
  pub read_bytes : Text → Option Text
  -- `detect_encoding`, `decode` and `splitlines`.
  pub decode_lines : Text → Decoded

abbrev pub of_bytes : Option Text → Chunked Text
of_bytes none = failed os_error
of_bytes (some raw) = chunked raw

abbrev pub of_decoded : Decoded → Chunked (List Text)
of_decoded (decoded lines) = chunked lines
of_decoded invalid = failed unsafe_source
of_decoded raised = failed decode_error

-- The path if it is that of a regular file inside the repository.
abbrev pub of_location : Text → Option Bool → Chunked Text
of_location path none = failed os_error
of_location path (some false) = failed unsafe_source
of_location path (some true) = chunked path

abbrev is_tracked : Text → List Text → Bool
is_tracked path [] = false
is_tracked path (tracked ∷ rest) = text_eq path tracked || is_tracked path rest

abbrev file_before : IndexedFile → IndexedFile → Bool
file_before a b = text_lt a.path b.path

module _ (platform : Platform) where
  unfoldable pub safe_source_path : Text → (tracked_paths : List Text) → Chunked Text
  safe_source_path relative tracked_paths =
      if not (is_tracked relative tracked_paths) || not (platform.is_safe_path relative)
      then failed unsafe_source
      else of_location relative (platform.is_regular_inside relative)

  unfoldable pub read_source : IndexedFile → (tracked_paths : List Text) → Chunked (List Text)
  read_source code_file tracked_paths =
      and_then (safe_source_path code_file.path tracked_paths) λ path.
        and_then (of_bytes (platform.read_bytes path)) λ raw.
          if text_eq (platform.sha256 raw) code_file.source_sha256
          then of_decoded (platform.decode_lines raw)
          else failed unsafe_source

  -- The chunks of one parsed file.
  unfoldable pub file_chunks :
      IndexedFile
      → List IndexedSymbol
      → (tracked_paths : List Text) → ChunkLimits
      → Chunked (List CodeChunkDraft)
  file_chunks code_file symbols tracked_paths limits =
      and_then (read_source code_file tracked_paths) λ lines.
        and_then
          (chunks_for_file platform.sha256 platform.encode platform.is_space code_file lines
            (symbols_of_file code_file.id symbols) limits)
          λ chunks. chunked (deduplicate_chunks chunks)

  unfoldable pub build_onto :
      (chunks : List CodeChunkDraft) (files : List IndexedFile)
      → List IndexedSymbol
      → (tracked_paths : List Text) → ChunkLimits
      → Chunked (List CodeChunkDraft)
  build_onto chunks [] symbols tracked_paths limits = chunked chunks
  build_onto chunks (code_file ∷ files) symbols tracked_paths limits =
      if not code_file.is_parsed
      then build_onto chunks files symbols tracked_paths limits
      else and_then (file_chunks code_file symbols tracked_paths limits) λ more.
        if ltb limits.max_chunks (length (chunks ++ more))
        then failed chunk_limit
        else build_onto (chunks ++ more) files symbols tracked_paths limits

  unfoldable pub build_python_chunks :
      (files : List IndexedFile)
      → List IndexedSymbol
      → (tracked_paths : List Text) → ChunkLimits
      → Chunked (List CodeChunkDraft)
  build_python_chunks files symbols tracked_paths limits =
      if limits_invalid limits
      then failed chunk_limit
      else build_onto [] (sorted file_before files) symbols tracked_paths limits
