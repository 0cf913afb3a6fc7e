-- ===== src/Chunker/Drafts/Bounds.antt =====
-- On `_chunks_for_file` of backend/app/retrieval/chunker.py and its limits.
use issue_pilot.Prelude.{
  ℕ, ◌+◌, ◌-◌, ◌≤◌, ◌<◌, ◌≡◌, refl, min, max, Bool, ltb, Option, none, some, List, [], ◌∷◌, ◌++◌,
  length, All, All-append, Bool-cases, inl, inr, arith,
}
use issue_pilot.Prelude.Table.{filter}
use issue_pilot.Chunker.Source.{Text, ChunkLimits, IsValid, Range, content}
use issue_pilot.Chunker.Windows.{Windows, ranges, limit_error, out_of_fuel, window_ranges}
use issue_pilot.Chunker.Windows.Ranges.{
  OnRanges, InBounds, window_ranges-All_InBounds, Ended, window_ranges-Ended,
}
use issue_pilot.Chunker.Ordering.{All-sorted}
use issue_pilot.Chunker.Drafts.{
  IndexedFile, IndexedSymbol, CodeChunkDraft, Chunked, chunked, failed, unsafe_source, chunk_limit,
  os_error, decode_error, encode_error, unfinished, and_then, chunk_before, with_hash, draft,
  draft_all, drafts_of_windows, module_chunks, symbol_chunks, all_module_chunks, all_symbol_chunks,
  chunks_for_file,
}

module _ (sha256 : Text → Text) (encode : Text → Option Text) (limits : ChunkLimits) where
  pub record IsPiece (d : CodeChunkDraft) : Type 0 where
    pub ordered : d.start_line ≤ d.end_line
    pub light : length d.content ≤ limits.max_characters
    pub hashed : (raw : Text) × (encode d.content ≡ some raw) × (d.content_sha256 ≡ sha256 raw)

  -- Chunks that are all pieces, or an error of the source.
  abbrev pub IsBuilt : Chunked (List CodeChunkDraft) → Type 0
  IsBuilt (chunked ds) = All IsPiece ds
  IsBuilt (failed unfinished) = ⊥
  IsBuilt (failed e) = Unit

  pub IsBuilt-then :
      (m : Chunked (List CodeChunkDraft)) (f : List CodeChunkDraft → Chunked (List CodeChunkDraft))
      → IsBuilt m
      → ((ds : List CodeChunkDraft) → All IsPiece ds → IsBuilt (f ds))
      → IsBuilt (and_then m f)
  IsBuilt-then (chunked ds) f h k = k ds h
  IsBuilt-then (failed unsafe_source) f h k = tt
  IsBuilt-then (failed chunk_limit) f h k = tt
  IsBuilt-then (failed os_error) f h k = tt
  IsBuilt-then (failed decode_error) f h k = tt
  IsBuilt-then (failed encode_error) f h k = tt
  IsBuilt-then (failed unfinished) f h k = h

  module _ (is_space : ℕ → Bool) (valid : IsValid limits) (code_file : IndexedFile)
      (lines : List Text) where
    -- A chunk that is a piece, or an error of the source.
    abbrev IsDrafted : Chunked CodeChunkDraft → Type 0
    IsDrafted (chunked d) = IsPiece d
    IsDrafted (failed e) = IsBuilt (failed e)

    with_hash-IsDrafted :
        (encoded : Option Text) (make : Text → CodeChunkDraft)
        → ((raw : Text) → encoded ≡ some raw → IsPiece (make (sha256 raw)))
        → IsDrafted (with_hash sha256 encode is_space encoded make)
    with_hash-IsDrafted none make h = tt
    with_hash-IsDrafted (some raw) make h = h raw refl

    draft-IsDrafted :
        (symbol : Option IndexedSymbol) (lo end max_lines : ℕ) (r : Range)
        → InBounds lines lo end max_lines limits.max_characters r
        → IsDrafted (draft sha256 encode is_space code_file symbol lines r)
    unfolding draft
    draft-IsDrafted symbol lo end max_lines r b =
        with_hash-IsDrafted (encode (content lines r.first r.last)) _
          λ raw e. record { ordered = b.ordered; light = b.light; hashed = (raw, e, refl) }

    add-IsBuilt :
        (first : Chunked CodeChunkDraft) (rest : Chunked (List CodeChunkDraft))
        → IsDrafted first
        → IsBuilt rest
        → IsBuilt (and_then first λ d. and_then rest λ more. chunked (d ∷ more))
    add-IsBuilt (chunked d) (chunked more) h k = (h, k)
    add-IsBuilt (chunked d) (failed unsafe_source) h k = tt
    add-IsBuilt (chunked d) (failed chunk_limit) h k = tt
    add-IsBuilt (chunked d) (failed os_error) h k = tt
    add-IsBuilt (chunked d) (failed decode_error) h k = tt
    add-IsBuilt (chunked d) (failed encode_error) h k = tt
    add-IsBuilt (chunked d) (failed unfinished) h k = k
    add-IsBuilt (failed e) rest h k = h

    draft_all-IsBuilt :
        (symbol : Option IndexedSymbol) (q : Range → Bool) (lo end max_lines : ℕ) (rs : List Range)
        → All (InBounds lines lo end max_lines limits.max_characters) rs
        → IsBuilt (draft_all sha256 encode is_space code_file symbol lines (filter q rs))
    unfolding filter draft_all
    draft_all-IsBuilt symbol q lo end max_lines [] h = tt
    draft_all-IsBuilt symbol q lo end max_lines (r ∷ rs) (b, h) = elim (Bool-cases (q r)) [
      | inl e ↦ rw e (
          add-IsBuilt (draft sha256 encode is_space code_file symbol lines r)
            (draft_all sha256 encode is_space code_file symbol lines (filter q rs))
            (draft-IsDrafted symbol lo end max_lines r b)
            (draft_all-IsBuilt symbol q lo end max_lines rs h))
      | inr e ↦ rw e (draft_all-IsBuilt symbol q lo end max_lines rs h)
    ]

    drafts_of_windows-IsBuilt :
        (symbol : Option IndexedSymbol) (lo end max_lines : ℕ) (w : Windows)
        → OnRanges (All (InBounds lines lo end max_lines limits.max_characters)) w
        → Ended lines lo end limits.max_characters w
        → IsBuilt (drafts_of_windows sha256 encode is_space code_file symbol lines w)
    unfolding drafts_of_windows
    drafts_of_windows-IsBuilt symbol lo end max_lines (ranges rs) h e =
        draft_all-IsBuilt symbol _ lo end max_lines rs h
    drafts_of_windows-IsBuilt symbol lo end max_lines limit_error h e = tt
    drafts_of_windows-IsBuilt symbol lo end max_lines out_of_fuel h e = ground arith

    windows-IsBuilt :
        (symbol : Option IndexedSymbol) (fuel lo end max_lines : ℕ)
        → 1 ≤ max_lines
        → end + 1 - lo < fuel
        → IsBuilt (
            drafts_of_windows sha256 encode is_space code_file symbol lines
              (window_ranges lines fuel lo end max_lines limits))
    windows-IsBuilt symbol fuel lo end max_lines one enough =
        drafts_of_windows-IsBuilt symbol lo end max_lines _
          (window_ranges-All_InBounds lines fuel lo end max_lines limits one)
          (window_ranges-Ended lines fuel lo end max_lines limits enough)

    module_chunks-IsBuilt :
        (range : Range)
        → IsBuilt (module_chunks sha256 encode is_space code_file lines range limits)
    unfolding module_chunks
    module_chunks-IsBuilt range =
        windows-IsBuilt none (range.last + 2) range.first range.last limits.max_chunk_lines
          valid.chunk_lines (omega arith)

    symbol_chunks-IsBuilt :
        (symbol : IndexedSymbol)
        → IsBuilt (symbol_chunks sha256 encode is_space code_file symbol lines limits)
    unfolding symbol_chunks
    symbol_chunks-IsBuilt symbol =
        elim (Bool-cases (ltb (min (length lines) symbol.end_line) (max 1 symbol.start_line))) [
          | inl e ↦ rw e tt
          | inr e ↦
              rw e (windows-IsBuilt (some symbol) _ _ _ _ (ground (arith, valid)) (omega arith))
        ]

    all_module_chunks-IsBuilt :
        (rs : List Range)
        → IsBuilt (all_module_chunks sha256 encode is_space code_file lines rs limits)
    unfolding all_module_chunks
    all_module_chunks-IsBuilt [] = tt
    all_module_chunks-IsBuilt (r ∷ rs) = IsBuilt-then _ _ (module_chunks-IsBuilt r) λ ds h.
        IsBuilt-then _ _ (all_module_chunks-IsBuilt rs) λ more k. All-append IsPiece ds more h k

    all_symbol_chunks-IsBuilt :
        (symbols : List IndexedSymbol)
        → IsBuilt (all_symbol_chunks sha256 encode is_space code_file lines symbols limits)
    unfolding all_symbol_chunks
    all_symbol_chunks-IsBuilt [] = tt
    all_symbol_chunks-IsBuilt (s ∷ symbols) = IsBuilt-then _ _ (symbol_chunks-IsBuilt s) λ ds h.
        IsBuilt-then _ _ (all_symbol_chunks-IsBuilt symbols)
          λ more k. All-append IsPiece ds more h k

  pub chunks_for_file-IsBuilt :
      (is_space : ℕ → Bool) (valid : IsValid limits) (code_file : IndexedFile) (lines : List Text)
      (symbols : List IndexedSymbol)
      → IsBuilt (chunks_for_file sha256 encode is_space code_file lines symbols limits)
  unfolding chunks_for_file
  chunks_for_file-IsBuilt is_space valid code_file [] symbols = tt
  chunks_for_file-IsBuilt is_space valid code_file (line ∷ lines) symbols =
      IsBuilt-then _ _ (all_module_chunks-IsBuilt is_space valid code_file (line ∷ lines) _) λ ds h.
        IsBuilt-then _ _ (all_symbol_chunks-IsBuilt is_space valid code_file (line ∷ lines) symbols)
          λ more k. All-sorted chunk_before IsPiece (ds ++ more) (All-append IsPiece ds more h k)
