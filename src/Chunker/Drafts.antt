-- ===== src/Chunker/Drafts.antt =====
-- The chunks of a file: `_draft`, `_module_chunks`, `_symbol_chunks` and `_chunks_for_file` of
-- backend/app/retrieval/chunker.py.
pub mod Bounds
use issue_pilot.Prelude.{
  ℕ, zero, suc, ◌+◌, ◌-◌, min, max, Bool, true, false, not, ◌&&◌, ◌||◌, if◌then◌else◌, Option, none,
  some, List, [], ◌∷◌, ◌++◌, map, length, ltb, leb, ◌==◌,
}
use issue_pilot.Prelude.Table.{filter}
use issue_pilot.Chunker.Source.{Text, ChunkLimits, Range, content}
use issue_pilot.Chunker.Windows.{Windows, ranges, limit_error, out_of_fuel, window_ranges}
use issue_pilot.Chunker.Uncovered.{uncovered_ranges}
use issue_pilot.Chunker.Ordering.{text_eq, text_lt, sorted}

pub data ChunkKind : Type 0 where
  module_chunk class_chunk function_chunk method_chunk : ChunkKind

-- CHUNK_SPECIFICITY
abbrev pub specificity : ChunkKind → ℕ
specificity module_chunk = 0
specificity class_chunk = 1
specificity function_chunk = 2
specificity method_chunk = 2

pub record IndexedFile : Type 0 where
  pub id : ℕ
  pub path : Text
  pub source_sha256 : Text
  pub is_parsed : Bool

pub record IndexedSymbol : Type 0 where
  pub id : ℕ
  pub file_id : ℕ
  pub kind : ChunkKind
  pub qualified_name : Text
  pub signature : Option Text
  pub start_line : ℕ
  pub end_line : ℕ

pub record CodeChunkDraft : Type 0 where
  pub file_id : ℕ
  pub symbol_id : Option ℕ
  pub path : Text
  pub kind : ChunkKind
  pub symbol_name : Option Text
  pub start_line : ℕ
  pub end_line : ℕ
  pub content : Text
  pub content_sha256 : Text
  pub searchable_text : Text

-- UnsafeChunkSourceError, RetrievalChunkLimitError, and the exceptions that the chunker lets through:
-- of the file system, of `decode`, and of `encode`. `unfinished` is a loop without fuel.
pub data ChunkError : Type 0 where
  unsafe_source chunk_limit : ChunkError
  os_error decode_error encode_error : ChunkError
  unfinished : ChunkError

pub data Chunked (A : Type 0) : Type 0 where
  chunked : A → Chunked A
  failed : ChunkError → Chunked A

abbrev pub and_then : {A B : Type 0} → Chunked A → (A → Chunked B) → Chunked B
and_then (chunked a) f = f a
and_then (failed e) f = failed e

-- The items of a generator of texts that are not empty.
abbrev some_texts : List (Option Text) → List Text
some_texts [] = []
some_texts (none ∷ rest) = some_texts rest
some_texts (some [] ∷ rest) = some_texts rest
some_texts (some (c ∷ cs) ∷ rest) = (c ∷ cs) ∷ some_texts rest

-- " ".join(texts)
abbrev join_words : List Text → Text
join_words [] = []
join_words (word ∷ []) = word
join_words (word ∷ next ∷ rest) = word ++ b' ' ∷ join_words (next ∷ rest)

abbrev or_empty : Option Text → Text
or_empty none = []
or_empty (some t) = t

-- `_chunk_order(a) < _chunk_order(b)`
abbrev pub chunk_before : CodeChunkDraft → CodeChunkDraft → Bool
chunk_before a b =
    text_lt a.path b.path
    || text_eq a.path b.path
      && (ltb a.start_line b.start_line
          || (a.start_line == b.start_line)
            && (ltb a.end_line b.end_line
                || (a.end_line == b.end_line)
                  && text_lt (or_empty a.symbol_name) (or_empty b.symbol_name)))

-- The arguments that `_module_chunks` and `_symbol_chunks` pass to `_draft`.
abbrev pub kind_of : Option IndexedSymbol → ChunkKind
kind_of none = module_chunk
kind_of (some symbol) = symbol.kind

abbrev pub name_of : Option IndexedSymbol → Option Text
name_of none = none
name_of (some symbol) = some symbol.qualified_name

abbrev pub signature_of : Option IndexedSymbol → Option Text
signature_of none = none
signature_of (some symbol) = symbol.signature

abbrev pub id_of : Option IndexedSymbol → Option ℕ
id_of none = none
id_of (some symbol) = some symbol.id

-- The sort key of `_symbols_by_file`.
abbrev pub symbol_before : IndexedSymbol → IndexedSymbol → Bool
symbol_before a b =
    ltb a.start_line b.start_line
    || (a.start_line == b.start_line)
      && (ltb a.end_line b.end_line
          || (a.end_line == b.end_line) && text_lt a.qualified_name b.qualified_name)

unfoldable pub symbols_of_file : (file_id : ℕ) → List IndexedSymbol → List IndexedSymbol
symbols_of_file file_id symbols =
    sorted symbol_before (filter (λ symbol. symbol.file_id == file_id) symbols)

abbrev pub symbol_range : IndexedSymbol → Range
symbol_range symbol = record { first = symbol.start_line; last = symbol.end_line }

-- `sha256` stands for hashlib, `encode` for `encode("utf-8")` with `none` for its UnicodeEncodeError,
-- and `is_space` for str.isspace.
module _ (sha256 : Text → Text) (encode : Text → Option Text) (is_space : ℕ → Bool) where
  -- bool(text.strip())
  abbrev pub has_content : Text → Bool
  has_content [] = false
  has_content (c ∷ cs) = not (is_space c) || has_content cs

  -- hashlib.sha256(content.encode("utf-8")).hexdigest()
  abbrev pub with_hash : Option Text → (Text → CodeChunkDraft) → Chunked CodeChunkDraft
  with_hash none make = failed encode_error
  with_hash (some raw) make = chunked (make (sha256 raw))

  unfoldable pub draft :
      IndexedFile → (Option IndexedSymbol) → (lines : List Text) → Range → Chunked CodeChunkDraft
  draft code_file symbol lines range =
      let text = content lines range.first range.last in
      with_hash (encode text) λ content_sha256. record {
        file_id = code_file.id;
        symbol_id = id_of symbol;
        path = code_file.path;
        kind = kind_of symbol;
        symbol_name = name_of symbol;
        start_line = range.first;
        end_line = range.last;
        content = text;
        content_sha256 = content_sha256;
        searchable_text = join_words (
            some_texts
              (some code_file.path ∷ name_of symbol ∷ signature_of symbol ∷ some text ∷ []));
      }

  unfoldable pub draft_all :
      IndexedFile
      → Option IndexedSymbol
      → (lines : List Text) → List Range
      → Chunked (List CodeChunkDraft)
  draft_all code_file symbol lines [] = chunked []
  draft_all code_file symbol lines (range ∷ rest) =
      and_then (draft code_file symbol lines range)
        λ first. and_then (draft_all code_file symbol lines rest) λ more. chunked (first ∷ more)

  -- The comprehension over the windows, without the blank ones. The windows come first: where a
  -- text cannot be encoded and a later line is too long, this is the limit error.
  unfoldable pub drafts_of_windows :
      IndexedFile
      → Option IndexedSymbol
      → (lines : List Text) → Windows
      → Chunked (List CodeChunkDraft)
  drafts_of_windows code_file symbol lines (ranges rs) =
      draft_all code_file symbol lines (filter (λ r. has_content (content lines r.first r.last)) rs)
  drafts_of_windows code_file symbol lines limit_error = failed chunk_limit
  drafts_of_windows code_file symbol lines out_of_fuel = failed unfinished

  unfoldable pub module_chunks :
      IndexedFile → (lines : List Text) → Range → ChunkLimits → Chunked (List CodeChunkDraft)
  module_chunks code_file lines range limits =
      drafts_of_windows code_file none lines
        (window_ranges lines (range.last + 2) range.first range.last limits.max_chunk_lines limits)

  unfoldable pub symbol_chunks :
      IndexedFile
      → IndexedSymbol
      → (lines : List Text) → ChunkLimits
      → Chunked (List CodeChunkDraft)
  symbol_chunks code_file symbol lines limits =
      let start = max 1 symbol.start_line in
      let end = min (length lines) symbol.end_line in
      let count = end + 1 - start in
      let window_lines =
        if leb count limits.max_symbol_chunk_lines then count else limits.max_chunk_lines in
      if ltb end start
      then chunked []
      else drafts_of_windows code_file (some symbol) lines
          (window_ranges lines (end + 2) start end window_lines limits)

  unfoldable pub all_module_chunks :
      IndexedFile → (lines : List Text) → List Range → ChunkLimits → Chunked (List CodeChunkDraft)
  all_module_chunks code_file lines [] limits = chunked []
  all_module_chunks code_file lines (range ∷ rest) limits =
      and_then (module_chunks code_file lines range limits) λ chunks.
        and_then (all_module_chunks code_file lines rest limits) λ more. chunked (chunks ++ more)

  unfoldable pub all_symbol_chunks :
      IndexedFile
      → (lines : List Text) → List IndexedSymbol
      → ChunkLimits
      → Chunked (List CodeChunkDraft)
  all_symbol_chunks code_file lines [] limits = chunked []
  all_symbol_chunks code_file lines (symbol ∷ rest) limits =
      and_then (symbol_chunks code_file symbol lines limits) λ chunks.
        and_then (all_symbol_chunks code_file lines rest limits) λ more. chunked (chunks ++ more)

  -- An empty file has no chunks: then there are no uncovered lines, and no symbol has a line.
  unfoldable pub chunks_for_file :
      IndexedFile
      → (lines : List Text) → List IndexedSymbol
      → ChunkLimits
      → Chunked (List CodeChunkDraft)
  chunks_for_file code_file [] symbols limits = chunked []
  chunks_for_file code_file (line ∷ lines) symbols limits =
      and_then
        (all_module_chunks code_file (line ∷ lines)
          (uncovered_ranges (length (line ∷ lines)) (map symbol_range symbols)) limits)
        λ gaps.
          and_then (all_symbol_chunks code_file (line ∷ lines) symbols limits)
            λ chunks. chunked (sorted chunk_before (gaps ++ chunks))
