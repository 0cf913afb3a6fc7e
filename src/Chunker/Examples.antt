-- ===== src/Chunker/Examples.antt =====
-- The theorems of the chunker on a file of four short lines.
use issue_pilot.Prelude.{
  ◌≡◌, refl, min, none, some, List, [], ◌∷◌, true, not, ◌&&◌, All, leb, arith,
}
use issue_pilot.Prelude.Table.{count}
use issue_pilot.Chunker.Source.{Text, ChunkLimits, Range, covers, content, join_lines}
use issue_pilot.Chunker.Windows.{ranges, window_ranges, fit_character_limit, shrink}
use issue_pilot.Chunker.Windows.Ranges.{
  InBounds, Ended, window_ranges-InBounds, window_ranges-covers, window_ranges-Ended,
}
use issue_pilot.Chunker.Uncovered.{uncovered_ranges, covers-uncovered_ranges}
use issue_pilot.Chunker.Drafts.{
  IndexedFile, IndexedSymbol, CodeChunkDraft, module_chunk, function_chunk,
}
use issue_pilot.Chunker.Deduplicate.{
  is_at_least, chunk_key, deduplicate_chunks, deduplicate_chunks_most_specific,
}
use issue_pilot.Chunker.Build.{Platform, decoded, build_python_chunks}
use issue_pilot.Chunker.Build.Limits.{IsWithin, build_python_chunks-IsWithin}

abbrev lines : List Text
lines = (1 ∷ 2 ∷ []) ∷ (3 ∷ []) ∷ (4 ∷ 5 ∷ []) ∷ (6 ∷ []) ∷ []

abbrev limits : ChunkLimits
limits = record {
  max_chunks = 9;
  max_chunk_lines = 3;
  max_symbol_chunk_lines = 3;
  overlap_lines = 1;
  max_characters = 4;
}

abbrev windows : List Range
windows =
    record { first = 1; last = 2 }
    ∷ record { first = 2; last = 3 }
    ∷ record { first = 3; last = 4 }
    ∷ []

windows_of_lines : window_ranges lines 6 1 4 3 limits ≡ ranges windows
unfolding window_ranges fit_character_limit shrink content join_lines
windows_of_lines = refl

window_ranges-InBounds_example : All (InBounds lines 1 4 3 4) windows
window_ranges-InBounds_example =
    window_ranges-InBounds lines 6 1 4 3 limits windows (omega arith) windows_of_lines

window_ranges-covers_example : covers windows 3 ≡ true
window_ranges-covers_example =
    window_ranges-covers lines 6 1 4 3 limits windows 3 (omega arith) windows_of_lines (omega arith)
      (omega arith)

window_ranges-Ended_example : Ended lines 1 4 4 (window_ranges lines 6 1 4 3 limits)
window_ranges-Ended_example = window_ranges-Ended lines 6 1 4 3 limits (omega arith)

fitted : fit_character_limit lines 1 3 4 ≡ some 2
unfolding fit_character_limit shrink content join_lines
fitted = refl

abbrev symbols : List Range
symbols = record { first = 2; last = 3 } ∷ []

covers-uncovered_ranges_example :
    covers (uncovered_ranges 4 symbols) 3 ≡ (leb 1 3 && leb 3 4 && not (covers symbols 3))
covers-uncovered_ranges_example = covers-uncovered_ranges 4 3 symbols

-- A module chunk and a function chunk of the same lines.
abbrev module_draft : CodeChunkDraft
module_draft = record {
  file_id = 1;
  symbol_id = none;
  path = 97 ∷ [];
  kind = module_chunk;
  symbol_name = none;
  start_line = 1;
  end_line = 2;
  content = 1 ∷ [];
  content_sha256 = 7 ∷ [];
  searchable_text = 97 ∷ [];
}

abbrev function_draft : CodeChunkDraft
function_draft = record module_draft {
  symbol_id = some 5;
  kind = function_chunk;
  symbol_name = some (102 ∷ []);
}

deduplicate_chunks_most_specific_example :
    min 1 (
      count
        (is_at_least (chunk_key module_draft) 2)
        (deduplicate_chunks (module_draft ∷ function_draft ∷ [])))
    ≡ min 1 (count (is_at_least (chunk_key module_draft) 2) (module_draft ∷ function_draft ∷ []))
deduplicate_chunks_most_specific_example =
    deduplicate_chunks_most_specific (chunk_key module_draft) 2 (module_draft ∷ function_draft ∷ [])

-- A platform where each file has the same bytes and a text is its own hash.
abbrev platform : Platform
platform = record {
  sha256 = λ text. text;
  encode = λ text. some text;
  is_space = λ c. leb c 0;
  is_safe_path = λ path. true;
  is_regular_inside = λ path. some true;
  read_bytes = λ path. some (7 ∷ []);
  decode_lines = λ raw. decoded lines;
}

abbrev indexed_file : IndexedFile
indexed_file = record { id = 1; path = 97 ∷ []; source_sha256 = 7 ∷ []; is_parsed = true }

abbrev indexed_symbol : IndexedSymbol
indexed_symbol = record {
  id = 5;
  file_id = 1;
  kind = function_chunk;
  qualified_name = 102 ∷ [];
  signature = none;
  start_line = 2;
  end_line = 3;
}

build_python_chunks_example :
    IsWithin platform limits (
      build_python_chunks platform
        (indexed_file ∷ [])
        (indexed_symbol ∷ [])
        ((97 ∷ []) ∷ [])
        limits)
build_python_chunks_example =
    build_python_chunks-IsWithin platform limits (indexed_file ∷ []) (indexed_symbol ∷ [])
      ((97 ∷ []) ∷ [])
