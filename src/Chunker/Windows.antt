-- ===== src/Chunker/Windows.antt =====
-- `_window_ranges` and `_fit_character_limit` of backend/app/retrieval/chunker.py.
pub mod Fit
pub mod Ranges
use issue_pilot.Prelude.{
  ℕ, zero, suc, ◌+◌, ◌-◌, ◌≤◌, ◌<◌, ◌≡◌, min, max, Option, none, some, List, [], ◌∷◌, length, ltb,
  leb, if◌then◌else◌,
}
use issue_pilot.Chunker.Source.{Text, ChunkLimits, Range, content}

pub data Windows : Type 0 where
  ranges : List Range → Windows
  limit_error out_of_fuel : Windows

abbrev pub yield_first : Range → Windows → Windows
yield_first r (ranges rest) = ranges (r ∷ rest)
yield_first r other = other

-- `max(current + 1, fitted_end - overlap_lines + 1)`; a negative difference loses to the first.
abbrev pub next_start : (current fitted overlap : ℕ) → ℕ
next_start current fitted overlap = max (current + 1) (fitted + 1 - overlap)

module _ (lines : List Text) where
  -- The `while` loop: `fitted` is `start + distance`, and falls to `start` at least.
  unfoldable pub shrink : (start distance max_characters : ℕ) → ℕ
  shrink start zero max_characters = start
  shrink start (suc distance) max_characters =
      let shorter = shrink start distance max_characters in
      if ltb max_characters (length (content lines start (start + suc distance)))
      then shorter
      else start + suc distance

  -- `none` is RetrievalChunkLimitError.
  unfoldable pub fit_character_limit : (start end max_characters : ℕ) → Option ℕ
  fit_character_limit start end max_characters =
      let fitted = shrink start (end - start) max_characters in
      if ltb max_characters (length (content lines start fitted)) then none else some fitted

  unfoldable pub window_ranges : (fuel current end max_lines : ℕ) → ChunkLimits → Windows
  window_ranges zero current end max_lines limits = out_of_fuel
  window_ranges (suc fuel) current end max_lines limits =
      if ltb end current
      then ranges []
      else elim (fit_character_limit current (min end (current + max_lines - 1))
          limits.max_characters) [
            | none ↦ limit_error
            | some fitted ↦
                if leb end fitted
                then ranges (record { first = current; last = fitted } ∷ [])
                else yield_first (record { first = current; last = fitted })
                    (window_ranges fuel (next_start current fitted limits.overlap_lines) end
                      max_lines limits)
          ]
