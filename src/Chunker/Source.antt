-- ===== src/Chunker/Source.antt =====
-- Text and limits of the chunker (backend/app/retrieval/chunker.py). A text is the list of its code
-- points; lines are numbered from 1.
use issue_pilot.Prelude.{
  ℕ, ◌+◌, ◌-◌, List, [], ◌∷◌, ◌++◌, Bool, ◌&&◌, ◌||◌, zero, suc, take, ltb, leb, ◌≤◌, ◌≡◌, arith,
}

abbrev pub Text : Type 0
Text = List ℕ

pub record ChunkLimits : Type 0 where
  pub max_chunks : ℕ
  pub max_chunk_lines : ℕ
  pub max_symbol_chunk_lines : ℕ
  pub overlap_lines : ℕ
  pub max_characters : ℕ

-- The inverse of the guard of `_validate_limits`; a natural number is not below 0.
pub record IsValid (limits : ChunkLimits) : Type 0 where
  pub chunk_lines : 1 ≤ limits.max_chunk_lines
  pub symbol_lines : 1 ≤ limits.max_symbol_chunk_lines
  pub overlap : limits.overlap_lines + 1 ≤ limits.max_chunk_lines
  pub characters : 1 ≤ limits.max_characters

unfoldable pub limits_invalid : ChunkLimits → Bool
limits_invalid limits =
    ltb limits.max_chunk_lines 1
    || (ltb limits.max_symbol_chunk_lines 1
        || (leb limits.max_chunk_lines limits.overlap_lines || ltb limits.max_characters 1))

abbrev pub drop {ℓ} : {A : Type ℓ} → ℕ → List A → List A
drop zero xs = xs
drop (suc n) [] = []
drop (suc n) (x ∷ xs) = drop n xs

-- "\n".join(lines)
unfoldable pub join_lines : List Text → Text
join_lines [] = []
join_lines (line ∷ []) = line
join_lines (line ∷ next ∷ rest) = line ++ b'\n' ∷ join_lines (next ∷ rest)

-- "\n".join(lines[start - 1 : end])
unfoldable pub content : List Text → (start end : ℕ) → Text
content lines start end = join_lines (take (end - (start - 1)) (drop (start - 1) lines))

-- A range of lines, both ends included.
pub record Range : Type 0 where
  pub first : ℕ
  pub last : ℕ

-- Some range of the list has the line.
abbrev pub covers : List Range → ℕ → Bool
covers [] line = Bool.false
covers (r ∷ rest) line = leb r.first line && leb line r.last || covers rest line

pub limits-IsValid : (limits : ChunkLimits) → limits_invalid limits ≡ Bool.false → IsValid limits
unfolding limits_invalid
limits-IsValid limits h = ground arith
