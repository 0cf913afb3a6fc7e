-- ===== src/Chunker/Uncovered.antt =====
-- `_uncovered_ranges` of backend/app/retrieval/chunker.py: the ranges of lines that no symbol has.
use issue_pilot.Prelude.{
  ℕ, zero, suc, ◌+◌, ◌-◌, ◌≤◌, ◌<◌, ◌≡◌, ◌∙◌, ap, refl, min, max, Bool, true, false, not, ◌&&◌,
  ◌||◌, Option, none, some, List, [], ◌∷◌, length, ltb, leb, ◌==◌, Bool-cases, inl, inr, arith,
}
use issue_pilot.Chunker.Source.{Range, covers}

-- [False] * line_count
unfoldable pub uncovered : ℕ → List Bool
uncovered zero = []
uncovered (suc n) = false ∷ uncovered n

-- for index in range(first, stop): covered[index] = True
unfoldable pub mark_covered : (first stop : ℕ) → List Bool → List Bool
mark_covered first stop [] = []
mark_covered zero zero (flag ∷ flags) = flag ∷ flags
mark_covered zero (suc stop) (flag ∷ flags) = true ∷ mark_covered zero stop flags
mark_covered (suc first) stop (flag ∷ flags) = flag ∷ mark_covered first (stop - 1) flags

-- The body of the loop over the symbols, for one symbol's lines.
unfoldable pub mark_symbol : (line_count : ℕ) → Range → List Bool → List Bool
mark_symbol line_count symbol flags =
    mark_covered (max 1 symbol.first - 1) (min line_count symbol.last) flags

unfoldable pub mark_symbols : (line_count : ℕ) → List Range → List Bool → List Bool
mark_symbols line_count [] flags = flags
mark_symbols line_count (symbol ∷ symbols) flags =
    mark_symbols line_count symbols (mark_symbol line_count symbol flags)

-- The loop over `enumerate(covered, start=1)`, with the `start` of the range that is open.
unfoldable pub gaps : (line_number line_count : ℕ) → (start : Option ℕ) → List Bool → List Range
gaps line_number line_count none [] = []
gaps line_number line_count (some start) [] = record { first = start; last = line_count } ∷ []
gaps line_number line_count none (false ∷ flags) =
    gaps (line_number + 1) line_count (some line_number) flags
gaps line_number line_count none (true ∷ flags) = gaps (line_number + 1) line_count none flags
gaps line_number line_count (some start) (false ∷ flags) =
    gaps (line_number + 1) line_count (some start) flags
gaps line_number line_count (some start) (true ∷ flags) =
    record { first = start; last = line_number - 1 } ∷ gaps (line_number + 1) line_count none flags

unfoldable pub uncovered_ranges : (line_count : ℕ) → List Range → List Range
uncovered_ranges line_count symbols =
    gaps 1 line_count none (mark_symbols line_count symbols (uncovered line_count))

-- The flag at an index; past the end nothing is covered and nothing is missing.
abbrev at : List Bool → ℕ → Bool
at [] i = true
at (flag ∷ flags) zero = flag
at (flag ∷ flags) (suc i) = at flags i

length-uncovered : (n : ℕ) → length (uncovered n) ≡ n
unfolding uncovered
length-uncovered zero = refl
length-uncovered (suc n) = ap suc (length-uncovered n)

at-uncovered : (n i : ℕ) → at (uncovered n) i ≡ leb n i
unfolding uncovered
at-uncovered zero i = ground arith
at-uncovered (suc n) zero = ground arith
at-uncovered (suc n) (suc i) = ground (arith, at-uncovered n i)

length-mark_covered :
    (first stop : ℕ) (flags : List Bool) → length (mark_covered first stop flags) ≡ length flags
unfolding mark_covered
length-mark_covered first stop [] = refl
length-mark_covered zero zero (flag ∷ flags) = refl
length-mark_covered zero (suc stop) (flag ∷ flags) = ap suc (length-mark_covered zero stop flags)
length-mark_covered (suc first) stop (flag ∷ flags) =
    ap suc (length-mark_covered first (stop - 1) flags)

at-mark_covered :
    (first stop : ℕ) (flags : List Bool) (i : ℕ)
    → at (mark_covered first stop flags) i ≡ (at flags i || leb first i && ltb i stop)
unfolding mark_covered
at-mark_covered first stop [] i = refl
at-mark_covered zero zero (flag ∷ flags) i = ground arith
at-mark_covered zero (suc stop) (flag ∷ flags) zero = ground arith
at-mark_covered zero (suc stop) (flag ∷ flags) (suc i) =
    ground (arith, at-mark_covered zero stop flags i)
at-mark_covered (suc first) stop (flag ∷ flags) zero = ground arith
at-mark_covered (suc first) stop (flag ∷ flags) (suc i) =
    ground (arith, at-mark_covered first (stop - 1) flags i)

at-mark_symbols :
    (n i : ℕ) (symbols : List Range) (flags : List Bool)
    → i < n
    → at (mark_symbols n symbols flags) i ≡ (at flags i || covers symbols (suc i))
unfolding mark_symbols mark_symbol
at-mark_symbols n i [] flags h = ground arith
at-mark_symbols n i (symbol ∷ symbols) flags h = ground (
  arith,
  at-mark_symbols n i symbols (mark_symbol n symbol flags) h,
  at-mark_covered (max 1 symbol.first - 1) (min n symbol.last) flags i,
)

length-mark_symbols :
    (n : ℕ) (symbols : List Range) (flags : List Bool)
    → length (mark_symbols n symbols flags) ≡ length flags
unfolding mark_symbols mark_symbol
length-mark_symbols n [] flags = refl
length-mark_symbols n (symbol ∷ symbols) flags =
    length-mark_symbols n symbols (mark_symbol n symbol flags)
    ∙ length-mark_covered (max 1 symbol.first - 1) (min n symbol.last) flags

at_past : (flags : List Bool) (i : ℕ) → length flags ≤ i → at flags i ≡ true
at_past [] i h = refl
at_past (f ∷ flags) zero h = absurd (omega (arith, h))
at_past (f ∷ flags) (suc i) h = at_past flags i (omega (arith, h))

-- The line has a flag, the flags starting at `line_number`, and is not covered.
missing : (line_number : ℕ) → List Bool → (line : ℕ) → Bool
missing n flags line = leb n line && not (at flags (line - n))

missing_nil : (n line : ℕ) → missing n [] line ≡ false
unfolding missing
missing_nil n line = ground arith

missing_cons :
    (n : ℕ) (f : Bool) (flags : List Bool) (line : ℕ)
    → missing n (f ∷ flags) line ≡ ((n == line) && not f || missing (n + 1) flags line)
unfolding missing
missing_cons n f flags line = elim (Bool-cases (ltb n line)) [
  | inl h ↦
      rw (ap (at (f ∷ flags)) {x = line - n} {y = suc (line - (n + 1))} (ground arith))
        (ground arith)
  | inr h ↦ rw (ap (at (f ∷ flags)) {x = line - n} {y = 0} (ground arith)) (ground arith)
]

covers-gaps :
    (n start count line : ℕ) (flags : List Bool)
    → n + length flags ≡ count + 1
    → 1 ≤ n
    → (covers (gaps n count none flags) line ≡ missing n flags line)
      × (start < n
          → covers (gaps n count (some start) flags) line
            ≡ (leb start line && ltb line n || missing n flags line))
unfolding gaps
covers-gaps n start count line [] e one =
    (ground (arith, missing_nil n line), λ h. ground (arith, missing_nil n line))
covers-gaps n start count line (false ∷ flags) e one = (
  ground (
    arith,
    covers-gaps (n + 1) n count line flags (omega (arith, e)) (omega (arith, one)),
    missing_cons n false flags line,
  ),
  λ h. ground (
    arith,
    covers-gaps (n + 1) start count line flags (omega (arith, e)) (omega (arith, one)),
    missing_cons n false flags line,
  ),
)
covers-gaps n start count line (true ∷ flags) e one = (
  ground (
    arith,
    covers-gaps (n + 1) start count line flags (omega (arith, e)) (omega (arith, one)),
    missing_cons n true flags line,
  ),
  λ h. ground (
    arith,
    covers-gaps (n + 1) start count line flags (omega (arith, e)) (omega (arith, one)),
    missing_cons n true flags line,
  ),
)

missing-mark_symbols :
    (n line : ℕ) (symbols : List Range)
    → missing 1 (mark_symbols n symbols (uncovered n)) line
      ≡ (leb 1 line && leb line n && not (covers symbols line))
unfolding missing
missing-mark_symbols n zero symbols = ground arith
missing-mark_symbols n (suc i) symbols =
    rw (ap (at (mark_symbols n symbols (uncovered n))) {x = suc i - 1} {y = i} (omega arith))
      (ground (arith, at-mark_symbols n i symbols (uncovered n), at-uncovered n i, past))
  where
    past : n ≤ i → at (mark_symbols n symbols (uncovered n)) i ≡ true
    past h =
        at_past (mark_symbols n symbols (uncovered n)) i
          (omega (arith, h, length-mark_symbols n symbols (uncovered n), length-uncovered n))

-- `_uncovered_ranges` is exact: a line is in one of its ranges if and only if it is a line of the
-- file and no symbol of the file has it.
pub covers-uncovered_ranges :
    (line_count line : ℕ) (symbols : List Range)
    → covers (uncovered_ranges line_count symbols) line
      ≡ (leb 1 line && leb line line_count && not (covers symbols line))
unfolding uncovered_ranges
covers-uncovered_ranges n line symbols =
    (covers-gaps 1 0 n line (mark_symbols n symbols (uncovered n))
      (omega (arith, length-mark_symbols n symbols (uncovered n), length-uncovered n))
      (omega arith)).0
    ∙ missing-mark_symbols n line symbols
