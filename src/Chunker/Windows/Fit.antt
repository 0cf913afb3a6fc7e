-- ===== src/Chunker/Windows/Fit.antt =====
-- On `_fit_character_limit` of backend/app/retrieval/chunker.py.
use issue_pilot.Prelude.{
  ℕ, zero, suc, ◌+◌, ◌-◌, ◌≤◌, ◌<◌, ◌≡◌, refl, none, some, List, length, arith,
}
use issue_pilot.Chunker.Source.{Text, content}
use issue_pilot.Chunker.Windows.{shrink, fit_character_limit}

module _ (lines : List Text) where
  shrink_bounds :
      (start d m : ℕ) → (start ≤ shrink lines start d m) × (shrink lines start d m ≤ start + d)
  unfolding shrink
  shrink_bounds start zero m = (omega arith, omega arith)
  shrink_bounds start (suc d) m = ground (arith, shrink_bounds start d m)

  -- Nothing longer fits.
  shrink_maximal :
      (start d m e : ℕ)
      → shrink lines start d m < e
      → e ≤ start + d
      → m < length (content lines start e)
  unfolding shrink
  shrink_maximal start zero m e h k = absurd (omega arith)
  shrink_maximal start (suc d) m e h k = ground (arith, shrink_maximal start d m e)

  -- The loop stops short of fitting only at a single line.
  shrink_single :
      (start d m : ℕ)
      → m < length (content lines start (shrink lines start d m))
      → shrink lines start d m ≡ start
  unfolding shrink
  shrink_single start zero m h = refl
  shrink_single start (suc d) m h = ground (arith, shrink_single start d m)

  -- What a fitted window is: inside, not too long, and no longer one would do.
  pub record Fits (start end m fitted : ℕ) : Type 0 where
    pub from_start : start ≤ fitted
    pub to_end : fitted ≤ end
    pub within : length (content lines start fitted) ≤ m

  pub fit_character_limit-Fits :
      (start end m fitted : ℕ)
      → start ≤ end
      → fit_character_limit lines start end m ≡ some fitted
      → Fits start end m fitted
  unfolding fit_character_limit
  fit_character_limit-Fits start end m fitted h e =
      ground (arith, shrink_bounds start (end - start) m)

  -- `_fit_character_limit` finds the longest window: one more line, up to the end, is too long.
  pub fit_character_limit_longest :
      (start end m fitted e : ℕ)
      → start ≤ end
      → fit_character_limit lines start end m ≡ some fitted
      → fitted < e
      → e ≤ end
      → m < length (content lines start e)
  unfolding fit_character_limit
  fit_character_limit_longest start end m fitted e h k lt le =
      ground (arith, shrink_maximal start (end - start) m e)

  -- It fails exactly if the first line alone is too long.
  pub fit_character_limit-none :
      (start end m : ℕ)
      → fit_character_limit lines start end m ≡ none
      → m < length (content lines start start)
  unfolding fit_character_limit
  fit_character_limit-none start end m h = ground (arith, shrink_single start (end - start) m)
