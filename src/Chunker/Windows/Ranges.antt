-- ===== src/Chunker/Windows/Ranges.antt =====
-- On the loop of `_window_ranges` of backend/app/retrieval/chunker.py.
use issue_pilot.Prelude.{
  ℕ, zero, suc, ◌+◌, ◌-◌, ◌≤◌, ◌<◌, ◌≡◌, ◌⊎◌, ap, refl, subst, min, Option, none, some, List, [],
  ◌∷◌, All, All-map, Bool-cases, Option-cases, inl, inr, true, length, ltb, leb, arith,
}
use issue_pilot.Chunker.Source.{Text, ChunkLimits, Range, covers, content}
use issue_pilot.Chunker.Windows.{
  fit_character_limit, Windows, ranges, limit_error, out_of_fuel, yield_first, next_start,
  window_ranges,
}
use issue_pilot.Chunker.Windows.Fit.{fit_character_limit-Fits, fit_character_limit-none}

-- The list of a result, if it has one.
abbrev pub OnRanges : (List Range → Type 0) → Windows → Type 0
OnRanges P (ranges rs) = P rs
OnRanges P _ = Unit

module _ (lines : List Text) where
  -- What `_window_ranges` promises of each window.
  pub record InBounds (lo end max_lines m : ℕ) (r : Range) : Type 0 where
    pub from : lo ≤ r.first
    pub ordered : r.first ≤ r.last
    pub until : r.last ≤ end
    pub short : r.last < r.first + max_lines
    pub light : length (content lines r.first r.last) ≤ m

  later :
      (lo lo' end max_lines m : ℕ) (r : Range)
      → lo ≤ lo'
      → InBounds lo' end max_lines m r
      → InBounds lo end max_lines m r
  later lo lo' end max_lines m r h b = ground arith

  first_window :
      (current end max_lines m fitted : ℕ)
      → 1 ≤ max_lines
      → current ≤ end
      → fit_character_limit lines current (min end (current + max_lines - 1)) m ≡ some fitted
      → InBounds current end max_lines m (record { first = current; last = fitted })
  first_window current end max_lines m fitted one le e =
      ground
        (arith, fit_character_limit-Fits lines current (min end (current + max_lines - 1)) m fitted)

  OnRanges-yield_first :
      (P : Range → Type 0) (r : Range) (w : Windows)
      → P r
      → OnRanges (All P) w
      → OnRanges (All P) (yield_first r w)
  OnRanges-yield_first P r (ranges rest) p h = (p, h)
  OnRanges-yield_first P r limit_error p h = tt
  OnRanges-yield_first P r out_of_fuel p h = tt

  OnRanges-map :
      (P Q : Range → Type 0) (w : Windows)
      → ((r : Range) → P r → Q r)
      → OnRanges (All P) w
      → OnRanges (All Q) w
  OnRanges-map P Q (ranges rest) f h = All-map P Q rest f h
  OnRanges-map P Q limit_error f h = tt
  OnRanges-map P Q out_of_fuel f h = tt

  -- The window that starts at a line, in the loop.
  abbrev fit : (lo end max_lines : ℕ) → ChunkLimits → Option ℕ
  fit lo end max_lines limits =
      fit_character_limit lines lo (min end (lo + max_lines - 1)) limits.max_characters

  -- The four ways in which a turn of the loop goes.
  loop_turn :
      (P : Windows → Type 0) (fuel lo end max_lines : ℕ) (limits : ChunkLimits)
      → (end < lo → P (ranges []))
      → (lo ≤ end → fit lo end max_lines limits ≡ none → P limit_error)
      → ((fitted : ℕ)
          → lo ≤ end
          → fit lo end max_lines limits ≡ some fitted
          → end ≤ fitted
          → P (ranges (record { first = lo; last = fitted } ∷ [])))
      → ((fitted : ℕ)
          → lo ≤ end
          → fit lo end max_lines limits ≡ some fitted
          → fitted < end
          → P (
              yield_first
                (record { first = lo; last = fitted })
                (window_ranges lines fuel
                  (next_start lo fitted limits.overlap_lines)
                  end
                  max_lines
                  limits)))
      → P (window_ranges lines (suc fuel) lo end max_lines limits)
  unfolding window_ranges
  loop_turn P fuel lo end max_lines limits past long last more = elim (Bool-cases (ltb end lo)) [
    | inl beyond ↦ rw beyond (past (ground arith))
    | inr within ↦ rw within (elim (Option-cases (fit lo end max_lines limits)) [
      | inl e ↦ rw e (long (ground arith) e)
      | inr (fitted, e) ↦ rw e (elim (Bool-cases (leb end fitted)) [
        | inl h ↦ rw h (last fitted (ground arith) e (ground arith))
        | inr h ↦ rw h (more fitted (ground arith) e (ground arith))
      ])
    ])
  ]

  pub window_ranges-All_InBounds :
      (fuel lo end max_lines : ℕ) (limits : ChunkLimits)
      → 1 ≤ max_lines
      → OnRanges
          (All (InBounds lo end max_lines limits.max_characters))
          (window_ranges lines fuel lo end max_lines limits)
  unfolding window_ranges
  window_ranges-All_InBounds zero lo end max_lines limits one = tt
  window_ranges-All_InBounds (suc fuel) lo end max_lines limits one =
      loop_turn (OnRanges (All (InBounds lo end max_lines limits.max_characters))) fuel lo end
        max_lines limits (λ _. tt) (λ _ _. tt)
        (λ fitted le e _. (first_window lo end max_lines limits.max_characters fitted one le e, tt))
        (λ fitted le e _.
          OnRanges-yield_first _ _ _
            (first_window lo end max_lines limits.max_characters fitted one le e)
            (OnRanges-map
              (InBounds (next_start lo fitted limits.overlap_lines) end max_lines
                limits.max_characters)
              _ _
              (λ r.
                later lo (next_start lo fitted limits.overlap_lines) end max_lines
                  limits.max_characters r (ground arith))
              (window_ranges-All_InBounds fuel (next_start lo fitted limits.overlap_lines) end
                max_lines limits one)))

  -- Every window that `_window_ranges` yields lies between the two lines, is not empty, has at most
  -- `max_lines` lines and, joined by line feeds, at most `max_characters` characters, if
  -- `max_lines` is at least 1.
  pub window_ranges-InBounds :
      (fuel start end max_lines : ℕ) (limits : ChunkLimits) (rs : List Range)
      → 1 ≤ max_lines
      → window_ranges lines fuel start end max_lines limits ≡ ranges rs
      → All (InBounds start end max_lines limits.max_characters) rs
  window_ranges-InBounds fuel start end max_lines limits rs one e =
      subst (λ w. OnRanges (All (InBounds start end max_lines limits.max_characters)) w) e
        (window_ranges-All_InBounds fuel start end max_lines limits one)

  CoversBetween : (l lo end : ℕ) → Windows → Type 0
  CoversBetween l lo end w = lo ≤ l → l ≤ end → OnRanges (λ rs. covers rs l ≡ true) w

  covers-yield_first :
      (l lo fitted lo' end : ℕ) (w : Windows)
      → lo' ≤ fitted + 1
      → CoversBetween l lo' end w
      → CoversBetween l lo end (yield_first (record { first = lo; last = fitted }) w)
  unfolding CoversBetween
  covers-yield_first l lo fitted lo' end (ranges rs) j rec h k = ground (arith, rec)
  covers-yield_first l lo fitted lo' end limit_error j rec h k = tt
  covers-yield_first l lo fitted lo' end out_of_fuel j rec h k = tt

  all_covered :
      (fuel l lo end max_lines : ℕ) (limits : ChunkLimits)
      → 1 ≤ max_lines
      → CoversBetween l lo end (window_ranges lines fuel lo end max_lines limits)
  unfolding CoversBetween window_ranges
  all_covered zero l lo end max_lines limits one = λ _ _. tt
  all_covered (suc fuel) l lo end max_lines limits one =
      loop_turn (CoversBetween l lo end) fuel lo end max_lines limits
        (λ past h k. absurd (omega (arith, past, h, k))) (λ _ _ _ _. tt)
        (λ fitted _ _ last h k. ground arith)
        (λ fitted le e more.
          covers-yield_first l lo fitted (next_start lo fitted limits.overlap_lines) end _
            (ground (arith, first_window lo end max_lines limits.max_characters fitted one le e))
            (all_covered fuel l (next_start lo fitted limits.overlap_lines) end max_lines limits
              one))

  -- No line is lost: if `_window_ranges` yields windows to the end, with `max_lines` at least 1,
  -- every line from `start` to `end` is in one of them.
  pub window_ranges-covers :
      (fuel start end max_lines : ℕ) (limits : ChunkLimits) (rs : List Range) (line : ℕ)
      → 1 ≤ max_lines
      → window_ranges lines fuel start end max_lines limits ≡ ranges rs
      → start ≤ line
      → line ≤ end
      → covers rs line ≡ true
  unfolding CoversBetween
  window_ranges-covers fuel start end max_lines limits rs line one e h k =
      subst (λ w. OnRanges (λ rs. covers rs line ≡ true) w) e
        (all_covered fuel line start end max_lines limits one h k)

  -- A line between two others that is too long by itself.
  pub record TooLong (lo end m : ℕ) : Type 0 where
    pub line : ℕ
    pub from_start : lo ≤ line
    pub to_end : line ≤ end
    pub long : m < length (content lines line line)

  raise : (lo lo' end m : ℕ) → lo ≤ lo' → TooLong lo' end m → TooLong lo end m
  raise lo lo' end m h x = record {
    line = x.line;
    from_start = omega (arith, h, x.from_start);
    to_end = x.to_end;
    long = x.long;
  }

  -- How `_window_ranges` may end between two lines: with windows, or with the error at a line that
  -- is too long by itself.
  abbrev pub Ended : (lo end m : ℕ) → Windows → Type 0
  Ended lo end m w = ((rs : List Range) × (w ≡ ranges rs)) ⊎ ((w ≡ limit_error) × TooLong lo end m)

  Ended-yield_first :
      (lo lo' end m : ℕ) (r : Range) (w : Windows)
      → lo ≤ lo'
      → Ended lo' end m w
      → Ended lo end m (yield_first r w)
  Ended-yield_first lo lo' end m r w h (inl (rs, e)) = inl (r ∷ rs, ap (yield_first r) e)
  Ended-yield_first lo lo' end m r w h (inr (e, x)) =
      inr (ap (yield_first r) e, raise lo lo' end m h x)

  -- `_window_ranges` ends within one turn for each line and one more, which is the fuel it is given
  -- here: it yields its windows, or raises RetrievalChunkLimitError and some line of the range is
  -- longer than `max_characters`.
  pub window_ranges-Ended :
      (fuel start end max_lines : ℕ) (limits : ChunkLimits)
      → end + 1 - start < fuel
      → Ended start end limits.max_characters (window_ranges lines fuel start end max_lines limits)
  window_ranges-Ended zero start end max_lines limits h = absurd (omega arith)
  window_ranges-Ended (suc fuel) start end max_lines limits h =
      loop_turn (Ended start end limits.max_characters) fuel start end max_lines limits
        (λ _. inl ([], refl))
        (λ le e. inr (
          refl,
          record {
            line = start;
            from_start = omega arith;
            to_end = le;
            long =
                fit_character_limit-none lines start (min end (start + max_lines - 1))
                  limits.max_characters e;
          },
        ))
        (λ fitted _ _ _. inl (record { first = start; last = fitted } ∷ [], refl))
        (λ fitted le e more.
          Ended-yield_first start (next_start start fitted limits.overlap_lines) end
            limits.max_characters _ _ (ground arith)
            (window_ranges-Ended fuel (next_start start fitted limits.overlap_lines) end max_lines
              limits (ground arith)))
