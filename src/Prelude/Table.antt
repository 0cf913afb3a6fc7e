-- ===== src/Prelude/Table.antt =====
-- A database table is the list of its rows, oldest first. A query that selects one row takes the
-- first that fits, and an update of a loaded row changes the row with its primary key.
use Prim.Native.Nat.{ℕ, ◌+◌, ◌≤◌}
use mathlib.Core.Path.{◌≡◌, refl, sym, subst}
use mathlib.Core.Logic.{inl, inr}
use mathlib.Core.Option
use mathlib.Core.Option.{Option, none, some}
use mathlib.Core.Bool.{Bool, true, false}
use mathlib.Core.List.{List, [], ◌∷◌, ◌++◌}
use native.Mathlib.Omega.{arith}
use issue_pilot.Prelude.Tests.{◌==◌, ==_iff, Bool-cases, if◌then◌else◌}
use issue_pilot.Prelude.Lists.{All}

module _ {ℓ} {A : Type ℓ} where
  unfoldable pub find : (A → Bool) → List A → Option A
  find q [] = none
  find q (r ∷ rows) = if q r then some r else find q rows

  unfoldable pub count : (A → Bool) → List A → ℕ
  count q [] = 0
  count q (r ∷ rows) = (if q r then 1 else 0) + count q rows

  unfoldable pub filter : (A → Bool) → List A → List A
  filter q [] = []
  filter q (r ∷ rows) = let rest = filter q rows in if q r then r ∷ rest else rest

  pub find_sound : (q : A → Bool) (rows : List A) (r : A) → find q rows ≡ some r → q r ≡ true
  unfolding find
  find_sound q [] r h = ground arith
  find_sound q (x ∷ rows) r h = ground (arith, find_sound q rows r)

  pub count-append : (q : A → Bool) (xs ys : List A) → count q (xs ++ ys) ≡ count q xs + count q ys
  unfolding count
  count-append q [] ys = omega arith
  count-append q (x ∷ xs) ys = omega (arith, count-append q xs ys)

  pub count-one : (q : A → Bool) (x : A) → count q (x ∷ []) ≤ 1
  unfolding count
  count-one q x = ground arith

  pub count-none : (q : A → Bool) (x : A) → q x ≡ false → count q (x ∷ []) ≡ 0
  unfolding count
  count-none q x h = ground arith

  pub find-append_fresh :
      (q : A → Bool) (xs : List A) (y : A)
      → find q xs ≡ none
      → find q (xs ++ y ∷ []) ≡ (if q y then some y else none)
  unfolding find
  find-append_fresh q [] y h = refl
  find-append_fresh q (x ∷ xs) y h = ground (arith, find-append_fresh q xs y)

  pub find-append_old :
      (q : A → Bool) (xs ys : List A) (r : A) → find q xs ≡ some r → find q (xs ++ ys) ≡ some r
  unfolding find
  find-append_old q [] ys r h = ground arith
  find-append_old q (x ∷ xs) ys r h = ground (arith, find-append_old q xs ys r)

  pub count-pos_of_find :
      (q : A → Bool) (rows : List A) (r : A) → find q rows ≡ some r → 1 ≤ count q rows
  unfolding find count
  count-pos_of_find q [] r h = ground arith
  count-pos_of_find q (x ∷ rows) r h = ground (arith, count-pos_of_find q rows r)

module _ {ℓ κ} {A : Type ℓ} (P : A → Type κ) where
  pub All-find : (q : A → Bool) (rows : List A) (r : A) → All P rows → find q rows ≡ some r → P r
  unfolding find
  All-find q [] r a h = ground arith
  All-find q (x ∷ rows) r a h = ground (arith, All-find q rows r)

-- Some row fits.
abbrev pub exists {ℓ} : {A : Type ℓ} → (A → Bool) → List A → Bool
exists q rows = elim (find q rows) [ none ↦ false | some _ ↦ true ]

module _ {ℓ} {A : Type ℓ} where
  pub exists_none_of_count :
      (q : A → Bool) (rows : List A) → count q rows ≡ 0 → exists q rows ≡ false
  unfolding find count
  exists_none_of_count q [] h = refl
  exists_none_of_count q (r ∷ rows) h = ground (arith, exists_none_of_count q rows)

  pub find-none_of_count : (q : A → Bool) (rows : List A) → count q rows ≡ 0 → find q rows ≡ none
  unfolding find count
  find-none_of_count q [] h = refl
  find-none_of_count q (r ∷ rows) h = ground (arith, find-none_of_count q rows)

  pub exists_none_of_parts :
      (a b c : A → Bool) (rows : List A)
      → ((r : A) → a r ≡ false → b r ≡ false → c r ≡ false)
      → exists a rows ≡ false
      → exists b rows ≡ false
      → exists c rows ≡ false
  unfolding find
  exists_none_of_parts a b c [] parts p q = refl
  exists_none_of_parts a b c (r ∷ rows) parts p q =
      ground (arith, parts r, exists_none_of_parts a b c rows parts)

-- Rows with a primary key.
module _ {ℓ} {A : Type ℓ} (key : A → ℕ) where
  abbrev pub get : ℕ → List A → Option A
  get k = find (λ r. key r == k)

  unfoldable pub modify : ℕ → (A → A) → List A → List A
  modify k f [] = []
  modify k f (r ∷ rows) = if key r == k then f r ∷ rows else r ∷ modify k f rows

  pub get-modify :
      (j k : ℕ) (f : A → A) (rows : List A)
      → ((r : A) → key (f r) ≡ key r)
      → get j (modify k f rows) ≡ (if j == k then Option.map f (get j rows) else get j rows)
  unfolding find modify
  get-modify j k f [] same = ground arith
  get-modify j k f (r ∷ rows) same = ground (arith, same r, get-modify j k f rows same)

  -- Exactly the row that `get` finds is changed.
  pub count-modify :
      (q : A → Bool) (k : ℕ) (f : A → A) (rows : List A) (r : A)
      → get k rows ≡ some r
      → count q (modify k f rows) + (if q r then 1 else 0)
        ≡ count q rows + (if q (f r) then 1 else 0)
  unfolding find modify count
  count-modify q k f [] r h = ground arith
  count-modify q k f (x ∷ rows) r h = ground (arith, count-modify q k f rows r)

  pub All-modify {κ} :
      (P : A → Type κ) (k : ℕ) (f : A → A) (rows : List A)
      → ((r : A) → P r → P (f r))
      → All P rows
      → All P (modify k f rows)
  unfolding modify
  All-modify P k f [] keep h = tt
  All-modify P k f (r ∷ rows) keep h = ground (arith, keep r, All-modify P k f rows keep)

  -- What holds of every key and what is stored under it survives an update and an insertion.
  pub get-modify_all {κ} :
      (Q : ℕ → Option A → Type κ) (k : ℕ) (f : A → A) (rows : List A)
      → ((r : A) → key (f r) ≡ key r)
      → ((j : ℕ) → Q j (get j rows))
      → ((r : A) → get k rows ≡ some r → Q k (some (f r)))
      → (j : ℕ) → Q j (get j (modify k f rows))
  get-modify_all Q k f rows same h new j =
      rw (get-modify j k f rows same) (elim (Bool-cases (j == k)) [
        | inl e ↦ rw e (
            subst (λ i. Q i (Option.map f (get i rows))) (sym ((==_iff j k).0 e))
              (at_key (get k rows) refl))
        | inr e ↦ rw e (h j)
      ])
    where
      at_key : (o : Option A) → get k rows ≡ o → Q k (Option.map f o)
      at_key none e = rw e at (h k)
      at_key (some r) e = new r e

  pub get-append_all {κ} :
      (Q : ℕ → Option A → Type κ) (rows : List A) (r : A)
      → ((j : ℕ) → Q j (get j rows))
      → Q (key r) (some r)
      → (j : ℕ) → Q j (get j (rows ++ r ∷ []))
  get-append_all Q rows r h new j = at_key (get j rows) refl
    where
      fresh : get j rows ≡ none → Q j (if key r == j then some r else none)
      fresh e = elim (Bool-cases (key r == j)) [
        | inl p ↦ rw p (subst (λ i. Q i (some r)) ((==_iff (key r) j).0 p) new)
        | inr p ↦ rw p (rw e at (h j))
      ]

      at_key : (o : Option A) → get j rows ≡ o → Q j (get j (rows ++ r ∷ []))
      at_key none e = rw (find-append_fresh (λ x. key x == j) rows r e) (fresh e)
      at_key (some x) e = rw (find-append_old (λ x. key x == j) rows (r ∷ []) x e) (rw e at (h j))

  pub get-modify_self :
      (k : ℕ) (f : A → A) (rows : List A) (r : A)
      → ((x : A) → key (f x) ≡ key x)
      → get k rows ≡ some r
      → get k (modify k f rows) ≡ some (f r)
  get-modify_self k f rows r same h =
      rw (get-modify k k f rows same) (ground (arith, ==_iff k k, h))

  -- An update that a test does not see.
  pub exists-modify :
      (q : A → Bool) (k : ℕ) (f : A → A) (rows : List A)
      → ((r : A) → q (f r) ≡ q r)
      → exists q (modify k f rows) ≡ exists q rows
  unfolding find modify
  exists-modify q k f [] same = refl
  exists-modify q k f (r ∷ rows) same = ground (arith, same r, exists-modify q k f rows same)
