-- ===== src/Chunker/Ordering.antt =====
-- Tests on texts and the stable `sorted(...)` of backend/app/retrieval/chunker.py.
use issue_pilot.Prelude.{
  ◌+◌, ◌≡◌, refl, Bool, true, false, ◌&&◌, ◌||◌, if◌then◌else◌, List, [], ◌∷◌, All, ltb, ◌==◌,
  ==_iff, ==_refl, Bool-cases, inl, inr, arith,
}
use issue_pilot.Prelude.Table.{count}
use issue_pilot.Chunker.Source.{Text}

-- a == b
abbrev pub text_eq : Text → Text → Bool
text_eq [] [] = true
text_eq (a ∷ as') (b ∷ bs) = (a == b) && text_eq as' bs
text_eq _ _ = false

-- a < b, by code points
abbrev pub text_lt : Text → Text → Bool
text_lt [] [] = false
text_lt [] (b ∷ bs) = true
text_lt (a ∷ as') [] = false
text_lt (a ∷ as') (b ∷ bs) = ltb a b || (a == b) && text_lt as' bs

pub text_eq_refl : (a : Text) → text_eq a a ≡ true
text_eq_refl [] = refl
text_eq_refl (a ∷ as') = ground (arith, ==_refl a, text_eq_refl as')

pub text_eq_sound : (a b : Text) → text_eq a b ≡ true → a ≡ b
text_eq_sound [] [] h = refl
text_eq_sound [] (b ∷ bs) h = ground arith
text_eq_sound (a ∷ as') [] h = ground arith
text_eq_sound (a ∷ as') (b ∷ bs) h = ground (arith, ==_iff a b, text_eq_sound as' bs)

module _ {ℓ} {A : Type ℓ} (before : A → A → Bool) where
  -- Before the first element that is strictly later: equal elements keep their order.
  unfoldable pub insert_sorted : A → List A → List A
  insert_sorted x [] = x ∷ []
  insert_sorted x (y ∷ ys) =
      let later = insert_sorted x ys in if before x y then x ∷ y ∷ ys else y ∷ later

  unfoldable pub sorted_onto : (done items : List A) → List A
  sorted_onto done [] = done
  sorted_onto done (x ∷ xs) = sorted_onto (insert_sorted x done) xs

  -- sorted(items, key=...), where `before` is `<` on the keys
  unfoldable pub sorted : List A → List A
  sorted items = sorted_onto [] items

  count-insert_sorted :
      (q : A → Bool) (x : A) (xs : List A)
      → count q (insert_sorted x xs) ≡ (if q x then 1 else 0) + count q xs
  unfolding insert_sorted count
  count-insert_sorted q x [] = refl
  count-insert_sorted q x (y ∷ ys) = ground (arith, count-insert_sorted q x ys)

  count-sorted_onto :
      (q : A → Bool) (done xs : List A) → count q (sorted_onto done xs) ≡ count q done + count q xs
  unfolding sorted_onto count
  count-sorted_onto q done [] = omega arith
  count-sorted_onto q done (x ∷ xs) =
      ground (arith, count-sorted_onto q (insert_sorted x done) xs, count-insert_sorted q x done)

  pub count-sorted : (q : A → Bool) (xs : List A) → count q (sorted xs) ≡ count q xs
  unfolding sorted count
  count-sorted q xs = omega (arith, count-sorted_onto q [] xs)

module _ {ℓ κ} {A : Type ℓ} (before : A → A → Bool) (P : A → Type κ) where
  All-insert_sorted : (x : A) (xs : List A) → P x → All P xs → All P (insert_sorted before x xs)
  unfolding insert_sorted
  All-insert_sorted x [] p h = (p, tt)
  All-insert_sorted x (y ∷ ys) p (q, h) = elim (Bool-cases (before x y)) [
    | inl e ↦ rw e (p, (q, h))
    | inr e ↦ rw e (q, All-insert_sorted x ys p h)
  ]

  All-sorted_onto : (done xs : List A) → All P done → All P xs → All P (sorted_onto before done xs)
  unfolding sorted_onto
  All-sorted_onto done [] h k = h
  All-sorted_onto done (x ∷ xs) h (p, k) =
      All-sorted_onto (insert_sorted before x done) xs (All-insert_sorted x done p h) k

  pub All-sorted : (xs : List A) → All P xs → All P (sorted before xs)
  unfolding sorted
  All-sorted xs h = All-sorted_onto [] xs tt h
