-- ===== src/TestRunner/Post.antt =====
-- Reasoning on the steps of backend/app/services/test_runner.py: what holds if a step returns a value.
use issue_pilot.Prelude.{◌≡◌, refl, subst, Bool, true, false, if◌then◌else◌}
use issue_pilot.TestRunner.Container.{
  Answer, History, Step, done, unavailable, system_error, continue,
}

module _ {ℓ} {A : Type ℓ} where
  -- If a value was returned, it and the commands up to then satisfy `P`.
  abbrev pub Post {κ} : (A → History → Type κ) → Answer A × History → Type κ
  Post P (done a, history) = P a history
  Post P (unavailable, history) = Unit
  Post P (system_error, history) = Unit

  pub Post-always {κ} :
      (P : A → History → Type κ) (r : Answer A × History)
      → ((a : A) (history : History) → P a history)
      → Post P r
  Post-always P (done a, history) f = f a history
  Post-always P (unavailable, history) f = tt
  Post-always P (system_error, history) f = tt

  pub Post-result {κ} :
      (P : A → History → Type κ) (r : Answer A × History) (a : A) (history : History)
      → Post P r
      → r ≡ (done a, history)
      → P a history
  Post-result P r a history p e = subst (Post P) e p

  pub Post-if {κ} :
      (P : A → History → Type κ) (b : Bool) (x y : Step A) (history : History)
      → (b ≡ true → Post P (x history))
      → (b ≡ false → Post P (y history))
      → Post P ((if b then x else y) history)
  Post-if P true x y history p q = p refl
  Post-if P false x y history p q = q refl

module _ {ℓ κ} {A : Type ℓ} {B : Type κ} where
  pub Post-continue {ι μ} :
      (P : A → History → Type ι) (Q : B → History → Type μ) (first : Answer A × History)
      (next : A → Step B)
      → Post P first
      → ((a : A) (history : History) → P a history → Post Q (next a history))
      → Post Q (continue first next)
  Post-continue P Q (done a, history) next p f = f a history p
  Post-continue P Q (unavailable, history) next p f = tt
  Post-continue P Q (system_error, history) next p f = tt

  -- What holds after any first step.
  pub Post-after {ι} :
      (P : B → History → Type ι) (first : Step A) (next : A → Step B) (history : History)
      → ((a : A) (h : History) → Post P (next a h))
      → Post P (continue (first history) next)
  Post-after P first next history f =
      Post-continue (λ _ _. Unit {0}) P (first history) next
        (Post-always (λ _ _. Unit {0}) (first history) (λ _ _. tt)) (λ a h _. f a h)
