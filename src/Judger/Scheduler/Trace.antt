-- ===== src/Judger/Scheduler/Trace.antt =====
-- Traces of the stages: how often something happens in one, and what holds of each of its events.
use my_oj.Prelude.{ℕ, ◌+◌, ◌≡◌, refl, List, [], ◌∷◌, ◌++◌, arith, ◌∙◌}
use my_oj.Judger.Step.{
  Event, Outcome, returned, failed, panicked, Step, defer_event, perform, ◌>>=◌,
}

-- The sum of the weights of the events.
unfoldable pub tally : (Event → ℕ) → List Event → ℕ
tally w [] = 0
tally w (e ∷ es) = w e + tally w es

pub tally-append :
    (w : Event → ℕ) (es fs : List Event) → tally w (es ++ fs) ≡ tally w es + tally w fs
unfolding tally
tally-append w [] fs = omega arith
tally-append w (e ∷ es) fs = omega (arith, tally-append w es fs)

abbrev pub AllEvents {ℓ} : (Event → Type ℓ) → List Event → Type ℓ
AllEvents P [] = Unit
AllEvents P (e ∷ es) = P e × AllEvents P es

pub AllEvents-append {ℓ} :
    (P : Event → Type ℓ) (es fs : List Event)
    → AllEvents P es
    → AllEvents P fs
    → AllEvents P (es ++ fs)
AllEvents-append P [] fs a b = b
AllEvents-append P (e ∷ es) fs (a, rest) b = (a, AllEvents-append P es fs rest b)

-- How many results a stage owes for the way that it ended.
abbrev pub owed {ℓ} : {A : Type ℓ} → Outcome A → ℕ
owed (returned a) = 1
owed (failed e) = 0
owed (panicked e) = 0

module _ {ℓ} {A : Type ℓ} (w : Event → ℕ) where
  -- A stage that sends nothing, followed by one that sends what it owes.
  pub tally->>= :
      (s : Step A) (f : A → Step {0} Unit)
      → tally w s.0 ≡ 0
      → ((a : A) → tally w (f a).0 ≡ owed (f a).1)
      → tally w (s >>= f).0 ≡ owed (s >>= f).1
  unfolding ◌>>=◌
  tally->>= (es, returned a) f quiet last = tally-append w es (f a).0 ∙ omega (arith, quiet, last a)
  tally->>= (es, failed e) f quiet last = quiet
  tally->>= (es, panicked e) f quiet last = quiet

  pub tally-perform : (e : Event) (out : Outcome A) → w e ≡ 0 → tally w (perform e out).0 ≡ 0
  unfolding tally perform
  tally-perform e (returned a) h = omega arith
  tally-perform e (failed x) h = refl
  tally-perform e (panicked x) h = refl

  pub tally-defer :
      (e : Event) (s : Step A)
      → w e ≡ 0
      → tally w s.0 ≡ owed s.1
      → tally w (defer_event e s).0 ≡ owed (defer_event e s).1
  unfolding tally defer_event
  tally-defer e (es, out) h k = tally-append w es (e ∷ []) ∙ omega (arith, h, k)

module _ {ℓ ℓ'} {A : Type ℓ} {B : Type ℓ'} (w : Event → ℕ) where
  -- Two stages in which nothing has a weight.
  pub tally-quiet :
      (s : Step A) (f : A → Step B)
      → tally w s.0 ≡ 0
      → ((a : A) → tally w (f a).0 ≡ 0)
      → tally w (s >>= f).0 ≡ 0
  unfolding ◌>>=◌
  tally-quiet (es, returned a) f quiet last =
      tally-append w es (f a).0 ∙ omega (arith, quiet, last a)
  tally-quiet (es, failed e) f quiet last = quiet
  tally-quiet (es, panicked e) f quiet last = quiet
