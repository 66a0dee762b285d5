-- ===== src/Judger/Verdict/Worst.antt =====
-- verdict.go: the verdict on a submission against the verdicts on its test cases.
use my_oj.Prelude.{
  ◌≤◌, ◌<◌, ◌≡◌, ◌↔◌, refl, Bool, true, ◌⊎◌, inl, inr, sym, ◌∙◌, subst, List, [], ◌∷◌, ltb,
  if◌then◌else◌, arith, Bool-cases,
}
use my_oj.Prelude.Int.{ℤ, pos}
use my_oj.Prelude.Word.{add64}
use my_oj.Models.Types.{SubmissionStatus, JudgeType, status_accepted}
use my_oj.Models.Judging.{TestCaseResult}
use my_oj.Judger.Verdict.{priority, worse_of, aggregate_from, aggregate, is_scored}

-- No test case has a verdict worse than this one.
abbrev pub NoneWorse : SubmissionStatus → List TestCaseResult → Type 0
NoneWorse s [] = Unit
NoneWorse s (r ∷ rs) = (priority r.status ≤ priority s) × NoneWorse s rs

abbrev pub SomeHas : SubmissionStatus → List TestCaseResult → Type 0
SomeHas s [] = ⊥
SomeHas s (r ∷ rs) = (r.status ≡ s) ⊎ SomeHas s rs

-- Every test case has a verdict that a judger gives.
abbrev pub AllJudged : List TestCaseResult → Type 0
AllJudged [] = Unit
AllJudged (r ∷ rs) = (0 < priority r.status) × AllJudged rs

abbrev pub AllAccepted : List TestCaseResult → Type 0
AllAccepted [] = Unit
AllAccepted (r ∷ rs) = (r.status ≡ status_accepted) × AllAccepted rs

-- The points of all test cases together, as the code adds them.
unfoldable pub points : ℤ → List TestCaseResult → ℤ
points total [] = total
points total (r ∷ rs) = points (add64 total r.score) rs

worse_of_least :
    (worst s : SubmissionStatus)
    → (priority worst ≤ priority (worse_of worst s))
      × (priority s ≤ priority (worse_of worst s))
      × ((worse_of worst s ≡ worst) ⊎ (worse_of worst s ≡ s))
unfolding worse_of
worse_of_least worst s = elim (Bool-cases (ltb (priority worst) (priority s))) [
  | inl worse ↦ rw worse (ground arith, omega arith, inr refl)
  | inr better ↦ rw better (omega arith, ground arith, inl refl)
]

source_of :
    {worst s : SubmissionStatus} {final w : SubmissionStatus} {rest : Type 0}
    → (w ≡ worst) ⊎ (w ≡ s)
    → (final ≡ w) ⊎ rest
    → (final ≡ worst) ⊎ ((s ≡ final) ⊎ rest)
source_of (inl p) (inl q) = inl (q ∙ p)
source_of (inr p) (inl q) = inr (inl (sym (q ∙ p)))
source_of _ (inr r) = inr (inr r)

aggregate_from-worst :
    (scored : Bool) (worst : SubmissionStatus) (total : ℤ) (rs : List TestCaseResult)
    → let final = (aggregate_from scored worst total rs).0 in
      (priority worst ≤ priority final) × NoneWorse final rs × ((final ≡ worst) ⊎ SomeHas final rs)
unfolding aggregate_from
aggregate_from-worst scored worst total [] = (omega arith, tt, inl refl)
aggregate_from-worst scored worst total (r ∷ rs) =
    let next = worse_of worst r.status in
    let total' = if scored then add64 total r.score else total in
    let (above, none_worse, source) = aggregate_from-worst scored next total' rs in
    let (above_worst, above_r, choice) = worse_of_least worst r.status in
    (omega arith, (omega arith, none_worse), source_of choice source)

aggregate_from-points :
    (worst : SubmissionStatus) (total : ℤ) (rs : List TestCaseResult)
    → (aggregate_from true worst total rs).1 ≡ points total rs
unfolding aggregate_from points
aggregate_from-points worst total [] = refl
aggregate_from-points worst total (r ∷ rs) =
    aggregate_from-points (worse_of worst r.status) (add64 total r.score) rs

is_scored-true : (jt : JudgeType) → is_scored jt ≡ true
is_scored-true jt = ground arith

only_accepted : (s : SubmissionStatus) → 0 < priority s → priority s ≤ 1 → s ≡ status_accepted
unfolding priority
only_accepted s h k = ground arith

all_accepted :
    (rs : List TestCaseResult) → AllJudged rs → NoneWorse status_accepted rs → AllAccepted rs
unfolding priority
all_accepted [] j n = tt
all_accepted (r ∷ rs) j n = (only_accepted r.status j.0 n.0, all_accepted rs j.1 n.1)

-- The verdict on a submission with test cases is at least as bad as that on each of them, in the
-- order SE, TLE, MLE, RE, WA, AC, and is the verdict on one of them or accepted; the score is the
-- sum of the points of all.
pub aggregate-worst :
    (r : TestCaseResult) (rs : List TestCaseResult) (jt : JudgeType)
    → let final = aggregate (r ∷ rs) jt in
      NoneWorse final.0 (r ∷ rs)
      × ((final.0 ≡ status_accepted) ⊎ SomeHas final.0 (r ∷ rs))
      × (final.1 ≡ points (pos 0) (r ∷ rs))
unfolding aggregate
aggregate-worst r rs jt =
    let (above, none_worse, source) =
      aggregate_from-worst (is_scored jt) status_accepted (pos 0) (r ∷ rs) in
    (
      none_worse,
      source,
      rw (is_scored-true jt) (aggregate_from-points status_accepted (pos 0) (r ∷ rs)),
    )

some_accepted :
    (s : SubmissionStatus) (rs : List TestCaseResult)
    → AllAccepted rs
    → SomeHas s rs
    → s ≡ status_accepted
some_accepted s [] all some = absurd some
some_accepted s (r ∷ rs) (a, all) (inl p) = sym p ∙ a
some_accepted s (r ∷ rs) (a, all) (inr p) = some_accepted s rs all p

-- A submission whose test cases all have a verdict of a judger is accepted exactly when each of
-- them is.
pub aggregate-accepted :
    (r : TestCaseResult) (rs : List TestCaseResult) (jt : JudgeType)
    → AllJudged (r ∷ rs)
    → ((aggregate (r ∷ rs) jt).0 ≡ status_accepted) ↔ AllAccepted (r ∷ rs)
aggregate-accepted r rs jt h =
    let (none_worse, source, total) = aggregate-worst r rs jt in
    (
      λ accepted. all_accepted (r ∷ rs) h (subst (λ s. NoneWorse s (r ∷ rs)) accepted none_worse),
      λ all. elim source [
        | inl accepted ↦ accepted
        | inr some ↦ some_accepted (aggregate (r ∷ rs) jt).0 (r ∷ rs) all some
      ],
    )
