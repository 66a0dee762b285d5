-- ===== src/Judger/Scheduler/Loop.antt =====
-- scheduler.go: the loop over the test cases and the deadline.
use Prim.Native.String.{String}
use my_oj.Prelude.{
  ℕ, suc, ◌+◌, ◌≡◌, ◌∙◌, subst, Bool, false, none, List, [], ◌∷◌, inl, inr, length, length-append,
  Option-cases, Bool-cases, arith,
}
use my_oj.Models.Types.{JudgeType, status_accepted}
use my_oj.Models.Judging.{JudgeTask, JudgeTestCase, TestCaseResult}
use my_oj.Mq.Messages.{ResultMessage}
use my_oj.Judger.Verdict.{Verdict, aggregate}
use my_oj.Judger.Verdict.Worst.{NoneWorse, aggregate-worst}
use my_oj.Judger.Step.{
  Event, made_workdir, removed_workdir, prepared, released, fetched_testcases, compiled,
  ran_test_case, sent, refused, Outcome, returned, failed, panicked, Step, ◌>>=◌,
}
use my_oj.Judger.Scheduler.{
  Host, Orchestrator, Progress, publish_result, record_verdict, request_for, judge_cases,
}
use my_oj.Judger.Scheduler.Trace.{tally, AllEvents, AllEvents-append}
use my_oj.Judger.Scheduler.Reports.{is_sent}

-- What a stage returns, if it returns.
abbrev pub Returns {ℓ} : {A : Type ℓ} → (A → Type 0) → Outcome A → Type 0
Returns Q (returned a) = Q a
Returns Q (failed e) = Unit
Returns Q (panicked e) = Unit

Returns->>= {ℓ ℓ'} :
    {A : Type ℓ} {B : Type ℓ'} (Q : A → Type 0) (R : B → Type 0) (s : Step A) (f : A → Step B)
    → Returns Q s.1
    → ((a : A) → Q a → Returns R (f a).1)
    → Returns R (s >>= f).1
unfolding ◌>>=◌
Returns->>= Q R (es, returned a) f q h = h a q
Returns->>= Q R (es, failed e) f q h = tt
Returns->>= Q R (es, panicked e) f q h = tt

pub AllEvents->>= {ℓ ℓ'} :
    {A : Type ℓ} {B : Type ℓ'} (P : Event → Type 0) (Q : A → Type 0) (s : Step A) (f : A → Step B)
    → AllEvents P s.0
    → Returns Q s.1
    → ((a : A) → Q a → AllEvents P (f a).0)
    → AllEvents P (s >>= f).0
unfolding ◌>>=◌
AllEvents->>= P Q (es, returned a) f all q h = AllEvents-append P es (f a).0 all (h a q)
AllEvents->>= P Q (es, failed e) f all q h = all
AllEvents->>= P Q (es, panicked e) f all q h = all

-- `n` test cases were run and none has a verdict worse than accepted, if the event reports accepted.
abbrev pub Complete : ℕ → Event → Type 0
Complete n (sent r) =
    r.status ≡ status_accepted
    → (length r.test_case_results ≡ n) × NoneWorse status_accepted r.test_case_results
Complete n _ = Unit

pub quiet-Complete : (n : ℕ) (es : List Event) → tally is_sent es ≡ 0 → AllEvents (Complete n) es
unfolding tally
quiet-Complete n [] q = tt
quiet-Complete n (made_workdir ∷ es) q = (tt, quiet-Complete n es (omega arith))
quiet-Complete n (removed_workdir ∷ es) q = (tt, quiet-Complete n es (omega arith))
quiet-Complete n (prepared ∷ es) q = (tt, quiet-Complete n es (omega arith))
quiet-Complete n (released ∷ es) q = (tt, quiet-Complete n es (omega arith))
quiet-Complete n (fetched_testcases k ∷ es) q = (tt, quiet-Complete n es (omega arith))
quiet-Complete n (compiled ∷ es) q = (tt, quiet-Complete n es (omega arith))
quiet-Complete n (ran_test_case i ∷ es) q = (tt, quiet-Complete n es (omega arith))
quiet-Complete n (sent r ∷ es) q = absurd (omega (arith, q))
quiet-Complete n (refused r ∷ es) q = (tt, quiet-Complete n es (omega arith))

pub publish_result-Complete :
    (n : ℕ) (h : Host) (ended : Bool) (r : ResultMessage)
    → (h.publish ended r ≡ none → Complete n (sent r))
    → AllEvents (Complete n) (publish_result h ended r).0
unfolding publish_result
publish_result-Complete n h ended r c = elim (Option-cases (h.publish ended r)) [
  | inl e ↦ rw (e, publish_result) (c e, tt)
  | inr (err, e) ↦ rw (e, publish_result) (tt, tt)
]

pub aggregate-NoneWorse :
    (rs : List TestCaseResult) (jt : JudgeType)
    → (aggregate rs jt).0 ≡ status_accepted
    → NoneWorse status_accepted rs
unfolding aggregate
aggregate-NoneWorse [] jt e = tt
aggregate-NoneWorse (r ∷ rs) jt e = subst (λ s. NoneWorse s (r ∷ rs)) e (aggregate-worst r rs jt).0

-- The loop has a result for each test case, unless the deadline has passed.
abbrev pub Whole : ℕ → Progress → Type 0
Whole n p = p.aborted ≡ false → length p.results ≡ n

record_verdict-Returns :
    (tc : JudgeTestCase) (p : Progress) (out : Outcome Verdict)
    → Returns (λ q. length q.results ≡ suc (length p.results)) (record_verdict tc p out)
unfolding record_verdict
record_verdict-Returns tc p (returned v) = length-append p.results _ ∙ omega arith
record_verdict-Returns tc p (failed e) = length-append p.results _ ∙ omega arith
record_verdict-Returns tc p (panicked e) = tt

pub judge_cases-Whole :
    (h : Host) (orch : Orchestrator) (task : JudgeTask) (run_cmd : List String) (i : ℕ)
    (tcs : List JudgeTestCase) (p : Progress)
    → Returns (Whole (length p.results + length tcs)) (judge_cases h orch task run_cmd i tcs p).1
unfolding judge_cases
judge_cases-Whole h orch task run_cmd i [] p = λ live. omega arith
judge_cases-Whole h orch task run_cmd i (tc ∷ tcs) p = elim (Bool-cases (h.expired i)) [
  | inl e ↦ rw (e, judge_cases) (λ live. absurd (ground (arith, live)))
  | inr e ↦
      rw (e, judge_cases)
        (Returns->>= (λ q. length q.results ≡ suc (length p.results))
          (Whole (length p.results + suc (length tcs)))
          (ran_test_case i ∷ [], record_verdict tc p (orch i (request_for task run_cmd tc)))
          (judge_cases h orch task run_cmd (suc i) tcs)
          (record_verdict-Returns tc p (orch i (request_for task run_cmd tc)))
          (λ q grown.
            subst (λ n. Returns (Whole n) (judge_cases h orch task run_cmd (suc i) tcs q).1)
              (omega (arith, grown)) (judge_cases-Whole h orch task run_cmd (suc i) tcs q)))
]
