-- ===== src/Judger/Scheduler/Accepted.antt =====
-- scheduler.go: the test cases of a submission that is reported as accepted.
use Prim.Native.String.{String}
use my_oj.Prelude.{
  ℕ, suc, ◌≡◌, refl, ap, subst, Bool, true, false, ◌||◌, none, some, List, [], ◌∷◌, ◌⊎◌, inl, inr,
  length, map, Option-cases, Bool-elim, if◌then◌else◌, arith,
}
use my_oj.Models.Types.{status_accepted, status_ce, status_se}
use my_oj.Models.Judging.{Bytes, JudgeTask, JudgeTestCase}
use my_oj.Mq.Messages.{ResultMessage}
use my_oj.Judger.Verdict.Worst.{NoneWorse}
use my_oj.Judger.Compiler.{CompileResult, time_limit_multiplier}
use my_oj.Judger.Step.{
  Event, sent, Outcome, returned, failed, panicked, Step, defer_event, perform, ◌>>=◌,
}
use my_oj.Judger.Scheduler.{
  Host, Progress, no_progress, publish_result, publish_se, result_for, judge_cases, report, judge,
  judge_compiled, in_session, in_workdir, resolve_paths, run_state_machine, settle, handle_message,
  scaled_limit,
}
use my_oj.Judger.Scheduler.Trace.{AllEvents, AllEvents-append}
use my_oj.Judger.Scheduler.Reports.{is_sent, judge_cases-quiet}
use my_oj.Judger.Scheduler.Loop.{
  Returns, AllEvents->>=, Complete, Whole, quiet-Complete, publish_result-Complete,
  aggregate-NoneWorse, judge_cases-Whole,
}

abbrev pub Occurs : Event → List Event → Type 0
Occurs e [] = ⊥
Occurs e (x ∷ xs) = (x ≡ e) ⊎ Occurs e xs

live_publish :
    (h : Host) (aborted ended : Bool) (r : ResultMessage)
    → ((r : ResultMessage) → ¬ (h.publish true r ≡ none))
    → h.publish (aborted || ended) r ≡ none
    → aborted ≡ false
live_publish h true ended r late taken = absurd (late r taken)
live_publish h false ended r late taken = refl

report-Complete :
    (h : Host) (task : JudgeTask) (cr : CompileResult) (n : ℕ) (p : Progress)
    → ((r : ResultMessage) → ¬ (h.publish true r ≡ none))
    → Whole n p
    → AllEvents (Complete n) (report h task cr p).0
unfolding report
report-Complete h task cr n p late whole =
    publish_result-Complete n h (p.aborted || h.expired_at_end) _ (λ taken status. (
      whole (live_publish h p.aborted h.expired_at_end _ late taken),
      aggregate-NoneWorse p.results task.judge_type status,
    ))

judge-Complete :
    (h : Host) (task : JudgeTask) (cr : CompileResult)
    → ((r : ResultMessage) → ¬ (h.publish true r ≡ none))
    → AllEvents (Complete (length task.test_cases)) (judge h task cr).0
unfolding judge
judge-Complete h task cr late = elim (Option-cases (h.registry task.judge_type)) [
  | inl e ↦ rw (e, judge) tt
  | inr (orch, e) ↦
      let scaled = record task {
        time_limit_ms =
            scaled_limit (time_limit_multiplier h.tools task.language) task.time_limit_ms;
      } in
      rw (e, judge)
        (AllEvents->>= (Complete (length task.test_cases)) (Whole (length task.test_cases))
          (judge_cases h orch scaled cr.run_cmd 0 task.test_cases no_progress) (report h task cr)
          (quiet-Complete _ _ (
            judge_cases-quiet is_sent (λ i. refl) h orch scaled cr.run_cmd 0 task.test_cases
              no_progress))
          (subst
            (λ n.
              Returns (Whole n)
                (judge_cases h orch scaled cr.run_cmd 0 task.test_cases no_progress).1)
            (omega arith)
            (judge_cases-Whole h orch scaled cr.run_cmd 0 task.test_cases no_progress))
          (λ p whole. report-Complete h task cr (length task.test_cases) p late whole))
]

not_accepted_ce : ¬ (status_ce ≡ status_accepted)
not_accepted_ce e = ground (arith, e)

not_accepted_se : ¬ (status_se ≡ status_accepted)
not_accepted_se e = ground (arith, e)

judge_compiled-Complete :
    (h : Host) (task : JudgeTask) (cr : CompileResult)
    → ((r : ResultMessage) → ¬ (h.publish true r ≡ none))
    → AllEvents (Complete (length task.test_cases)) (judge_compiled h task cr).0
unfolding judge_compiled
judge_compiled-Complete h task cr late =
    Bool-elim cr.success
      (λ b.
        AllEvents (Complete (length task.test_cases))
          (if b
            then judge h task cr
            else publish_result h h.expired_at_compile
                (record (result_for h task status_ce) { compile_log = cr.log })).0)
      (judge-Complete h task cr late)
      (publish_result-Complete _ h _ _ (λ q status. absurd (not_accepted_ce status)))

perform-then-Complete {ℓ ℓ'} :
    {A : Type ℓ} {B : Type ℓ'} (n : ℕ) (e : Event) (out : Outcome A) (f : A → Step B)
    → Complete n e
    → ((a : A) → AllEvents (Complete n) (f a).0)
    → AllEvents (Complete n) (perform e out >>= f).0
unfolding perform ◌>>=◌
perform-then-Complete n e (returned a) f c h = (c, h a)
perform-then-Complete n e (failed x) f c h = tt
perform-then-Complete n e (panicked x) f c h = tt

defer-Complete {ℓ} :
    {A : Type ℓ} (n : ℕ) (e : Event) (s : Step A)
    → Complete n e
    → AllEvents (Complete n) s.0
    → AllEvents (Complete n) (defer_event e s).0
unfolding defer_event
defer-Complete n e (es, out) c all = AllEvents-append (Complete n) es (e ∷ []) all (c, tt)

length-map_paths :
    (h : Host) (dir : String) (tcs : List JudgeTestCase)
    → length (map (resolve_paths h dir) tcs) ≡ length tcs
length-map_paths h dir [] = refl
length-map_paths h dir (tc ∷ tcs) = ap suc (length-map_paths h dir tcs)

run_state_machine-Complete :
    (h : Host) (task : JudgeTask)
    → ((r : ResultMessage) → ¬ (h.publish true r ≡ none))
    → AllEvents (Complete (length task.test_cases)) (run_state_machine h task).0
unfolding run_state_machine in_workdir in_session
run_state_machine-Complete h task late =
    let n = length task.test_cases in
    perform-then-Complete n _ _ _ tt (λ u. defer-Complete n _ _ tt (
      perform-then-Complete n _ _ _ tt (λ u. defer-Complete n _ _ tt (
        perform-then-Complete n _ _ _ tt (λ dir. perform-then-Complete n _ _ _ tt (λ cr.
          let resolved = record task { test_cases = map (resolve_paths h dir) task.test_cases } in
          subst (λ m. AllEvents (Complete m) (judge_compiled h resolved cr).0)
            (length-map_paths h dir task.test_cases)
            (judge_compiled-Complete h resolved cr late)))))))

publish_se-Complete :
    (n : ℕ) (h : Host) (task : JudgeTask) (msg : Bytes)
    → AllEvents (Complete n) (publish_se h task msg).0
unfolding publish_se
publish_se-Complete n h task msg =
    publish_result-Complete n h false _ (λ q status. absurd (not_accepted_se status))

settle-Complete :
    (n : ℕ) (h : Host) (task : JudgeTask) (s : Step {0} Unit)
    → AllEvents (Complete n) s.0
    → AllEvents (Complete n) (settle h task s)
unfolding settle
settle-Complete n h task (es, returned u) all = all
settle-Complete n h task (es, failed e) all =
    AllEvents-append (Complete n) es _ all (publish_se-Complete n h task e)
settle-Complete n h task (es, panicked e) all =
    AllEvents-append (Complete n) es _ all (publish_se-Complete n h task _)

pub occurs-AllEvents :
    (P : Event → Type 0) (e : Event) (es : List Event) → AllEvents P es → Occurs e es → P e
occurs-AllEvents P e [] all o = absurd o
occurs-AllEvents P e (x ∷ es) (p, all) (inl same) = subst P same p
occurs-AllEvents P e (x ∷ es) (p, all) (inr o) = occurs-AllEvents P e es all o

-- When the queue takes nothing on a context that has ended, a submission that is reported as accepted
-- has a result for each test case of its task, and none is worse than accepted: a task that is cut
-- short by the deadline is never accepted.
pub handle_message_accepted_complete :
    (h : Host) (task : JudgeTask) (r : ResultMessage)
    → ((r : ResultMessage) → ¬ (h.publish true r ≡ none))
    → Occurs (sent r) (handle_message h (some task))
    → r.status ≡ status_accepted
    → (length r.test_case_results ≡ length task.test_cases)
      × NoneWorse status_accepted r.test_case_results
unfolding handle_message
handle_message_accepted_complete h task r late o status =
    occurs-AllEvents (Complete (length task.test_cases)) (sent r) _
      (settle-Complete _ h task _ (run_state_machine-Complete h task late)) o status
