-- ===== src/Judger/Scheduler/Attributed.antt =====
-- scheduler.go: whose results are published for a task.
use my_oj.Prelude.{
  ℕ, ◌≡◌, refl, Bool, false, some, List, [], ◌∷◌, map, inl, inr, Option-cases, Bool-elim,
  if◌then◌else◌, arith,
}
use my_oj.Models.Types.{status_ce}
use my_oj.Models.Judging.{Bytes, JudgeTask}
use my_oj.Mq.Messages.{ResultMessage}
use my_oj.Judger.Compiler.{CompileResult, time_limit_multiplier}
use my_oj.Judger.Step.{
  Event, made_workdir, removed_workdir, prepared, released, fetched_testcases, compiled,
  ran_test_case, sent, refused, Outcome, returned, failed, panicked, Step, defer_event, perform,
  ◌>>=◌,
}
use my_oj.Judger.Scheduler.{
  Host, no_progress, publish_result, publish_se, result_for, judge_cases, report, judge,
  judge_compiled, in_session, in_workdir, resolve_paths, run_state_machine, settle, handle_message,
  scaled_limit,
}
use my_oj.Judger.Scheduler.Trace.{tally, AllEvents, AllEvents-append}
use my_oj.Judger.Scheduler.Reports.{judge_cases-quiet}
use my_oj.Judger.Scheduler.Accepted.{Occurs, occurs-AllEvents}

-- The result is about the submission of the task, as the task describes it.
abbrev pub IsResultOf : JudgeTask → ResultMessage → Type 0
IsResultOf task r =
    (r.task_id ≡ task.task_id)
    × (r.submission_id ≡ task.submission_id)
    × (r.user_id ≡ task.user_id)
    × (r.problem_id ≡ task.problem_id)
    × (r.contest_id ≡ task.contest_id)
    × (r.submitted_at ≡ task.submitted_at)

abbrev Attributed : JudgeTask → Event → Type 0
Attributed task (sent r) = IsResultOf task r
Attributed task (refused r) = IsResultOf task r
Attributed task _ = Unit

-- 1 for a publication.
abbrev is_publication : Event → ℕ
is_publication (sent r) = 1
is_publication (refused r) = 1
is_publication _ = 0

quiet-Attributed :
    (task : JudgeTask) (es : List Event)
    → tally is_publication es ≡ 0
    → AllEvents (Attributed task) es
unfolding tally
quiet-Attributed task [] q = tt
quiet-Attributed task (made_workdir ∷ es) q = (tt, quiet-Attributed task es (omega arith))
quiet-Attributed task (removed_workdir ∷ es) q = (tt, quiet-Attributed task es (omega arith))
quiet-Attributed task (prepared ∷ es) q = (tt, quiet-Attributed task es (omega arith))
quiet-Attributed task (released ∷ es) q = (tt, quiet-Attributed task es (omega arith))
quiet-Attributed task (fetched_testcases k ∷ es) q = (tt, quiet-Attributed task es (omega arith))
quiet-Attributed task (compiled ∷ es) q = (tt, quiet-Attributed task es (omega arith))
quiet-Attributed task (ran_test_case i ∷ es) q = (tt, quiet-Attributed task es (omega arith))
quiet-Attributed task (sent r ∷ es) q = absurd (omega (arith, q))
quiet-Attributed task (refused r ∷ es) q = absurd (omega (arith, q))

module _ (task : JudgeTask) where
  publish_result-Attributed :
      (h : Host) (ended : Bool) (r : ResultMessage)
      → IsResultOf task r
      → AllEvents (Attributed task) (publish_result h ended r).0
  unfolding publish_result
  publish_result-Attributed h ended r own = elim (Option-cases (h.publish ended r)) [
    | inl e ↦ rw (e, publish_result) (own, tt)
    | inr (err, e) ↦ rw (e, publish_result) (own, tt)
  ]

  then-Attributed {ℓ ℓ'} :
      {A : Type ℓ} {B : Type ℓ'} (s : Step A) (f : A → Step B)
      → AllEvents (Attributed task) s.0
      → ((a : A) → AllEvents (Attributed task) (f a).0)
      → AllEvents (Attributed task) (s >>= f).0
  unfolding ◌>>=◌
  then-Attributed (es, returned a) f all h = AllEvents-append (Attributed task) es (f a).0 all (h a)
  then-Attributed (es, failed x) f all h = all
  then-Attributed (es, panicked x) f all h = all

  perform-Attributed {ℓ} :
      {A : Type ℓ} (e : Event) (out : Outcome A)
      → Attributed task e
      → AllEvents (Attributed task) (perform e out).0
  unfolding perform
  perform-Attributed e (returned a) own = (own, tt)
  perform-Attributed e (failed x) own = tt
  perform-Attributed e (panicked x) own = tt

  defer-Attributed {ℓ} :
      {A : Type ℓ} (e : Event) (s : Step A)
      → Attributed task e
      → AllEvents (Attributed task) s.0
      → AllEvents (Attributed task) (defer_event e s).0
  unfolding defer_event
  defer-Attributed e (es, out) own all =
      AllEvents-append (Attributed task) es (e ∷ []) all (own, tt)

judge-Attributed :
    (h : Host) (task : JudgeTask) (cr : CompileResult)
    → AllEvents (Attributed task) (judge h task cr).0
unfolding judge report
judge-Attributed h task cr = elim (Option-cases (h.registry task.judge_type)) [
  | inl e ↦ rw (e, judge) tt
  | inr (orch, e) ↦
      let scaled = record task {
        time_limit_ms =
            scaled_limit (time_limit_multiplier h.tools task.language) task.time_limit_ms;
      } in
      rw (e, judge)
        (then-Attributed task (judge_cases h orch scaled cr.run_cmd 0 task.test_cases no_progress)
          (report h task cr)
          (quiet-Attributed task _ (
            judge_cases-quiet is_publication (λ i. refl) h orch scaled cr.run_cmd 0 task.test_cases
              no_progress))
          (λ p. publish_result-Attributed task h _ _ (refl, refl, refl, refl, refl, refl)))
]

judge_compiled-Attributed :
    (h : Host) (task : JudgeTask) (cr : CompileResult)
    → AllEvents (Attributed task) (judge_compiled h task cr).0
unfolding judge_compiled
judge_compiled-Attributed h task cr =
    Bool-elim cr.success
      (λ b.
        AllEvents (Attributed task)
          (if b
            then judge h task cr
            else publish_result h h.expired_at_compile
                (record (result_for h task status_ce) { compile_log = cr.log })).0)
      (judge-Attributed h task cr)
      (publish_result-Attributed task h _ _ (refl, refl, refl, refl, refl, refl))

run_state_machine-Attributed :
    (h : Host) (task : JudgeTask) → AllEvents (Attributed task) (run_state_machine h task).0
unfolding run_state_machine in_workdir in_session
run_state_machine-Attributed h task =
    then-Attributed task _ _ (perform-Attributed task _ _ tt) (λ u. defer-Attributed task _ _ tt (
      then-Attributed task _ _ (perform-Attributed task _ _ tt) (λ u. defer-Attributed task _ _ tt (
        then-Attributed task _ _ (perform-Attributed task _ _ tt) (λ dir.
          then-Attributed task _ _ (perform-Attributed task _ _ tt) (λ cr.
            judge_compiled-Attributed h
              (record task { test_cases = map (resolve_paths h dir) task.test_cases }) cr))))))

publish_se-Attributed :
    (h : Host) (task : JudgeTask) (msg : Bytes)
    → AllEvents (Attributed task) (publish_se h task msg).0
unfolding publish_se
publish_se-Attributed h task msg =
    publish_result-Attributed task h false _ (refl, refl, refl, refl, refl, refl)

settle-Attributed :
    (h : Host) (task : JudgeTask) (s : Step {0} Unit)
    → AllEvents (Attributed task) s.0
    → AllEvents (Attributed task) (settle h task s)
unfolding settle
settle-Attributed h task (es, returned u) all = all
settle-Attributed h task (es, failed e) all =
    AllEvents-append (Attributed task) es _ all (publish_se-Attributed h task e)
settle-Attributed h task (es, panicked e) all =
    AllEvents-append (Attributed task) es _ all (publish_se-Attributed h task _)

-- Each result that is sent for a task carries the task's own key, those of its submission, its user,
-- its problem and its contest, and the time at which the submission was made: on every path.
pub handle_message_attributes :
    (h : Host) (task : JudgeTask) (r : ResultMessage)
    → Occurs (sent r) (handle_message h (some task))
    → IsResultOf task r
unfolding handle_message
handle_message_attributes h task r o =
    occurs-AllEvents (Attributed task) (sent r) _
      (settle-Attributed h task _ (run_state_machine-Attributed h task)) o
