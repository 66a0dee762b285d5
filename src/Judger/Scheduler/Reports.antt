-- ===== src/Judger/Scheduler/Reports.antt =====
-- scheduler.go: how many results are sent for a task.
use Prim.Native.String.{String}
use my_oj.Prelude.{
  ℕ, suc, ◌≡◌, refl, ◌∙◌, Bool, false, none, some, List, [], ◌∷◌, arith, Bool-cases, Bool-elim,
  if◌then◌else◌, Option-cases, inl, inr,
}
use my_oj.Models.Types.{status_ce}
use my_oj.Models.Judging.{Bytes, JudgeTask, JudgeTestCase}
use my_oj.Mq.Messages.{ResultMessage}
use my_oj.Judger.Compiler.{CompileResult, time_limit_multiplier}
use my_oj.Judger.Step.{Event, ran_test_case, sent, returned, failed, panicked, Step}
use my_oj.Judger.Scheduler.{
  Host, Orchestrator, Progress, no_progress, publish_result, publish_se, result_for, record_verdict,
  request_for, judge_cases, report, judge, judge_compiled, in_session, in_workdir,
  run_state_machine, settle, handle_message, scaled_limit,
}
use my_oj.Judger.Scheduler.Trace.{
  tally, tally-append, owed, tally->>=, tally-quiet, tally-perform, tally-defer,
}

-- 1 for a result that the queue has accepted.
abbrev pub is_sent : Event → ℕ
is_sent (sent r) = 1
is_sent _ = 0

abbrev pub sent_count : List Event → ℕ
sent_count = tally is_sent

publish_result-owed :
    (h : Host) (ended : Bool) (r : ResultMessage)
    → sent_count (publish_result h ended r).0 ≡ owed (publish_result h ended r).1
unfolding publish_result tally
publish_result-owed h ended r = elim (Option-cases (h.publish ended r)) [
  | inl e ↦ rw (e, publish_result) refl
  | inr (err, e) ↦ rw (e, publish_result) refl
]

pub judge_cases-quiet :
    (w : Event → ℕ)
    → ((i : ℕ) → w (ran_test_case i) ≡ 0)
    → (h : Host) (orch : Orchestrator) (task : JudgeTask) (run_cmd : List String) (i : ℕ)
      (tcs : List JudgeTestCase) (p : Progress)
    → tally w (judge_cases h orch task run_cmd i tcs p).0 ≡ 0
unfolding judge_cases tally record_verdict
judge_cases-quiet w ran h orch task run_cmd i [] p = refl
judge_cases-quiet w ran h orch task run_cmd i (tc ∷ tcs) p = elim (Bool-cases (h.expired i)) [
  | inl e ↦ rw (e, judge_cases) refl
  | inr e ↦
      rw (e, judge_cases)
        (tally-quiet w
          (ran_test_case i ∷ [], record_verdict tc p (orch i (request_for task run_cmd tc)))
          (judge_cases h orch task run_cmd (suc i) tcs) (omega (arith, ran i))
          (λ q. judge_cases-quiet w ran h orch task run_cmd (suc i) tcs q))
]

judge-owed :
    (h : Host) (task : JudgeTask) (cr : CompileResult)
    → sent_count (judge h task cr).0 ≡ owed (judge h task cr).1
unfolding judge report tally
judge-owed h task cr = elim (Option-cases (h.registry task.judge_type)) [
  | inl e ↦ rw (e, judge) refl
  | inr (orch, e) ↦
      rw (e, judge)
        (tally->>= is_sent
          (judge_cases h orch
            (record task {
              time_limit_ms =
                  scaled_limit (time_limit_multiplier h.tools task.language) task.time_limit_ms;
            })
            cr.run_cmd 0 task.test_cases no_progress)
          (report h task cr)
          (judge_cases-quiet is_sent (λ i. refl) h orch _ cr.run_cmd 0 task.test_cases no_progress)
          (λ p. publish_result-owed h _ _))
]

judge_compiled-owed :
    (h : Host) (task : JudgeTask) (cr : CompileResult)
    → sent_count (judge_compiled h task cr).0 ≡ owed (judge_compiled h task cr).1
unfolding judge_compiled
judge_compiled-owed h task cr =
    Bool-elim cr.success
      (λ b.
        let s =
          if b
          then judge h task cr
          else publish_result h h.expired_at_compile
              (record (result_for h task status_ce) { compile_log = cr.log }) in
        sent_count s.0 ≡ owed s.1)
      (judge-owed h task cr) (publish_result-owed h _ _)

in_session-owed :
    (h : Host) (task : JudgeTask) → sent_count (in_session h task).0 ≡ owed (in_session h task).1
unfolding in_session
in_session-owed h task =
    tally->>= is_sent _ _ (tally-perform is_sent _ _ refl)
      (λ dir. tally->>= is_sent _ _ (tally-perform is_sent _ _ refl) (judge_compiled-owed h _))

run_state_machine-owed :
    (h : Host) (task : JudgeTask)
    → sent_count (run_state_machine h task).0 ≡ owed (run_state_machine h task).1
unfolding run_state_machine in_workdir
run_state_machine-owed h task = tally->>= is_sent _ _ (tally-perform is_sent _ _ refl) (λ u.
    tally-defer is_sent _ _ refl (
      tally->>= is_sent _ _ (tally-perform is_sent _ _ refl)
        (λ u. tally-defer is_sent _ _ refl (in_session-owed h task))))

publish_result-sent :
    (h : Host) (ended : Bool) (r : ResultMessage)
    → h.publish ended r ≡ none
    → sent_count (publish_result h ended r).0 ≡ 1
unfolding tally publish_result
publish_result-sent h ended r e = rw (e, publish_result) refl

publish_se-sent :
    (h : Host) (task : JudgeTask) (msg : Bytes)
    → ((r : ResultMessage) → h.publish false r ≡ none)
    → sent_count (publish_se h task msg).0 ≡ 1
unfolding publish_se
publish_se-sent h task msg accepts = publish_result-sent h false _ (accepts _)

settle-sent :
    (h : Host) (task : JudgeTask) (s : Step {0} Unit)
    → ((r : ResultMessage) → h.publish false r ≡ none)
    → sent_count s.0 ≡ owed s.1
    → sent_count (settle h task s) ≡ 1
unfolding settle
settle-sent h task (events, returned u) accepts s = s
settle-sent h task (events, failed e) accepts s =
    tally-append is_sent events _ ∙ omega (arith, s, publish_se-sent h task e accepts)
settle-sent h task (events, panicked e) accepts s =
    tally-append is_sent events _ ∙ omega (arith, s, publish_se-sent h task _ accepts)

-- When the queue accepts what is published before the task's deadline, a task leads to exactly one
-- result: on every failure and every panic of a stage, and when a publication after the deadline is
-- refused.
pub handle_message_reports_once :
    (h : Host) (task : JudgeTask)
    → ((r : ResultMessage) → h.publish false r ≡ none)
    → sent_count (handle_message h (some task)) ≡ 1
unfolding handle_message
handle_message_reports_once h task accepts =
    settle-sent h task (run_state_machine h task) accepts (run_state_machine-owed h task)
