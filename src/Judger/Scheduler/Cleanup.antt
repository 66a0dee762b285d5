-- ===== src/Judger/Scheduler/Cleanup.antt =====
-- scheduler.go: the work directory and the session of a task, and their deferred release.
use my_oj.Prelude.{
  ℕ, ◌≡◌, refl, Bool, List, [], ◌∷◌, ◌++◌, ◌⊎◌, inl, inr, Option-cases, Bool-elim, if◌then◌else◌,
}
use my_oj.Models.Types.{status_ce}
use my_oj.Models.Judging.{JudgeTask}
use my_oj.Mq.Messages.{ResultMessage}
use my_oj.Judger.Compiler.{CompileResult, time_limit_multiplier}
use my_oj.Judger.Step.{
  Event, made_workdir, removed_workdir, prepared, released, Outcome, returned, failed, panicked,
  Step, defer_event, perform, ◌>>=◌,
}
use my_oj.Judger.Scheduler.{
  Host, no_progress, publish_result, result_for, judge_cases, report, judge, judge_compiled,
  in_session, in_workdir, run_state_machine, scaled_limit,
}
use my_oj.Judger.Scheduler.Trace.{tally, tally-quiet, tally-perform}
use my_oj.Judger.Scheduler.Reports.{judge_cases-quiet}

-- 1 for what takes or gives back a resource.
abbrev pub is_scope : Event → ℕ
is_scope made_workdir = 1
is_scope removed_workdir = 1
is_scope prepared = 1
is_scope released = 1
is_scope _ = 0

abbrev pub NoScope : List Event → Type 0
NoScope events = tally is_scope events ≡ 0

-- Nothing, or something between the two events.
abbrev pub Bracketed : Event → Event → (List Event → Type 0) → List Event → Type 0
Bracketed first last P events =
    (events ≡ []) ⊎ ((inner : List Event) × P inner × (events ≡ first ∷ (inner ++ (last ∷ []))))

perform-defer-Bracketed {ℓ ℓ'} :
    {A : Type ℓ} {B : Type ℓ'} (first last : Event) (P : List Event → Type 0) (out : Outcome A)
    (f : A → Step B)
    → ((a : A) → P (f a).0)
    → Bracketed first last P (perform first out >>= λ a. defer_event last (f a)).0
unfolding perform defer_event ◌>>=◌
perform-defer-Bracketed first last P (returned a) f h = inr ((f a).0, h a, refl)
perform-defer-Bracketed first last P (failed e) f h = inl refl
perform-defer-Bracketed first last P (panicked e) f h = inl refl

publish_result-NoScope :
    (h : Host) (ended : Bool) (r : ResultMessage) → NoScope (publish_result h ended r).0
unfolding tally publish_result
publish_result-NoScope h ended r = elim (Option-cases (h.publish ended r)) [
  | inl e ↦ rw (e, publish_result) refl
  | inr (err, e) ↦ rw (e, publish_result) refl
]

judge-NoScope : (h : Host) (task : JudgeTask) (cr : CompileResult) → NoScope (judge h task cr).0
unfolding report tally judge
judge-NoScope h task cr = elim (Option-cases (h.registry task.judge_type)) [
  | inl e ↦ rw (e, judge) refl
  | inr (orch, e) ↦
      rw (e, judge)
        (tally-quiet is_scope
          (judge_cases h orch
            (record task {
              time_limit_ms =
                  scaled_limit (time_limit_multiplier h.tools task.language) task.time_limit_ms;
            })
            cr.run_cmd 0 task.test_cases no_progress)
          (report h task cr)
          (judge_cases-quiet is_scope (λ i. refl) h orch _ cr.run_cmd 0 task.test_cases no_progress)
          (λ p. publish_result-NoScope h _ _))
]

judge_compiled-NoScope :
    (h : Host) (task : JudgeTask) (cr : CompileResult) → NoScope (judge_compiled h task cr).0
unfolding judge_compiled
judge_compiled-NoScope h task cr =
    Bool-elim cr.success
      (λ b.
        NoScope
          (if b
            then judge h task cr
            else publish_result h h.expired_at_compile
                (record (result_for h task status_ce) { compile_log = cr.log })).0)
      (judge-NoScope h task cr) (publish_result-NoScope h _ _)

in_session-NoScope : (h : Host) (task : JudgeTask) → NoScope (in_session h task).0
unfolding in_session
in_session-NoScope h task =
    tally-quiet is_scope _ _ (tally-perform is_scope _ _ refl) (λ dir.
      tally-quiet is_scope _ _ (tally-perform is_scope _ _ refl) (judge_compiled-NoScope h _))

-- A task leaves no trace, or it makes a work directory first and removes it last; in between it does
-- nothing, or it prepares a session first and releases it last; and these are the only times. This
-- is so on every path, with the errors and the panics.
pub run_state_machine_cleans_up :
    (h : Host) (task : JudgeTask)
    → Bracketed made_workdir removed_workdir
        (Bracketed prepared released NoScope)
        (run_state_machine h task).0
unfolding run_state_machine in_workdir
run_state_machine_cleans_up h task =
    perform-defer-Bracketed made_workdir removed_workdir (Bracketed prepared released NoScope) _ _
      (λ u. perform-defer-Bracketed prepared released NoScope _ _ (λ u. in_session-NoScope h task))
