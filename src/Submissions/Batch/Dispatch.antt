-- ===== src/Submissions/Batch/Dispatch.antt =====
-- What the evaluation of a contest puts on the queue.
use my_oj.Prelude.{
  ℕ, ◌+◌, ◌<◌, ◌≡◌, ◌≢◌, subst, refl, ap, sym, ◌∙◌, Bool, true, false, not, ◌&&◌, Option, none,
  some, List, [], ◌∷◌, map, length, ◌⊎◌, inl, inr, ◌==◌, if◌then◌else◌, arith, Bool-cases,
  Option-cases,
}
use my_oj.Models.Time.{Time}
use my_oj.Models.Judging.{Submission, JudgeTask}
use my_oj.Models.Contest.{Contest, effective_status, is_blind_judged, is_ended}
use my_oj.Submissions.Batch.{
  Backend, ProblemMeta, enqueue, task_for, dispatch_one, Dispatched, count_task, dispatch, Batch,
  dispatched, database_error, refused, partition_by, split_latest_per_problem, sweep, judge_blind,
  judge_pending, judge_found, judge_contest,
}

-- The task is that of the submission: its keys and the time at which it was made.
abbrev pub IsTaskOf : Submission → JudgeTask → Type 0
IsTaskOf s t =
    (t.submission_id ≡ s.id)
    × (t.user_id ≡ s.user_id)
    × (t.problem_id ≡ s.problem_id)
    × (t.contest_id ≡ s.contest_id)
    × (t.submitted_at ≡ s.created_at)

-- The problem of the submission can be loaded and has test cases, and the queue takes the task, which
-- is that of the submission and carries the limits, the configuration and the test cases.
pub record IsQueued (b : Backend) (s : Submission) (t : JudgeTask) : Type 0 where
  pub problem : ProblemMeta
  pub loaded : b.load_problem_meta s.problem_id ≡ some problem
  pub tested : 0 < length problem.test_cases
  pub published : b.publish t ≡ true
  pub keyed : IsTaskOf s t
  pub test_cases : t.test_cases ≡ problem.test_cases
  pub time_limit : t.time_limit_ms ≡ problem.meta.time_limit_ms
  pub mem_limit : t.mem_limit_kb ≡ problem.meta.mem_limit_kb

-- The problem cannot be loaded, or has no test cases, or the queue refuses the task.
abbrev pub IsSkipped : Backend → Submission → Type 0
IsSkipped b s =
    (b.load_problem_meta s.problem_id ≡ none)
    ⊎ ((problem : ProblemMeta) × (b.load_problem_meta s.problem_id ≡ some problem)
        × ((length problem.test_cases ≡ 0) ⊎ (b.publish (task_for b problem s) ≡ false)))

-- The tasks are those of the submissions that are queued, in the same order; the others are skipped.
abbrev pub AreTasksOf : Backend → List Submission → List JudgeTask → Type 0
AreTasksOf b [] [] = Unit
AreTasksOf b [] (t ∷ ts) = ⊥
AreTasksOf b (s ∷ ss) [] = IsSkipped b s × AreTasksOf b ss []
AreTasksOf b (s ∷ ss) (t ∷ ts) =
    (IsQueued b s t × AreTasksOf b ss ts) ⊎ (IsSkipped b s × AreTasksOf b ss (t ∷ ts))

AreTasksOf-skip :
    (b : Backend) (s : Submission) (ss : List Submission) (ts : List JudgeTask)
    → IsSkipped b s
    → AreTasksOf b ss ts
    → AreTasksOf b (s ∷ ss) ts
AreTasksOf-skip b s ss [] skipped h = (skipped, h)
AreTasksOf-skip b s ss (t ∷ ts) skipped h = inr (skipped, h)

-- What becomes of one submission.
abbrev Queues : Backend → Submission → Option JudgeTask → Type 0
Queues b s none = IsSkipped b s
Queues b s (some t) = IsQueued b s t

enqueue-Queues :
    (b : Backend) (s : Submission) (pm : ProblemMeta)
    → b.load_problem_meta s.problem_id ≡ some pm
    → Queues b s (enqueue b s pm)
enqueue-Queues b s pm loaded = elim (Bool-cases (length pm.test_cases == 0)) [
  | inl e ↦ rw e (inr (pm, loaded, inl (ground (arith, e))))
  | inr e ↦ rw e (elim (Bool-cases (b.publish (task_for b pm s))) [
    | inl f ↦ rw f record {
      problem = pm;
      loaded = loaded;
      tested = ground (arith, e);
      published = f;
      keyed = (refl, refl, refl, refl, refl);
      test_cases = refl;
      time_limit = refl;
      mem_limit = refl;
    }
    | inr f ↦ rw f (inr (pm, loaded, inr f))
  ])
]

dispatch_one-Queues : (b : Backend) (s : Submission) → Queues b s (dispatch_one b s)
unfolding dispatch_one
dispatch_one-Queues b s = elim (Option-cases (b.load_problem_meta s.problem_id)) [
  | inl e ↦ rw (e, dispatch_one) (inl e)
  | inr (pm, e) ↦ rw (e, dispatch_one) (enqueue-Queues b s pm e)
]

-- What a sweep over submissions leaves: the tasks of those that are queued, and what it counted.
abbrev pub IsSweep : Backend → List Submission → Dispatched → Type 0
IsSweep b ss d =
    AreTasksOf b ss d.queue × (d.enqueued ≡ length d.queue) × (d.enqueued + d.skipped ≡ length ss)

count_task-IsSweep :
    (b : Backend) (s : Submission) (ss : List Submission) (o : Option JudgeTask) (d : Dispatched)
    → Queues b s o
    → IsSweep b ss d
    → IsSweep b (s ∷ ss) (count_task o d)
count_task-IsSweep b s ss none d q (tasks, enqueued, all) =
    (AreTasksOf-skip b s ss d.queue q tasks, enqueued, omega (arith, all))
count_task-IsSweep b s ss (some t) d q (tasks, enqueued, all) =
    (inl (q, tasks), omega (arith, enqueued), omega (arith, all))

dispatch-IsSweep : (b : Backend) (ss : List Submission) → IsSweep b ss (dispatch b ss)
unfolding dispatch
dispatch-IsSweep b [] = (tt, refl, refl)
dispatch-IsSweep b (s ∷ ss) =
    count_task-IsSweep b s ss (dispatch_one b s) (dispatch b ss) (dispatch_one-Queues b s)
      (dispatch-IsSweep b ss)

length-partition_by :
    (test : Submission → Bool) (ss : List Submission)
    → length (partition_by test ss).0 + length (partition_by test ss).1 ≡ length ss
unfolding partition_by
length-partition_by test [] = refl
length-partition_by test (s ∷ ss) = elim (Bool-cases (test s)) [
  | inl e ↦ rw e (omega (arith, length-partition_by test ss))
  | inr e ↦ rw e (omega (arith, length-partition_by test ss))
]

-- The batch voids the submissions that it does not judge, queues the tasks of the others, and counts
-- all.
abbrev pub IsBatch : Backend → List Submission → List Submission × List Submission → Batch → Type 0
IsBatch b pending (latest, voided) out =
    (out.voided ≡ map (λ s. s.id) voided)
    × AreTasksOf b latest out.queue
    × ((skipped : ℕ) × (out.reply
          ≡ dispatched (length out.queue) skipped (length voided) (length pending))
        × (length out.queue + skipped + length voided ≡ length pending))

sweep-IsBatch :
    (b : Backend) (pending latest voided : List Submission)
    → length latest + length voided ≡ length pending
    → IsBatch b pending (latest, voided) (sweep b latest voided (length pending))
sweep-IsBatch b pending latest voided h =
    let (tasks, enqueued, all) = dispatch-IsSweep b latest in
    (
      refl,
      tasks,
      (
        (dispatch b latest).skipped,
        ap (λ n. dispatched n (dispatch b latest).skipped (length voided) (length pending))
            enqueued,
        omega (arith, enqueued, all, h),
      ),
    )

marked_sweeps :
    (some_voided marked : Bool) (failure swept : Batch)
    → marked ≡ true
    → (if some_voided && not marked then failure else swept) ≡ swept
marked_sweeps true marked failure swept h = rw h refl
marked_sweeps false marked failure swept h = refl

ended_judges :
    (b : Backend) (now : Time) (contest : Contest)
    → is_ended (effective_status contest now) ≡ true
    → judge_found b now (some contest) ≡ judge_pending b contest b.pending
unfolding judge_found
ended_judges b now contest ended = rw (ended, judge_found) refl

blind_judges :
    (b : Backend) (contest : Contest) (pending : List Submission)
    → is_blind_judged contest ≡ true
    → judge_pending b contest (some pending) ≡ judge_blind b pending
unfolding judge_pending
blind_judges b contest pending blind = rw (blind, judge_pending) refl

judge_blind-IsBatch :
    (b : Backend) (pending : List Submission)
    → b.mark_superseded ≡ true
    → IsBatch b pending (split_latest_per_problem pending) (judge_blind b pending)
unfolding judge_blind split_latest_per_problem
judge_blind-IsBatch b pending marked =
    let (latest, voided) = split_latest_per_problem pending in
    subst (IsBatch b pending (latest, voided))
      (sym (
        marked_sweeps (not (length voided == 0)) b.mark_superseded (refused database_error)
          (sweep b latest voided (length pending)) marked))
      (sweep-IsBatch b pending latest voided (length-partition_by _ pending))

-- After the end of a contest that is judged blind, when the database finds the contest and its pending
-- submissions and marks the superseded ones, the handler voids each submission that is not the last of
-- its user to its problem. In the order of the last ones it queues a task for each whose problem can be
-- loaded and has test cases and whose task the queue takes, and skips exactly the others; a task
-- carries the keys of its submission and the limits and test cases of the problem. It reports how
-- many it queued, skipped and voided.
pub judge_contest_blind :
    (b : Backend) (now : Time) (contest : Contest) (pending : List Submission)
    → b.contest ≡ some contest
    → b.pending ≡ some pending
    → b.mark_superseded ≡ true
    → is_blind_judged contest ≡ true
    → is_ended (effective_status contest now) ≡ true
    → IsBatch b pending (split_latest_per_problem pending) (judge_contest b now)
unfolding judge_contest
judge_contest_blind b now contest pending found listed marked blind ended =
    subst (IsBatch b pending (split_latest_per_problem pending))
      (sym (
        ap (judge_found b now) found
        ∙ ended_judges b now contest ended
        ∙ ap (judge_pending b contest) listed
        ∙ blind_judges b contest pending blind))
      (judge_blind-IsBatch b pending marked)

nothing_before_end :
    (b : Backend) (now : Time) (o : Option Contest)
    → (judge_found b now o).queue ≢ []
    → (contest : Contest) × (o ≡ some contest) × (is_ended (effective_status contest now) ≡ true)
unfolding judge_found
nothing_before_end b now none some_queued = absurd (some_queued refl)
nothing_before_end b now (some contest) some_queued =
    elim (Bool-cases (is_ended (effective_status contest now))) [
      | inl e ↦ (contest, refl, e)
      | inr e ↦ absurd (some_queued (rw (e, judge_found) refl))
    ]

-- When the evaluation of a contest queues a task, the database has found the contest, and it has ended.
pub judge_contest_waits :
    (b : Backend) (now : Time)
    → (judge_contest b now).queue ≢ []
    → (contest : Contest) × (b.contest ≡ some contest)
      × (is_ended (effective_status contest now) ≡ true)
unfolding judge_contest
judge_contest_waits b now some_queued = nothing_before_end b now b.contest some_queued
