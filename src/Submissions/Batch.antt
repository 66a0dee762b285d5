-- ===== src/Submissions/Batch.antt =====
-- internal/api/handler/submission.go: the evaluation of a contest that is judged blind, after its end.
-- The database, the queue and the clock answer from outside.
pub mod Latest
pub mod Dispatch
use Prim.Native.String.{String}
use my_oj.Prelude.{
  ℕ, suc, Bool, true, false, not, ◌&&◌, Option, none, some, List, [], ◌∷◌, map, length, ◌==◌, ltb,
  if◌then◌else◌,
}
use my_oj.Prelude.Assoc
use my_oj.Models.Types.{Key, JudgeType}
use my_oj.Models.Time.{Time}
use my_oj.Models.Judging.{Submission, JudgeConfig, JudgeTask, JudgeTestCase}
use my_oj.Models.Contest.{Contest, effective_status, is_blind_judged, is_ended}

pub record ProblemJudgeMeta : Type 0 where
  pub judge_type : JudgeType
  pub time_limit_ms : ℕ
  pub mem_limit_kb : ℕ

pub record ProblemMeta : Type 0 where
  pub config : JudgeConfig
  pub meta : ProblemJudgeMeta
  pub test_cases : List JudgeTestCase

-- What the handler is given. The meta of a problem is loaded once in a batch and then remembered,
-- so that it is one answer per problem; none is an error.
pub record Backend : Type 0 where
  pub contest : Option Contest
  pub pending : Option (List Submission)
  pub mark_superseded : Bool
  pub load_problem_meta : Key → Option ProblemMeta
  pub new_task_id : Key → String
  pub publish : JudgeTask → Bool

-- One step of the first loop of `splitLatestPerProblem`, on the keys of a submission.
unfoldable pub note_latest : Key → Key → Key → List (Key × Key × Key) → List (Key × Key × Key)
note_latest user problem id m =
    let noted = Assoc.set2 user problem id m in
    elim (Assoc.get2 user problem m) [ none ↦ noted | some cur ↦ if ltb cur id then noted else m ]

unfoldable pub latest_ids : List Submission → List (Key × Key × Key) → List (Key × Key × Key)
latest_ids [] m = m
latest_ids (s ∷ ss) m = latest_ids ss (note_latest s.user_id s.problem_id s.id m)

-- A missing key reads as 0, as in Go.
abbrev pub or_zero : Option Key → Key
or_zero none = 0
or_zero (some id) = id

unfoldable pub is_latest : List (Key × Key × Key) → Submission → Bool
is_latest m s = or_zero (Assoc.get2 s.user_id s.problem_id m) == s.id

-- The second loop.
unfoldable pub partition_by :
    (Submission → Bool) → List Submission → List Submission × List Submission
partition_by test [] = ([], [])
partition_by test (s ∷ ss) =
    let (latest, voided) = partition_by test ss in
    if test s then (s ∷ latest, voided) else (latest, s ∷ voided)

unfoldable pub split_latest_per_problem : List Submission → List Submission × List Submission
split_latest_per_problem subs = partition_by (is_latest (latest_ids subs [])) subs

-- The task that `publishJudgeTask` builds.
abbrev pub task_for : Backend → ProblemMeta → Submission → JudgeTask
task_for b pm sub = record {
  task_id = b.new_task_id sub.id;
  submission_id = sub.id;
  user_id = sub.user_id;
  problem_id = sub.problem_id;
  contest_id = sub.contest_id;
  submitted_at = sub.created_at;
  language = sub.language;
  source_code_path = sub.source_code_path;
  judge_type = pm.meta.judge_type;
  judge_config = pm.config;
  time_limit_ms = pm.meta.time_limit_ms;
  mem_limit_kb = pm.meta.mem_limit_kb;
  test_cases = pm.test_cases;
}

-- What one submission leads to: a task on the queue, or none.
abbrev enqueue : Backend → Submission → ProblemMeta → Option JudgeTask
enqueue b sub pm =
    if length pm.test_cases == 0
    then none
    else if b.publish (task_for b pm sub)
    then some (task_for b pm sub)
    else none

unfoldable pub dispatch_one : Backend → Submission → Option JudgeTask
dispatch_one b sub = elim (b.load_problem_meta sub.problem_id) [
  | none ↦ none
  | some pm ↦ enqueue b sub pm
]

-- The tasks on the queue, and how many submissions were enqueued and skipped.
pub record Dispatched : Type 0 where
  pub queue : List JudgeTask
  pub enqueued : ℕ
  pub skipped : ℕ

abbrev count_task : Option JudgeTask → Dispatched → Dispatched
count_task none d = record d { skipped = suc d.skipped }
count_task (some task) d = record {
  queue = task ∷ d.queue;
  enqueued = suc d.enqueued;
  skipped = d.skipped;
}

unfoldable pub dispatch : Backend → List Submission → Dispatched
dispatch b [] = record { queue = []; enqueued = 0; skipped = 0 }
dispatch b (sub ∷ subs) = count_task (dispatch_one b sub) (dispatch b subs)

pub data BatchReply : Type 0 where
  not_found not_ended database_error : BatchReply
  dispatched : (enqueued skipped superseded total : ℕ) → BatchReply

-- What the handler leaves: the submissions that it voids, the tasks that it queues and its answer.
pub record Batch : Type 0 where
  pub voided : List Key
  pub queue : List JudgeTask
  pub reply : BatchReply

abbrev refused : BatchReply → Batch
refused reply = record { voided = []; queue = []; reply = reply }

abbrev sweep : Backend → List Submission → List Submission → ℕ → Batch
sweep b to_judge voided total =
    let d = dispatch b to_judge in
    record {
      voided = map (λ s. s.id) voided;
      queue = d.queue;
      reply = dispatched d.enqueued d.skipped (length voided) total;
    }

unfoldable pub judge_blind : Backend → List Submission → Batch
judge_blind b pending =
    let (latest, voided) = split_latest_per_problem pending in
    if not (length voided == 0) && not b.mark_superseded
    then refused database_error
    else sweep b latest voided (length pending)

unfoldable pub judge_pending : Backend → Contest → Option (List Submission) → Batch
judge_pending b contest none = refused database_error
judge_pending b contest (some pending) =
    if is_blind_judged contest then judge_blind b pending else sweep b pending [] (length pending)

unfoldable pub judge_found : Backend → Time → Option Contest → Batch
judge_found b now none = refused not_found
judge_found b now (some contest) =
    if is_ended (effective_status contest now)
    then judge_pending b contest b.pending
    else refused not_ended

-- `JudgeContest`.
unfoldable pub judge_contest : Backend → Time → Batch
judge_contest b now = judge_found b now b.contest
