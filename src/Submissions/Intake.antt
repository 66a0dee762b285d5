-- ===== src/Submissions/Intake.antt =====
-- internal/api/handler/submission.go: taking in a submission, from the contest page and from the page
-- of a problem. The database, the object store, the queue and the clock answer from outside.
pub mod Deferred
use Prim.Native.String.{String}
use my_oj.Prelude.{
  ℕ, suc, ◌<◌, Bool, true, false, not, ◌&&◌, Option, none, some, List, [], ◌∷◌, ◌++◌, length, ◌==◌,
  if◌then◌else◌,
}
use my_oj.Prelude.Int.{pos}
use my_oj.Models.Types.{
  Key, Language, lang_c, lang_cpp17, lang_cpp20, lang_java, lang_python, lang_go, lang_rust,
  other_language, status_pending,
}
use my_oj.Models.Time.{Time}
use my_oj.Models.Judging.{Submission, JudgeTask}
use my_oj.Models.Contest.{Contest, effective_status, is_blind_judged, is_ended}
use my_oj.Submissions.Batch.{ProblemMeta, ProblemJudgeMeta}

unfoldable pub lang_ext : Language → String
lang_ext lang_cpp17 = "cpp"
lang_ext lang_cpp20 = "cpp"
lang_ext lang_c = "c"
lang_ext lang_java = "java"
lang_ext lang_python = "py"
lang_ext lang_go = "go"
lang_ext lang_rust = "rs"
lang_ext (other_language n) = "txt"

pub record SubmitRequest : Type 0 where
  pub problem_id : Key
  pub language : Language
  pub source_code : String

-- What the handler is given: the answers of the database, none for an error; whether the store takes
-- a source and the queue a task; the key under which a source is put, from its user, its problem and
-- the extension of its language; the key that the database gives to a new submission.
pub record Services : Type 0 where
  pub contests : Key → Option Contest
  pub can_submit_to_contest : Key → Key → Key → Option Bool
  pub active_contest_for_problem : Key → Key → Option (Option Key)
  pub load_problem_meta : Key → Option ProblemMeta
  pub source_key : Key → Key → String → String
  pub put_source : String → String → Bool
  pub next_id : Option Key
  pub new_task_id : String
  pub publish : JudgeTask → Bool
  pub now : Time

-- The rows and the tasks that a request adds.
pub record Taken : Type 0 where
  pub stored : List Submission
  pub queued : List JudgeTask

pub data SubmitReply : Type 0 where
  internal_error forbidden no_test_data storage_error database_error : SubmitReply
  deferred accepted queued_later : Key → SubmitReply

abbrev pub nothing : Taken
nothing = record { stored = []; queued = [] }

-- `deferJudging`.
unfoldable pub defer_known : Option Contest → Time → Bool
defer_known none now = false
defer_known (some contest) now =
    is_blind_judged contest && not (is_ended (effective_status contest now))

unfoldable pub defer_judging : Services → Option Key → Bool
defer_judging sv none = false
defer_judging sv (some id) = defer_known (sv.contests id) sv.now

abbrev pub new_task : Services → ProblemMeta → Submission → JudgeTask
new_task sv pm sub = record {
  task_id = sv.new_task_id;
  submission_id = sub.id;
  user_id = sub.user_id;
  problem_id = sub.problem_id;
  contest_id = sub.contest_id;
  submitted_at = sub.created_at;
  language = sub.language;
  source_code_path = sub.source_code_path;
  judge_type = pm.meta.judge_type;
  judge_config = pm.config;
  time_limit_ms = pm.meta.time_limit_ms;
  mem_limit_kb = pm.meta.mem_limit_kb;
  test_cases = pm.test_cases;
}

-- `enqueueTask`, of a submission that is stored.
unfoldable pub enqueue_task : Services → ProblemMeta → Submission → Taken × SubmitReply
enqueue_task sv pm sub =
    if sv.publish (new_task sv pm sub)
    then (record { stored = sub ∷ []; queued = new_task sv pm sub ∷ [] }, accepted sub.id)
    else (record { stored = sub ∷ []; queued = [] }, queued_later sub.id)

-- The row that the handlers create; the database sets its times.
abbrev pub new_submission : Services → Key → SubmitRequest → Option Key → String → Key → Submission
new_submission sv user req contest source_key id = record {
  id = id;
  user_id = user;
  problem_id = req.problem_id;
  contest_id = contest;
  contest_type = none;
  language = req.language;
  source_code_path = source_key;
  status = status_pending;
  score = pos 0;
  time_used_ms = 0;
  mem_used_kb = 0;
  compile_log = [];
  judge_message = [];
  test_case_results = [];
  judge_node_id = "";
  created_at = sv.now;
  updated_at = sv.now;
}

-- What both handlers do once the problem is loaded and the contest is known.
unfoldable pub store_and_judge :
    Services → ProblemMeta → SubmitRequest → Option Key → Submission → Taken × SubmitReply
store_and_judge sv pm req contest sub =
    if defer_judging sv contest
    then (record { stored = sub ∷ []; queued = [] }, deferred sub.id)
    else enqueue_task sv pm sub

unfoldable pub create :
    Services → Key → SubmitRequest → Option Key → ProblemMeta → String → Taken × SubmitReply
create sv user req contest pm key = elim sv.next_id [
  | none ↦ (nothing, database_error)
  | some id ↦ store_and_judge sv pm req contest (new_submission sv user req contest key id)
]

unfoldable pub upload_and_create :
    Services → Key → SubmitRequest → Option Key → ProblemMeta → Taken × SubmitReply
upload_and_create sv user req contest pm =
    let key = sv.source_key user req.problem_id (lang_ext req.language) in
    if sv.put_source key req.source_code
    then create sv user req contest pm key
    else (nothing, storage_error)

-- `loadProblemMeta`, and then the rest; the contest is resolved after the load.
unfoldable pub with_problem :
    Services → Key → SubmitRequest → Option Key → Option ProblemMeta → Taken × SubmitReply
with_problem sv user req contest none = (nothing, internal_error)
with_problem sv user req contest (some pm) =
    if length pm.test_cases == 0
    then (nothing, no_test_data)
    else upload_and_create sv user req contest pm

-- `Submit`, of a user who is logged in, with a request that is well formed.
unfoldable pub submit : Services → Key → Key → SubmitRequest → Taken × SubmitReply
submit sv user contest req = elim (sv.can_submit_to_contest contest req.problem_id user) [
  | none ↦ (nothing, internal_error)
  | some allowed ↦
      if allowed
      then with_problem sv user req (some contest) (sv.load_problem_meta req.problem_id)
      else (nothing, forbidden)
]

-- The contest that a submission from the page of a problem counts in; an error is practice.
abbrev pub attributed : Option (Option Key) → Option Key
attributed none = none
attributed (some contest) = contest

-- `SubmitPractice`.
unfoldable pub submit_practice : Services → Key → SubmitRequest → Taken × SubmitReply
submit_practice sv user req =
    with_problem sv user req (attributed (sv.active_contest_for_problem req.problem_id user))
      (sv.load_problem_meta req.problem_id)
