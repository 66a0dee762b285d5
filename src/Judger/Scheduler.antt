-- ===== src/Judger/Scheduler.antt =====
-- internal/judger/scheduler.go: the judging of one task, from the message to the published result.
-- The sandbox, the object store, the queue and the clock answer from outside.
pub mod Trace
pub mod Reports
pub mod Cleanup
pub mod Loop
pub mod Accepted
pub mod Attributed
use Prim.Native.String.{String}
use Prim.Native.String as Str
use my_oj.Prelude.{
  ℕ, suc, ◌+◌, ◌*◌, ◌/◌, Bool, true, false, not, ◌&&◌, ◌||◌, Option, none, some, List, [], ◌∷◌,
  ◌++◌, map, ltb, ◌==◌, if◌then◌else◌,
}
use my_oj.Prelude.Int.{ℤ, pos, negsuc}
use my_oj.Models.Types.{
  Key, SubmissionStatus, status_ce, status_se, JudgeType, judge_standard, judge_special,
  judge_interactive, judge_communication,
}
use my_oj.Models.Time.{Time}
use my_oj.Models.Judging.{Bytes, JudgeTask, JudgeTestCase, JudgeConfig, TestCaseResult}
use my_oj.Mq.Messages.{ResultMessage}
use my_oj.Judger.Verdict.{Verdict, aggregate}
use my_oj.Judger.Compiler.{ResourceLimits, CompileResult, Toolchain, compile, time_limit_multiplier}
use my_oj.Judger.Step.{
  Event, made_workdir, removed_workdir, prepared, released, fetched_testcases, compiled,
  ran_test_case, sent, refused, Outcome, returned, failed, panicked, Step, defer_event, perform,
  ◌>>=◌, codes, wrapped, truncate,
}

pub record TestCaseRequest : Type 0 where
  pub run_cmd : List String
  pub test_case : JudgeTestCase
  pub judge_config : JudgeConfig
  pub limits : ResourceLimits

-- `RunTestCase`, with the number of the run, on which the answer of a sandbox may depend.
abbrev pub Orchestrator : Type 0
Orchestrator = ℕ → TestCaseRequest → Outcome Verdict

-- What the node is given. `expired i` is whether the deadline of the task has passed before test case
-- `i`, `expired_at_compile` and `expired_at_end` before the two publications. `publish` is given
-- whether the context has ended, and answers with an error or none.
pub record Host : Type 0 where
  pub tools : Toolchain
  pub make_workdir : Outcome {0} Unit
  pub prepare : ℕ → Outcome {0} Unit
  pub ensure_testcases : Key → Outcome String
  pub join_path : String → String → String
  pub is_abs : String → Bool
  pub registry : JudgeType → Option Orchestrator
  pub unregistered_text : JudgeType → Bytes
  pub expired : ℕ → Bool
  pub expired_at_compile : Bool
  pub expired_at_end : Bool
  pub publish : Bool → ResultMessage → Option Bytes
  pub node_id : String
  pub judged_at : Time

unfoldable pub max_processes : JudgeType → ℕ
max_processes judge_interactive = 2
max_processes judge_communication = 16
max_processes judge_standard = 1
max_processes judge_special = 1

unfoldable pub resolved_limits : JudgeTask → ResourceLimits
resolved_limits task = record {
  time_limit_ms = task.time_limit_ms;
  wall_time_limit_ms = task.time_limit_ms * 2 + 1000;
  mem_limit_kb = task.mem_limit_kb;
  file_size_kb = 64 * 1024;
  max_open_files = 32;
  max_child_processes = 1;
}

unfoldable pub publish_result : Host → Bool → ResultMessage → Step {0} Unit
publish_result h ended r = elim (h.publish ended r) [
  | none ↦ (sent r ∷ [], returned tt)
  | some e ↦ (refused r ∷ [], failed (codes "publish result: " ++ e))
]

-- The fields of a result that every publication fills alike.
abbrev pub result_for : Host → JudgeTask → SubmissionStatus → ResultMessage
result_for h task status = record {
  task_id = task.task_id;
  submission_id = task.submission_id;
  user_id = task.user_id;
  problem_id = task.problem_id;
  contest_id = task.contest_id;
  status = status;
  score = pos 0;
  time_used_ms = 0;
  mem_used_kb = 0;
  compile_log = [];
  judge_message = [];
  test_case_results = [];
  judge_node_id = h.node_id;
  judged_at = h.judged_at;
  submitted_at = task.submitted_at;
}

-- On a context of its own, whose deadline never passes.
unfoldable pub publish_se : Host → JudgeTask → Bytes → Step {0} Unit
publish_se h task msg =
    publish_result h false (record (result_for h task status_se) { judge_message = msg })

-- `int64(float64(t) * m)`, with the multiplier in thousandths.
unfoldable pub scaled_limit : ℤ → ℕ → ℕ
scaled_limit (pos m) t = if not (m == 1000) && ltb 0 m then t * m / 1000 else t
scaled_limit (negsuc m) t = t

unfoldable pub resolve_path : Host → String → String → String
resolve_path h dir path =
    if not (Str.len path == 0) && not (h.is_abs path) then h.join_path dir path else path

abbrev pub resolve_paths : Host → String → JudgeTestCase → JudgeTestCase
resolve_paths h dir tc = record tc {
  input_path = resolve_path h dir tc.input_path;
  output_path = resolve_path h dir tc.output_path;
}

-- What the loop over the test cases has so far.
pub record Progress : Type 0 where
  pub results : List TestCaseResult
  pub max_time_ms : ℕ
  pub max_mem_kb : ℕ
  pub aborted : Bool

abbrev pub no_progress : Progress
no_progress = record { results = []; max_time_ms = 0; max_mem_kb = 0; aborted = false }

abbrev larger : ℕ → ℕ → ℕ
larger used most = if ltb most used then used else most

abbrev pub system_error_result : JudgeTestCase → TestCaseResult
system_error_result tc = record {
  test_case_id = tc.test_case_id;
  group_id = tc.group_id;
  status = status_se;
  time_used_ms = 0;
  mem_used_kb = 0;
  score = pos 0;
  checker_output = [];
}

abbrev pub verdict_result : JudgeTestCase → Verdict → TestCaseResult
verdict_result tc v = record {
  test_case_id = tc.test_case_id;
  group_id = tc.group_id;
  status = v.status;
  time_used_ms = v.time_used_ms;
  mem_used_kb = v.mem_used_kb;
  score = v.score;
  checker_output = truncate v.judge_message 4096;
}

-- What is left of the loop's body when the orchestrator has answered.
unfoldable pub record_verdict : JudgeTestCase → Progress → Outcome Verdict → Outcome Progress
record_verdict tc p (panicked e) = panicked e
record_verdict tc p (failed e) =
    returned (record p { results = p.results ++ (system_error_result tc ∷ []) })
record_verdict tc p (returned v) = returned record {
  results = p.results ++ (verdict_result tc v ∷ []);
  max_time_ms = larger v.time_used_ms p.max_time_ms;
  max_mem_kb = larger v.mem_used_kb p.max_mem_kb;
  aborted = p.aborted;
}

abbrev pub request_for : JudgeTask → List String → JudgeTestCase → TestCaseRequest
request_for task run_cmd tc = record {
  run_cmd = run_cmd;
  test_case = tc;
  judge_config = task.judge_config;
  limits = resolved_limits task;
}

unfoldable pub judge_cases :
    Host
    → Orchestrator
    → JudgeTask
    → List String
    → ℕ
    → List JudgeTestCase
    → Progress
    → Step Progress
judge_cases h orch task run_cmd i [] p = ([], returned p)
judge_cases h orch task run_cmd i (tc ∷ tcs) p =
    let verdict = orch i (request_for task run_cmd tc) in
    let rest =
      ((ran_test_case i ∷ [], record_verdict tc p verdict)
        >>= judge_cases h orch task run_cmd (suc i) tcs) in
    if h.expired i then ([], returned (record p { aborted = true })) else rest

-- Stage 3.
unfoldable pub report : Host → JudgeTask → CompileResult → Progress → Step {0} Unit
report h task cr p =
    let (final_status, final_score) = aggregate p.results task.judge_type in
    publish_result h (p.aborted || h.expired_at_end) (record (result_for h task final_status) {
      score = final_score;
      time_used_ms = p.max_time_ms;
      mem_used_kb = p.max_mem_kb;
      compile_log = cr.log;
      test_case_results = p.results;
    })

-- Stage 2, on the task with its resolved paths.
unfoldable pub judge : Host → JudgeTask → CompileResult → Step {0} Unit
judge h task cr =
    let multiplier = time_limit_multiplier h.tools task.language in
    let scaled = record task { time_limit_ms = scaled_limit multiplier task.time_limit_ms } in
    elim (h.registry task.judge_type) [
      | none ↦ ([], failed (h.unregistered_text task.judge_type))
      | some orch ↦
          judge_cases h orch scaled cr.run_cmd 0 task.test_cases no_progress >>= report h task cr
    ]

-- A failed compilation is published without test cases.
unfoldable pub judge_compiled : Host → JudgeTask → CompileResult → Step {0} Unit
judge_compiled h task cr =
    if cr.success
    then judge h task cr
    else publish_result h h.expired_at_compile
        (record (result_for h task status_ce) { compile_log = cr.log })

-- Stages 0 and 1, in a prepared session.
unfoldable pub in_session : Host → JudgeTask → Step {0} Unit
in_session h task =
    perform (fetched_testcases task.problem_id)
      (wrapped "testcase prefetch: " (h.ensure_testcases task.problem_id))
    >>= λ dir.
        perform compiled
          (wrapped "compile (SE): " (compile h.tools task.language task.source_code_path))
        >>= judge_compiled h
            (record task { test_cases = map (resolve_paths h dir) task.test_cases })

unfoldable pub in_workdir : Host → JudgeTask → Step {0} Unit
in_workdir h task =
    perform prepared (wrapped "sandbox.Prepare: " (h.prepare (max_processes task.judge_type)))
    >>= λ u. defer_event released (in_session h task)

unfoldable pub run_state_machine : Host → JudgeTask → Step {0} Unit
run_state_machine h task = perform made_workdir (wrapped "mkdir workdir: " h.make_workdir) >>= λ u.
    defer_event removed_workdir (in_workdir h task)

-- What `handleMessage` does after the state machine: an error and a panic are reported as SE.
unfoldable pub settle : Host → JudgeTask → Step {0} Unit → List Event
settle h task (events, returned u) = events
settle h task (events, failed e) = events ++ (publish_se h task e).0
settle h task (events, panicked e) =
    events ++ (publish_se h task (codes "internal error (panic): " ++ e)).0

-- `handleMessage` on a payload that decodes to a task, or does not. It answers with nil in every
-- case, so that the message is acknowledged; what it did is the list.
unfoldable pub handle_message : Host → Option JudgeTask → List Event
handle_message h none = []
handle_message h (some task) = settle h task (run_state_machine h task)
