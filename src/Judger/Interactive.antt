-- ===== src/Judger/Interactive.antt =====
-- internal/judger/interactive/orchestrator.go: one test case of an interactive problem and of one with
-- several processes, with the verdict that an interactor or a grader writes. Files and the sandbox
-- answer from outside.
pub mod Worst
pub mod Accepts
use Prim.Native.String.{String}
use Prim.Native.String as Str
use my_oj.Prelude.{
  ℕ, zero, suc, ◌+◌, ◌-◌, ◌*◌, Bool, true, false, ◌&&◌, ◌||◌, Option, none, some, List, [], ◌∷◌,
  ◌++◌, map, length, drop, ◌==◌, leb, ltb, if◌then◌else◌,
}
use my_oj.Prelude.Int.{ℤ, pos}
use my_oj.Models.Types.{
  SubmissionStatus, status_accepted, status_wrong_answer, status_tle, status_mle, status_re,
  status_se,
}
use my_oj.Models.Judging.{Bytes, CommChannel, JudgeTestCase}
use my_oj.Judger.Verdict.{
  ExecStatus, exec_ok, exec_tle, exec_wall_tle, exec_mle, exec_re, exec_sc_viol, exec_se,
  ExecResult, Verdict,
}
use my_oj.Judger.Tokens.{bytes_eq}
use my_oj.Judger.Compiler.{ResourceLimits}
use my_oj.Judger.Step.{Outcome, returned, failed, panicked, codes}
use my_oj.Judger.Scheduler.{TestCaseRequest}
use my_oj.Judger.Runners.{
  or_fail, with_path, plain_verdict, first_line, trim, strip_prefix, scan_score,
}

pub record ExecRequest : Type 0 where
  pub command : List String
  pub limits : ResourceLimits

-- `interactor_input` is the path of the file that is opened for it.
pub record PairExecRequest : Type 0 where
  pub contestant : ExecRequest
  pub interactor : String
  pub interactor_limits : ResourceLimits
  pub interactor_input : String

pub record GroupExecRequest : Type 0 where
  pub processes : List ExecRequest
  pub channels : List CommChannel
  pub grader_process : Option String
  pub global_wall_time_limit_ms : ℕ

-- What the runners are given: whether a file opens, what a pair and a group of processes end with and
-- what the interactor or the grader has written, and the texts that `fmt` makes of numbers.
pub record Sandbox : Type 0 where
  pub open_shared_file : String → Outcome {0} Unit
  pub execute_pair : PairExecRequest → Outcome (ExecResult × Bytes)
  pub execute_group : GroupExecRequest → Outcome (List ExecResult × Bytes)
  pub index_text : ℕ → String
  pub no_interactor_text : JudgeTestCase → Bytes
  pub too_few_text : ℕ → Bytes

-- `strings.ToUpper` as far as the parser sees it: no other letter becomes an A, C or P.
abbrev pub upper_byte : ℕ → ℕ
upper_byte b = if leb 97 b && leb b 122 then b - 32 else b

abbrev pub scored_as : Bytes → ExecResult → SubmissionStatus → ℤ → Verdict
scored_as line result status score = record (plain_verdict result status) {
  score = score;
  judge_message = line;
}

-- The verdict of the first line.
unfoldable pub line_verdict : Bytes → ExecResult → Verdict
line_verdict line result =
    let upper = map upper_byte line in
    if bytes_eq upper (codes "AC")
    then scored_as line result status_accepted (pos 1)
    else elim (strip_prefix (codes "PC ") upper) [
      | some rest ↦ scored_as line result status_accepted (scan_score (drop 3 line))
      | none ↦ scored_as line result status_wrong_answer (pos 0)
    ]

abbrev pub system_error : Verdict
system_error = record {
  status = status_se;
  score = pos 0;
  time_used_ms = 0;
  mem_used_kb = 0;
  judge_message = [];
}

-- The switch on how the contestant's process ended.
unfoldable pub verdict_by : ExecStatus → Bytes → ExecResult → Verdict
verdict_by exec_tle line result = plain_verdict result status_tle
verdict_by exec_wall_tle line result = plain_verdict result status_tle
verdict_by exec_mle line result = plain_verdict result status_mle
verdict_by exec_re line result = plain_verdict result status_re
verdict_by exec_sc_viol line result = plain_verdict result status_re
verdict_by exec_se line result = system_error
verdict_by exec_ok line result = line_verdict line result

unfoldable pub default_verdict_parser : Bytes → ExecResult → Verdict
default_verdict_parser stderr contestant =
    verdict_by contestant.status (trim (first_line stderr)) contestant

abbrev pub interactor_limits : ResourceLimits → ResourceLimits
interactor_limits l = record {
  time_limit_ms = 0;
  wall_time_limit_ms = l.wall_time_limit_ms + 2000;
  mem_limit_kb = 256 * 1024;
  file_size_kb = 0;
  max_open_files = 64;
  max_child_processes = 0;
}

abbrev pub pair_request : TestCaseRequest → PairExecRequest
pair_request req = record {
  contestant = record { command = req.run_cmd; limits = req.limits };
  interactor = req.judge_config.interactor_path;
  interactor_limits = interactor_limits req.limits;
  interactor_input = req.test_case.input_path;
}

-- `InteractiveOrchestrator.RunTestCase`, with the default parser.
unfoldable pub run_interactive : Sandbox → TestCaseRequest → Outcome Verdict
run_interactive box req =
    let input = req.test_case.input_path in
    let run : Outcome Verdict = elim req.run_cmd [
      | [] ↦ failed (codes "interactive: RunCmd is empty")
      | command ∷ args ↦
          or_fail (with_path "interactive: open input " input) (box.open_shared_file input) (λ u.
            or_fail (λ e. codes "interactive: ExecutePair: " ++ e)
              (box.execute_pair (pair_request req))
              (λ (r : ExecResult × Bytes). returned (default_verdict_parser r.1 r.0)))
    ] in
    if Str.len req.judge_config.interactor_path == 0
    then failed (box.no_interactor_text req.test_case)
    else run

-- Process `i` gets its number as the last argument. The command of the configuration is taken to have
-- no spare capacity, so that each `append` of the source makes a list of its own.
unfoldable pub process_requests : Sandbox → TestCaseRequest → ℕ → ℕ → List ExecRequest
process_requests box req i zero = []
process_requests box req i (suc n) =
    record { command = req.run_cmd ++ (box.index_text i ∷ []); limits = req.limits }
    ∷ process_requests box req (i + 1) n

abbrev pub grader_of : String → Option String
grader_of path = if Str.len path == 0 then none else some path

abbrev pub group_request : Sandbox → TestCaseRequest → GroupExecRequest
group_request box req = record {
  processes = process_requests box req 0 req.judge_config.comm_process_count;
  channels = req.judge_config.comm_channels;
  grader_process = grader_of req.judge_config.grader_path;
  global_wall_time_limit_ms = req.limits.wall_time_limit_ms * 2;
}

unfoldable pub severity : ExecStatus → ℕ
severity exec_ok = 0
severity exec_re = 1
severity exec_wall_tle = 2
severity exec_tle = 2
severity exec_mle = 3
severity exec_sc_viol = 4
severity exec_se = 5

-- The loop of `worstProcess`.
unfoldable pub worst_from : ExecResult → List ExecResult → ExecResult
worst_from worst [] = worst
worst_from worst (r ∷ rs) =
    worst_from (if ltb (severity worst.status) (severity r.status) then r else worst) rs

abbrev pub group_verdict : Bytes → List ExecResult → Outcome Verdict
group_verdict output [] = panicked (codes "runtime error: index out of range [0] with length 0")
group_verdict output (r ∷ rs) = returned (default_verdict_parser output (worst_from r rs))

-- `CommOrchestrator.RunTestCase`, with the default parser.
unfoldable pub run_communication : Sandbox → TestCaseRequest → Outcome Verdict
run_communication box req =
    let n = req.judge_config.comm_process_count in
    let run : Outcome Verdict = elim req.run_cmd [
      | [] ↦ failed (codes "comm: RunCmd is empty")
      | command ∷ args ↦
          or_fail (λ e. codes "comm: ExecuteGroup: " ++ e)
            (box.execute_group (group_request box req))
            (λ (r : List ExecResult × Bytes). group_verdict r.1 r.0)
    ] in
    if ltb n 2 then failed (box.too_few_text n) else run
