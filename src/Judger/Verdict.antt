-- ===== src/Judger/Verdict.antt =====
-- internal/judger/{verdict,orchestrator}.go, sandbox/types.go: results of runs, and the verdict on a
-- whole submission.
pub mod Worst
use Prim.Native.String.{String}
use my_oj.Prelude.{ℕ, Bool, true, false, List, [], ◌∷◌, ltb, if◌then◌else◌}
use my_oj.Prelude.Int.{ℤ, pos}
use my_oj.Prelude.Word.{add64}
use my_oj.Models.Types.{
  SubmissionStatus, status_pending, status_compiling, status_judging, status_accepted,
  status_wrong_answer, status_tle, status_mle, status_re, status_ce, status_se, status_superseded,
  JudgeType, judge_standard, judge_special, judge_interactive, judge_communication,
}
use my_oj.Models.Judging.{Bytes, TestCaseResult}

pub data ExecStatus : Type 0 where
  exec_ok exec_tle exec_wall_tle exec_mle exec_re exec_sc_viol exec_se : ExecStatus

pub record ExecResult : Type 0 where
  pub exit_code : ℤ
  pub signal : ℕ
  pub time_used_ms : ℕ
  pub mem_used_kb : ℕ
  pub status : ExecStatus
  pub message : Bytes

abbrev pub is_exec_ok : ExecStatus → Bool
is_exec_ok exec_ok = true
is_exec_ok _ = false

-- The outcome of one test case.
pub record Verdict : Type 0 where
  pub status : SubmissionStatus
  pub score : ℤ
  pub time_used_ms : ℕ
  pub mem_used_kb : ℕ
  pub judge_message : Bytes

-- Called for a status other than `exec_ok`, which falls to the default.
unfoldable pub exec_status_to_submission : ExecStatus → SubmissionStatus
exec_status_to_submission exec_tle = status_tle
exec_status_to_submission exec_wall_tle = status_tle
exec_status_to_submission exec_mle = status_mle
exec_status_to_submission exec_re = status_re
exec_status_to_submission exec_sc_viol = status_re
exec_status_to_submission exec_se = status_se
exec_status_to_submission exec_ok = status_re

unfoldable pub priority : SubmissionStatus → ℕ
priority status_se = 6
priority status_tle = 5
priority status_mle = 4
priority status_re = 3
priority status_wrong_answer = 2
priority status_accepted = 1
priority _ = 0

abbrev pub is_scored : JudgeType → Bool
is_scored judge_standard = true
is_scored judge_special = true
is_scored judge_interactive = true
is_scored judge_communication = true

-- The test of the loop of `aggregate`.
unfoldable pub worse_of : SubmissionStatus → SubmissionStatus → SubmissionStatus
worse_of worst s = if ltb (priority worst) (priority s) then s else worst

-- The loop of `aggregate`, over the worst status and the score so far.
unfoldable pub aggregate_from :
    Bool → SubmissionStatus → ℤ → List TestCaseResult → SubmissionStatus × ℤ
aggregate_from scored worst total [] = (worst, total)
aggregate_from scored worst total (r ∷ rs) =
    aggregate_from scored (worse_of worst r.status) (if scored then add64 total r.score else total)
      rs

unfoldable pub aggregate : List TestCaseResult → JudgeType → SubmissionStatus × ℤ
aggregate [] jt = (status_se, pos 0)
aggregate (r ∷ rs) jt = aggregate_from (is_scored jt) status_accepted (pos 0) (r ∷ rs)
