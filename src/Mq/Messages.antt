-- ===== src/Mq/Messages.antt =====
-- internal/mq/mq.go: the envelopes of the two queues. JSON is left out: a payload is the message
-- that it decodes to, or none.
use Prim.Native.String.{String}
use my_oj.Prelude.{ℕ, Option, List}
use my_oj.Prelude.Int.{ℤ}
use my_oj.Models.Types.{Key, SubmissionStatus}
use my_oj.Models.Time.{Time}
use my_oj.Models.Judging.{Bytes, TestCaseResult, JudgeTask}

pub record TaskMessage : Type 0 where
  pub task : JudgeTask
  pub enqueued_at : Time

pub record ResultMessage : Type 0 where
  pub task_id : String
  pub submission_id : Key
  pub user_id : Key
  pub problem_id : Key
  pub contest_id : Option Key
  pub status : SubmissionStatus
  pub score : ℤ
  pub time_used_ms : ℕ
  pub mem_used_kb : ℕ
  pub compile_log : Bytes
  pub judge_message : Bytes
  pub test_case_results : List TestCaseResult
  pub judge_node_id : String
  pub judged_at : Time
  pub submitted_at : Time
