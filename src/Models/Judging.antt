-- ===== src/Models/Judging.antt =====
-- internal/models/{submission,judge_task,problem}.go: submissions, tasks and test-case results.
use Prim.Native.String.{String}
use my_oj.Prelude.{ℕ, Option, List}
use my_oj.Prelude.Int.{ℤ}
use my_oj.Models.Types.{Key, Language, JudgeType, ContestType, SubmissionStatus}
use my_oj.Models.Time.{Time}

-- Text that the code cuts or searches is a list of bytes.
abbrev pub Bytes : Type 0
Bytes = List ℕ

pub record TestCaseResult : Type 0 where
  pub test_case_id : Key
  pub group_id : ℕ
  pub status : SubmissionStatus
  pub time_used_ms : ℕ
  pub mem_used_kb : ℕ
  pub score : ℤ
  pub checker_output : Bytes

pub record Submission : Type 0 where
  pub id : Key
  pub user_id : Key
  pub problem_id : Key
  pub contest_id : Option Key
  pub contest_type : Option ContestType
  pub language : Language
  pub source_code_path : String
  pub status : SubmissionStatus
  pub score : ℤ
  pub time_used_ms : ℕ
  pub mem_used_kb : ℕ
  pub compile_log : Bytes
  pub judge_message : Bytes
  pub test_case_results : List TestCaseResult
  pub judge_node_id : String
  pub created_at : Time
  pub updated_at : Time

pub record CommChannel : Type 0 where
  pub name : String
  pub from_process : ℕ
  pub to_process : ℕ
  pub buffer_size_kb : ℕ

-- Paths are texts; the empty text stands for an absent one, as in the source.
pub record JudgeConfig : Type 0 where
  pub checker_path : String
  pub checker_args : List String
  pub interactor_path : String
  pub comm_process_count : ℕ
  pub comm_channels : List CommChannel
  pub grader_path : String

pub record JudgeTestCase : Type 0 where
  pub test_case_id : Key
  pub group_id : ℕ
  pub ordinal : ℕ
  pub input_path : String
  pub output_path : String
  pub score : ℤ

pub record JudgeTask : Type 0 where
  pub task_id : String
  pub submission_id : Key
  pub user_id : Key
  pub problem_id : Key
  pub contest_id : Option Key
  pub submitted_at : Time
  pub language : Language
  pub source_code_path : String
  pub judge_type : JudgeType
  pub judge_config : JudgeConfig
  pub time_limit_ms : ℕ
  pub mem_limit_kb : ℕ
  pub test_cases : List JudgeTestCase
