-- ===== src/Tests/Interactive.antt =====
-- An interactive problem, and one with two processes of which the second is too slow.
use my_oj.Prelude.{◌≡◌, ◌↔◌, refl, [], ◌∷◌, arith}
use my_oj.Prelude.Int.{pos}
use my_oj.Models.Types.{status_accepted}
use my_oj.Models.Judging.{Bytes}
use my_oj.Judger.Verdict.{exec_ok, exec_tle, ExecStatus, ExecResult, Verdict}
use my_oj.Judger.Step.{returned, codes}
use my_oj.Judger.Scheduler.{TestCaseRequest}
use my_oj.Judger.Interactive.{
  Sandbox, default_verdict_parser, verdict_by, line_verdict, run_interactive, run_communication,
}
use my_oj.Judger.Runners.{first_line, trim_left, trim_right, strip_prefix, scan_score, scan_digits}
use my_oj.Judger.Tokens.{is_blank, space_width, marks, bytes_eq}
use my_oj.Judger.Interactive.Worst.{AllOk}
use my_oj.Judger.Interactive.Accepts.{
  IsAccepting, run_interactive_accepts, run_communication_accepts,
}

abbrev ended : ExecStatus → ExecResult
ended s = record {
  exit_code = pos 0;
  signal = 0;
  time_used_ms = 12;
  mem_used_kb = 900;
  status = s;
  message = [];
}

-- `pc 7`, and a line that the parser does not read.
abbrev said : Bytes
said = codes " pc 7 \nthank you"

abbrev box : Sandbox
box = record {
  open_shared_file = λ path. returned tt;
  execute_pair = λ req. returned (ended exec_ok, said);
  execute_group = λ req. returned (ended exec_ok ∷ ended exec_tle ∷ [], said);
  index_text = λ i. "0";
  no_interactor_text = λ tc. [];
  too_few_text = λ n. [];
}

abbrev request : TestCaseRequest
request = record {
  run_cmd = [];
  test_case = record {
    test_case_id = 1;
    group_id = 0;
    ordinal = 1;
    input_path = "1.in";
    output_path = "1.out";
    score = pos 10;
  };
  judge_config = record {
    checker_path = "";
    checker_args = [];
    interactor_path = "interactor";
    comm_process_count = 2;
    comm_channels = [];
    grader_path = "";
  };
  limits = record {
    time_limit_ms = 1000;
    wall_time_limit_ms = 2000;
    mem_limit_kb = 65536;
    file_size_kb = 0;
    max_open_files = 16;
    max_child_processes = 1;
  };
}

abbrev with_command : TestCaseRequest
with_command = record request { run_cmd = "./main" ∷ [] }

run_interactive_accepts_example :
    (v : Verdict) × (run_interactive box with_command ≡ returned v)
    × ((v.status ≡ status_accepted) ↔ ((exec_ok ≡ exec_ok) × IsAccepting said))
run_interactive_accepts_example =
    run_interactive_accepts box request "./main" [] (ended exec_ok) said refl refl refl

run_communication_accepts_example :
    (v : Verdict) × (run_communication box with_command ≡ returned v)
    × ((v.status ≡ status_accepted)
        ↔ (AllOk (ended exec_ok ∷ ended exec_tle ∷ []) × IsAccepting said))
run_communication_accepts_example =
    run_communication_accepts box request "./main" [] (ended exec_ok) (ended exec_tle ∷ []) said
      (omega arith) refl

parsed_points : (default_verdict_parser said (ended exec_ok)).score ≡ pos 7
unfolding default_verdict_parser verdict_by line_verdict first_line trim_left trim_right
    strip_prefix scan_score scan_digits is_blank space_width marks bytes_eq
parsed_points = refl
