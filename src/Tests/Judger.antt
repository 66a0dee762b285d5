-- ===== src/Tests/Judger.antt =====
-- Concrete runs of the judger: a node whose every call succeeds, one whose time runs out, and outputs.
use my_oj.Prelude.{
  ℕ, zero, suc, ◌≡◌, refl, false, none, some, List, [], ◌∷◌, ◌++◌, ◌⊎◌, inl, inr, length, arith, ap,
  map, if◌then◌else◌,
}
use my_oj.Prelude.Int.{pos, ◌+ℤ◌}
use my_oj.Prelude.Word.{add64, int64, signed}
use my_oj.Models.Types.{lang_python, judge_standard, status_accepted, status_tle}
use my_oj.Models.Judging.{Bytes, TestCaseResult, JudgeTask, JudgeTestCase}
use my_oj.Mq.Messages.{ResultMessage}
use my_oj.Judger.Verdict.{
  ExecResult, exec_ok, Verdict, aggregate, aggregate_from, worse_of, priority,
}
use my_oj.Judger.Verdict.Worst.{NoneWorse, SomeHas, AllJudged, points, aggregate-worst}
use my_oj.Judger.Tokens.{
  tokenize, tokens_equal, space_width, marks, runs, scan_words, is_blank, bytes_eq, all_eq,
}
use my_oj.Judger.Tokens.Layout.{Laid, lay, word_of, AllBytes, IsPlain, tokenize-lay}
use my_oj.Judger.Tokens.Overlong.{lay_before, tokenize_overlong}
use my_oj.Judger.Step.{
  made_workdir, removed_workdir, prepared, released, sent, returned, failed, panicked, codes,
  perform, defer_event, ◌>>=◌, truncate,
}
use my_oj.Judger.Compiler.{Toolchain, compile, time_limit_multiplier}
use my_oj.Judger.Scheduler.{
  Host, TestCaseRequest, handle_message, run_state_machine, in_workdir, in_session, judge_compiled,
  judge, judge_cases, record_verdict, report, publish_result, settle, resolved_limits, resolve_path,
  scaled_limit, max_processes, result_for,
}
use my_oj.Judger.Scheduler.Reports.{sent_count, handle_message_reports_once}
use my_oj.Judger.Scheduler.Cleanup.{Bracketed, NoScope, run_state_machine_cleans_up}
use my_oj.Judger.Scheduler.Accepted.{Occurs, handle_message_accepted_complete}
use my_oj.Judger.Scheduler.Attributed.{IsResultOf, handle_message_attributes}
use my_oj.Judger.Runners.{
  World, run_standard, parse_checker_output, checker_status, first_line, trim_left, trim_right,
  to_lower, strip_prefix,
}
use my_oj.Judger.Runners.Accepts.{Decides, run_standard_accepts}

abbrev right : TestCaseResult
right = record {
  test_case_id = 1;
  group_id = 0;
  status = status_accepted;
  time_used_ms = 10;
  mem_used_kb = 100;
  score = pos 40;
  checker_output = [];
}

abbrev late : TestCaseResult
late = record right { test_case_id = 2; status = status_tle; score = pos 0 }

aggregate-worst_example :
    let final = aggregate (right ∷ late ∷ []) judge_standard in
    NoneWorse final.0 (right ∷ late ∷ [])
    × ((final.0 ≡ status_accepted) ⊎ SomeHas final.0 (right ∷ late ∷ []))
    × (final.1 ≡ points (pos 0) (right ∷ late ∷ []))
aggregate-worst_example = aggregate-worst right (late ∷ []) judge_standard

judged : AllJudged (right ∷ late ∷ [])
unfolding priority
judged = (omega arith, (omega arith, tt))

-- A language without a compile command, and a compiler that is never asked.
abbrev tools : Toolchain
tools = record {
  configs = λ lang. some record {
    language = lang;
    source_file = "main.py";
    compile_cmd = [];
    run_cmd = "python3" ∷ "main.py" ∷ [];
    time_limit_multiplier = pos 3000;
  };
  get_to_file = λ key file. returned tt;
  execute = λ command limits. ([], failed []);
  unsupported_text = λ lang. [];
  silent_text = λ result. [];
}

abbrev good_verdict : Verdict
good_verdict = record {
  status = status_accepted;
  score = pos 50;
  time_used_ms = 7;
  mem_used_kb = 9;
  judge_message = [];
}

-- It publishes on a live context and nothing on one that has ended.
abbrev node : Host
node = record {
  tools = tools;
  make_workdir = returned tt;
  prepare = λ n. returned tt;
  ensure_testcases = λ id. returned "/cache/1";
  join_path = λ dir path. path;
  is_abs = λ path. false;
  registry = λ jt. some (λ i request. returned good_verdict);
  unregistered_text = λ jt. [];
  expired = λ i. false;
  expired_at_compile = false;
  expired_at_end = false;
  publish = λ ended r. if ended then some [] else none;
  node_id = "judger-1";
  judged_at = 100;
}

-- The sandbox of this one panics.
abbrev broken_node : Host
broken_node = record node { prepare = λ n. panicked [] }

abbrev case : ℕ → JudgeTestCase
case i = record {
  test_case_id = i;
  group_id = 0;
  ordinal = i;
  input_path = "1.in";
  output_path = "1.out";
  score = pos 50;
}

abbrev task : JudgeTask
task = record {
  task_id = "t";
  submission_id = 5;
  user_id = 6;
  problem_id = 1;
  contest_id = none;
  submitted_at = 90;
  language = lang_python;
  source_code_path = "sources/6/1/x.py";
  judge_type = judge_standard;
  judge_config = record {
    checker_path = "";
    checker_args = [];
    interactor_path = "";
    comm_process_count = 0;
    comm_channels = [];
    grader_path = "";
  };
  time_limit_ms = 1000;
  mem_limit_kb = 65536;
  test_cases = case 1 ∷ case 2 ∷ [];
}

handle_message_reports_once_example : sent_count (handle_message broken_node (some task)) ≡ 1
handle_message_reports_once_example = handle_message_reports_once broken_node task (λ r. refl)

run_state_machine_cleans_up_example :
    Bracketed made_workdir removed_workdir
      (Bracketed prepared released NoScope)
      (run_state_machine broken_node task).0
run_state_machine_cleans_up_example = run_state_machine_cleans_up broken_node task

abbrev good_case : ℕ → TestCaseResult
good_case i = record {
  test_case_id = i;
  group_id = 0;
  status = status_accepted;
  time_used_ms = 7;
  mem_used_kb = 9;
  score = pos 50;
  checker_output = [];
}

abbrev good_result : ResultMessage
good_result = record (result_for node task status_accepted) {
  score = pos 100;
  time_used_ms = 7;
  mem_used_kb = 9;
  test_case_results = good_case 1 ∷ good_case 2 ∷ [];
}

good_sent : Occurs (sent good_result) (handle_message node (some task))
unfolding handle_message run_state_machine in_workdir in_session judge_compiled judge judge_cases
    record_verdict report publish_result settle compile time_limit_multiplier scaled_limit
    resolve_path truncate aggregate aggregate_from worse_of priority perform defer_event ◌>>=◌
    max_processes add64 int64 signed ◌+ℤ◌
good_sent = inr (inr (inr (inr (inr (inr (inl refl))))))

handle_message_accepted_complete_example :
    (length good_result.test_case_results ≡ length task.test_cases)
    × NoneWorse status_accepted good_result.test_case_results
handle_message_accepted_complete_example =
    handle_message_accepted_complete node task good_result (λ r e. ground (arith, e)) good_sent refl

-- " 12\n7 " and its words.
abbrev laid : List Laid
laid =
    record { first = 49; others = 50 ∷ []; gap = 10; gaps = [] }
    ∷ record { first = 55; others = []; gap = 32; gaps = [] }
    ∷ []

tokenize-lay_example : tokenize ((32 ∷ []) ++ lay laid) ≡ map word_of laid
tokenize-lay_example =
    tokenize-lay (32 ∷ []) laid (inr refl, tt)
      (
        (
          ((omega arith, omega arith), ((omega arith, omega arith), tt)),
          omega arith,
          inl (omega arith, omega arith),
          tt,
        ),
        ((((omega arith, omega arith), tt), omega arith, inr refl, tt), tt),
      )

unfoldable repeated : ℕ → Bytes
repeated zero = []
repeated (suc n) = 97 ∷ repeated n

repeated-IsPlain : (n : ℕ) → AllBytes IsPlain (repeated n)
unfolding repeated
repeated-IsPlain zero = tt
repeated-IsPlain (suc n) = ((omega arith, omega arith), repeated-IsPlain n)

length-repeated : (n : ℕ) → length (repeated n) ≡ n
unfolding repeated
length-repeated zero = refl
length-repeated (suc n) = ap suc (length-repeated n)

tokenize_overlong_example :
    tokenize (
      (32 ∷ [])
      ++ lay_before
          (record { first = 55; others = []; gap = 32; gaps = [] } ∷ [])
          ((97 ∷ repeated 65535) ++ (10 ∷ 49 ∷ [])))
    ≡ ((55 ∷ []) ∷ [])
tokenize_overlong_example =
    tokenize_overlong (32 ∷ []) (record { first = 55; others = []; gap = 32; gaps = [] } ∷ []) 97
      (repeated 65535) (10 ∷ 49 ∷ []) (inr refl, tt)
      ((((omega arith, omega arith), tt), omega arith, inr refl, tt), tt)
      ((omega arith, omega arith), repeated-IsPlain 65535) (omega (arith, length-repeated 65535))

unequal : tokens_equal (codes "1 2") (codes "1 3") ≡ false
unfolding tokens_equal tokenize marks space_width runs scan_words bytes_eq all_eq
unequal = refl

abbrev finished : ExecResult
finished = record {
  exit_code = pos 0;
  signal = 0;
  time_used_ms = 5;
  mem_used_kb = 6;
  status = exec_ok;
  message = [];
}

abbrev files : World
files = record {
  open_input = λ path. returned tt;
  execute = λ command path limits. (codes "3", returned finished);
  read_file = λ path. returned (codes "3 ");
  write_temp = λ out. returned "/tmp/out";
  run_checker = λ path args. codes "ok";
  hint_text = λ hint. [];
  no_checker_text = λ tc. [];
}

abbrev request : TestCaseRequest
request = record {
  run_cmd = [];
  test_case = case 1;
  judge_config = task.judge_config;
  limits = resolved_limits task;
}

run_standard_accepts_example :
    (v : Verdict) × (run_standard files (record request { run_cmd = "./main" ∷ [] }) ≡ returned v)
    × Decides finished (codes "3") (codes "3 ") v
run_standard_accepts_example =
    run_standard_accepts files request "./main" [] finished (codes "3") (codes "3 ") refl refl refl

handle_message_attributes_example : IsResultOf task good_result
handle_message_attributes_example = handle_message_attributes node task good_result good_sent

-- A checker that gives no points.
abbrev no_points : Bytes
no_points = codes "points 0"

-- It is accepted all the same.
no_points_accepted : (parse_checker_output no_points finished).status ≡ status_accepted
unfolding parse_checker_output checker_status first_line trim_left trim_right to_lower strip_prefix
    is_blank space_width marks
no_points_accepted = refl
