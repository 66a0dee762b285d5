-- ===== src/Tests/Submissions.antt =====
-- Submissions to an OI and to an ICPC contest.
use my_oj.Prelude.{
  ◌≡◌, ◌≢◌, refl, true, false, not, ◌⊎◌, none, some, [], ◌∷◌, inl, ap, length, arith,
}
use my_oj.Prelude.Int.{pos}
use my_oj.Models.Types.{
  lang_c, judge_standard, role_contestant, status_accepted, status_wrong_answer, contest_oi,
  contest_icpc,
}
use my_oj.Models.Judging.{Submission}
use my_oj.Models.Contest.{Contest, effective_status, is_blind_judged, is_ended}
use my_oj.Submissions.Visibility.{Viewer, apply_contest_visibility}
use my_oj.Submissions.Visibility.Secrecy.{judged_as, apply_contest_visibility_secret}
use my_oj.Submissions.Batch.{
  Backend, split_latest_per_problem, judge_contest, judge_found, judge_pending, judge_blind,
  partition_by, is_latest, latest_ids, note_latest, dispatch, dispatch_one,
}
use my_oj.Submissions.Batch.Latest.{those, is_last, split_latest_per_problem_lem}
use my_oj.Submissions.Batch.Dispatch.{IsBatch, judge_contest_blind}
use my_oj.Prelude.Assoc
use my_oj.Submissions.Intake.{Services, SubmitRequest, nothing, submit}
use my_oj.Submissions.Intake.Deferred.{IsTakenFor, submit_takes}

abbrev oi : Contest
oi = record {
  id = 3;
  title = "Final";
  contest_type = contest_oi;
  start_time = 100;
  end_time = 200;
  freeze_time = none;
  settings = [];
  is_public = true;
}

abbrev icpc : Contest
icpc = record oi { contest_type = contest_icpc }

abbrev other_viewer : Viewer
other_viewer = record { user_id = 8; role = some role_contestant }

abbrev first_try : Submission
first_try = record {
  id = 1;
  user_id = 6;
  problem_id = 7;
  contest_id = some 3;
  contest_type = none;
  language = lang_c;
  source_code_path = "sources/6/7/a.c";
  status = status_accepted;
  score = pos 100;
  time_used_ms = 5;
  mem_used_kb = 5;
  compile_log = [];
  judge_message = [];
  test_case_results = [];
  judge_node_id = "node-1";
  created_at = 120;
  updated_at = 121;
}

abbrev second_try : Submission
second_try = record first_try { id = 2; status = status_wrong_answer; score = pos 0 }

still_running : is_ended (effective_status oi 150) ≡ false
unfolding effective_status
still_running = refl

oi_blind : is_blind_judged oi ≡ true
unfolding is_blind_judged
oi_blind = refl

apply_contest_visibility_secret_example :
    apply_contest_visibility (λ id. some oi) 150 other_viewer first_try
    ≡ apply_contest_visibility (λ id. some oi) 150 other_viewer (judged_as second_try first_try)
apply_contest_visibility_secret_example =
    apply_contest_visibility_secret (λ id. some oi) oi 150 other_viewer first_try second_try 3 refl
      refl refl (still_running, inl oi_blind)

split_latest_per_problem_lem_example : split_latest_per_problem (second_try ∷ first_try ∷ []) ≡ (
  those (is_last (second_try ∷ first_try ∷ [])) (second_try ∷ first_try ∷ []),
  those (λ s. not (is_last (second_try ∷ first_try ∷ []) s)) (second_try ∷ first_try ∷ []),
)
split_latest_per_problem_lem_example = split_latest_per_problem_lem (second_try ∷ first_try ∷ [])

abbrev backend : Backend
backend = record {
  contest = some oi;
  pending = some (first_try ∷ second_try ∷ []);
  mark_superseded = true;
  load_problem_meta = λ id. some record {
    config = record {
      checker_path = "";
      checker_args = [];
      interactor_path = "";
      comm_process_count = 0;
      comm_channels = [];
      grader_path = "";
    };
    meta = record { judge_type = judge_standard; time_limit_ms = 1000; mem_limit_kb = 1000 };
    test_cases =
        record {
          test_case_id = 1;
          group_id = 0;
          ordinal = 1;
          input_path = "1.in";
          output_path = "1.out";
          score = pos 100;
        }
        ∷ [];
  };
  new_task_id = λ id. "t";
  publish = λ task. true;
}

oi_ended : is_ended (effective_status oi 250) ≡ true
unfolding effective_status
oi_ended = refl

judge_contest_blind_example :
    IsBatch backend
      (first_try ∷ second_try ∷ [])
      (split_latest_per_problem (first_try ∷ second_try ∷ []))
      (judge_contest backend 250)
judge_contest_blind_example =
    judge_contest_blind backend 250 oi (first_try ∷ second_try ∷ []) refl refl refl oi_blind
      oi_ended

one_queued : length (judge_contest backend 250).queue ≡ 1
unfolding judge_contest judge_found judge_pending judge_blind split_latest_per_problem partition_by
    is_latest latest_ids note_latest dispatch dispatch_one effective_status is_blind_judged
    Assoc.get2 Assoc.set2
one_queued = refl

some_queued : (judge_contest backend 250).queue ≢ []
some_queued e = absurd (omega (arith, one_queued, ap length e))

abbrev services : Services
services = record {
  contests = λ id. some icpc;
  can_submit_to_contest = λ contest problem user. some true;
  active_contest_for_problem = λ problem user. some (some 3);
  load_problem_meta = backend.load_problem_meta;
  source_key = λ user problem ext. "sources/6/7/a.c";
  put_source = λ key code. true;
  next_id = some 9;
  new_task_id = "t";
  publish = λ task. true;
  now = 150;
}

abbrev wanted : SubmitRequest
wanted = record { problem_id = 7; language = lang_c; source_code = "main;" }

submit_takes_example :
    let out = (submit services 6 3 wanted).0 in
    ((services.can_submit_to_contest 3 7 6 ≢ some true) × (out ≡ nothing))
    ⊎ ((services.can_submit_to_contest 3 7 6 ≡ some true)
        × IsTakenFor services 6 wanted (some 3) out)
submit_takes_example = submit_takes services 6 3 wanted
