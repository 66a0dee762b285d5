-- ===== src/Tests/Ranking.antt =====
-- The scoreboard theorems at small inputs.
use my_oj.Prelude.{◌≡◌, refl, inr, inl, none, some, [], ◌∷◌, false, arith}
use my_oj.Prelude.Int.{pos}
use my_oj.Prelude.Assoc.{get2}
use my_oj.Models.Types.{status_accepted, status_wrong_answer, contest_icpc}
use my_oj.Scoring.Entry.{SubmissionEvent, clone_or_new}
use my_oj.Scoring.Entry.{SubmissionEvent, new_entry}
use my_oj.Scoring.Icpc.{apply, is_post_freeze}
use my_oj.Scoring.Rank.{Runtime}
use my_oj.Prelude.Order.{insertion_sorter}
use mathlib.Core.List.Perm
use my_oj.Mq.Messages.{ResultMessage}
use my_oj.Ranking.Board.{cell_of, ContestMeta}
use my_oj.Ranking.Board.Freeze.{apply-hides_verdict}
use my_oj.Ranking.Service.{RankingState, Loaders, Faults, keys_of, handle_result}
use my_oj.Ranking.Service.Effects.{handle_result-cells}

abbrev late : SubmissionEvent
late = record {
  user_id = 1;
  problem_id = 7;
  status = status_accepted;
  score = pos 100;
  submit_time = 900;
  contest_start = 100;
  freeze_time = some 800;
}

apply-hides_verdict_example :
    let after = apply late none [] in
    let other = apply (record late { status = status_wrong_answer; score = pos 0 }) none [] in
    (cell_of after ≡ cell_of other)
    × (record after { frozen_results = [] } ≡ record other { frozen_results = [] })
    × (record (cell_of after) { pending = 0 }
        ≡ record (cell_of (clone_or_new none late)) { pending = 0 })
unfolding is_post_freeze
apply-hides_verdict_example = apply-hides_verdict none late status_wrong_answer (pos 0) [] refl

abbrev runtime : Runtime
runtime = record { map_order = λ rows. rows; map_order-perm = Perm.refl; sorter = insertion_sorter }

abbrev contest : ContestMeta
contest = record {
  contest_type = contest_icpc;
  settings = [];
  start_time = 100;
  freeze_time = none;
  end_time = 1000;
}

abbrev database : Loaders
database = record {
  contest_meta = λ id. some contest;
  contest_problems = λ id. some (record { problem_id = 7; label = "A" } ∷ []);
  usernames = λ ids. some (λ id. record { username = "ada"; organization = "" });
}

abbrev no_faults : Faults
no_faults = record {
  hget = false;
  hset = false;
  hgetall = false;
  exists = false;
  set_revealed = false;
  set = false;
  publish = false;
}

abbrev judged : ResultMessage
judged = record {
  task_id = "t";
  submission_id = 5;
  user_id = 1;
  problem_id = 7;
  contest_id = some 3;
  status = status_accepted;
  score = pos 1;
  time_used_ms = 10;
  mem_used_kb = 10;
  compile_log = [];
  judge_message = [];
  test_case_results = [];
  judge_node_id = "n";
  judged_at = 400;
  submitted_at = 300;
}

abbrev stored : RankingState
stored = record {
  contests =
      (
        3,
        record {
          entries = (2, 7, new_entry 2 7) ∷ [];
          revealed = false;
          snapshot = none;
          events = [];
        },
      )
      ∷ [];
  meta_cache = [];
}

handle_result-cells_example :
    let after = (handle_result runtime database no_faults 500 (some judged) stored).0 in
    (get2 2 7 (keys_of 3 after).entries ≡ get2 2 7 (keys_of 3 stored).entries)
    × ((keys_of 3 after).revealed ≡ (keys_of 3 stored).revealed)
handle_result-cells_example =
    handle_result-cells runtime database no_faults 500 3 3 2 7 judged stored refl
      (inr (inl (omega arith)))
