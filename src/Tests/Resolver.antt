-- ===== src/Tests/Resolver.antt =====
-- A contest's submissions as its feed has them.
use my_oj.Prelude.{ℕ, ◌+◌, ◌*◌, List, refl, true, none, [], ◌∷◌, map, arith}
use my_oj.Prelude.Int.{pos}
use my_oj.Models.Types.{
  SubmissionStatus, status_accepted, status_wrong_answer, status_ce, contest_icpc,
}
use my_oj.Models.Contest.{Contest}
use my_oj.Scoring.Entry.{new_entry}
use my_oj.Scoring.Icpc.Penalty.{apply_all}
use my_oj.Resolver.{FeedSubmission, build_event_feed, map_result}
use my_oj.Resolver.Cell.{Agrees, score_runs, runs_of, subs_of, event_in}
use my_oj.Resolver.Agreement.{build_event_feed-Agrees}

-- From the first second of 1970 for an hour.
abbrev final : Contest
final = record {
  id = 3;
  title = "Final";
  contest_type = contest_icpc;
  start_time = 62_135_596_800_000_000_000;
  end_time = 62_135_600_400_000_000_000;
  freeze_time = none;
  settings = [];
  is_public = true;
}

-- A submission to problem 7 in a minute of the contest.
abbrev tried : ℕ → ℕ → ℕ → SubmissionStatus → FeedSubmission
tried id user minute status = record {
  id = id;
  user_id = user;
  problem_id = 7;
  status = status;
  created_at = 62_135_596_800_000_000_000 + minute * 60_000_000_000;
}

abbrev tries : List FeedSubmission
tries =
    tried 1 5 10 status_wrong_answer
    ∷ tried 2 6 12 status_accepted
    ∷ tried 3 5 20 status_ce
    ∷ tried 4 5 30 status_accepted
    ∷ []

build_event_feed-Agrees_example :
    let feed = build_event_feed final [] [] tries in
    Agrees feed.info.penalty
      (pos 0)
      (apply_all (new_entry 5 7) (map (event_in final) (subs_of 5 7 tries)) final.settings)
      (score_runs 0 (runs_of 5 7 feed.runs))
build_event_feed-Agrees_example = build_event_feed-Agrees final [] [] tries 5 7 (
    unfold map_result subs_of in
    (
      (refl, omega arith, omega arith),
      ((refl, omega arith, omega arith), ((refl, omega arith, omega arith), tt)),
    ))
