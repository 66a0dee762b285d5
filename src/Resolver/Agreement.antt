-- ===== src/Resolver/Agreement.antt =====
-- resolver.go against strategy_icpc.go: the whole feed and one cell of the scoreboard.
use my_oj.Prelude.{
  ◌≡◌, refl, sym, ap, subst, ◌∙◌, not, ◌&&◌, ◌⊎◌, inl, inr, none, some, List, [], ◌∷◌, map,
  Bool-cases, if◌then◌else◌, arith,
}
use my_oj.Prelude.Int.{pos}
use my_oj.Models.Types.{Key}
use my_oj.Models.Time.{is_zero, after}
use my_oj.Models.Settings.{penalty_minutes, ce_no_penalty}
use my_oj.Models.Contest.{Contest}
use my_oj.Scoring.Entry.{new_entry}
use my_oj.Scoring.Icpc.Penalty.{apply_all}
use my_oj.Resolver.{
  FeedSubmission, ContestProblem, ContestTeam, FeedRun, map_result, run_of, feed_run, add_run,
  feed_runs, build_event_feed, feed_info,
}
use my_oj.Resolver.Cell.{
  event_in, score_runs, mine, subs_of, runs_of, AllExported, Agrees, cell_Agrees,
}

feed_run_cases :
    (contest : Contest) (s : FeedSubmission)
    → (feed_run contest s ≡ none)
      ⊎ ((r : FeedRun) × (feed_run contest s ≡ some r)
          × (r.team ≡ s.user_id)
          × (r.problem ≡ s.problem_id))
unfolding feed_run
feed_run_cases contest s =
    let (acronym, counts, judged) = map_result s.status (ce_no_penalty contest.settings) in
    elim (Bool-cases judged) [
      | inr e ↦ inl (rw (e, feed_run) refl)
      | inl e ↦
          elim (Bool-cases
            (not (is_zero contest.end_time) && after s.created_at contest.end_time)) [
              | inl f ↦ inl (rw (e, f, feed_run) refl)
              | inr f ↦ inr (run_of contest s acronym counts, rw (e, f, feed_run) refl, refl, refl)
            ]
    ]

-- A run of the feed is one of the team and the problem of its submission.
runs_of-add_run :
    (contest : Contest) (user problem : Key) (s : FeedSubmission) (runs : List FeedRun)
    → runs_of user problem (add_run (feed_run contest s) runs) ≡ (
        if mine user problem s.user_id s.problem_id
        then add_run (feed_run contest s) (runs_of user problem runs)
        else runs_of user problem runs)
unfolding runs_of
runs_of-add_run contest user problem s runs = elim (feed_run_cases contest s) [
  | inl e ↦ rw e (ground arith)
  | inr (r, e, team, problem') ↦ rw e (rw (sym team, sym problem') refl)
]

runs_of-feed_runs :
    (contest : Contest) (user problem : Key) (subs : List FeedSubmission)
    → runs_of user problem (feed_runs contest subs) ≡ feed_runs contest (subs_of user problem subs)
unfolding runs_of feed_runs subs_of
runs_of-feed_runs contest user problem [] = refl
runs_of-feed_runs contest user problem (s ∷ subs) =
    runs_of-add_run contest user problem s (feed_runs contest subs)
    ∙ elim (Bool-cases (mine user problem s.user_id s.problem_id)) [
      | inl e ↦
          rw e (ap (add_run (feed_run contest s)) (runs_of-feed_runs contest user problem subs))
      | inr e ↦ rw e (runs_of-feed_runs contest user problem subs)
    ]

-- For the submissions of a user to a problem that the feed exports, in a contest that does not freeze,
-- the runs of the feed read by the ICPC rules give what the scoreboard has: whether the problem is
-- solved, the number of charged attempts, and the penalty, with the penalty minutes of the feed.
pub build_event_feed-Agrees :
    (contest : Contest) (problems : List ContestProblem) (teams : List ContestTeam)
    (subs : List FeedSubmission) (user problem : Key)
    → AllExported contest (subs_of user problem subs)
    → let feed = build_event_feed contest problems teams subs in
      Agrees feed.info.penalty
        (pos 0)
        (apply_all
          (new_entry user problem)
          (map (event_in contest) (subs_of user problem subs))
          contest.settings)
        (score_runs 0 (runs_of user problem feed.runs))
unfolding build_event_feed feed_info new_entry
build_event_feed-Agrees contest problems teams subs user problem all =
    subst
      (λ runs.
        Agrees (penalty_minutes contest.settings) (pos 0)
          (apply_all (new_entry user problem) (map (event_in contest) (subs_of user problem subs))
            contest.settings)
          (score_runs 0 runs))
      (sym (runs_of-feed_runs contest user problem subs))
      (cell_Agrees contest (subs_of user problem subs) (new_entry user problem) refl all)
