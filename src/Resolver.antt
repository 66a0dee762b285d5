-- ===== src/Resolver.antt =====
-- internal/api/handler/resolver.go: the event feed that the ICPC resolver reads. Numbers are printed as
-- they stand, so that a text field which holds a number is the number; durations are in nanoseconds.
pub mod Clock
pub mod Cell
pub mod Agreement
pub mod Verdicts
use Prim.Native.String.{String}
use my_oj.Prelude.{
  ℕ, ◌+◌, ◌-◌, ◌*◌, ◌/◌, ◌%◌, Bool, true, false, not, ◌&&◌, Option, none, some, List, [], ◌∷◌, map,
  if◌then◌else◌,
}
use my_oj.Prelude.Int.{ℤ, pos, negsuc, sub_ℕ}
use my_oj.Models.Types.{
  Key, SubmissionStatus, status_accepted, status_wrong_answer, status_tle, status_mle, status_re,
  status_ce, is_accepted,
}
use my_oj.Models.Time.{Time, is_zero, before, after, sub_time}
use my_oj.Models.Settings.{penalty_minutes, ce_no_penalty}
use my_oj.Models.Contest.{Contest}

pub record FeedSubmission : Type 0 where
  pub id : Key
  pub user_id : Key
  pub problem_id : Key
  pub status : SubmissionStatus
  pub created_at : Time

pub record ContestProblem : Type 0 where
  pub problem_id : Key
  pub label : String
  pub title : String

pub record ContestTeam : Type 0 where
  pub user_id : Key
  pub username : String
  pub organization : String

-- The format `H:MM:SS`.
pub record Hms : Type 0 where
  pub hours : ℕ
  pub minutes : ℕ
  pub seconds : ℕ

pub record JudgementType : Type 0 where
  pub acronym : String
  pub name : String
  pub solved : Bool
  pub penalty : Bool

pub record FeedInfo : Type 0 where
  pub contest_id : Key
  pub title : String
  pub duration : Hms
  pub freeze_length : Hms
  pub penalty : ℕ
  pub started : Bool
  pub start_time : ℤ

pub record FeedProblem : Type 0 where
  pub id : Key
  pub label : String
  pub name : String

pub record FeedTeam : Type 0 where
  pub id : Key
  pub name : String
  pub university : String

pub record FeedRun : Type 0 where
  pub id : Key
  pub problem : Key
  pub team : Key
  pub judged : Bool
  pub result : String
  pub solved : Bool
  pub penalty : Bool
  pub time : ℕ
  pub timestamp : ℤ

pub record EventFeed : Type 0 where
  pub info : FeedInfo
  pub judgements : List JudgementType
  pub problems : List FeedProblem
  pub teams : List FeedTeam
  pub runs : List FeedRun
  pub finalized : ℕ × ℕ × ℕ

abbrev pub judgement : String → String → Bool → Bool → JudgementType
judgement acronym name solved penalty = record {
  acronym = acronym;
  name = name;
  solved = solved;
  penalty = penalty;
}

unfoldable pub judgement_types : Bool → List JudgementType
judgement_types no_penalty =
    judgement "AC" "Accepted" true false
    ∷ judgement "WA" "Wrong Answer" false true
    ∷ judgement "TLE" "Time Limit Exceeded" false true
    ∷ judgement "MLE" "Memory Limit Exceeded" false true
    ∷ judgement "RTE" "Run-Time Error" false true
    ∷ judgement "CE" "Compile Error" false (not no_penalty)
    ∷ []

-- The acronym, whether the verdict counts for the penalty, and whether it is one.
unfoldable pub map_result : SubmissionStatus → Bool → String × Bool × Bool
map_result status_accepted no_penalty = ("AC", false, true)
map_result status_wrong_answer no_penalty = ("WA", true, true)
map_result status_tle no_penalty = ("TLE", true, true)
map_result status_mle no_penalty = ("MLE", true, true)
map_result status_re no_penalty = ("RTE", true, true)
map_result status_ce no_penalty = ("CE", not no_penalty, true)
map_result _ no_penalty = ("", false, false)

abbrev pub second : ℕ
second = 1_000_000_000

-- `max(d, 0)`.
abbrev pub positive : ℤ → ℕ
positive (pos n) = n
positive (negsuc n) = 0

-- `hms(d.Seconds())`, rounded to the nearest second.
unfoldable pub hms : ℤ → Hms
hms d =
    let total = (positive d + 500_000_000) / second in
    record { hours = total / 3600; minutes = (total % 3600) / 60; seconds = total % 60 }

-- `t.Unix()`.
abbrev pub unix : Time → ℤ
unix t = sub_ℕ (t / second) 62_135_596_800

abbrev pub no_freeze : Hms
no_freeze = record { hours = 0; minutes = 0; seconds = 0 }

unfoldable pub freeze_length : Contest → Option Time → Hms
freeze_length contest none = no_freeze
freeze_length contest (some freeze) =
    if before freeze contest.end_time then hms (sub_time contest.end_time freeze) else no_freeze

unfoldable pub feed_info : Contest → FeedInfo
feed_info contest = record {
  contest_id = contest.id;
  title = contest.title;
  duration = hms (sub_time contest.end_time contest.start_time);
  freeze_length = freeze_length contest contest.freeze_time;
  penalty = penalty_minutes contest.settings;
  started = true;
  start_time = unix contest.start_time;
}

abbrev pub run_of : Contest → FeedSubmission → String → Bool → FeedRun
run_of contest s acronym counts = record {
  id = s.id;
  problem = s.problem_id;
  team = s.user_id;
  judged = true;
  result = acronym;
  solved = is_accepted s.status;
  penalty = counts && not (is_accepted s.status);
  time = positive (sub_time s.created_at contest.start_time);
  timestamp = unix s.created_at;
}

-- The body of the loop over the submissions: a run, or none.
unfoldable pub feed_run : Contest → FeedSubmission → Option FeedRun
feed_run contest s =
    let (acronym, counts, judged) = map_result s.status (ce_no_penalty contest.settings) in
    if not judged
    then none
    else if not (is_zero contest.end_time) && after s.created_at contest.end_time
    then none
    else some (run_of contest s acronym counts)

abbrev pub add_run : Option FeedRun → List FeedRun → List FeedRun
add_run none runs = runs
add_run (some r) runs = r ∷ runs

unfoldable pub feed_runs : Contest → List FeedSubmission → List FeedRun
feed_runs contest [] = []
feed_runs contest (s ∷ ss) = add_run (feed_run contest s) (feed_runs contest ss)

unfoldable pub build_event_feed :
    Contest → List ContestProblem → List ContestTeam → List FeedSubmission → EventFeed
build_event_feed contest problems teams subs = record {
  info = feed_info contest;
  judgements = judgement_types (ce_no_penalty contest.settings);
  problems = map (λ p. record { id = p.problem_id; label = p.label; name = p.title }) problems;
  teams =
      map (λ t. record { id = t.user_id; name = t.username; university = t.organization }) teams;
  runs = feed_runs contest subs;
  finalized = (0, 0, 0);
}

-- What the database answers for one contest, none for an error.
pub record FeedSource : Type 0 where
  pub contest : Option Contest
  pub problems : Option (List ContestProblem)
  pub teams : Option (List ContestTeam)
  pub submissions : Option (List FeedSubmission)

pub data FeedReply : Type 0 where
  not_found internal_error : FeedReply
  exported : EventFeed → FeedReply

-- `ExportEventFeed`.
unfoldable pub export_event_feed : FeedSource → FeedReply
export_event_feed src = elim src.contest [
  | none ↦ not_found
  | some contest ↦ elim src.problems [
    | none ↦ internal_error
    | some problems ↦ elim src.teams [
      | none ↦ internal_error
      | some teams ↦ elim src.submissions [
        | none ↦ internal_error
        | some subs ↦ exported (build_event_feed contest problems teams subs)
      ]
    ]
  ]
]
