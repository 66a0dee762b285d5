-- ===== src/Resolver/Cell.antt =====
-- resolver.go against strategy_icpc.go: what a reader of the feed makes of its runs, and the cell of
-- the scoreboard.
use Prim.Native.String.{String}
use my_oj.Prelude.{
  ℕ, ◌+◌, ◌/◌, ◌≤◌, ◌≡◌, refl, sym, ap, subst, ◌∙◌, Bool, true, false, not, ◌&&◌, inl, inr, none,
  some, List, [], ◌∷◌, map, ◌==◌, Bool-cases, if◌then◌else◌, arith,
}
use my_oj.Prelude.Int.{ℤ, pos}
use my_oj.Prelude.Word.{add64, mul64}
use my_oj.Models.Types.{
  Key, SubmissionStatus, status_pending, status_compiling, status_judging, status_accepted,
  status_wrong_answer, status_tle, status_mle, status_re, status_ce, status_se, status_superseded,
  is_accepted,
}
use my_oj.Models.Time.{Time, is_zero, after, sub_time, minutes}
use my_oj.Models.Settings.{ContestSettings, penalty_minutes, ce_no_penalty}
use my_oj.Models.Contest.{Contest}
use my_oj.Scoring.Entry.{SubmissionEvent, ScoreEntry}
use my_oj.Scoring.Icpc.{
  apply_to, accept_at, ignore_ce, elapsed_mins, penalty_per_wa, is_post_freeze,
}
use my_oj.Scoring.Icpc.Penalty.{
  apply_all, apply_all-solved, rejected_step, accepted_step, more_attempts, IsRejected,
}
use my_oj.Resolver.{FeedSubmission, FeedRun, map_result, positive, run_of, feed_run, feed_runs}

-- The submission as the scoreboard takes it, in a contest that does not freeze.
abbrev pub event_in : Contest → FeedSubmission → SubmissionEvent
event_in contest s = record {
  user_id = s.user_id;
  problem_id = s.problem_id;
  status = s.status;
  score = pos 0;
  submit_time = s.created_at;
  contest_start = contest.start_time;
  freeze_time = none;
}

-- How the ICPC rules read the runs of one team on one problem.
pub record FeedScore : Type 0 where
  pub solved : Bool
  pub wrong : ℕ
  pub time : ℕ

abbrev pub one_if : Bool → ℕ
one_if true = 1
one_if false = 0

abbrev one_unless : Bool → ℕ
one_unless b = if b then 0 else 1

unfoldable pub score_runs : ℕ → List FeedRun → FeedScore
score_runs wrong [] = record { solved = false; wrong = wrong; time = 0 }
score_runs wrong (r ∷ rs) =
    let rest = score_runs (wrong + one_if r.penalty) rs in
    if r.solved then record { solved = true; wrong = wrong; time = r.time } else rest

abbrev pub mine : Key → Key → Key → Key → Bool
mine user problem a b = a == user && b == problem

unfoldable pub subs_of : Key → Key → List FeedSubmission → List FeedSubmission
subs_of user problem [] = []
subs_of user problem (s ∷ ss) =
    let rest = subs_of user problem ss in
    if mine user problem s.user_id s.problem_id then s ∷ rest else rest

unfoldable pub runs_of : Key → Key → List FeedRun → List FeedRun
runs_of user problem [] = []
runs_of user problem (r ∷ rs) =
    let rest = runs_of user problem rs in
    if mine user problem r.team r.problem then r ∷ rest else rest

-- A submission that the feed exports: its verdict is one of the feed's, and it was made during the
-- contest.
abbrev pub IsExported : Contest → FeedSubmission → Type 0
IsExported contest s =
    ((map_result s.status (ce_no_penalty contest.settings)).2 ≡ true)
    × (contest.start_time ≤ s.created_at)
    × (s.created_at ≤ contest.end_time)

abbrev pub AllExported : Contest → List FeedSubmission → Type 0
AllExported contest [] = Unit
AllExported contest (s ∷ ss) = IsExported contest s × AllExported contest ss

-- The cell says what the runs say: whether the problem is solved, how many attempts are charged,
-- and the minutes with the penalty of each charged attempt.
abbrev pub Agrees : ℕ → ℤ → ScoreEntry → FeedScore → Type 0
Agrees per_wrong unsolved cell fed =
    (cell.accepted ≡ fed.solved)
    × (cell.wrong_attempt_count ≡ fed.wrong)
    × (cell.penalty ≡ (
        if fed.solved
        then add64 (pos (fed.time / 60_000_000_000)) (mul64 (pos fed.wrong) (pos per_wrong))
        else unsolved))

exported_run :
    (contest : Contest) (s : FeedSubmission)
    → IsExported contest s
    → feed_run contest s
      ≡ some (
          run_of contest s
            (map_result s.status (ce_no_penalty contest.settings)).0
            (map_result s.status (ce_no_penalty contest.settings)).1)
unfolding feed_run
exported_run contest s (judged, begun, within) = rw (judged, feed_run) (rw in_time refl)
  where
    in_time : (not (is_zero contest.end_time) && after s.created_at contest.end_time) ≡ false
    in_time = ground arith

elapsed_in_contest :
    (submit start : Time)
    → start ≤ submit
    → elapsed_mins submit start ≡ pos (positive (sub_time submit start) / 60_000_000_000)
unfolding elapsed_mins minutes sub_time
elapsed_in_contest submit start h = ground arith

-- A rejected verdict of the feed is charged there exactly when the scoreboard charges it.
same_charge :
    (st : SubmissionStatus) (s : ContestSettings)
    → (map_result st (ce_no_penalty s)).2 ≡ true
    → is_accepted st ≡ false
    → one_unless (ignore_ce st s)
      ≡ one_if ((map_result st (ce_no_penalty s)).1 && not (is_accepted st))
unfolding map_result ignore_ce
same_charge status_accepted s j a = cc
same_charge status_wrong_answer s j a = refl
same_charge status_tle s j a = refl
same_charge status_mle s j a = refl
same_charge status_re s j a = refl
same_charge status_ce s j a = ground arith
same_charge status_pending s j a = cc
same_charge status_compiling s j a = cc
same_charge status_judging s j a = cc
same_charge status_se s j a = cc
same_charge status_superseded s j a = cc

solved_Agrees :
    (contest : Contest) (s : FeedSubmission) (e : ScoreEntry) (rest : List FeedSubmission)
    (runs : List FeedRun) (acronym : String) (counts : Bool) (p : ℤ)
    → e.accepted ≡ false
    → contest.start_time ≤ s.created_at
    → is_accepted s.status ≡ true
    → Agrees
        (penalty_minutes contest.settings)
        p
        (apply_all
          (apply_to e (event_in contest s) contest.settings)
          (map (event_in contest) rest)
          contest.settings)
        (score_runs e.wrong_attempt_count (run_of contest s acronym counts ∷ runs))
unfolding score_runs is_post_freeze accept_at penalty_per_wa
solved_Agrees contest s e rest runs acronym counts p unsolved begun acc =
    subst
      (λ cell.
        Agrees (penalty_minutes contest.settings) p cell
          (score_runs e.wrong_attempt_count (run_of contest s acronym counts ∷ runs)))
      (sym (
        ap (λ c. apply_all c (map (event_in contest) rest) contest.settings)
          (accepted_step e (event_in contest s) contest.settings unsolved refl acc)
        ∙ apply_all-solved done (map (event_in contest) rest) contest.settings refl))
      (rw acc (
        refl,
        omega arith,
        rw (elapsed_in_contest s.created_at contest.start_time begun) (ground arith),
      ))
  where
    done : ScoreEntry
    done = accept_at (more_attempts e 1 0) s.created_at contest.start_time contest.settings

live-IsRejected :
    (contest : Contest) (s : FeedSubmission)
    → is_accepted s.status ≡ false
    → IsRejected (event_in contest s)
unfolding is_post_freeze
live-IsRejected contest s r = record { live = refl; rejected = r }

rejected_run :
    (contest : Contest) (s : FeedSubmission) (acronym : String) (counts : Bool) (wrong : ℕ)
    (runs : List FeedRun)
    → is_accepted s.status ≡ false
    → score_runs wrong (run_of contest s acronym counts ∷ runs)
      ≡ score_runs (wrong + one_if (counts && not (is_accepted s.status))) runs
unfolding score_runs
rejected_run contest s acronym counts wrong runs rej = rw rej refl

pub cell_Agrees :
    (contest : Contest) (subs : List FeedSubmission) (e : ScoreEntry)
    → e.accepted ≡ false
    → AllExported contest subs
    → Agrees
        (penalty_minutes contest.settings)
        e.penalty
        (apply_all e (map (event_in contest) subs) contest.settings)
        (score_runs e.wrong_attempt_count (feed_runs contest subs))
unfolding apply_all score_runs feed_runs
cell_Agrees contest [] e unsolved all = (unsolved, refl, refl)
cell_Agrees contest (s ∷ subs) e unsolved ((judged, begun, within), all) =
    let evs = map (event_in contest) subs in
    let runs = feed_runs contest subs in
    let acronym = (map_result s.status (ce_no_penalty contest.settings)).0 in
    let counts = (map_result s.status (ce_no_penalty contest.settings)).1 in
    let next = more_attempts e 1 (one_unless (ignore_ce s.status contest.settings)) in
    rw (exported_run contest s (judged, begun, within)) (elim (Bool-cases (is_accepted s.status)) [
      | inl acc ↦ solved_Agrees contest s e subs runs acronym counts e.penalty unsolved begun acc
      | inr rej ↦
          subst
            (λ cell.
              Agrees (penalty_minutes contest.settings) e.penalty cell
                (score_runs e.wrong_attempt_count (run_of contest s acronym counts ∷ runs)))
            (sym (
              ap (λ c. apply_all c evs contest.settings)
                (rejected_step e (event_in contest s) contest.settings unsolved
                  (live-IsRejected contest s rej))))
            (subst
              (λ fed.
                Agrees (penalty_minutes contest.settings) e.penalty
                  (apply_all next evs contest.settings) fed)
              (sym (
                rejected_run contest s acronym counts e.wrong_attempt_count runs rej
                ∙ ap (λ n. score_runs (e.wrong_attempt_count + n) runs)
                    (sym (same_charge s.status contest.settings judged rej))))
              (cell_Agrees contest subs next unsolved all))
    ])
