-- ===== src/Scoring/Icpc.antt =====
-- internal/core/contest/strategy_icpc.go: one submission applied to a cell, and the reveal of a
-- frozen one (滚榜).
pub mod Invariant
pub mod Penalty
pub mod Reveal
pub mod Exempt
use my_oj.Prelude.{
  ℕ, zero, suc, ◌+◌, ◌-◌, Bool, true, false, not, ◌&&◌, Option, List, [], ◌∷◌, ◌++◌, leb,
  if◌then◌else◌,
}
use my_oj.Prelude.Int.{ℤ, pos}
use my_oj.Prelude.Word.{add64, mul64}
use my_oj.Models.Types.{SubmissionStatus, is_accepted, is_ce}
use my_oj.Models.Time.{Time, sub_time, minutes}
use my_oj.Models.Contest.{reached}
use my_oj.Models.Settings.{ContestSettings, penalty_minutes, ce_no_penalty}
use my_oj.Scoring.Entry.{SubmissionEvent, FrozenSubmission, ScoreEntry, clone_or_new}

unfoldable pub penalty_per_wa : ContestSettings → ℕ
penalty_per_wa s = penalty_minutes s

unfoldable pub is_post_freeze : Time → Option Time → Bool
is_post_freeze t freeze = reached t freeze

unfoldable pub ignore_ce : SubmissionStatus → ContestSettings → Bool
ignore_ce status s = is_ce status && ce_no_penalty s

-- The minutes from the start of the contest to a submission.
unfoldable pub elapsed_mins : Time → Time → ℤ
elapsed_mins submit start = minutes (sub_time submit start)

-- The fields that both `Apply` and `RevealNext` write on an accepted submission.
unfoldable pub accept_at : ScoreEntry → Time → Time → ContestSettings → ScoreEntry
accept_at e submit start s = record e {
  accepted = true;
  display_score = pos 1;
  is_pending = false;
  frozen_attempts = 0;
  frozen_results = [];
  best_submit_time = submit;
  penalty =
      add64 (elapsed_mins submit start)
        (mul64 (pos e.wrong_attempt_count) (pos (penalty_per_wa s)));
}

unfoldable pub freeze_attempt : ScoreEntry → SubmissionEvent → ScoreEntry
freeze_attempt e ev = record e {
  frozen_attempts = e.frozen_attempts + 1;
  is_pending = true;
  frozen_results =
      e.frozen_results ++ record { status = ev.status; submit_time = ev.submit_time } ∷ [];
}

-- The pre-freeze part of `Apply`.
unfoldable pub live_attempt : ScoreEntry → SubmissionEvent → ContestSettings → ScoreEntry
unfolding accept_at
live_attempt e ev s =
    let counted = record e { attempt_count = e.attempt_count + 1 } in
    if is_accepted ev.status
    then accept_at counted ev.submit_time ev.contest_start s
    else if ignore_ce ev.status s
    then counted
    else record counted { wrong_attempt_count = e.wrong_attempt_count + 1 }

unfoldable pub apply_to : ScoreEntry → SubmissionEvent → ContestSettings → ScoreEntry
unfolding live_attempt freeze_attempt
apply_to e ev s =
    if e.accepted
    then e
    else if is_post_freeze ev.submit_time ev.freeze_time
    then freeze_attempt e ev
    else live_attempt e ev s

unfoldable pub apply : SubmissionEvent → Option ScoreEntry → ContestSettings → ScoreEntry
unfolding apply_to
apply ev prev s = apply_to (clone_or_new prev ev) ev s

unfoldable pub is_finalised : ScoreEntry → ContestSettings → Bool
is_finalised e s = e.accepted && not e.is_pending

-- The pop of the earliest frozen submission: `FrozenAttempts--`, and what follows at 0 or below.
unfoldable pub pop_frozen : ScoreEntry → List FrozenSubmission → ScoreEntry
pop_frozen e rest = record e {
  frozen_results = rest;
  frozen_attempts = e.frozen_attempts - 1;
  is_pending = if leb e.frozen_attempts 1 then false else e.is_pending;
}

-- The frozen results are an argument, so that the clauses can match them.
unfoldable pub reveal_from :
    ScoreEntry → List FrozenSubmission → Time → ContestSettings → ScoreEntry × Bool
unfolding pop_frozen accept_at
reveal_from entry [] start s = (entry, false)
reveal_from entry (frozen ∷ rest) start s =
    let e = pop_frozen entry rest in
    if is_accepted frozen.status then (accept_at e frozen.submit_time start s, true) else (
      record e {
        wrong_attempt_count = e.wrong_attempt_count + 1;
        attempt_count = e.attempt_count + 1;
      },
      false,
    )

unfoldable pub reveal_next : ScoreEntry → Time → ContestSettings → ScoreEntry × Bool
unfolding reveal_from
reveal_next entry start s = reveal_from entry entry.frozen_results start s

-- The loop of `rebuildSnapshot` (internal/core/ranking/service.go) that reveals until nothing is
-- hidden, on fuel.
unfoldable pub reveal_all : ℕ → ScoreEntry → Time → ContestSettings → ScoreEntry
unfolding reveal_next
reveal_all zero e start s = e
reveal_all (suc n) e start s = elim e.frozen_results [
  | [] ↦ e
  | _ ∷ _ ↦ reveal_all n (reveal_next e start s).0 start s
]
