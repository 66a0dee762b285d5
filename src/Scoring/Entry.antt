-- ===== src/Scoring/Entry.antt =====
-- internal/core/contest/strategy.go: the events, the scoreboard cells and the shared helpers.
use my_oj.Prelude.{ℕ, Bool, false, Option, none, some, List, []}
use my_oj.Prelude.Int.{ℤ, pos}
use my_oj.Models.Types.{Key, SubmissionStatus}
use my_oj.Models.Time.{Time}

pub record SubmissionEvent : Type 0 where
  pub user_id : Key
  pub problem_id : Key
  pub status : SubmissionStatus
  pub score : ℤ
  pub submit_time : Time
  pub contest_start : Time
  pub freeze_time : Option Time

pub record FrozenSubmission : Type 0 where
  pub status : SubmissionStatus
  pub submit_time : Time

-- The counters are `int`s that grow by one for each submission, so they are kept as numbers.
pub record ScoreEntry : Type 0 where
  pub user_id : Key
  pub problem_id : Key
  pub accepted : Bool
  pub display_score : ℤ
  pub penalty : ℤ
  pub attempt_count : ℕ
  pub wrong_attempt_count : ℕ
  pub best_submit_time : Time
  pub frozen_attempts : ℕ
  pub is_pending : Bool
  pub frozen_results : List FrozenSubmission
  pub is_first_blood : Bool

-- The zero-valued entry for a user and a problem.
unfoldable pub new_entry : Key → Key → ScoreEntry
new_entry user problem = record {
  user_id = user;
  problem_id = problem;
  accepted = false;
  display_score = pos 0;
  penalty = pos 0;
  attempt_count = 0;
  wrong_attempt_count = 0;
  best_submit_time = 0;
  frozen_attempts = 0;
  is_pending = false;
  frozen_results = [];
  is_first_blood = false;
}

-- Values are immutable here, so the deep copy of a previous entry is the entry.
unfoldable pub clone_or_new : Option ScoreEntry → SubmissionEvent → ScoreEntry
unfolding new_entry
clone_or_new none ev = new_entry ev.user_id ev.problem_id
clone_or_new (some e) ev = e
