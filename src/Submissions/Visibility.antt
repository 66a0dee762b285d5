-- ===== src/Submissions/Visibility.antt =====
-- internal/api/handler/submission.go: what a viewer sees of a submission to a contest.
pub mod Secrecy
use my_oj.Prelude.{
  ℕ, Bool, true, false, not, ◌&&◌, Option, none, some, List, [], ◌∷◌, ◌==◌, if◌then◌else◌,
}
use my_oj.Prelude.Int.{ℤ, pos}
use my_oj.Models.Types.{
  Key, UserRole, role_admin, is_admin, is_icpc, contest_icpc, status_pending, status_judging,
}
use my_oj.Models.Time.{Time}
use my_oj.Models.Judging.{Submission}
use my_oj.Models.Contest.{Contest, effective_status, is_blind_judged, is_ended}

-- The key is 0, and there is no role, for a viewer who has not logged in.
pub record Viewer : Type 0 where
  pub user_id : Key
  pub role : Option UserRole

abbrev pub has_admin_role : Option UserRole → Bool
has_admin_role none = false
has_admin_role (some role) = is_admin role

unfoldable pub mask_blind : Submission → Submission
mask_blind sub = record sub {
  status = status_pending;
  score = pos 0;
  time_used_ms = 0;
  mem_used_kb = 0;
  compile_log = [];
  judge_message = [];
  test_case_results = [];
}

unfoldable pub mask_judging : Submission → Submission
mask_judging sub = record sub {
  status = status_judging;
  score = pos 0;
  time_used_ms = 0;
  mem_used_kb = 0;
  compile_log = [];
  judge_message = [];
  test_case_results = [];
  contest_type = some contest_icpc;
}

-- The view of the author, and of everyone after the contest.
abbrev pub without_details : Submission → Submission
without_details sub = record sub {
  test_case_results = [];
  judge_message = [];
  score = pos 0;
  contest_type = some contest_icpc;
}

-- `applyContestVisibility`, when the contest is known.
unfoldable pub view_in_contest : Contest → Time → Viewer → Submission → Submission
view_in_contest contest now viewer sub =
    let ended = is_ended (effective_status contest now) in
    if is_blind_judged contest && not ended
    then mask_blind sub
    else if is_icpc contest.contest_type
    then (if not ended && not (viewer.user_id == sub.user_id)
        then mask_judging sub
        else without_details sub)
    else sub

-- `applyContestVisibility`, with the contest as the database answers it, none for an error.
unfoldable pub view_for_others : Option Contest → Time → Viewer → Submission → Submission
view_for_others none now viewer sub = record sub { test_case_results = []; judge_message = [] }
view_for_others (some contest) now viewer sub = view_in_contest contest now viewer sub

unfoldable pub view_with :
    Option Key → (Key → Option Contest) → Time → Viewer → Submission → Submission
view_with none contests now viewer sub = sub
view_with (some id) contests now viewer sub =
    if has_admin_role viewer.role then sub else view_for_others (contests id) now viewer sub

-- `applyContestVisibility`.
unfoldable pub apply_contest_visibility :
    (Key → Option Contest) → Time → Viewer → Submission → Submission
apply_contest_visibility contests now viewer sub = view_with sub.contest_id contests now viewer sub

-- What `GetSubmissionSource` answers before it reads the source.
unfoldable pub may_read_source : Viewer → Submission → Bool
may_read_source viewer sub =
    not (not (has_admin_role viewer.role) && not (viewer.user_id == sub.user_id))
