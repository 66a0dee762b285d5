-- ===== src/Submissions/Visibility/Secrecy.antt =====
-- submission.go: what the outcome of a submission changes in what others see.
use my_oj.Prelude.{
  ◌≡◌, refl, ◌⊎◌, ◌∙◌, sym, subst, inl, inr, true, false, Option, some, [], ◌==◌, if◌then◌else◌,
  arith,
}
use my_oj.Prelude.Int.{pos}
use my_oj.Models.Types.{Key, is_icpc}
use my_oj.Models.Time.{Time}
use my_oj.Models.Judging.{Submission}
use my_oj.Models.Contest.{Contest, effective_status, is_blind_judged, is_ended}
use my_oj.Submissions.Visibility.{
  Viewer, has_admin_role, mask_blind, mask_judging, view_in_contest, view_with, view_for_others,
  apply_contest_visibility,
}

-- The viewer is kept from the verdict: the contest runs and is judged blind, or it is an ICPC contest
-- and the submission is another's.
abbrev pub IsSecret : Contest → Time → Viewer → Key → Type 0
IsSecret contest now viewer author =
    (is_ended (effective_status contest now) ≡ false)
    × ((is_blind_judged contest ≡ true)
        ⊎ ((is_icpc contest.contest_type ≡ true) × ((viewer.user_id == author) ≡ false)))

-- A submission with another outcome, judged by the same node at the same time.
abbrev pub judged_as : Submission → Submission → Submission
judged_as other sub = record sub {
  status = other.status;
  score = other.score;
  time_used_ms = other.time_used_ms;
  mem_used_kb = other.mem_used_kb;
  compile_log = other.compile_log;
  judge_message = other.judge_message;
  test_case_results = other.test_case_results;
}

view_in_contest_secret :
    (contest : Contest) (now : Time) (viewer : Viewer) (sub other : Submission)
    → IsSecret contest now viewer sub.user_id
    → view_in_contest contest now viewer sub
      ≡ view_in_contest contest now viewer (judged_as other sub)
unfolding view_in_contest mask_blind mask_judging
view_in_contest_secret contest now viewer sub other (running, inl blind) = ground arith
view_in_contest_secret contest now viewer sub other (running, inr (icpc, third)) = ground arith

view_with-known :
    (contests : Key → Option Contest) (contest : Contest) (now : Time) (viewer : Viewer)
    (sub : Submission) (within : Option Key) (id : Key)
    → within ≡ some id
    → contests id ≡ some contest
    → has_admin_role viewer.role ≡ false
    → view_with within contests now viewer sub ≡ view_in_contest contest now viewer sub
unfolding view_with view_for_others
view_with-known contests contest now viewer sub within id same known plain = rw same go
  where
    go :
        (if has_admin_role viewer.role then sub else view_for_others (contests id) now viewer sub)
        ≡ view_in_contest contest now viewer sub
    go = rw (plain, known) refl

-- When the database answers with the contest of the submission, and the contest runs and is judged
-- blind, or runs with the ICPC rules and the submission is another's, then what
-- `applyContestVisibility` leaves for a viewer who is not an admin does not depend on the outcome of
-- the submission: its status, score, use of time and memory, messages and test cases, with the node
-- that judged it and the times of its row the same.
pub apply_contest_visibility_secret :
    (contests : Key → Option Contest) (contest : Contest) (now : Time) (viewer : Viewer)
    (sub other : Submission) (id : Key)
    → sub.contest_id ≡ some id
    → contests id ≡ some contest
    → has_admin_role viewer.role ≡ false
    → IsSecret contest now viewer sub.user_id
    → apply_contest_visibility contests now viewer sub
      ≡ apply_contest_visibility contests now viewer (judged_as other sub)
unfolding apply_contest_visibility
apply_contest_visibility_secret contests contest now viewer sub other id within known plain secret =
    view_with-known contests contest now viewer sub sub.contest_id id within known plain
    ∙ view_in_contest_secret contest now viewer sub other secret
    ∙ sym (
        view_with-known contests contest now viewer (judged_as other sub) sub.contest_id id within
          known plain)

icpc_view_has_no_details :
    (contest : Contest) (now : Time) (viewer : Viewer) (sub : Submission)
    → is_icpc contest.contest_type ≡ true
    → let view = view_in_contest contest now viewer sub in
      (view.test_case_results ≡ []) × (view.judge_message ≡ []) × (view.score ≡ pos 0)
unfolding view_in_contest mask_blind mask_judging
icpc_view_has_no_details contest now viewer sub icpc = (ground arith, ground arith, ground arith)

-- At any time, a viewer who is not an admin, the author too, sees neither test cases nor messages nor
-- points of a submission to an ICPC contest.
pub apply_contest_visibility_icpc :
    (contests : Key → Option Contest) (contest : Contest) (now : Time) (viewer : Viewer)
    (sub : Submission) (id : Key)
    → sub.contest_id ≡ some id
    → contests id ≡ some contest
    → has_admin_role viewer.role ≡ false
    → is_icpc contest.contest_type ≡ true
    → let view = apply_contest_visibility contests now viewer sub in
      (view.test_case_results ≡ []) × (view.judge_message ≡ []) × (view.score ≡ pos 0)
unfolding apply_contest_visibility
apply_contest_visibility_icpc contests contest now viewer sub id within known plain icpc =
    subst (λ view. (view.test_case_results ≡ []) × (view.judge_message ≡ []) × (view.score ≡ pos 0))
      (sym (view_with-known contests contest now viewer sub sub.contest_id id within known plain))
      (icpc_view_has_no_details contest now viewer sub icpc)
