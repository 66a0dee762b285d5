-- ===== src/Scoring/Icpc/Penalty.antt =====
-- The ICPC rules for a whole sequence of submissions to one problem.
use my_oj.Prelude.{
  ℕ, ◌+◌, ◌≡◌, refl, true, false, List, [], ◌∷◌, ◌++◌, length, if◌then◌else◌, arith, ap, sym, ◌∙◌,
}
use mathlib.Core.List.{append-nil}
use my_oj.Prelude.Int.{pos}
use my_oj.Prelude.Word.{add64, mul64}
use my_oj.Models.Types.{is_accepted}
use my_oj.Models.Settings.{ContestSettings, penalty_minutes}
use my_oj.Scoring.Entry.{SubmissionEvent, ScoreEntry, new_entry}
use my_oj.Scoring.Icpc.{
  apply_to, live_attempt, accept_at, is_post_freeze, ignore_ce, elapsed_mins, penalty_per_wa,
}

-- The submissions of one user to one problem, in the order in which they are judged.
unfoldable pub apply_all : ScoreEntry → List SubmissionEvent → ContestSettings → ScoreEntry
apply_all e [] s = e
apply_all e (ev ∷ evs) s = apply_all (apply_to e ev s) evs s

-- A submission before the freeze with a verdict other than accepted.
pub record IsRejected (ev : SubmissionEvent) : Type 0 where
  pub live : is_post_freeze ev.submit_time ev.freeze_time ≡ false
  pub rejected : is_accepted ev.status ≡ false

abbrev pub AllRejected : List SubmissionEvent → Type 0
AllRejected [] = Unit
AllRejected (ev ∷ evs) = IsRejected ev × AllRejected evs

-- The submissions that the contest's rules charge for.
unfoldable pub charged : ContestSettings → List SubmissionEvent → ℕ
charged s [] = 0
charged s (ev ∷ evs) = (if ignore_ce ev.status s then 0 else 1) + charged s evs

solved_is_final :
    (e : ScoreEntry) (ev : SubmissionEvent) (s : ContestSettings)
    → e.accepted ≡ true
    → apply_to e ev s ≡ e
unfolding apply_to
solved_is_final e ev s h = ground arith

-- A solved cell ignores every later submission, of any verdict and at any time.
pub apply_all-solved :
    (e : ScoreEntry) (evs : List SubmissionEvent) (s : ContestSettings)
    → e.accepted ≡ true
    → apply_all e evs s ≡ e
unfolding apply_all
apply_all-solved e [] s h = refl
apply_all-solved e (ev ∷ evs) s h = rw (solved_is_final e ev s h) (apply_all-solved e evs s h)

-- The cell with some more attempts, of which some are charged.
abbrev pub more_attempts : ScoreEntry → ℕ → ℕ → ScoreEntry
more_attempts e tries wrong = record e {
  attempt_count = e.attempt_count + tries;
  wrong_attempt_count = e.wrong_attempt_count + wrong;
}

pub rejected_step :
    (e : ScoreEntry) (ev : SubmissionEvent) (s : ContestSettings)
    → e.accepted ≡ false
    → IsRejected ev
    → apply_to e ev s ≡ more_attempts e 1 (if ignore_ce ev.status s then 0 else 1)
unfolding apply_to live_attempt
rejected_step e ev s h r = ground arith

more_attempts-more_attempts :
    (e : ScoreEntry) (a b c d : ℕ)
    → more_attempts (more_attempts e a b) c d ≡ more_attempts e (a + c) (b + d)
more_attempts-more_attempts e a b c d = ground arith

apply_all-rejected :
    (e : ScoreEntry) (evs post : List SubmissionEvent) (s : ContestSettings)
    → e.accepted ≡ false
    → AllRejected evs
    → apply_all e (evs ++ post) s ≡ apply_all (more_attempts e (length evs) (charged s evs)) post s
unfolding apply_all charged
apply_all-rejected e [] post s h r = ground arith
apply_all-rejected e (ev ∷ evs) post s h r =
    ap (λ c. apply_all c (evs ++ post) s) (rejected_step e ev s h r.0)
    ∙ apply_all-rejected (more_attempts e 1 charge) evs post s h r.1
    ∙ ap (λ c. apply_all c post s)
        (more_attempts-more_attempts e 1 charge (length evs) (charged s evs)
          ∙ ap (λ t. more_attempts e t (charge + charged s evs)) (omega arith))
  where
    charge : ℕ
    charge = if ignore_ce ev.status s then 0 else 1

pub accepted_step :
    (e : ScoreEntry) (ev : SubmissionEvent) (s : ContestSettings)
    → e.accepted ≡ false
    → is_post_freeze ev.submit_time ev.freeze_time ≡ false
    → is_accepted ev.status ≡ true
    → apply_to e ev s ≡ accept_at (more_attempts e 1 0) ev.submit_time ev.contest_start s
unfolding apply_to live_attempt accept_at
accepted_step e ev s h live acc = ground arith

-- The cell that the rules promise for a first accepted submission after some rejected ones.
unfoldable pub solved_cell :
    ℕ → ℕ → List SubmissionEvent → SubmissionEvent → ContestSettings → ScoreEntry
solved_cell user problem pre ac s = record (new_entry user problem) {
  accepted = true;
  display_score = pos 1;
  penalty =
      add64 (elapsed_mins ac.submit_time ac.contest_start)
        (mul64 (pos (charged s pre)) (pos (penalty_minutes s)));
  attempt_count = length pre + 1;
  wrong_attempt_count = charged s pre;
  best_submit_time = ac.submit_time;
}

-- After any rejected submissions, the first accepted one before the freeze fixes the cell for
-- good: one point, every attempt counted, and a penalty of the minutes elapsed plus the contest's
-- penalty for each attempt that its rules charge. Whatever follows changes nothing.
pub apply_all-solved_cell :
    (user problem : ℕ) (pre post : List SubmissionEvent) (ac : SubmissionEvent)
    (s : ContestSettings)
    → AllRejected pre
    → is_post_freeze ac.submit_time ac.freeze_time ≡ false
    → is_accepted ac.status ≡ true
    → apply_all (new_entry user problem) (pre ++ ac ∷ post) s ≡ solved_cell user problem pre ac s
unfolding new_entry accept_at solved_cell apply_all penalty_per_wa
apply_all-solved_cell user problem pre post ac s r live acc =
    apply_all-rejected (new_entry user problem) pre (ac ∷ post) s refl r
    ∙ ap (λ c. apply_all c post s) (accepted_step tried ac s refl live acc)
    ∙ apply_all-solved (accept_at (more_attempts tried 1 0) ac.submit_time ac.contest_start s) post
        s refl
    ∙ ground arith
  where
    tried : ScoreEntry
    tried = more_attempts (new_entry user problem) (length pre) (charged s pre)

-- Without an accepted submission there is no point and no penalty: only the attempts show.
pub apply_all-unsolved :
    (user problem : ℕ) (evs : List SubmissionEvent) (s : ContestSettings)
    → AllRejected evs
    → apply_all (new_entry user problem) evs s ≡ record (new_entry user problem) {
      attempt_count = length evs;
      wrong_attempt_count = charged s evs;
    }
unfolding new_entry apply_all
apply_all-unsolved user problem evs s r =
    ap (λ l. apply_all (new_entry user problem) l s) (sym (append-nil evs))
    ∙ apply_all-rejected (new_entry user problem) evs [] s refl r
    ∙ ground arith
