-- ===== src/Ranking/Board/Freeze.antt =====
-- What a board cell tells of a submission after the freeze.
use my_oj.Prelude.{◌≡◌, true, Option, none, some, [], arith}
use my_oj.Prelude.Int.{ℤ}
use my_oj.Models.Types.{SubmissionStatus}
use my_oj.Models.Settings.{ContestSettings}
use my_oj.Scoring.Entry.{SubmissionEvent, ScoreEntry, clone_or_new}
use my_oj.Scoring.Icpc.{apply_to, freeze_attempt, apply, is_post_freeze}
use my_oj.Ranking.Board.{cell_of}

-- A submission after the freeze leaves every public field of a cell but the count of frozen
-- attempts as it was, and that count and the stored entry up to the hidden results are the same
-- whatever its verdict and score are.
pub apply-hides_verdict :
    (prev : Option ScoreEntry) (ev : SubmissionEvent) (status' : SubmissionStatus) (score' : ℤ)
    (s : ContestSettings)
    → is_post_freeze ev.submit_time ev.freeze_time ≡ true
    → let after = apply ev prev s in
      let other = apply (record ev { status = status'; score = score' }) prev s in
      (cell_of after ≡ cell_of other)
      × (record after { frozen_results = [] } ≡ record other { frozen_results = [] })
      × (record (cell_of after) { pending = 0 }
          ≡ record (cell_of (clone_or_new prev ev)) { pending = 0 })
unfolding apply apply_to freeze_attempt cell_of clone_or_new
apply-hides_verdict none ev status' score' s h = (ground arith, ground arith, ground arith)
apply-hides_verdict (some e) ev status' score' s h = (ground arith, ground arith, ground arith)
