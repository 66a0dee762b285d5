-- ===== src/Scoring/Icpc/Invariant.antt =====
-- strategy_icpc.go: the counters of an ICPC cell and its hidden results.
use my_oj.Prelude.{
  ℕ, ◌≤◌, ◌≡◌, refl, true, false, Option, none, some, List, [], ◌∷◌, ltb, length, length-append,
  arith, ap,
}
use my_oj.Prelude.Int.{pos}
use my_oj.Models.Time.{Time}
use my_oj.Models.Settings.{ContestSettings}
use my_oj.Scoring.Entry.{SubmissionEvent, FrozenSubmission, ScoreEntry, new_entry, clone_or_new}
use my_oj.Scoring.Icpc.{
  apply_to, apply, live_attempt, freeze_attempt, accept_at, reveal_from, reveal_next, pop_frozen,
}

pub record IsConsistent (e : ScoreEntry) : Type 0 where
  pub solved_hides_nothing : e.accepted ≡ true → e.frozen_results ≡ []
  pub solved_score : e.accepted ≡ true → e.display_score ≡ pos 1
  pub unsolved_score : e.accepted ≡ false → e.display_score ≡ pos 0
  pub unsolved_penalty : e.accepted ≡ false → e.penalty ≡ pos 0
  pub frozen_counted : e.frozen_attempts ≡ length e.frozen_results
  pub pending_iff_frozen : e.is_pending ≡ ltb 0 e.frozen_attempts
  pub wrong_within_attempts : e.wrong_attempt_count ≤ e.attempt_count

new_entry-IsConsistent : (user problem : ℕ) → IsConsistent (new_entry user problem)
unfolding new_entry
new_entry-IsConsistent user problem = ground arith

apply_to-IsConsistent :
    (e : ScoreEntry) (ev : SubmissionEvent) (s : ContestSettings)
    → IsConsistent e
    → IsConsistent (apply_to e ev s)
unfolding apply_to live_attempt freeze_attempt accept_at
apply_to-IsConsistent e ev s h = ground (
  arith,
  length-append e.frozen_results (record { status = ev.status; submit_time = ev.submit_time } ∷ []),
)

-- The cell that `Apply` starts from is consistent.
clone_or_new-IsConsistent :
    (prev : Option ScoreEntry) (ev : SubmissionEvent)
    → ((e : ScoreEntry) → prev ≡ some e → IsConsistent e)
    → IsConsistent (clone_or_new prev ev)
unfolding clone_or_new
clone_or_new-IsConsistent none ev h = new_entry-IsConsistent ev.user_id ev.problem_id
clone_or_new-IsConsistent (some e) ev h = h e refl

-- `Apply` yields a consistent cell from a consistent one and from none: a solved cell hides
-- nothing and shows one point, an unsolved one shows no point and no penalty, the freeze counters
-- agree with what is hidden, and wrong attempts are attempts.
pub apply-IsConsistent :
    (ev : SubmissionEvent) (prev : Option ScoreEntry) (s : ContestSettings)
    → ((e : ScoreEntry) → prev ≡ some e → IsConsistent e)
    → IsConsistent (apply ev prev s)
unfolding apply
apply-IsConsistent ev prev s h =
    apply_to-IsConsistent (clone_or_new prev ev) ev s (clone_or_new-IsConsistent prev ev h)

reveal_from-IsConsistent :
    (e : ScoreEntry) (l : List FrozenSubmission) (start : Time) (s : ContestSettings)
    → e.frozen_results ≡ l
    → IsConsistent e
    → IsConsistent (reveal_from e l start s).0
unfolding reveal_from pop_frozen accept_at
reveal_from-IsConsistent e [] start s p h = h
reveal_from-IsConsistent e (f ∷ rest) start s p h = ground (arith, ap length p)

-- `RevealNext` keeps a consistent cell consistent: a solved cell hides nothing and shows one point,
-- an unsolved one shows no point and no penalty, and the freeze counters agree with what is hidden.
pub reveal_next-IsConsistent :
    (e : ScoreEntry) (start : Time) (s : ContestSettings)
    → IsConsistent e
    → IsConsistent (reveal_next e start s).0
unfolding reveal_next
reveal_next-IsConsistent e start s h = reveal_from-IsConsistent e e.frozen_results start s refl h
