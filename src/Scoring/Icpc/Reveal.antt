-- ===== src/Scoring/Icpc/Reveal.antt =====
-- strategy_icpc.go: the rolling reveal (滚榜) against a board that was never frozen.
use my_oj.Prelude.{
  ℕ, zero, suc, ◌≤◌, ◌≡◌, refl, ap, ◌∙◌, true, false, none, List, [], ◌∷◌, ◌++◌, map, length,
  length-map, arith, Bool-cases, List-cases, sym, inl, inr,
}
use mathlib.Core.List.{append-nil, append_assoc}
use my_oj.Models.Types.{is_accepted}
use my_oj.Models.Time.{Time}
use my_oj.Models.Settings.{ContestSettings}
use my_oj.Scoring.Entry.{SubmissionEvent, FrozenSubmission, ScoreEntry}
use my_oj.Scoring.Icpc.{
  apply_to, live_attempt, freeze_attempt, accept_at, is_post_freeze, ignore_ce, reveal_from,
  reveal_next, reveal_all, pop_frozen,
}
use my_oj.Scoring.Icpc.Penalty.{apply_all, apply_all-solved}

reveal_from-shorter :
    (e : ScoreEntry) (f : FrozenSubmission) (l : List FrozenSubmission) (start : Time)
    (s : ContestSettings)
    → length (reveal_from e (f ∷ l) start s).0.frozen_results ≤ length l
unfolding reveal_from pop_frozen accept_at
reveal_from-shorter e f l start s = ground arith

pub reveal_next-cons :
    (e : ScoreEntry) {f : FrozenSubmission} {l : List FrozenSubmission} (start : Time)
    (s : ContestSettings)
    → e.frozen_results ≡ f ∷ l
    → reveal_next e start s ≡ reveal_from e (f ∷ l) start s
unfolding reveal_next
reveal_next-cons e start s p = ap (λ k. reveal_from e k start s) p

-- The loop of the reveal ends: with as many rounds as there are hidden results none is left.
pub reveal_all-hides_nothing :
    (n : ℕ) (e : ScoreEntry) (start : Time) (s : ContestSettings)
    → length e.frozen_results ≤ n
    → (reveal_all n e start s).frozen_results ≡ []
unfolding reveal_all
reveal_all-hides_nothing zero e start s h = ground arith
reveal_all-hides_nothing (suc n) e start s h = elim (List-cases e.frozen_results) [
  | inl p ↦ rw (p, reveal_all) p
  | inr (f, l, p) ↦
      rw (p, reveal_all)
        (reveal_all-hides_nothing n (reveal_next e start s).0 start s (
          rw (reveal_next-cons e start s p)
            (omega (arith, reveal_from-shorter e f l start s, ap length p))))
]

pub reveal_all-nothing :
    (n : ℕ) (e : ScoreEntry) (start : Time) (s : ContestSettings)
    → e.frozen_results ≡ []
    → reveal_all n e start s ≡ e
unfolding reveal_all
reveal_all-nothing zero e start s h = refl
reveal_all-nothing (suc n) e start s h = ground arith

-- What is recorded of a submission during the freeze.
abbrev pub frozen_of : SubmissionEvent → FrozenSubmission
frozen_of ev = record { status = ev.status; submit_time = ev.submit_time }

-- The same submission in a contest that never freezes.
abbrev pub unfreeze : SubmissionEvent → SubmissionEvent
unfreeze ev = record ev { freeze_time = none }

-- The fields that decide a team's score, penalty and place.
pub record SameScore (a b : ScoreEntry) : Type 0 where
  pub accepted : a.accepted ≡ b.accepted
  pub display_score : a.display_score ≡ b.display_score
  pub penalty : a.penalty ≡ b.penalty
  pub wrong_attempt_count : a.wrong_attempt_count ≡ b.wrong_attempt_count
  pub best_submit_time : a.best_submit_time ≡ b.best_submit_time

-- A submission of this contest, made during the freeze.
pub record IsFrozen (start : Time) (ev : SubmissionEvent) : Type 0 where
  pub same_contest : ev.contest_start ≡ start
  pub frozen : is_post_freeze ev.submit_time ev.freeze_time ≡ true

abbrev pub AllFrozen : Time → List SubmissionEvent → Type 0
AllFrozen start [] = Unit
AllFrozen start (ev ∷ evs) = IsFrozen start ev × AllFrozen start evs

-- No submission is a compile error that the rules exempt.
abbrev pub NoneExempt : ContestSettings → List SubmissionEvent → Type 0
NoneExempt s [] = Unit
NoneExempt s (ev ∷ evs) = (ignore_ce ev.status s ≡ false) × NoneExempt s evs

pub record Hides (e c : ScoreEntry) (l : List FrozenSubmission) : Type 0 where
  pub unsolved : c.accepted ≡ false
  pub hidden : c.frozen_results ≡ e.frozen_results ++ l
  pub same : SameScore c e

freeze_step :
    (e : ScoreEntry) (ev : SubmissionEvent) (start : Time) (s : ContestSettings)
    → e.accepted ≡ false
    → IsFrozen start ev
    → apply_to e ev s ≡ freeze_attempt e ev
unfolding apply_to freeze_attempt
freeze_step e ev start s h z = ground arith

pub apply_all-Hides :
    (e : ScoreEntry) (evs : List SubmissionEvent) (start : Time) (s : ContestSettings)
    → e.accepted ≡ false
    → AllFrozen start evs
    → Hides e (apply_all e evs s) (map frozen_of evs)
unfolding apply_all freeze_attempt
apply_all-Hides e [] start s h z = record {
  unsolved = h;
  hidden = sym (append-nil e.frozen_results);
  same = ground arith;
}
apply_all-Hides e (ev ∷ evs) start s h z =
    let later = apply_all-Hides (freeze_attempt e ev) evs start s h z.1 in
    rw (freeze_step e ev start s h z.0) (record {
      unsolved = later.unsolved;
      hidden = later.hidden ∙ append_assoc e.frozen_results (frozen_of ev ∷ []) (map frozen_of evs);
      same = record {
        accepted = later.same.accepted;
        display_score = later.same.display_score;
        penalty = later.same.penalty;
        wrong_attempt_count = later.same.wrong_attempt_count;
        best_submit_time = later.same.best_submit_time;
      };
    })

-- One accepted submission, revealed from the freeze or judged without one.
accepted_SameScore :
    (e f : ScoreEntry) (ev : SubmissionEvent) (rest : List FrozenSubmission) (start : Time)
    (s : ContestSettings)
    → f.accepted ≡ false
    → SameScore e f
    → ev.contest_start ≡ start
    → is_accepted ev.status ≡ true
    → SameScore (reveal_from e (frozen_of ev ∷ rest) start s).0 (apply_to f (unfreeze ev) s)
      × ((reveal_from e (frozen_of ev ∷ rest) start s).0.frozen_results ≡ [])
      × ((apply_to f (unfreeze ev) s).accepted ≡ true)
unfolding reveal_from pop_frozen accept_at apply_to live_attempt is_post_freeze
accepted_SameScore e f ev rest start s u h p acc = ground arith

rejected_SameScore :
    (e f : ScoreEntry) (ev : SubmissionEvent) (rest : List FrozenSubmission) (start : Time)
    (s : ContestSettings)
    → f.accepted ≡ false
    → SameScore e f
    → ignore_ce ev.status s ≡ false
    → is_accepted ev.status ≡ false
    → SameScore (reveal_from e (frozen_of ev ∷ rest) start s).0 (apply_to f (unfreeze ev) s)
      × ((reveal_from e (frozen_of ev ∷ rest) start s).0.frozen_results ≡ rest)
      × ((apply_to f (unfreeze ev) s).accepted ≡ false)
unfolding reveal_from pop_frozen accept_at apply_to live_attempt is_post_freeze
rejected_SameScore e f ev rest start s u h x rej = ground arith

reveal_all-SameScore :
    (n : ℕ) (evs : List SubmissionEvent) (e f : ScoreEntry) (start : Time) (s : ContestSettings)
    → length evs ≤ n
    → f.accepted ≡ false
    → e.frozen_results ≡ map frozen_of evs
    → SameScore e f
    → AllFrozen start evs
    → NoneExempt s evs
    → SameScore (reveal_all n e start s) (apply_all f (map unfreeze evs) s)
unfolding reveal_all apply_all
reveal_all-SameScore n [] e f start s b u p h z x = rw (reveal_all-nothing n e start s p) h
reveal_all-SameScore zero (ev ∷ evs) e f start s b u p h z x = absurd (omega arith)
reveal_all-SameScore (suc n) (ev ∷ evs) e f start s b u p h z x =
    rw (p, reveal_all)
      (rw (reveal_next-cons e start s p) (elim (Bool-cases (is_accepted ev.status)) [
        | inl acc ↦
            let (same, nothing, solved) =
              accepted_SameScore e f ev (map frozen_of evs) start s u h z.0.same_contest acc in
            rw (reveal_all-nothing n e' start s nothing)
              (rw (apply_all-solved f' (map unfreeze evs) s solved) same)
        | inr rej ↦
            let (same, left, unsolved) =
              rejected_SameScore e f ev (map frozen_of evs) start s u h x.0 rej in
            reveal_all-SameScore n evs e' f' start s (omega arith) unsolved left same z.1 x.1
      ]))
  where
    e' : ScoreEntry
    e' = (reveal_from e (frozen_of ev ∷ map frozen_of evs) start s).0

    f' : ScoreEntry
    f' = apply_to f (unfreeze ev) s

-- A freeze changes no result: when the submissions made during it are hidden and then revealed,
-- an unsolved cell ends with the score, penalty, wrong attempts and accepted time that it would
-- have had without a freeze, provided that none of them is an exempt compile error.
pub reveal_all-apply_all :
    (e : ScoreEntry) (evs : List SubmissionEvent) (start : Time) (s : ContestSettings)
    → e.accepted ≡ false
    → e.frozen_results ≡ []
    → AllFrozen start evs
    → NoneExempt s evs
    → SameScore
        (reveal_all (length (apply_all e evs s).frozen_results) (apply_all e evs s) start s)
        (apply_all e (map unfreeze evs) s)
reveal_all-apply_all e evs start s u none_hidden z x =
    let hides = apply_all-Hides e evs start s u z in
    let hidden : (apply_all e evs s).frozen_results ≡ map frozen_of evs =
      hides.hidden ∙ ap (λ l. l ++ map frozen_of evs) none_hidden in
    reveal_all-SameScore (length (apply_all e evs s).frozen_results) evs (apply_all e evs s) e start
      s (omega (arith, ap length hidden, length-map evs frozen_of)) u hidden hides.same z x
