-- ===== src/Scoring/Icpc/Exempt.antt =====
-- strategy_icpc.go: compile errors that a contest exempts, before the freeze and at the reveal.
use my_oj.Prelude.{
  ℕ, zero, suc, ◌+◌, ◌≤◌, ◌≡◌, ap, ◌∙◌, true, false, List, [], ◌∷◌, ◌++◌, map, length, length-map,
  arith,
}
use my_oj.Prelude.Int.{pos}
use my_oj.Prelude.Word.{add64, mul64}
use my_oj.Models.Types.{is_accepted}
use my_oj.Models.Time.{Time}
use my_oj.Models.Settings.{ContestSettings, penalty_minutes}
use my_oj.Scoring.Entry.{SubmissionEvent, FrozenSubmission, ScoreEntry}
use my_oj.Scoring.Icpc.{
  reveal_from, reveal_all, pop_frozen, accept_at, elapsed_mins, penalty_per_wa,
}
use my_oj.Scoring.Icpc.Penalty.{apply_all}
use my_oj.Scoring.Icpc.Reveal.{
  frozen_of, AllFrozen, apply_all-Hides, reveal_next-cons, reveal_all-nothing,
}

-- No submission is accepted.
abbrev pub NoneAccepted : List SubmissionEvent → Type 0
NoneAccepted [] = Unit
NoneAccepted (ev ∷ evs) = (is_accepted ev.status ≡ false) × NoneAccepted evs

-- The penalty of an accepted submission after `wrong` charged attempts.
abbrev pub PenaltyAfter : ℕ → SubmissionEvent → Time → ContestSettings → ScoreEntry → Type 0
PenaltyAfter wrong ac start s e =
    e.penalty
    ≡ add64 (elapsed_mins ac.submit_time start) (mul64 (pos wrong) (pos (penalty_minutes s)))

reveal_from-rejected :
    (e : ScoreEntry) (ev : SubmissionEvent) (l : List FrozenSubmission) (start : Time)
    (s : ContestSettings)
    → is_accepted ev.status ≡ false
    → ((reveal_from e (frozen_of ev ∷ l) start s).0.wrong_attempt_count ≡ e.wrong_attempt_count + 1)
      × ((reveal_from e (frozen_of ev ∷ l) start s).0.frozen_results ≡ l)
unfolding reveal_from pop_frozen
reveal_from-rejected e ev l start s rej = ground arith

reveal_from-accepted :
    (e : ScoreEntry) (ac : SubmissionEvent) (l : List FrozenSubmission) (start : Time)
    (s : ContestSettings)
    → is_accepted ac.status ≡ true
    → PenaltyAfter e.wrong_attempt_count ac start s (reveal_from e (frozen_of ac ∷ l) start s).0
      × ((reveal_from e (frozen_of ac ∷ l) start s).0.frozen_results ≡ [])
unfolding reveal_from pop_frozen accept_at penalty_per_wa
reveal_from-accepted e ac l start s acc = ground arith

reveal_all-charges :
    (n : ℕ) (pre : List SubmissionEvent) (ac : SubmissionEvent) (e : ScoreEntry) (start : Time)
    (s : ContestSettings) (wrong : ℕ)
    → length (pre ++ ac ∷ []) ≤ n
    → e.frozen_results ≡ map frozen_of (pre ++ ac ∷ [])
    → wrong ≡ e.wrong_attempt_count + length pre
    → NoneAccepted pre
    → is_accepted ac.status ≡ true
    → PenaltyAfter wrong ac start s (reveal_all n e start s)
unfolding reveal_all
reveal_all-charges zero [] ac e start s wrong b p w x acc = absurd (omega arith)
reveal_all-charges (suc n) [] ac e start s wrong b p w x acc =
    let (charged, nothing) = reveal_from-accepted e ac [] start s acc in
    let same : wrong ≡ e.wrong_attempt_count = omega arith in
    rw (p, reveal_all)
      (rw (reveal_next-cons e start s p)
        (rw (reveal_all-nothing n e' start s nothing) (rw same charged)))
  where
    e' : ScoreEntry
    e' = (reveal_from e (frozen_of ac ∷ []) start s).0
reveal_all-charges zero (ev ∷ pre) ac e start s wrong b p w x acc = absurd (omega arith)
reveal_all-charges (suc n) (ev ∷ pre) ac e start s wrong b p w x acc =
    let (counted, left) = reveal_from-rejected e ev (map frozen_of (pre ++ ac ∷ [])) start s x.0 in
    rw (p, reveal_all)
      (rw (reveal_next-cons e start s p)
        (reveal_all-charges n pre ac e' start s wrong (omega arith) left (omega arith) x.1 acc))
  where
    e' : ScoreEntry
    e' = (reveal_from e (frozen_of ev ∷ map frozen_of (pre ++ ac ∷ [])) start s).0

-- A team that is accepted during the freeze is revealed with a penalty for every attempt that was
-- rejected during it before, also for the compile errors that the contest's rules exempt and that
-- are not charged before the freeze.
pub reveal_all-charges_exempt :
    (e : ScoreEntry) (pre : List SubmissionEvent) (ac : SubmissionEvent) (start : Time)
    (s : ContestSettings)
    → e.accepted ≡ false
    → e.frozen_results ≡ []
    → AllFrozen start (pre ++ ac ∷ [])
    → NoneAccepted pre
    → is_accepted ac.status ≡ true
    → let hidden = apply_all e (pre ++ ac ∷ []) s in
      (reveal_all (length hidden.frozen_results) hidden start s).penalty
      ≡ add64
          (elapsed_mins ac.submit_time start)
          (mul64 (pos (e.wrong_attempt_count + length pre)) (pos (penalty_minutes s)))
reveal_all-charges_exempt e pre ac start s u none_hidden z x acc =
    let hides = apply_all-Hides e evs start s u z in
    let hidden : (apply_all e evs s).frozen_results ≡ map frozen_of evs =
      hides.hidden ∙ ap (λ l. l ++ map frozen_of evs) none_hidden in
    reveal_all-charges (length (apply_all e evs s).frozen_results) pre ac (apply_all e evs s) start
      s (e.wrong_attempt_count + length pre)
      (omega (arith, ap length hidden, length-map evs frozen_of)) hidden
      (omega (arith, hides.same.wrong_attempt_count)) x acc
  where
    evs : List SubmissionEvent
    evs = pre ++ ac ∷ []
