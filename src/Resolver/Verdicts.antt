-- ===== src/Resolver/Verdicts.antt =====
-- resolver.go: the verdicts that the runs name and the ones that the feed defines.
use my_oj.Prelude.{
  ◌≡◌, refl, sym, ◌⊎◌, inl, inr, Bool, true, false, not, ◌&&◌, Option, none, some, List, [], ◌∷◌,
  Bool-cases,
}
use my_oj.Models.Types.{
  SubmissionStatus, status_pending, status_compiling, status_judging, status_accepted,
  status_wrong_answer, status_tle, status_mle, status_re, status_ce, status_se, status_superseded,
  is_accepted,
}
use my_oj.Models.Settings.{ce_no_penalty}
use my_oj.Models.Contest.{Contest}
use my_oj.Models.Time.{is_zero, after}
use my_oj.Resolver.{
  FeedSubmission, JudgementType, FeedRun, judgement_types, map_result, feed_run, add_run, feed_runs,
}

-- Some definition has the run's acronym and the same flags.
abbrev pub IsDefined : List JudgementType → FeedRun → Type 0
IsDefined [] r = ⊥
IsDefined (j ∷ js) r =
    ((j.acronym ≡ r.result) × (j.solved ≡ r.solved) × (j.penalty ≡ r.penalty)) ⊎ IsDefined js r

abbrev pub AllDefined : List JudgementType → List FeedRun → Type 0
AllDefined js [] = Unit
AllDefined js (r ∷ rs) = IsDefined js r × AllDefined js rs

AllDefined-add_run :
    (js : List JudgementType) (o : Option FeedRun) (rs : List FeedRun)
    → AllDefined js (add_run o [])
    → AllDefined js rs
    → AllDefined js (add_run o rs)
AllDefined-add_run js none rs h all = all
AllDefined-add_run js (some r) rs (d, h) all = (d, all)

-- What a run must show to be a run of a status.
abbrev Shows : SubmissionStatus → Bool → FeedRun → Type 0
Shows st no_penalty r =
    (r.result ≡ (map_result st no_penalty).0)
    × (r.solved ≡ is_accepted st)
    × (r.penalty ≡ ((map_result st no_penalty).1 && not (is_accepted st)))

Shows-IsDefined :
    (st : SubmissionStatus) (no_penalty : Bool) (r : FeedRun)
    → (map_result st no_penalty).2 ≡ true
    → Shows st no_penalty r
    → IsDefined (judgement_types no_penalty) r
unfolding map_result judgement_types
Shows-IsDefined status_accepted np r j (a, b, c) = inl (sym a, sym b, sym c)
Shows-IsDefined status_wrong_answer np r j (a, b, c) = inr (inl (sym a, sym b, sym c))
Shows-IsDefined status_tle np r j (a, b, c) = inr (inr (inl (sym a, sym b, sym c)))
Shows-IsDefined status_mle np r j (a, b, c) = inr (inr (inr (inl (sym a, sym b, sym c))))
Shows-IsDefined status_re np r j (a, b, c) = inr (inr (inr (inr (inl (sym a, sym b, sym c)))))
Shows-IsDefined status_ce true r j (a, b, c) =
    inr (inr (inr (inr (inr (inl (sym a, sym b, sym c))))))
Shows-IsDefined status_ce false r j (a, b, c) =
    inr (inr (inr (inr (inr (inl (sym a, sym b, sym c))))))
Shows-IsDefined status_pending np r j h = cc
Shows-IsDefined status_compiling np r j h = cc
Shows-IsDefined status_judging np r j h = cc
Shows-IsDefined status_se np r j h = cc
Shows-IsDefined status_superseded np r j h = cc

feed_run-AllDefined :
    (contest : Contest) (s : FeedSubmission)
    → AllDefined
        (judgement_types (ce_no_penalty contest.settings))
        (add_run (feed_run contest s) [])
unfolding feed_run
feed_run-AllDefined contest s =
    let np = ce_no_penalty contest.settings in
    elim (Bool-cases (map_result s.status np).2) [
      | inr e ↦ rw (e, feed_run) tt
      | inl e ↦
          elim (Bool-cases
            (not (is_zero contest.end_time) && after s.created_at contest.end_time)) [
              | inl f ↦ rw (e, f, feed_run) tt
              | inr f ↦ rw (e, f, feed_run) (Shows-IsDefined s.status np _ e (refl, refl, refl), tt)
            ]
    ]

-- Each run of the feed names a verdict that the feed defines, with the same word on whether it solves
-- the problem and whether it counts for the penalty.
pub feed_runs-AllDefined :
    (contest : Contest) (subs : List FeedSubmission)
    → AllDefined (judgement_types (ce_no_penalty contest.settings)) (feed_runs contest subs)
unfolding feed_runs
feed_runs-AllDefined contest [] = tt
feed_runs-AllDefined contest (s ∷ subs) =
    AllDefined-add_run _ (feed_run contest s) (feed_runs contest subs)
      (feed_run-AllDefined contest s) (feed_runs-AllDefined contest subs)
