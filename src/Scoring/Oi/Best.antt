-- ===== src/Scoring/Oi/Best.antt =====
-- OI and IOI cells over a sequence of submissions: the best score, or the last in strict mode.
use my_oj.Prelude.{ℕ, ◌≡◌, refl, true, false, ◌⊎◌, inl, List, [], ◌∷◌, ◌++◌, arith}
use my_oj.Prelude.Int.{ℤ, pos, ◌≤ℤ◌}
use my_oj.Models.Settings.{ContestSettings}
use my_oj.Scoring.Entry.{SubmissionEvent, ScoreEntry, new_entry}
use my_oj.Scoring.Oi.{apply_to, is_strict}

unfoldable pub apply_all : ScoreEntry → List SubmissionEvent → ContestSettings → ScoreEntry
apply_all e [] s = e
apply_all e (ev ∷ evs) s = apply_all (apply_to e ev s) evs s

-- Every submission scores at most `x`.
abbrev pub Bounds : ℤ → List SubmissionEvent → Type 0
Bounds x [] = Unit
Bounds x (ev ∷ evs) = (ev.score ≤ℤ x) × Bounds x evs

-- Some submission scores `x`.
abbrev pub Attains : ℤ → List SubmissionEvent → Type 0
Attains x [] = ⊥
Attains x (ev ∷ evs) = (ev.score ≡ x) ⊎ Attains x evs

Bounds-mono : (x y : ℤ) (evs : List SubmissionEvent) → x ≤ℤ y → Bounds x evs → Bounds y evs
Bounds-mono x y [] h b = tt
Bounds-mono x y (ev ∷ evs) h b = (omega arith, Bounds-mono x y evs h b.1)

apply_to-best :
    (e : ScoreEntry) (ev : SubmissionEvent) (s : ContestSettings)
    → is_strict s ≡ false
    → (e.display_score ≤ℤ (apply_to e ev s).display_score)
      × (ev.score ≤ℤ (apply_to e ev s).display_score)
      × (((apply_to e ev s).display_score ≡ e.display_score)
          ⊎ ((apply_to e ev s).display_score ≡ ev.score))
unfolding apply_to
apply_to-best e ev s h = ground arith

apply_all-best_from :
    (e : ScoreEntry) (evs : List SubmissionEvent) (s : ContestSettings)
    → is_strict s ≡ false
    → (e.display_score ≤ℤ (apply_all e evs s).display_score)
      × Bounds (apply_all e evs s).display_score evs
      × (((apply_all e evs s).display_score ≡ e.display_score)
          ⊎ Attains (apply_all e evs s).display_score evs)
unfolding apply_all
apply_all-best_from e [] s h = (omega arith, tt, inl refl)
apply_all-best_from e (ev ∷ evs) s h =
    let (grows, covers, source) = apply_to-best e ev s h in
    let (grows', covers', source') = apply_all-best_from (apply_to e ev s) evs s h in
    (omega arith, (omega arith, covers'), ground arith)

-- Outside strict mode a cell shows the best score of all submissions, and 0 if none is positive.
pub apply_all-best :
    (user problem : ℕ) (evs : List SubmissionEvent) (s : ContestSettings)
    → is_strict s ≡ false
    → let shown = (apply_all (new_entry user problem) evs s).display_score in
      (pos 0 ≤ℤ shown) × Bounds shown evs × ((shown ≡ pos 0) ⊎ Attains shown evs)
unfolding new_entry
apply_all-best user problem evs s h = apply_all-best_from (new_entry user problem) evs s h

apply_to-strict :
    (e : ScoreEntry) (ev : SubmissionEvent) (s : ContestSettings)
    → is_strict s ≡ true
    → ((apply_to e ev s).display_score ≡ ev.score)
      × ((apply_to e ev s).best_submit_time ≡ ev.submit_time)
unfolding apply_to
apply_to-strict e ev s h = ground arith

-- In strict mode a cell shows the score and the time of the last submission, whatever came before.
pub apply_all-last :
    (e : ScoreEntry) (evs : List SubmissionEvent) (ev : SubmissionEvent) (s : ContestSettings)
    → is_strict s ≡ true
    → let cell = apply_all e (evs ++ ev ∷ []) s in
      (cell.display_score ≡ ev.score) × (cell.best_submit_time ≡ ev.submit_time)
unfolding apply_all
apply_all-last e [] ev s h = apply_to-strict e ev s h
apply_all-last e (ev' ∷ evs) ev s h = apply_all-last (apply_to e ev' s) evs ev s h
