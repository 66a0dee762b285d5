-- ===== src/Tests/Scoring.antt =====
-- The scoring theorems at a small contest: it starts at minute 100 and freezes at minute 300.
use my_oj.Prelude.{
  ℕ, ◌+◌, ◌*◌, suc, ◌≡◌, refl, true, false, ◌⊎◌, none, some, List, [], ◌∷◌, ◌++◌, map, length,
  arith,
}
use my_oj.Prelude.Int.{ℤ, pos, ◌≤ℤ◌}
use my_oj.Prelude.Word.{add64, mul64}
use my_oj.Prelude.Order.{insertion_sorter}
use mathlib.Core.List.{reverse, reverse_perm}
use mathlib.Core.List.Perm
use my_oj.Models.Types.{status_accepted, status_wrong_answer, status_ce, SubmissionStatus}
use my_oj.Models.Settings.{
  ContestSettings, json_number, json_bool, lookup, ce_no_penalty, penalty_minutes,
}
use my_oj.Scoring.Entry.{SubmissionEvent, ScoreEntry, new_entry, clone_or_new}
use my_oj.Scoring.Icpc.{apply, reveal_next, reveal_all, ignore_ce, is_post_freeze, elapsed_mins}
use my_oj.Scoring.Icpc.Invariant.{IsConsistent, apply-IsConsistent, reveal_next-IsConsistent}
use my_oj.Scoring.Icpc.Penalty
use my_oj.Scoring.Icpc.Penalty.{solved_cell}
use my_oj.Scoring.Icpc.Reveal.{unfreeze, SameScore, reveal_all-hides_nothing, reveal_all-apply_all}
use my_oj.Scoring.Icpc.Exempt.{reveal_all-charges_exempt}
use my_oj.Scoring.Oi.{is_strict}
use my_oj.Scoring.Oi.Best
use my_oj.Scoring.Rank.{Runtime, rank_icpc, add_entries, accum_icpc, accum_score}
use my_oj.Scoring.Rank.Places.{All, count_beating}
use my_oj.Scoring.Rank.Placing.{beats_icpc, rank_icpc-places}
use my_oj.Scoring.Rank.Unique.{rank_icpc_unique}
use my_oj.Scoring.Rank.Totals.{row_of, scan_user, row_of-add_entries}

abbrev minute : ℕ
minute = 60_000_000_000

abbrev submission : SubmissionStatus → ℕ → ℤ → SubmissionEvent
submission verdict at points = record {
  user_id = 1;
  problem_id = 7;
  status = verdict;
  score = points;
  submit_time = at * minute;
  contest_start = 100 * minute;
  freeze_time = some (300 * minute);
}

abbrev wrong : ℕ → SubmissionEvent
wrong at = submission status_wrong_answer at (pos 0)

abbrev right : ℕ → SubmissionEvent
right at = submission status_accepted at (pos 100)

abbrev uncompiled : ℕ → SubmissionEvent
uncompiled at = submission status_ce at (pos 0)

abbrev ten_minutes : ContestSettings
ten_minutes = ("penalty_minutes", json_number (pos 10_000)) ∷ []

abbrev strict : ContestSettings
strict = ("strict_last_submission", json_bool true) ∷ []

-- What the runs below look through.
program : Unit {0}
unfolding apply clone_or_new is_post_freeze ignore_ce penalty_minutes ce_no_penalty lookup new_entry
program = tt

-- A wrong attempt, and then an accepted one.
solve_after_two :
    (apply (right 150) (some (apply (wrong 120) none ten_minutes)) ten_minutes).accepted ≡ true
unfolding program
solve_after_two = refl

apply-IsConsistent_example : IsConsistent (apply (right 150) (some (new_entry 1 7)) ten_minutes)
unfolding new_entry
apply-IsConsistent_example =
    apply-IsConsistent (right 150) (some (new_entry 1 7)) ten_minutes (λ e p. ground arith)

abbrev hidden_cell : ScoreEntry
hidden_cell = record {
  user_id = 1;
  problem_id = 7;
  accepted = false;
  display_score = pos 0;
  penalty = pos 0;
  attempt_count = 1;
  wrong_attempt_count = 1;
  best_submit_time = 0;
  frozen_attempts = 2;
  is_pending = true;
  frozen_results =
      record { status = status_wrong_answer; submit_time = 310 * minute }
      ∷ record { status = status_accepted; submit_time = 320 * minute }
      ∷ [];
  is_first_blood = false;
}

reveal_next-IsConsistent_example :
    IsConsistent (reveal_next hidden_cell (100 * minute) ten_minutes).0
reveal_next-IsConsistent_example =
    reveal_next-IsConsistent hidden_cell (100 * minute) ten_minutes (ground arith)

apply_all-solved_cell_example :
    Penalty.apply_all
      (new_entry 1 7)
      ((wrong 120 ∷ uncompiled 130 ∷ []) ++ right 150 ∷ wrong 160 ∷ [])
      ten_minutes
    ≡ solved_cell 1 7 (wrong 120 ∷ uncompiled 130 ∷ []) (right 150) ten_minutes
unfolding program
apply_all-solved_cell_example =
    Penalty.apply_all-solved_cell 1 7 (wrong 120 ∷ uncompiled 130 ∷ []) (wrong 160 ∷ []) (right 150)
      ten_minutes
      (record { live = refl; rejected = refl }, (record { live = refl; rejected = refl }, tt)) refl
      refl

reveal_all-hides_nothing_example :
    (reveal_all 2 hidden_cell (100 * minute) ten_minutes).frozen_results ≡ []
reveal_all-hides_nothing_example =
    reveal_all-hides_nothing 2 hidden_cell (100 * minute) ten_minutes (omega arith)

abbrev during_freeze : List SubmissionEvent
during_freeze = wrong 310 ∷ right 320 ∷ []

reveal_all-apply_all_example :
    SameScore
      (reveal_all
        (length (Penalty.apply_all (new_entry 1 7) during_freeze ten_minutes).frozen_results)
        (Penalty.apply_all (new_entry 1 7) during_freeze ten_minutes)
        (100 * minute)
        ten_minutes)
      (Penalty.apply_all (new_entry 1 7) (map unfreeze during_freeze) ten_minutes)
unfolding program
reveal_all-apply_all_example =
    reveal_all-apply_all (new_entry 1 7) during_freeze (100 * minute) ten_minutes refl refl
      (
        record { same_contest = refl; frozen = refl },
        (record { same_contest = refl; frozen = refl }, tt),
      )
      (refl, (refl, tt))

-- A compile error, exempt by default, and then an accepted submission, both during the freeze: the
-- revealed penalty charges the compile error.
reveal_all-charges_exempt_example :
    let hidden =
      Penalty.apply_all (new_entry 1 7) ((uncompiled 310 ∷ []) ++ right 320 ∷ []) ten_minutes in
    (reveal_all (length hidden.frozen_results) hidden (100 * minute) ten_minutes).penalty
    ≡ add64
        (elapsed_mins (320 * minute) (100 * minute))
        (mul64 (pos ((new_entry 1 7).wrong_attempt_count + 1)) (pos (penalty_minutes ten_minutes)))
unfolding program
reveal_all-charges_exempt_example =
    reveal_all-charges_exempt (new_entry 1 7) (uncompiled 310 ∷ []) (right 320) (100 * minute)
      ten_minutes refl refl
      (
        record { same_contest = refl; frozen = refl },
        (record { same_contest = refl; frozen = refl }, tt),
      )
      (refl, tt) refl

abbrev scores : List SubmissionEvent
scores =
    submission status_wrong_answer 120 (pos 40) ∷ submission status_wrong_answer 130 (pos 30) ∷ []

apply_all-best_example :
    let shown = (Best.apply_all (new_entry 1 7) scores []).display_score in
    (pos 0 ≤ℤ shown) × Best.Bounds shown scores × ((shown ≡ pos 0) ⊎ Best.Attains shown scores)
unfolding is_strict lookup
apply_all-best_example = Best.apply_all-best 1 7 scores [] refl

abbrev straight : Runtime
straight = record {
  map_order = λ rows. rows;
  map_order-perm = Perm.refl;
  sorter = insertion_sorter;
}

-- A runtime that visits its maps backwards.
abbrev backwards : Runtime
backwards = record { map_order = reverse; map_order-perm = reverse_perm; sorter = insertion_sorter }

abbrev two_teams : List ScoreEntry
two_teams = hidden_cell ∷ record hidden_cell { user_id = 2; accepted = true; penalty = pos 70 } ∷ []

rank_icpc-places_example :
    let board = rank_icpc straight two_teams in
    All (λ r. r.rank ≡ suc (count_beating beats_icpc board r)) board
rank_icpc-places_example = rank_icpc-places straight two_teams

rank_icpc_unique_example : rank_icpc straight two_teams ≡ rank_icpc backwards two_teams
rank_icpc_unique_example = rank_icpc_unique straight backwards two_teams

row_of-add_entries_example :
    (row_of 2 (add_entries accum_icpc two_teams []) ≡ scan_user accum_icpc 2 two_teams none)
    × (row_of 2 (add_entries accum_score two_teams []) ≡ scan_user accum_score 2 two_teams none)
row_of-add_entries_example = row_of-add_entries 2 two_teams
