-- ===== src/Scoring/Rank.antt =====
-- internal/core/contest/{strategy,strategy_icpc}.go: the rows of the board, aggregated, sorted and
-- numbered.
pub mod Places
pub mod Placing
pub mod Totals
pub mod Unique
use my_oj.Prelude.{
  ℕ, zero, suc, ◌+◌, Bool, true, false, not, ◌&&◌, Option, none, some, List, [], ◌∷◌, ltb, ◌==◌,
  length, if◌then◌else◌,
}
use mathlib.Core.List.{Perm}
use my_oj.Prelude.Int.{ℤ, pos, ltb_ℤ, eqb_ℤ}
use my_oj.Prelude.Word.{add64}
use my_oj.Prelude.Order.{Sorter}
use my_oj.Models.Types.{Key}
use my_oj.Models.Time.{Time, before, after}
use my_oj.Scoring.Entry.{ScoreEntry}
use my_oj.Scoring.Oi.{Strategy, icpc_strategy, oi_strategy, ioi_strategy}

pub record RankRow : Type 0 where
  pub rank : ℕ
  pub user_id : Key
  pub total_score : ℤ
  pub total_penalty : ℤ
  pub last_ac_time : Time
  pub entries : List (Key × ScoreEntry)

unfoldable pub new_row : Key → RankRow
new_row user = record {
  rank = 0;
  user_id = user;
  total_score = pos 0;
  total_penalty = pos 0;
  last_ac_time = 0;
  entries = [];
}

-- `row.Entries[e.ProblemID] = e`.
unfoldable pub put : Key → ScoreEntry → List (Key × ScoreEntry) → List (Key × ScoreEntry)
put k e [] = (k, e) ∷ []
put k e ((j, f) ∷ m) = if j == k then (k, e) ∷ m else (j, f) ∷ put k e m

-- One turn of the loop of `aggregateUsers`; the rows stand for the map from users to rows.
unfoldable pub add_entry :
    (RankRow → ScoreEntry → RankRow) → ScoreEntry → List RankRow → List RankRow
unfolding put new_row
add_entry accum e [] = accum (record (new_row e.user_id) { entries = put e.problem_id e [] }) e ∷ []
add_entry accum e (r ∷ rows) =
    if r.user_id == e.user_id
    then accum (record r { entries = put e.problem_id e r.entries }) e ∷ rows
    else r ∷ add_entry accum e rows

unfoldable pub add_entries :
    (RankRow → ScoreEntry → RankRow) → List ScoreEntry → List RankRow → List RankRow
add_entries accum [] rows = rows
add_entries accum (e ∷ es) rows = add_entries accum es (add_entry accum e rows)

-- What the code takes from the Go runtime: the order in which `range` visits a map, which is any
-- reordering, and the sort of the standard library.
pub record Runtime : Type 0 where
  pub map_order : List RankRow → List RankRow
  pub map_order-perm : (rows : List RankRow) → Perm (map_order rows) rows
  pub sorter : Sorter RankRow

unfoldable pub aggregate_users :
    Runtime → List ScoreEntry → (RankRow → ScoreEntry → RankRow) → List RankRow
aggregate_users rt entries accum = rt.map_order (add_entries accum entries [])

-- The callback of `ICPCStrategy.Rank`.
unfoldable pub accum_icpc : RankRow → ScoreEntry → RankRow
accum_icpc row e =
    if e.accepted
    then record row {
      total_score = add64 row.total_score (pos 1);
      total_penalty = add64 row.total_penalty e.penalty;
      last_ac_time =
          if after e.best_submit_time row.last_ac_time
          then e.best_submit_time
          else row.last_ac_time;
    }
    else row

-- The callback of `rankByScoreDesc`.
unfoldable pub accum_score : RankRow → ScoreEntry → RankRow
accum_score row e = record row {
  total_score = add64 row.total_score e.display_score;
  last_ac_time =
      if e.accepted && after e.best_submit_time row.last_ac_time
      then e.best_submit_time
      else row.last_ac_time;
}

-- The comparison of `ICPCStrategy.Rank`, up to the last tiebreaker.
unfoldable pub less_icpc : RankRow → RankRow → Bool
less_icpc a b =
    if not (eqb_ℤ a.total_score b.total_score)
    then ltb_ℤ b.total_score a.total_score
    else if not (eqb_ℤ a.total_penalty b.total_penalty)
    then ltb_ℤ a.total_penalty b.total_penalty
    else if not (a.last_ac_time == b.last_ac_time)
    then before a.last_ac_time b.last_ac_time
    else ltb a.user_id b.user_id

unfoldable pub tied_icpc : RankRow → RankRow → Bool
tied_icpc a b =
    eqb_ℤ a.total_score b.total_score
    && eqb_ℤ a.total_penalty b.total_penalty
    && a.last_ac_time == b.last_ac_time

unfoldable pub less_score : RankRow → RankRow → Bool
less_score a b = ltb_ℤ b.total_score a.total_score

unfoldable pub tied_score : RankRow → RankRow → Bool
tied_score a b = eqb_ℤ a.total_score b.total_score

-- The loop of `assignRanks` from index `i` on, after the row `prev`.
unfoldable pub assign_from :
    (RankRow → RankRow → Bool) → ℕ → Option RankRow → List RankRow → List RankRow
assign_from tied i prev [] = []
assign_from tied i none (r ∷ rows) =
    let ranked = record r { rank = i + 1 } in ranked ∷ assign_from tied (i + 1) (some ranked) rows
assign_from tied i (some p) (r ∷ rows) =
    let ranked = record r { rank = if tied p r then p.rank else i + 1 } in
    ranked ∷ assign_from tied (i + 1) (some ranked) rows

unfoldable pub assign_ranks : (RankRow → RankRow → Bool) → List RankRow → List RankRow
assign_ranks tied rows = assign_from tied 0 none rows

unfoldable pub rank_icpc : Runtime → List ScoreEntry → List RankRow
rank_icpc rt entries =
    assign_ranks tied_icpc (rt.sorter.sort_slice less_icpc (aggregate_users rt entries accum_icpc))

unfoldable pub rank_by_score_desc : Runtime → List ScoreEntry → List RankRow
rank_by_score_desc rt entries =
    assign_ranks tied_score
      (rt.sorter.sort_slice less_score (aggregate_users rt entries accum_score))

-- The interface method `Strategy.Rank`.
unfoldable pub strategy_rank : Strategy → Runtime → List ScoreEntry → List RankRow
strategy_rank icpc_strategy rt entries = rank_icpc rt entries
strategy_rank oi_strategy rt entries = rank_by_score_desc rt entries
strategy_rank ioi_strategy rt entries = rank_by_score_desc rt entries
