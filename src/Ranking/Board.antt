-- ===== src/Ranking/Board.antt =====
-- internal/core/ranking/{types,service}.go: the board that clients see, built from the entries.
pub mod Freeze
use Prim.Native.String.{String}
use text.Mathlib.Text.{◌==◌ as str_eq}
use my_oj.Prelude.{
  ℕ, ◌+◌, Bool, true, false, not, ◌&&◌, ◌||◌, Option, none, some, List, [], ◌∷◌, map, ltb, ◌==◌,
  length, if◌then◌else◌,
}
use my_oj.Prelude.Int.{ℤ}
use my_oj.Prelude.Order.{insertion_sort}
use my_oj.Models.Types.{Key, ContestType}
use my_oj.Models.Time.{Time, before, is_zero}
use my_oj.Models.Settings.{ContestSettings}
use my_oj.Models.Contest.{reached}
use my_oj.Scoring.Entry.{ScoreEntry}
use my_oj.Scoring.Icpc.{reveal_all}
use my_oj.Scoring.Oi.{Strategy, icpc_strategy, oi_strategy, ioi_strategy}
use my_oj.Scoring.Rank.{RankRow, Runtime, strategy_rank}

pub record BoardCell : Type 0 where
  pub solved : Bool
  pub attempts : ℕ
  pub pending : ℕ
  pub penalty : ℤ
  pub score : ℤ
  pub first_blood : Bool

pub record BoardRow : Type 0 where
  pub rank : ℕ
  pub user_id : Key
  pub username : String
  pub organization : String
  pub problems : List (String × BoardCell)
  pub total_solved : ℕ
  pub total_penalty : ℤ
  pub total_score : ℤ

pub record BoardSnapshot : Type 0 where
  pub contest_id : Key
  pub contest_type : ContestType
  pub frozen : Bool
  pub problems : List String
  pub contestants : List BoardRow
  pub updated_at : Time

pub record ContestMeta : Type 0 where
  pub contest_type : ContestType
  pub settings : ContestSettings
  pub start_time : Time
  pub freeze_time : Option Time
  pub end_time : Time

pub record ProblemLabel : Type 0 where
  pub problem_id : Key
  pub label : String

pub record UserInfo : Type 0 where
  pub username : String
  pub organization : String

-- First blood: the earliest accepted entry found so far for each problem, with its position.
abbrev pub Winners : Type 0
Winners = List (Key × ℕ × ScoreEntry)

unfoldable pub is_earlier : ScoreEntry → ScoreEntry → Bool
is_earlier e cur =
    before e.best_submit_time cur.best_submit_time
    || (e.best_submit_time == cur.best_submit_time && ltb e.user_id cur.user_id)

unfoldable pub challenge : ℕ → ScoreEntry → Winners → Winners
unfolding is_earlier
challenge i e [] = (e.problem_id, i, e) ∷ []
challenge i e ((p, j, cur) ∷ m) =
    if p == e.problem_id
    then (if is_earlier e cur then (p, i, e) ∷ m else (p, j, cur) ∷ m)
    else (p, j, cur) ∷ challenge i e m

unfoldable pub find_winners : ℕ → List ScoreEntry → Winners → Winners
find_winners i [] m = m
find_winners i (e ∷ es) m =
    find_winners (i + 1) es
      (if not e.accepted || is_zero e.best_submit_time then m else challenge i e m)

unfoldable pub is_winner : ℕ → Winners → Bool
is_winner i [] = false
is_winner i ((p, j, e) ∷ m) = i == j || is_winner i m

-- Every flag is cleared, and set again for the entries at the winners' positions.
unfoldable pub mark_winners : ℕ → List ScoreEntry → Winners → List ScoreEntry
mark_winners i [] m = []
mark_winners i (e ∷ es) m = record e { is_first_blood = is_winner i m } ∷ mark_winners (i + 1) es m

unfoldable pub assign_first_blood : List ScoreEntry → List ScoreEntry
unfolding find_winners challenge is_winner mark_winners
assign_first_blood entries = mark_winners 0 entries (find_winners 0 entries [])

-- The entry as the board reads it: with the frozen results of an ICPC contest revealed after 解榜.
unfoldable pub shown_entry : Strategy → ContestMeta → Bool → ScoreEntry → ScoreEntry
shown_entry icpc_strategy meta true e =
    reveal_all (length e.frozen_results) e meta.start_time meta.settings
shown_entry _ meta _ e = e

unfoldable pub cell_of : ScoreEntry → BoardCell
cell_of e = record {
  solved = e.accepted;
  attempts = e.wrong_attempt_count;
  pending = e.frozen_attempts;
  penalty = e.penalty;
  score = e.display_score;
  first_blood = e.is_first_blood;
}

-- `labelByPID`: a later label of the same problem replaces an earlier one.
unfoldable pub label_by_pid : Key → List ProblemLabel → Option String
label_by_pid pid [] = none
label_by_pid pid (l ∷ ls) = elim (label_by_pid pid ls) [
  | some found ↦ some found
  | none ↦ if l.problem_id == pid then some l.label else none
]

unfoldable pub put_cell : String → BoardCell → List (String × BoardCell) → List (String × BoardCell)
put_cell k c [] = (k, c) ∷ []
put_cell k c ((j, d) ∷ m) = if str_eq j k then (k, c) ∷ m else (j, d) ∷ put_cell k c m

-- The loop over a row's entries: the cells, and the number of solved problems.
unfoldable pub fill_cells :
    List ProblemLabel
    → List (Key × ScoreEntry)
    → List (String × BoardCell)
    → ℕ
    → List (String × BoardCell) × ℕ
unfolding put_cell cell_of label_by_pid
fill_cells labels [] cells solved = (cells, solved)
fill_cells labels ((pid, e) ∷ es) cells solved =
    let next : List (String × BoardCell) × ℕ = elim (label_by_pid pid labels) [
      | none ↦ (cells, solved)
      | some label ↦ (put_cell label (cell_of e) cells, if e.accepted then solved + 1 else solved)
    ] in
    fill_cells labels es next.0 next.1

unfoldable pub board_row : List ProblemLabel → (Key → UserInfo) → RankRow → BoardRow
unfolding fill_cells
board_row labels users r =
    let (cells, solved) = fill_cells labels r.entries [] 0 in
    let info = users r.user_id in
    record {
      rank = r.rank;
      user_id = r.user_id;
      username = info.username;
      organization = info.organization;
      problems = cells;
      total_solved = solved;
      total_penalty = r.total_penalty;
      total_score = r.total_score;
    }

unfoldable pub less_rank : BoardRow → BoardRow → Bool
less_rank a b = ltb a.rank b.rank

-- The rows of the board: every entry of the hash as it is shown, with first blood, ranked.
unfoldable pub board_rows : Runtime → ContestMeta → Strategy → Bool → List ScoreEntry → List RankRow
board_rows rt meta strategy revealed raw =
    strategy_rank strategy rt (assign_first_blood (map (shown_entry strategy meta revealed) raw))

-- The snapshot of `rebuildSnapshot`, from the ranked rows, the labels and the user names.
unfoldable pub build_snapshot :
    Key
    → ContestMeta
    → Time
    → Bool
    → List RankRow
    → List ProblemLabel
    → (Key → UserInfo)
    → BoardSnapshot
build_snapshot contest_id meta now revealed rows labels users = record {
  contest_id = contest_id;
  contest_type = meta.contest_type;
  frozen = reached now meta.freeze_time && not revealed;
  problems = map (λ l. l.label) labels;
  contestants = insertion_sort less_rank (map (board_row labels users) rows);
  updated_at = now;
}
