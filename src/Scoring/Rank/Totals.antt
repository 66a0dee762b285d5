-- ===== src/Scoring/Rank/Totals.antt =====
-- strategy.go: grouping the entries by user, against a scan for one user.
use my_oj.Prelude.{
  ◌≡◌, refl, ap, ◌∙◌, Option, none, some, List, [], ◌∷◌, ◌==◌, if◌then◌else◌, arith,
}
use my_oj.Models.Types.{Key}
use my_oj.Scoring.Entry.{ScoreEntry}
use my_oj.Scoring.Rank.{RankRow, new_row, put, add_entry, add_entries, accum_icpc, accum_score}

-- The row of a user.
unfoldable pub row_of : Key → List RankRow → Option RankRow
row_of u [] = none
row_of u (r ∷ rows) = if r.user_id == u then some r else row_of u rows

abbrev row_or_new : Key → Option RankRow → RankRow
row_or_new u none = new_row u
row_or_new u (some r) = r

module _ (accum : RankRow → ScoreEntry → RankRow) where
  -- A user's row after one more entry of that user.
  abbrev with_entry : RankRow → ScoreEntry → RankRow
  with_entry r e = accum (record r { entries = put e.problem_id e r.entries }) e

  -- The row of one user, from that user's entries alone.
  unfoldable pub scan_user : Key → List ScoreEntry → Option RankRow → Option RankRow
  scan_user u [] row = row
  scan_user u (e ∷ es) row =
      scan_user u es (if e.user_id == u then some (with_entry (row_or_new u row) e) else row)

  module _ (keeps_user : (r : RankRow) (e : ScoreEntry) → (accum r e).user_id ≡ r.user_id) where
    row_of-add_entry :
        (u : Key) (e : ScoreEntry) (rows : List RankRow)
        → row_of u (add_entry accum e rows) ≡ (
            if e.user_id == u
            then some (with_entry (row_or_new u (row_of u rows)) e)
            else row_of u rows)
    unfolding row_of add_entry new_row
    row_of-add_entry u e [] =
        ground
          (arith, keeps_user (record (new_row e.user_id) { entries = put e.problem_id e [] }) e)
    row_of-add_entry u e (r ∷ rows) = ground (
      arith,
      keeps_user (record r { entries = put e.problem_id e r.entries }) e,
      row_of-add_entry u e rows,
    )

    row_of-add_entries_from :
        (u : Key) (es : List ScoreEntry) (rows : List RankRow)
        → row_of u (add_entries accum es rows) ≡ scan_user u es (row_of u rows)
    unfolding add_entries scan_user
    row_of-add_entries_from u [] rows = refl
    row_of-add_entries_from u (e ∷ es) rows =
        row_of-add_entries_from u es (add_entry accum e rows)
        ∙ ap (scan_user u es) (row_of-add_entry u e rows)

accum_icpc-user : (r : RankRow) (e : ScoreEntry) → (accum_icpc r e).user_id ≡ r.user_id
unfolding accum_icpc
accum_icpc-user r e = ground arith

accum_score-user : (r : RankRow) (e : ScoreEntry) → (accum_score r e).user_id ≡ r.user_id
unfolding accum_score
accum_score-user r e = refl

-- Grouping the entries by user gives every user, on an ICPC board and on a board by score, the row
-- that a scan of the entries for that user alone gives, and no row to a user without entries.
pub row_of-add_entries :
    (u : Key) (entries : List ScoreEntry)
    → (row_of u (add_entries accum_icpc entries []) ≡ scan_user accum_icpc u entries none)
      × (row_of u (add_entries accum_score entries []) ≡ scan_user accum_score u entries none)
unfolding row_of
row_of-add_entries u entries = (
  row_of-add_entries_from accum_icpc accum_icpc-user u entries [],
  row_of-add_entries_from accum_score accum_score-user u entries [],
)
