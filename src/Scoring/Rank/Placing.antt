-- ===== src/Scoring/Rank/Placing.antt =====
-- strategy.go and strategy_icpc.go: the places of an ICPC board and of a board by score.
use my_oj.Prelude.{
  sym, ◌∙◌, ◌&&◌, [], ◌∷◌, suc, ◌≡◌, refl, Bool, false, not, List, if◌then◌else◌, arith,
}
use my_oj.Prelude.Int.{ltb_ℤ, eqb_ℤ}
use my_oj.Prelude.Order.{IsStrictWeak, IsOrdered}
use my_oj.Models.Time.{before}
use my_oj.Scoring.Entry.{ScoreEntry}
use my_oj.Scoring.Rank.{
  RankRow, Runtime, less_icpc, less_score, tied_icpc, tied_score, aggregate_users, accum_icpc,
  accum_score, rank_icpc, rank_by_score_desc,
}
use my_oj.Scoring.Rank.Unique.{less_icpc-IsStrictWeak}
use my_oj.Scoring.Rank.Places.{All, count_beating, IsPlacing, assign_ranks-places}

-- One ICPC row beats another: more problems solved, or as many with less penalty, or the same with
-- an earlier last accepted submission. The user's key decides no place.
unfoldable pub beats_icpc : RankRow → RankRow → Bool
beats_icpc a b =
    if not (eqb_ℤ a.total_score b.total_score)
    then ltb_ℤ b.total_score a.total_score
    else if not (eqb_ℤ a.total_penalty b.total_penalty)
    then ltb_ℤ a.total_penalty b.total_penalty
    else before a.last_ac_time b.last_ac_time

-- `beats_icpc` is the comparison of the code with the last tiebreaker taken out.
beats_icpc-less_icpc :
    (a b : RankRow)
    → beats_icpc a b ≡ less_icpc (record a { user_id = 0 }) (record b { user_id = 0 })
unfolding beats_icpc less_icpc
beats_icpc-less_icpc a b = ground arith

beats_icpc-IsStrictWeak : IsStrictWeak beats_icpc
beats_icpc-IsStrictWeak = record {
  asym = λ a b h.
      beats_icpc-less_icpc b a
      ∙ less_icpc-IsStrictWeak.asym _ _ (sym (beats_icpc-less_icpc a b) ∙ h);
  weaken = λ a b c h k.
      beats_icpc-less_icpc a c
      ∙ less_icpc-IsStrictWeak.weaken _ _ _ (sym (beats_icpc-less_icpc a b) ∙ h)
          (sym (beats_icpc-less_icpc b c) ∙ k);
}

tied_icpc-beats_icpc :
    (a b : RankRow) → tied_icpc a b ≡ (not (beats_icpc a b) && not (beats_icpc b a))
unfolding tied_icpc beats_icpc
tied_icpc-beats_icpc a b = ground arith

tied_icpc-IsPlacing : IsPlacing beats_icpc tied_icpc
unfolding beats_icpc
tied_icpc-IsPlacing = record {
  weak = beats_icpc-IsStrictWeak;
  ignores_rank = λ a b k. refl;
  ignores_rank_left = λ a b k. refl;
  tied_iff = tied_icpc-beats_icpc;
}

beats_of_less : (a b : RankRow) → less_icpc a b ≡ false → beats_icpc a b ≡ false
unfolding less_icpc beats_icpc
beats_of_less a b h = ground arith

IsOrdered-beats_icpc : (rows : List RankRow) → IsOrdered less_icpc rows → IsOrdered beats_icpc rows
IsOrdered-beats_icpc [] h = tt
IsOrdered-beats_icpc (r ∷ rows) h =
    (λ b m. beats_of_less b r (h.0 b m), IsOrdered-beats_icpc rows h.1)

less_score-IsStrictWeak : IsStrictWeak less_score
unfolding less_score
less_score-IsStrictWeak = record {
  asym = λ a b h. ground arith;
  weaken = λ a b c h k. ground arith;
}

tied_score-IsPlacing : IsPlacing less_score tied_score
unfolding less_score tied_score
tied_score-IsPlacing = record {
  weak = less_score-IsStrictWeak;
  ignores_rank = λ a b k. refl;
  ignores_rank_left = λ a b k. refl;
  tied_iff = λ a b. ground arith;
}

-- On the ICPC board every team's rank is one more than the number of teams that beat it, by
-- problems solved, then penalty, then the time of the last accepted submission: equal teams share
-- a rank, and the ranks after them are skipped.
pub rank_icpc-places :
    (rt : Runtime) (entries : List ScoreEntry)
    → let board = rank_icpc rt entries in
      All (λ r. r.rank ≡ suc (count_beating beats_icpc board r)) board
unfolding rank_icpc
rank_icpc-places rt entries = assign_ranks-places tied_icpc-IsPlacing sorted (
    IsOrdered-beats_icpc sorted (
      rt.sorter.sort_slice-IsOrdered less_icpc (aggregate_users rt entries accum_icpc)
        less_icpc-IsStrictWeak))
  where
    sorted : List RankRow
    sorted = rt.sorter.sort_slice less_icpc (aggregate_users rt entries accum_icpc)

-- On an OI or IOI board every contestant's rank is one more than the number of contestants with a
-- greater total score.
pub rank_by_score_desc-places :
    (rt : Runtime) (entries : List ScoreEntry)
    → let board = rank_by_score_desc rt entries in
      All (λ r. r.rank ≡ suc (count_beating less_score board r)) board
unfolding rank_by_score_desc
rank_by_score_desc-places rt entries =
    assign_ranks-places tied_score-IsPlacing
      (rt.sorter.sort_slice less_score (aggregate_users rt entries accum_score))
      (rt.sorter.sort_slice-IsOrdered less_score (aggregate_users rt entries accum_score)
        less_score-IsStrictWeak)
