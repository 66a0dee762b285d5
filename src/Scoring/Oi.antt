-- ===== src/Scoring/Oi.antt =====
-- internal/core/contest/strategy.go: the OI and IOI strategies, and the registry of strategies.
pub mod Best
use my_oj.Prelude.{◌+◌, Bool, true, false, ◌||◌, Option, none, some, List, [], ◌∷◌, if◌then◌else◌}
use my_oj.Prelude.Int.{pos, ltb_ℤ}
use my_oj.Models.Types.{
  ContestType, contest_icpc, contest_oi, contest_ioi, contest_team, contest_custom,
}
use my_oj.Models.Settings.{ContestSettings, JsonValue, json_bool, lookup}
use my_oj.Scoring.Entry.{SubmissionEvent, ScoreEntry, clone_or_new}
use my_oj.Scoring.Icpc

-- `strict, _ := v.(bool)`.
abbrev pub bool_or_false : Option JsonValue → Bool
bool_or_false (some (json_bool b)) = b
bool_or_false _ = false

unfoldable pub is_strict : ContestSettings → Bool
is_strict s = bool_or_false (lookup "strict_last_submission" s)

unfoldable pub apply_to : ScoreEntry → SubmissionEvent → ContestSettings → ScoreEntry
apply_to e ev s =
    let counted = record e { attempt_count = e.attempt_count + 1 } in
    if is_strict s || ltb_ℤ e.display_score ev.score
    then record counted {
      display_score = ev.score;
      best_submit_time = ev.submit_time;
      accepted = if ltb_ℤ (pos 0) ev.score then true else e.accepted;
    }
    else counted

unfoldable pub apply : SubmissionEvent → Option ScoreEntry → ContestSettings → ScoreEntry
unfolding apply_to
apply ev prev s = apply_to (clone_or_new prev ev) ev s

-- `OIStrategy.IsFinalised`: a later submission can always change the score.
unfoldable pub is_finalised : ScoreEntry → ContestSettings → Bool
is_finalised e s = false

-- The implementations of the interface `Strategy`; `IOIStrategy` embeds `OIStrategy`.
pub data Strategy : Type 0 where
  icpc_strategy oi_strategy ioi_strategy : Strategy

unfoldable pub name : Strategy → ContestType
name icpc_strategy = contest_icpc
name oi_strategy = contest_oi
name ioi_strategy = contest_ioi

unfoldable pub strategy_apply :
    Strategy → SubmissionEvent → Option ScoreEntry → ContestSettings → ScoreEntry
strategy_apply icpc_strategy ev prev s = Icpc.apply ev prev s
strategy_apply oi_strategy ev prev s = apply ev prev s
strategy_apply ioi_strategy ev prev s = apply ev prev s

unfoldable pub strategy_is_finalised : Strategy → ScoreEntry → ContestSettings → Bool
strategy_is_finalised icpc_strategy e s = Icpc.is_finalised e s
strategy_is_finalised oi_strategy e s = is_finalised e s
strategy_is_finalised ioi_strategy e s = is_finalised e s

abbrev same_type : ContestType → ContestType → Bool
same_type contest_icpc contest_icpc = true
same_type contest_oi contest_oi = true
same_type contest_ioi contest_ioi = true
same_type contest_team contest_team = true
same_type contest_custom contest_custom = true
same_type _ _ = false

-- The map from contest types to strategies; a later registration shadows an earlier one.
abbrev pub Registry : Type 0
Registry = List (ContestType × Strategy)

unfoldable pub register : Strategy → Registry → Registry
register s r = (name s, s) ∷ r

unfoldable pub new_registry : Registry
unfolding register name
new_registry = register ioi_strategy (register oi_strategy (register icpc_strategy []))

unfoldable pub get : Registry → ContestType → Option Strategy
get [] t = none
get ((u, s) ∷ r) t = if same_type u t then some s else get r t
