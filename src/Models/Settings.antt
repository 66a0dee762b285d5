-- ===== src/Models/Settings.antt =====
-- internal/models/contest.go: ContestSettings, a JSON map, with its two typed readers.
use Prim.Native.String.{String}
use text.Mathlib.Text.{◌==◌ as str_eq}
use my_oj.Prelude.{ℕ, ◌/◌, Bool, true, List, [], ◌∷◌, Option, none, some, if◌then◌else◌}
use my_oj.Prelude.Int.{ℤ, pos}

-- A decoded JSON value. A number (float64 in the source) is held in thousandths.
pub data JsonValue : Type 0 where
  json_null : JsonValue
  json_bool : Bool → JsonValue
  json_number : ℤ → JsonValue
  json_other : String → JsonValue

abbrev pub ContestSettings : Type 0
ContestSettings = List (String × JsonValue)

unfoldable pub lookup : String → ContestSettings → Option JsonValue
lookup k [] = none
lookup k ((j, v) ∷ m) = if str_eq j k then some v else lookup k m

-- `f, ok := v.(float64); ok && f >= 0`, then `int(f)`; 20 otherwise.
abbrev pub penalty_of : Option JsonValue → ℕ
penalty_of (some (json_number (pos f))) = f / 1000
penalty_of _ = 20

unfoldable pub penalty_minutes : ContestSettings → ℕ
penalty_minutes s = penalty_of (lookup "penalty_minutes" s)

abbrev pub bool_or_true : Option JsonValue → Bool
bool_or_true (some (json_bool b)) = b
bool_or_true _ = true

unfoldable pub ce_no_penalty : ContestSettings → Bool
ce_no_penalty s = bool_or_true (lookup "ce_no_penalty" s)
