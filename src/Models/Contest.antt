-- ===== src/Models/Contest.antt =====
-- internal/models/contest.go: the contest record and its lifecycle phase.
use Prim.Native.String.{String}
use my_oj.Prelude.{Bool, true, false, not, ◌&&◌, Option, none, some, if◌then◌else◌}
use my_oj.Models.Types.{Key, ContestType, contest_oi}
use my_oj.Models.Time.{Time, is_zero, before}
use my_oj.Models.Settings.{ContestSettings}

pub data ContestStatus : Type 0 where
  contest_draft contest_ready contest_running contest_frozen contest_ended : ContestStatus

-- The fields that the modelled code reads.
pub record Contest : Type 0 where
  pub id : Key
  pub title : String
  pub contest_type : ContestType
  pub start_time : Time
  pub end_time : Time
  pub freeze_time : Option Time
  pub settings : ContestSettings
  pub is_public : Bool

-- `FreezeTime != nil && !now.Before(*FreezeTime)`.
abbrev pub reached : Time → Option Time → Bool
reached now none = false
reached now (some t) = not (before now t)

unfoldable pub effective_status : Contest → Time → ContestStatus
effective_status c now =
    if not (is_zero c.start_time) && before now c.start_time
    then contest_ready
    else if not (is_zero c.end_time) && not (before now c.end_time)
    then contest_ended
    else if reached now c.freeze_time
    then contest_frozen
    else contest_running

abbrev pub is_oi : ContestType → Bool
is_oi contest_oi = true
is_oi _ = false

unfoldable pub is_blind_judged : Contest → Bool
is_blind_judged c = is_oi c.contest_type

abbrev pub is_ended : ContestStatus → Bool
is_ended contest_ended = true
is_ended _ = false
