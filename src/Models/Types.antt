-- ===== src/Models/Types.antt =====
-- internal/models/types.go: the enumerations that every part of the judge shares.
use my_oj.Prelude.{ℕ, Bool, true, false}

-- The primary key type `ID = int64`. Keys come from database sequences and start at 1.
abbrev pub Key : Type 0
Key = ℕ

pub data Language : Type 0 where
  lang_c lang_cpp17 lang_cpp20 lang_java lang_python lang_go lang_rust : Language
  other_language : ℕ → Language

pub data JudgeType : Type 0 where
  judge_standard judge_special judge_interactive judge_communication : JudgeType

-- `status_ce` and the others abbreviate as the source does.
pub data SubmissionStatus : Type 0 where
  status_pending status_compiling status_judging status_accepted status_wrong_answer :
      SubmissionStatus
  status_tle status_mle status_re status_ce status_se status_superseded : SubmissionStatus

pub data UserRole : Type 0 where
  role_admin role_contestant role_guest : UserRole

pub data ContestType : Type 0 where
  contest_icpc contest_oi contest_ioi contest_team contest_custom : ContestType

abbrev pub is_accepted : SubmissionStatus → Bool
is_accepted status_accepted = true
is_accepted _ = false

abbrev pub is_ce : SubmissionStatus → Bool
is_ce status_ce = true
is_ce _ = false

abbrev pub is_admin : UserRole → Bool
is_admin role_admin = true
is_admin _ = false

abbrev pub is_icpc : ContestType → Bool
is_icpc contest_icpc = true
is_icpc _ = false
