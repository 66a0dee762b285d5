-- ===== src/Judger/Runners/Checker.antt =====
-- runner_special.go: the verdicts of a checker.
use my_oj.Prelude.{◌≡◌, refl, ◌⊎◌, inl, inr, Option-cases}
use my_oj.Prelude.Int.{ℤ, pos}
use my_oj.Models.Types.{SubmissionStatus, status_accepted, status_wrong_answer, status_se}
use my_oj.Models.Judging.{Bytes}
use my_oj.Judger.Verdict.{ExecResult}
use my_oj.Judger.Step.{codes}
use my_oj.Judger.Runners.{strip_prefix, checker_status, parse_checker_output}

-- Accepted with any points, or wrong answer or system error with none.
abbrev pub IsCheckerAnswer : SubmissionStatus → ℤ → Type 0
IsCheckerAnswer status score =
    (status ≡ status_accepted)
    ⊎ (((status ≡ status_wrong_answer) ⊎ (status ≡ status_se)) × (score ≡ pos 0))

checker_status-IsCheckerAnswer :
    (line : Bytes) → IsCheckerAnswer (checker_status line).0 (checker_status line).1
unfolding checker_status
checker_status-IsCheckerAnswer line = elim (Option-cases (strip_prefix (codes "ok") line)) [
  | inr (rest, e) ↦ rw (e, checker_status) (inl refl)
  | inl e ↦ elim (Option-cases (strip_prefix (codes "points ") line)) [
    | inr (rest, f) ↦ rw (e, f, checker_status) (inl refl)
    | inl f ↦ elim (Option-cases (strip_prefix (codes "fail") line)) [
      | inr (rest, g) ↦ rw (e, f, g, checker_status) (inr (inr refl, refl))
      | inl g ↦ rw (e, f, g, checker_status) (inr (inl refl, refl))
    ]
  ]
]

-- Whatever a checker writes, its verdict is accepted, or it is wrong answer or system error without
-- points; the time and the memory are those of the run.
pub parse_checker_output-IsCheckerAnswer :
    (stderr : Bytes) (result : ExecResult)
    → let v = parse_checker_output stderr result in
      IsCheckerAnswer v.status v.score
      × (v.time_used_ms ≡ result.time_used_ms)
      × (v.mem_used_kb ≡ result.mem_used_kb)
unfolding parse_checker_output
parse_checker_output-IsCheckerAnswer stderr result = (checker_status-IsCheckerAnswer _, refl, refl)
