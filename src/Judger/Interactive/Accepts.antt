-- ===== src/Judger/Interactive/Accepts.antt =====
-- orchestrator.go: when an interactive test case, and one with several processes, is accepted.
use Prim.Native.String.{String}
use Prim.Native.String as Str
use my_oj.Prelude.{
  ◌≤◌, ◌≡◌, ◌≢◌, ◌↔◌, refl, ap, ◌∙◌, true, false, ◌⊎◌, inl, inr, some, List, ◌∷◌, map, ltb, ◌==◌,
  Bool-cases, Option-cases, arith,
}
use my_oj.Models.Types.{status_accepted, status_wrong_answer}
use my_oj.Models.Judging.{Bytes}
use my_oj.Judger.Verdict.{
  ExecStatus, exec_ok, exec_tle, exec_wall_tle, exec_mle, exec_re, exec_sc_viol, exec_se,
  ExecResult, Verdict,
}
use my_oj.Judger.Tokens.{bytes_eq}
use my_oj.Judger.Step.{returned, codes}
use my_oj.Judger.Scheduler.{TestCaseRequest}
use my_oj.Judger.Runners.{trim, first_line, strip_prefix}
use my_oj.Judger.Interactive.{
  Sandbox, upper_byte, line_verdict, verdict_by, default_verdict_parser, pair_request,
  run_interactive, group_request, worst_from, run_communication,
}
use my_oj.Judger.Interactive.Worst.{AllOk, worst_from-AllOk, worst_from_of_AllOk}

-- The first line of the output, without the spaces around it, is `AC` or begins with `PC` and a space, in
-- capital or small letters.
abbrev pub IsAccepting : Bytes → Type 0
IsAccepting output =
    let upper = map upper_byte (trim (first_line output)) in
    (bytes_eq upper (codes "AC") ≡ true)
    ⊎ ((rest : Bytes) × (strip_prefix (codes "PC ") upper ≡ some rest))

wrong_answer_not_accepted : status_wrong_answer ≢ status_accepted
wrong_answer_not_accepted e = ground (arith, e)

line_verdict-accepted :
    (line : Bytes) (result : ExecResult)
    → ((line_verdict line result).status ≡ status_accepted) ↔ (
        (bytes_eq (map upper_byte line) (codes "AC") ≡ true)
        ⊎ ((rest : Bytes) × (strip_prefix (codes "PC ") (map upper_byte line) ≡ some rest)))
unfolding line_verdict
line_verdict-accepted line result =
    elim (Bool-cases (bytes_eq (map upper_byte line) (codes "AC"))) [
      | inl e ↦ rw (e, line_verdict) (λ u. inl refl, λ u. refl)
      | inr e ↦ elim (Option-cases (strip_prefix (codes "PC ") (map upper_byte line))) [
        | inr (rest, f) ↦ rw (e, f, line_verdict) (λ u. inr (rest, refl), λ u. refl)
        | inl f ↦
            rw (e, f, line_verdict)
              (
                λ a. absurd (wrong_answer_not_accepted a),
                λ h. elim h [
                  | inl g ↦ absurd (ground (arith, g))
                  | inr (rest, g) ↦ absurd (ground (arith, g))
                ],
              )
      ]
    ]

verdict_by-accepted :
    (s : ExecStatus) (line : Bytes) (result : ExecResult)
    → ((verdict_by s line result).status ≡ status_accepted)
      ↔ ((s ≡ exec_ok) × ((line_verdict line result).status ≡ status_accepted))
unfolding verdict_by
verdict_by-accepted exec_ok line result = (λ a. (refl, a), λ both. both.1)
verdict_by-accepted exec_tle line result = (λ a. cc, λ both. absurd (ground (arith, both.0)))
verdict_by-accepted exec_wall_tle line result = (λ a. cc, λ both. absurd (ground (arith, both.0)))
verdict_by-accepted exec_mle line result = (λ a. cc, λ both. absurd (ground (arith, both.0)))
verdict_by-accepted exec_re line result = (λ a. cc, λ both. absurd (ground (arith, both.0)))
verdict_by-accepted exec_sc_viol line result = (λ a. cc, λ both. absurd (ground (arith, both.0)))
verdict_by-accepted exec_se line result = (λ a. cc, λ both. absurd (ground (arith, both.0)))

-- Whether the default parser accepts.
parser-accepted :
    (output : Bytes) (result : ExecResult)
    → ((default_verdict_parser output result).status ≡ status_accepted)
      ↔ ((result.status ≡ exec_ok) × IsAccepting output)
unfolding default_verdict_parser
parser-accepted output result =
    let line = trim (first_line output) in
    let by = verdict_by-accepted result.status line result in
    let said = line_verdict-accepted line result in
    (λ a. ((by.0 a).0, said.0 (by.0 a).1), λ both. by.1 (both.0, said.1 both.1))

-- A run of an interactive problem whose interactor is named and whose input opens, and which the
-- sandbox answers for, has a verdict, and it is accepted exactly when the contestant's process ended
-- well and the interactor's first line says so.
pub run_interactive_accepts :
    (box : Sandbox) (req : TestCaseRequest) (command : String) (args : List String)
    (result : ExecResult) (output : Bytes)
    → (Str.len req.judge_config.interactor_path == 0) ≡ false
    → box.open_shared_file req.test_case.input_path ≡ returned tt
    → box.execute_pair (pair_request (record req { run_cmd = command ∷ args }))
      ≡ returned (result, output)
    → (v : Verdict) × (run_interactive box (record req { run_cmd = command ∷ args }) ≡ returned v)
      × ((v.status ≡ status_accepted) ↔ ((result.status ≡ exec_ok) × IsAccepting output))
unfolding run_interactive
run_interactive_accepts box req command args result output path opens ran = (
  default_verdict_parser output result,
  rw (path, run_interactive) (rw opens (rw ran refl)),
  parser-accepted output result,
)

-- A run of a problem with several processes, two at least, which the sandbox answers for, has a
-- verdict, and it is accepted exactly when all the processes ended well and the grader's first line
-- says so.
pub run_communication_accepts :
    (box : Sandbox) (req : TestCaseRequest) (command : String) (args : List String) (r : ExecResult)
    (rs : List ExecResult) (output : Bytes)
    → 2 ≤ req.judge_config.comm_process_count
    → box.execute_group (group_request box (record req { run_cmd = command ∷ args }))
      ≡ returned (r ∷ rs, output)
    → (v : Verdict) × (run_communication box (record req { run_cmd = command ∷ args }) ≡ returned v)
      × ((v.status ≡ status_accepted) ↔ (AllOk (r ∷ rs) × IsAccepting output))
unfolding run_communication
run_communication_accepts box req command args r rs output many ran =
    let enough : ltb req.judge_config.comm_process_count 2 ≡ false = ground arith in
    let accepted = parser-accepted output (worst_from r rs) in
    (
      default_verdict_parser output (worst_from r rs),
      rw (enough, run_communication) (rw ran refl),
      (
        λ a. (worst_from-AllOk r rs (accepted.0 a).0, (accepted.0 a).1),
        λ both. accepted.1 (
          ap (λ (w : ExecResult). w.status) (worst_from_of_AllOk r rs both.0) ∙ both.0.0,
          both.1,
        ),
      ),
    )
