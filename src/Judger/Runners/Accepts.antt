-- ===== src/Judger/Runners/Accepts.antt =====
-- runner_standard.go: when a test case is accepted.
use Prim.Native.String.{String}
use my_oj.Prelude.{◌≡◌, ◌≢◌, ◌↔◌, refl, true, List, ◌∷◌, inl, inr, Bool-cases, arith}
use my_oj.Models.Types.{status_accepted, status_wrong_answer}
use my_oj.Models.Judging.{Bytes}
use my_oj.Judger.Verdict.{ExecStatus, ExecResult, is_exec_ok, exec_status_to_submission, Verdict}
use my_oj.Judger.Tokens.{tokens_equal, tokenize}
use my_oj.Judger.Tokens.Equal.{tokens_equal_iff}
use my_oj.Judger.Step.{returned}
use my_oj.Judger.Scheduler.{TestCaseRequest}
use my_oj.Judger.Runners.{World, plain_verdict, compare_output, standard_verdict, run_standard}

stopped_not_accepted : (s : ExecStatus) → exec_status_to_submission s ≢ status_accepted
unfolding exec_status_to_submission
stopped_not_accepted s e = ground (arith, e)

wrong_answer_not_accepted : status_wrong_answer ≢ status_accepted
wrong_answer_not_accepted e = ground (arith, e)

compare_output-accepted :
    (w : World) (req : TestCaseRequest) (result : ExecResult) (out expected : Bytes)
    → ((compare_output w req result out expected).status ≡ status_accepted)
      ↔ (tokenize out ≡ tokenize expected)
unfolding compare_output
compare_output-accepted w req result out expected = elim (Bool-cases (tokens_equal out expected)) [
  | inl e ↦ rw (e, compare_output) (λ u. (tokens_equal_iff out expected).0 e, λ u. refl)
  | inr e ↦
      rw (e, compare_output)
        (
          λ a. absurd (wrong_answer_not_accepted a),
          λ same. absurd (ground (arith, e, (tokens_equal_iff out expected).1 same)),
        )
]

-- The verdict that a run and the expected output lead to.
abbrev pub Decides : ExecResult → Bytes → Bytes → Verdict → Type 0
Decides result out expected v =
    (v.status ≡ status_accepted)
    ↔ ((is_exec_ok result.status ≡ true) × (tokenize out ≡ tokenize expected))

standard_verdict-Decides :
    (w : World) (req : TestCaseRequest) (result : ExecResult) (out expected : Bytes)
    → w.read_file req.test_case.output_path ≡ returned expected
    → (v : Verdict) × (standard_verdict w req out result ≡ returned v)
      × Decides result out expected v
unfolding standard_verdict
standard_verdict-Decides w req result out expected read =
    elim (Bool-cases (is_exec_ok result.status)) [
      | inl ok ↦
          let accepts = compare_output-accepted w req result out expected in
          (
            compare_output w req result out expected,
            rw (ok, standard_verdict) (rw read refl),
            (λ a. (ok, accepts.0 a), λ both. accepts.1 both.1),
          )
      | inr stopped ↦ (
        plain_verdict result (exec_status_to_submission result.status),
        rw (stopped, standard_verdict) refl,
        (
          λ a. absurd (stopped_not_accepted result.status a),
          λ both. absurd (ground (arith, stopped, both.0)),
        ),
      )
    ]

-- A run of a standard problem whose files can be read, and which the sandbox answers for, has a
-- verdict, and it is accepted exactly when the run ended well and the words of its output are the
-- expected ones.
pub run_standard_accepts :
    (w : World) (req : TestCaseRequest) (command : String) (args : List String)
    (result : ExecResult) (out expected : Bytes)
    → w.open_input req.test_case.input_path ≡ returned tt
    → w.execute (command ∷ args) req.test_case.input_path req.limits ≡ (out, returned result)
    → w.read_file req.test_case.output_path ≡ returned expected
    → (v : Verdict) × (run_standard w (record req { run_cmd = command ∷ args }) ≡ returned v)
      × Decides result out expected v
unfolding run_standard standard_verdict compare_output
run_standard_accepts w req command args result out expected opens run read =
    let (v, e, decides) = standard_verdict-Decides w req result out expected read in
    (v, rw (opens, run_standard) (rw run e), decides)
