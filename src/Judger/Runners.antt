-- ===== src/Judger/Runners.antt =====
-- internal/judger/{runner_standard,runner_special}.go: one test case of a standard problem and of one
-- with a checker. Files, the sandbox and the checker answer from outside.
pub mod Accepts
pub mod Checker
use Prim.Native.String.{String}
use Prim.Native.String as Str
use my_oj.Prelude.{
  ℕ, zero, suc, ◌+◌, ◌-◌, ◌*◌, ◌^◌, Bool, true, false, ◌&&◌, ◌||◌, Option, none, some, List, [],
  ◌∷◌, ◌++◌, ◌==◌, ltb, leb, if◌then◌else◌,
}
use my_oj.Prelude.Int.{ℤ, pos, negsuc}
use my_oj.Models.Types.{status_accepted, status_wrong_answer, status_se, SubmissionStatus}
use my_oj.Models.Judging.{Bytes, JudgeTestCase, JudgeConfig}
use my_oj.Judger.Verdict.{ExecResult, is_exec_ok, exec_status_to_submission, Verdict}
use my_oj.Judger.Tokens.{space_width, is_blank, tokens_equal, Hint, first_diff_hint}
use my_oj.Judger.Compiler.{ResourceLimits}
use my_oj.Judger.Step.{Outcome, returned, failed, panicked, codes}
use my_oj.Judger.Scheduler.{TestCaseRequest}

-- What a runner is given: whether a file opens, a run of a command on an input file with the output
-- it wrote, the expected output, the temporary file for a checker, and what the checker writes to
-- its standard error; and the texts that `fmt` makes of a hint and of a key.
pub record World : Type 0 where
  pub open_input : String → Outcome {0} Unit
  pub execute : List String → String → ResourceLimits → Bytes × Outcome ExecResult
  pub read_file : String → Outcome Bytes
  pub write_temp : Bytes → Outcome String
  pub run_checker : String → List String → Bytes
  pub hint_text : Hint → Bytes
  pub no_checker_text : JudgeTestCase → Bytes

-- The verdict of a run that the sandbox stopped, and the one that a comparison starts from.
abbrev pub plain_verdict : ExecResult → SubmissionStatus → Verdict
plain_verdict result status = record {
  status = status;
  score = pos 0;
  time_used_ms = result.time_used_ms;
  mem_used_kb = result.mem_used_kb;
  judge_message = [];
}

abbrev pub with_path : String → String → Bytes → Bytes
with_path prefix path e = codes prefix ++ (codes path ++ (codes ": " ++ e))

-- `fmt.Errorf(prefix + path + ": %w", e)`, or what comes after a call that returned.
abbrev pub or_fail {ℓ ℓ'} :
    {A : Type ℓ} {B : Type ℓ'} → (Bytes → Bytes) → Outcome A → (A → Outcome B) → Outcome B
or_fail message (returned a) next = next a
or_fail message (failed e) next = failed (message e)
or_fail message (panicked e) next = panicked e

unfoldable pub compare_output : World → TestCaseRequest → ExecResult → Bytes → Bytes → Verdict
compare_output w req result out expected =
    if tokens_equal out expected
    then record (plain_verdict result status_accepted) { score = req.test_case.score }
    else record (plain_verdict result status_wrong_answer) {
      judge_message = w.hint_text (first_diff_hint out expected);
    }

-- The end of `StandardOrchestrator.RunTestCase`, on what the run left.
unfoldable pub standard_verdict : World → TestCaseRequest → Bytes → ExecResult → Outcome Verdict
standard_verdict w req out result =
    if is_exec_ok result.status
    then or_fail (with_path "standard: read expected output " req.test_case.output_path)
        (w.read_file req.test_case.output_path)
        (λ expected. returned (compare_output w req result out expected))
    else returned (plain_verdict result (exec_status_to_submission result.status))

-- `StandardOrchestrator.RunTestCase`.
unfoldable pub run_standard : World → TestCaseRequest → Outcome Verdict
run_standard w req = elim req.run_cmd [
  | [] ↦ failed (codes "standard: RunCmd is empty")
  | command ∷ args ↦
      or_fail (with_path "standard: open input " req.test_case.input_path)
        (w.open_input req.test_case.input_path)
        (λ u.
          let (out, run) = w.execute (command ∷ args) req.test_case.input_path req.limits in
          or_fail (λ e. codes "standard: execute: " ++ e) run (standard_verdict w req out))
]

-- `strings.SplitN(s, "\n", 2)[0]`.
unfoldable pub first_line : Bytes → Bytes
first_line [] = []
first_line (b ∷ bs) = let rest = first_line bs in if b == 10 then [] else b ∷ rest

-- `strings.TrimSpace`, from the left and from the right.
unfoldable pub trim_left : ℕ → Bytes → Bytes
trim_left skip [] = []
trim_left (suc skip) (b ∷ bs) = trim_left skip bs
trim_left zero (b ∷ bs) =
    let w = space_width (b ∷ bs) in
    let rest = trim_left (w - 1) bs in if w == 0 then b ∷ bs else rest

unfoldable pub trim_right : Bytes → Bytes
trim_right [] = []
trim_right (b ∷ bs) = let rest = trim_right bs in if is_blank (b ∷ bs) then [] else b ∷ rest

abbrev pub trim : Bytes → Bytes
trim s = trim_right (trim_left 0 s)

-- `strings.ToLower` as far as ASCII letters come out of it: those of ASCII, the dotted capital I and
-- the Kelvin sign.
abbrev lower_byte : ℕ → ℕ
lower_byte b = if leb 65 b && leb b 90 then b + 32 else b

abbrev starts_dotted_i : ℕ → Bytes → Bool
starts_dotted_i b [] = false
starts_dotted_i b (c ∷ rest) = (b == 196) && (c == 176)

abbrev starts_kelvin : ℕ → Bytes → Bool
starts_kelvin b [] = false
starts_kelvin b (c ∷ []) = false
starts_kelvin b (c ∷ (d ∷ rest)) = (b == 226) && (c == 132) && (d == 170)

unfoldable pub to_lower : ℕ → Bytes → Bytes
to_lower skip [] = []
to_lower (suc skip) (b ∷ bs) = to_lower skip bs
to_lower zero (b ∷ bs) =
    let (letter, width) : ℕ × ℕ =
      if starts_dotted_i b bs
      then (105, 1)
      else if starts_kelvin b bs
      then (107, 2)
      else (lower_byte b, 0) in
    letter ∷ to_lower width bs

-- The text after a prefix, if it has the prefix.
unfoldable pub strip_prefix : Bytes → Bytes → Option Bytes
strip_prefix [] s = some s
strip_prefix (p ∷ ps) [] = none
strip_prefix (p ∷ ps) (b ∷ bs) = let rest = strip_prefix ps bs in if p == b then rest else none

abbrev is_digit : ℕ → Bool
is_digit b = leb 48 b && leb b 57

-- The number that a text begins with: its digits and their value.
unfoldable pub scan_digits : ℕ → ℕ → Bytes → ℕ × ℕ
scan_digits count value [] = (count, value)
scan_digits count value (b ∷ bs) =
    let rest = scan_digits (suc count) (value * 10 + (b - 48)) bs in
    if is_digit b then rest else (count, value)

abbrev negated : ℕ → ℤ
negated zero = pos 0
negated (suc n) = negsuc n

-- `Sscanf(s, "%d", &score)` on a score of 0, which stays where no number of 64 bits is read.
abbrev signed_number : Bool → Bytes → ℤ
signed_number minus s =
    let (count, value) = scan_digits 0 0 s in
    if count == 0
    then pos 0
    else if minus
    then (if leb value (2 ^ 63) then negated value else pos 0)
    else if ltb value (2 ^ 63)
    then pos value
    else pos 0

abbrev number_at : Bytes → ℤ
number_at [] = pos 0
number_at (b ∷ bs) =
    if b == 45
    then signed_number true bs
    else if b == 43
    then signed_number false bs
    else signed_number false (b ∷ bs)

unfoldable pub scan_score : Bytes → ℤ
scan_score s = number_at (trim_left 0 s)

-- `strings.HasPrefix` on the first line decides.
unfoldable pub checker_status : Bytes → SubmissionStatus × ℤ
checker_status line = elim (strip_prefix (codes "ok") line) [
  | some rest ↦ (status_accepted, pos 1)
  | none ↦ elim (strip_prefix (codes "points ") line) [
    | some rest ↦ (status_accepted, scan_score rest)
    | none ↦ elim (strip_prefix (codes "fail") line) [
      | some rest ↦ (status_se, pos 0)
      | none ↦ (status_wrong_answer, pos 0)
    ]
  ]
]

unfoldable pub parse_checker_output : Bytes → ExecResult → Verdict
parse_checker_output stderr result =
    let message = trim (first_line stderr) in
    let (status, score) = checker_status (to_lower 0 message) in
    record (plain_verdict result status) { score = score; judge_message = message }

-- The end of `SpecialOrchestrator.RunTestCase`, on what the run left.
unfoldable pub special_verdict : World → TestCaseRequest → Bytes → ExecResult → Outcome Verdict
special_verdict w req out result =
    let tc = req.test_case in
    let config = req.judge_config in
    if is_exec_ok result.status
    then or_fail (λ e. e) (w.write_temp out)
        (λ path.
          let argv = tc.input_path ∷ (path ∷ (tc.output_path ∷ config.checker_args)) in
          returned (parse_checker_output (w.run_checker config.checker_path argv) result))
    else returned (plain_verdict result (exec_status_to_submission result.status))

-- `SpecialOrchestrator.RunTestCase`.
unfoldable pub run_special : World → TestCaseRequest → Outcome Verdict
run_special w req =
    let run : Outcome Verdict = elim req.run_cmd [
      | [] ↦ failed (codes "special: RunCmd is empty")
      | command ∷ args ↦
          or_fail (with_path "special: open input " req.test_case.input_path)
            (w.open_input req.test_case.input_path)
            (λ u.
              let (out, result) = w.execute (command ∷ args) req.test_case.input_path req.limits in
              or_fail (λ e. codes "special: execute: " ++ e) result (special_verdict w req out))
    ] in
    if Str.len req.judge_config.checker_path == 0
    then failed (w.no_checker_text req.test_case)
    else run
