-- ===== src/Judger/Nsjail/Verdicts.antt =====
-- execute.go: what the status of a run says of it.
use my_oj.Prelude.{ℕ, ◌≤◌, ◌≡◌, ◌≢◌, ◌↔◌, refl, sym, ◌∙◌, false, ◌⊎◌, some, arith}
use my_oj.Prelude.Int.{ℤ, pos}
use my_oj.Models.Judging.{Bytes}
use my_oj.Judger.Verdict.{exec_ok, ExecResult}
use my_oj.Judger.Compiler.{ResourceLimits}
use my_oj.Judger.Runners.{to_lower}
use my_oj.Judger.Nsjail.{
  Waited, clean, exited, wait_failed, Texts, Counters, log_status, wait_status, parse_result,
  with_oom, with_cpu, with_wall, with_peak, with_counters, judge_run,
}

log_status_not_ok : (code : ℤ) (log : Bytes) → log_status code log ≢ exec_ok
unfolding log_status
log_status_not_ok code log e = ground arith

-- A run that has not ended well does not become one that has.
with_peak-status : (c : Counters) (r : ExecResult) → (with_peak c r).status ≡ r.status
with_peak-status c r = ground arith

with_oom_not_ok :
    (c : Counters) (r : ExecResult) → r.status ≢ exec_ok → (with_oom c r).status ≢ exec_ok
unfolding with_oom
with_oom_not_ok c r h e = h (ground arith)

with_cpu_not_ok :
    (c : Counters) (limits : ResourceLimits) (r : ExecResult)
    → r.status ≢ exec_ok
    → (with_cpu c limits r).status ≢ exec_ok
unfolding with_cpu
with_cpu_not_ok c limits r h e = h (ground arith)

with_wall_not_ok :
    (limits : ResourceLimits) (wall_ms : ℕ) (r : ExecResult)
    → r.status ≢ exec_ok
    → (with_wall limits wall_ms r).status ≢ exec_ok
unfolding with_wall
with_wall_not_ok limits wall_ms r h e = h (ground arith)

judged_not_ok :
    (c : Counters) (limits : ResourceLimits) (wall_ms : ℕ) (r : ExecResult)
    → r.status ≢ exec_ok
    → (with_counters (some c) limits wall_ms r).status ≢ exec_ok
judged_not_ok c limits wall_ms r h =
    with_wall_not_ok limits wall_ms (with_cpu c limits (with_oom c (with_peak c r))) (
      with_cpu_not_ok c limits (with_oom c (with_peak c r))
        (with_oom_not_ok c (with_peak c r) (λ e. h (sym (with_peak-status c r) ∙ e))))

judged_ok :
    (c : Counters) (limits : ResourceLimits) (wall_ms : ℕ) (r : ExecResult)
    → r.status ≡ exec_ok
    → ((with_counters (some c) limits wall_ms r).status ≡ exec_ok)
      ↔ ((c.oom_killed ≡ false) × ((limits.time_limit_ms ≡ 0) ⊎ (c.cpu_ms ≤ limits.time_limit_ms)))
unfolding with_oom with_cpu with_wall
judged_ok c limits wall_ms r h = ground arith

exited_not_clean : (code : ℤ) (signal : ℕ) → exited code signal ≢ clean
exited_not_clean code signal e = cc

wait_failed_not_clean : wait_failed ≢ clean
wait_failed_not_clean e = cc

-- With a usable cgroup, a run ends well exactly when the process exited cleanly, nothing in it was
-- killed for its memory, and its CPU time, if it could be read, is within the limit, if there is one.
pub judge_run_ok :
    (texts : Texts) (c : Counters) (limits : ResourceLimits) (w : Waited) (wall_ms : ℕ)
    (log : Bytes)
    → ((judge_run texts (some c) limits w wall_ms log).status ≡ exec_ok) ↔ (
        (w ≡ clean)
        × (c.oom_killed ≡ false)
        × ((limits.time_limit_ms ≡ 0) ⊎ (c.cpu_ms ≤ limits.time_limit_ms)))
unfolding judge_run parse_result wait_status
judge_run_ok texts c limits clean wall_ms log =
    let both = judged_ok c limits wall_ms (parse_result texts clean wall_ms log) refl in
    (λ e. (refl, (both.0 e).0, (both.0 e).1), λ all. both.1 (all.1, all.2))
judge_run_ok texts c limits (exited code signal) wall_ms log = (
  λ e. absurd (
      judged_not_ok c limits wall_ms (parse_result texts (exited code signal) wall_ms log)
        (log_status_not_ok code (to_lower 0 log)) e),
  λ all. absurd (exited_not_clean code signal all.0),
)
judge_run_ok texts c limits wait_failed wall_ms log = (
  λ e. absurd (
      judged_not_ok c limits wall_ms (parse_result texts wait_failed wall_ms log)
        (log_status_not_ok (pos 0) (to_lower 0 log)) e),
  λ all. absurd (wait_failed_not_clean all.0),
)
