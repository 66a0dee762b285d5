-- ===== src/Tests/Nsjail.antt =====
-- A run with a limit of 1.5 seconds of CPU time, in a session with the default mounts.
use my_oj.Prelude.{ℕ, ◌≤◌, ◌≡◌, ◌↔◌, ◌⊎◌, true, false, some, [], ◌∷◌, arith}
use my_oj.Judger.Verdict.{exec_ok, exec_tle}
use my_oj.Judger.Compiler.{ResourceLimits}
use my_oj.Judger.Nsjail.{
  Config, SessionConfig, Texts, Counters, clean, number, build_base_args, judge_run, parse_result,
  wait_status, with_oom, with_cpu, with_wall,
}
use my_oj.Judger.Nsjail.Limits.{
  IsGiven, RoundsUp, build_base_args_wall_limit, build_base_args_cpu_limit,
}
use my_oj.Judger.Nsjail.Verdicts.{judge_run_ok}

abbrev cfg : Config
cfg = record {
  read_only_mounts = [];
  disable_cgroup = false;
  cgroup_v2 = true;
  cgroup_parent = "oj-judge";
  seccomp_policy_path = "";
}

abbrev scfg : SessionConfig
scfg = record {
  work_dir = "/tmp/judge/1";
  extra_bind_mounts = [];
  max_processes = 1;
  network_enabled = false;
}

abbrev limits : ResourceLimits
limits = record {
  time_limit_ms = 1500;
  wall_time_limit_ms = 3000;
  mem_limit_kb = 65536;
  file_size_kb = 0;
  max_open_files = 16;
  max_child_processes = 1;
}

abbrev texts : Texts
texts = record { exit_text = λ code signal. []; sandbox_text = λ code signal. [] }

-- 1.6 seconds are over the limit, although the second is not over.
abbrev late : Counters
late = record { peak_kb = 900; oom_killed = false; cpu_ms = 1600 }

judge_run_ok_example : ((judge_run texts (some late) limits clean 1700 []).status ≡ exec_ok) ↔ (
    (clean ≡ clean)
    × (late.oom_killed ≡ false)
    × ((limits.time_limit_ms ≡ 0) ⊎ (late.cpu_ms ≤ limits.time_limit_ms)))
judge_run_ok_example = judge_run_ok texts late limits clean 1700 []

late_is_tle : (judge_run texts (some late) limits clean 1700 []).status ≡ exec_tle
unfolding judge_run parse_result wait_status with_oom with_cpu with_wall
late_is_tle = ground arith

-- The limits of the compile stage, which has none on the CPU time.
abbrev compile_only : ResourceLimits
compile_only = record limits { time_limit_ms = 0; wall_time_limit_ms = 30000 }

build_base_args_wall_limit_example :
    (secs : ℕ) × RoundsUp 30000 secs
    × IsGiven "--time_limit" (number secs) (build_base_args ("/usr" ∷ []) cfg scfg compile_only)
build_base_args_wall_limit_example =
    build_base_args_wall_limit ("/usr" ∷ []) cfg scfg compile_only (omega arith)

build_base_args_cpu_limit_example :
    (secs : ℕ) × RoundsUp 1500 secs
    × IsGiven "--rlimit_cpu" (number secs) (build_base_args ("/usr" ∷ []) cfg scfg limits)
build_base_args_cpu_limit_example =
    build_base_args_cpu_limit ("/usr" ∷ []) cfg scfg limits (omega arith)
