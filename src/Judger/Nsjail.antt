-- ===== src/Judger/Nsjail.antt =====
-- internal/judger/sandbox/nsjail/{args,execute}.go: the command line of the sandbox, and what the end of
-- a run, the log and the counters of its cgroup say of it. Starting the process is left to the caller.
pub mod Limits
pub mod Verdicts
use Prim.Native.String.{String}
use Prim.Native.String as Str
use my_oj.Prelude.{
  ℕ, zero, suc, ◌+◌, ◌-◌, ◌*◌, ◌/◌, ◌^◌, Bool, true, false, not, ◌&&◌, ◌||◌, Option, none, some,
  List, [], ◌∷◌, ◌++◌, length, take, drop, ◌==◌, ltb, leb, if◌then◌else◌,
}
use my_oj.Prelude.Int.{ℤ, pos, negsuc}
use my_oj.Models.Judging.{Bytes}
use my_oj.Judger.Verdict.{
  ExecStatus, exec_ok, exec_tle, exec_wall_tle, exec_mle, exec_re, exec_sc_viol, exec_se,
  ExecResult, is_exec_ok,
}
use my_oj.Judger.Tokens.{space_width}
use my_oj.Judger.Compiler.{ResourceLimits}
use my_oj.Judger.Step.{codes}
use my_oj.Judger.Runners.{first_line, trim, trim_left, to_lower, strip_prefix, scan_digits}

pub record BindMount : Type 0 where
  pub host_path : String
  pub sandbox_path : String
  pub read_only : Bool

pub record SessionConfig : Type 0 where
  pub work_dir : String
  pub extra_bind_mounts : List BindMount
  pub max_processes : ℕ
  pub network_enabled : Bool

pub record Config : Type 0 where
  pub read_only_mounts : List String
  pub disable_cgroup : Bool
  pub cgroup_v2 : Bool
  pub cgroup_parent : String
  pub seccomp_policy_path : String

-- A word of the command line: a text, a number in decimals, or two paths with a colon between.
pub data Arg : Type 0 where
  word : String → Arg
  number : ℕ → Arg
  mapped : String → String → Arg

unfoldable pub ceil_div : ℕ → ℕ → ℕ
ceil_div a b = (a + b - 1) / b

abbrev pub option : String → Arg → List Arg
option flag value = word flag ∷ value ∷ []

-- What an option adds when its limit is set.
abbrev pub when_set : ℕ → List Arg → List Arg
when_set zero args = []
when_set (suc n) args = args

unfoldable pub mem_args : Config → ℕ → List Arg
mem_args cfg kb =
    let cap = option "--cgroup_mem_max" (number (kb * 1024)) in
    let v1 = cap ++ option "--cgroup_mem_memsw_max" (number (kb * 1024)) in
    (if cfg.disable_cgroup then [] else if cfg.cgroup_v2 then cap else v1)
    ++ option "--rlimit_as" (number (kb * 2 / 1024))

abbrev pub max_pids : SessionConfig → ResourceLimits → ℕ
max_pids scfg limits =
    if ltb scfg.max_processes limits.max_child_processes
    then limits.max_child_processes
    else scfg.max_processes

unfoldable pub pid_args : Config → ℕ → List Arg
pid_args cfg pids =
    (if cfg.disable_cgroup then [] else option "--cgroup_pids_max" (number pids))
    ++ option "--rlimit_nproc" (number pids)

unfoldable pub cgroup_args : Config → List Arg
cgroup_args cfg =
    if cfg.disable_cgroup
    then []
    else if cfg.cgroup_v2
    then word "--use_cgroupv2" ∷ []
    else if Str.len cfg.cgroup_parent == 0
    then []
    else option "--cgroup_mem_parent" (word cfg.cgroup_parent)
      ++ (option "--cgroup_pids_parent" (word cfg.cgroup_parent)
          ++ option "--cgroup_cpu_parent" (word cfg.cgroup_parent))

unfoldable pub mount_args : List String → List Arg
mount_args [] = []
mount_args (m ∷ ms) = word "-R" ∷ word m ∷ mount_args ms

abbrev pub mount_flag : Bool → String
mount_flag true = "-R"
mount_flag false = "-B"

unfoldable pub bind_args : List BindMount → List Arg
bind_args [] = []
bind_args (m ∷ ms) =
    let target = if Str.len m.sandbox_path == 0 then m.host_path else m.sandbox_path in
    word (mount_flag m.read_only) ∷ mapped m.host_path target ∷ bind_args ms

abbrev pub mounts_of : List String → List String → List String
mounts_of defaults [] = defaults
mounts_of defaults (m ∷ ms) = m ∷ ms

abbrev pub environment : List Arg
environment =
    option "--env" (word "PATH=/usr/local/bin:/usr/bin:/bin")
    ++ (option "--env" (word "TMPDIR=/workspace")
        ++ (option "--env" (word "HOME=/workspace") ++ option "--env" (word "LANG=C.UTF-8")))

-- The options that stand for limits.
unfoldable pub limit_args : Config → SessionConfig → ResourceLimits → List Arg
limit_args cfg scfg l =
    when_set l.wall_time_limit_ms
      (option "--time_limit" (number (ceil_div l.wall_time_limit_ms 1000)))
    ++ (when_set l.time_limit_ms (option "--rlimit_cpu" (number (ceil_div l.time_limit_ms 1000)))
        ++ (when_set l.mem_limit_kb (mem_args cfg l.mem_limit_kb)
            ++ (when_set (max_pids scfg l) (pid_args cfg (max_pids scfg l))
                ++ (when_set l.file_size_kb
                      (option "--rlimit_fsize" (number (ceil_div l.file_size_kb 1024)))
                    ++ when_set l.max_open_files
                        (option "--rlimit_nofile" (number l.max_open_files))))))

-- The options for what the program sees.
unfoldable pub view_args : List String → Config → SessionConfig → List Arg
view_args defaults cfg scfg =
    (if scfg.network_enabled then [] else word "--iface_no_lo" ∷ [])
    ++ (mount_args (mounts_of defaults cfg.read_only_mounts)
        ++ (bind_args scfg.extra_bind_mounts
            ++ (environment
                ++ (word "-B"
                    ∷ mapped scfg.work_dir "/workspace"
                    ∷ word "-D"
                    ∷ word "/workspace"
                    ∷ [])
                ++ (if Str.len cfg.seccomp_policy_path == 0
                    then []
                    else option "--seccomp_policy" (word cfg.seccomp_policy_path)))))

-- `buildBaseArgs`, given the default mounts.
unfoldable pub build_base_args : List String → Config → SessionConfig → ResourceLimits → List Arg
build_base_args defaults cfg scfg limits =
    (word "--mode"
      ∷ word "o"
      ∷ word "--log_fd"
      ∷ word "3"
      ∷ word "--quiet"
      ∷ word "--disable_proc"
      ∷ [])
    ++ (limit_args cfg scfg limits ++ (cgroup_args cfg ++ view_args defaults cfg scfg))

unfoldable pub build_pass_fd_args : List ℕ → List Arg
build_pass_fd_args [] = []
build_pass_fd_args (fd ∷ fds) = word "--pass_fd" ∷ number fd ∷ build_pass_fd_args fds

-- How `cmd.Wait` returns: without an error, with an exit code and a signal, or with another error.
pub data Waited : Type 0 where
  clean : Waited
  exited : ℤ → ℕ → Waited
  wait_failed : Waited

-- What follows the first occurrence of a text, and whether there is one.
unfoldable pub after_marker : Bytes → Bytes → Option Bytes
after_marker marker [] = strip_prefix marker []
after_marker marker (b ∷ s) =
    let later = after_marker marker s in
    elim (strip_prefix marker (b ∷ s)) [ some rest ↦ some rest | none ↦ later ]

abbrev pub contains : Bytes → String → Bool
contains s marker = elim (after_marker (codes marker) s) [ some rest ↦ true | none ↦ false ]

-- The texts that `fmt` makes of an exit code and a signal.
pub record Texts : Type 0 where
  pub exit_text : ℤ → ℕ → Bytes
  pub sandbox_text : ℤ → ℕ → Bytes

abbrev pub code_of : Waited → ℤ
code_of clean = pos 0
code_of (exited code signal) = code
code_of wait_failed = pos 0

abbrev pub signal_of : Waited → ℕ
signal_of clean = 0
signal_of (exited code signal) = signal
signal_of wait_failed = 0

abbrev pub is_negative : ℤ → Bool
is_negative (pos n) = false
is_negative (negsuc n) = true

-- The switch of `parseResult` on the log in small letters.
unfoldable pub log_status : ℤ → Bytes → ExecStatus
log_status code log =
    if contains log "exceeded wall-clock" || contains log "wall time limit"
    then exec_wall_tle
    else if contains log "exceeded cpu"
        || (contains log "rlimit cpu" || contains log "cpu time limit")
    then exec_tle
    else if (contains log "memory" || contains log "oom")
        && (contains log "killed" || contains log "kill")
    then exec_mle
    else if contains log "seccomp"
    then exec_sc_viol
    else if is_negative code && contains log "nsjail"
    then exec_se
    else exec_re

-- `extractSeccompSyscall`: the line of the log from the word on, at most 80 bytes of it.
unfoldable pub seccomp_message : Bytes → Bytes
seccomp_message log =
    let lower = to_lower 0 log in
    elim (after_marker (codes "seccomp") lower) [
      | none ↦ codes "seccomp: illegal syscall"
      | some rest ↦
          let line = first_line (drop (length lower - (length rest + 7)) log) in
          codes "seccomp violation: " ++ trim (take 80 line)
    ]

-- `strings.Fields(s)[0]`, of a text without spaces in front.
unfoldable pub first_field : Bytes → Bytes
first_field [] = []
first_field (b ∷ s) = let rest = first_field s in if space_width (b ∷ s) == 0 then b ∷ rest else []

-- `extractMemKB`; nsjail writes a number without a sign.
unfoldable pub extract_mem_kb : Bytes → ℕ
extract_mem_kb log = elim (after_marker (codes "Maximum VmRSS:") log) [
  | none ↦ 0
  | some rest ↦
      let field = first_field (trim_left 0 rest) in
      let (count, value) = scan_digits 0 0 field in
      if count == length field && ltb value (2 ^ 63) then value else 0
]

abbrev pub status_message : Texts → Waited → Bytes → ExecStatus → Bytes
status_message texts w log exec_wall_tle = codes "wall-clock time limit exceeded"
status_message texts w log exec_tle = codes "CPU time limit exceeded"
status_message texts w log exec_mle = codes "memory limit exceeded"
status_message texts w log exec_sc_viol = seccomp_message log
status_message texts w log exec_se = texts.sandbox_text (code_of w) (signal_of w)
status_message texts w log exec_re = texts.exit_text (code_of w) (signal_of w)
status_message texts w log exec_ok = []

unfoldable pub wait_status : Waited → Bytes → ExecStatus
wait_status clean log = exec_ok
wait_status (exited code signal) log = log_status code (to_lower 0 log)
wait_status wait_failed log = log_status (pos 0) (to_lower 0 log)

-- `parseResult`; the wall time is in milliseconds.
unfoldable pub parse_result : Texts → Waited → ℕ → Bytes → ExecResult
parse_result texts w wall_ms log = record {
  exit_code = code_of w;
  signal = signal_of w;
  time_used_ms = wall_ms;
  mem_used_kb = extract_mem_kb log;
  status = wait_status w log;
  message = status_message texts w log (wait_status w log);
}

-- What the counters of the cgroup of the run read, 0 for one that cannot be read.
pub record Counters : Type 0 where
  pub peak_kb : ℕ
  pub oom_killed : Bool
  pub cpu_ms : ℕ

abbrev pub is_exec_tle : ExecStatus → Bool
is_exec_tle exec_tle = true
is_exec_tle _ = false

abbrev pub is_exec_wall_tle : ExecStatus → Bool
is_exec_wall_tle exec_wall_tle = true
is_exec_wall_tle _ = false

abbrev pub is_exec_mle : ExecStatus → Bool
is_exec_mle exec_mle = true
is_exec_mle _ = false

abbrev pub with_peak : Counters → ExecResult → ExecResult
with_peak c r = if ltb 0 c.peak_kb then record r { mem_used_kb = c.peak_kb } else r

unfoldable pub with_oom : Counters → ExecResult → ExecResult
with_oom c r =
    if not (is_exec_tle r.status) && (not (is_exec_wall_tle r.status) && c.oom_killed)
    then record r { status = exec_mle; message = codes "memory limit exceeded" }
    else r

-- At the limit is too long for a run that was killed, and in time for one that was not.
abbrev pub over_cpu : Counters → ResourceLimits → ExecStatus → Bool
over_cpu c limits s =
    if is_exec_ok s then ltb limits.time_limit_ms c.cpu_ms else leb limits.time_limit_ms c.cpu_ms

abbrev pub timed : Counters → ResourceLimits → ExecResult → ExecResult
timed c limits r =
    if not (is_exec_mle r.status) && (ltb 0 limits.time_limit_ms && over_cpu c limits r.status)
    then record r { status = exec_tle; message = codes "CPU time limit exceeded" }
    else r

unfoldable pub with_cpu : Counters → ResourceLimits → ExecResult → ExecResult
with_cpu c limits r =
    let measured = timed c limits (record r { time_used_ms = c.cpu_ms }) in
    if ltb 0 c.cpu_ms then measured else r

unfoldable pub with_wall : ResourceLimits → ℕ → ExecResult → ExecResult
with_wall limits wall_ms r =
    if not (is_exec_ok r.status)
      && (not (is_exec_mle r.status)
          && (not (is_exec_tle r.status)
              && (ltb 0 limits.wall_time_limit_ms && leb limits.wall_time_limit_ms wall_ms)))
    then record r { status = exec_wall_tle; message = codes "wall-clock time limit exceeded" }
    else r

abbrev pub with_counters : Option Counters → ResourceLimits → ℕ → ExecResult → ExecResult
with_counters none limits wall_ms r = r
with_counters (some c) limits wall_ms r =
    with_wall limits wall_ms (with_cpu c limits (with_oom c (with_peak c r)))

-- `Execute` from the end of the process on, where the cgroup may not have been usable.
unfoldable pub judge_run :
    Texts → Option Counters → ResourceLimits → Waited → ℕ → Bytes → ExecResult
judge_run texts counters limits w wall_ms log =
    with_counters counters limits wall_ms (parse_result texts w wall_ms log)
