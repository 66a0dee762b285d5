-- ===== src/Judger/Compiler.antt =====
-- internal/judger/compiler.go, config.go: the compile stage. The object store and the sandbox answer
-- from outside.
use Prim.Native.String.{String}
use my_oj.Prelude.{
  ℕ, ◌*◌, Bool, true, false, not, ◌||◌, Option, none, some, List, [], ◌∷◌, ◌++◌, length, take, ◌==◌,
  ltb, if◌then◌else◌,
}
use my_oj.Prelude.Int.{ℤ, pos, negsuc}
use my_oj.Models.Types.{Language}
use my_oj.Models.Judging.{Bytes}
use my_oj.Judger.Verdict.{ExecResult, is_exec_ok}
use my_oj.Judger.Tokens.{is_blank}
use my_oj.Judger.Step.{Outcome, returned, failed, panicked, codes}

-- The multiplier is in thousandths.
pub record LangConfig : Type 0 where
  pub language : Language
  pub source_file : String
  pub compile_cmd : List String
  pub run_cmd : List String
  pub time_limit_multiplier : ℤ

pub record ResourceLimits : Type 0 where
  pub time_limit_ms : ℕ
  pub wall_time_limit_ms : ℕ
  pub mem_limit_kb : ℕ
  pub file_size_kb : ℕ
  pub max_open_files : ℕ
  pub max_child_processes : ℕ

pub record CompileResult : Type 0 where
  pub success : Bool
  pub run_cmd : List String
  pub log : Bytes

-- What the compile stage is given: the languages, the download of a source into a file of the work
-- directory, and a run of a command in the sandbox with the output it wrote; and the texts that
-- `fmt` makes of a language and of a result.
pub record Toolchain : Type 0 where
  pub configs : Language → Option LangConfig
  pub get_to_file : String → String → Outcome {0} Unit
  pub execute : List String → ResourceLimits → Bytes × Outcome ExecResult
  pub unsupported_text : Language → Bytes
  pub silent_text : ExecResult → Bytes

abbrev pub compile_limits : ResourceLimits
compile_limits = record {
  time_limit_ms = 0;
  wall_time_limit_ms = 30_000;
  mem_limit_kb = 512 * 1024;
  file_size_kb = 256 * 1024;
  max_open_files = 512;
  max_child_processes = 64;
}

abbrev pub compile_max_log_bytes : ℕ
compile_max_log_bytes = 64 * 1024

unfoldable pub time_limit_multiplier : Toolchain → Language → ℤ
time_limit_multiplier tools lang = elim (tools.configs lang) [
  | none ↦ pos 1000
  | some cfg ↦ cfg.time_limit_multiplier
]

unfoldable pub cut_log : Bytes → Bytes
cut_log log =
    if ltb compile_max_log_bytes (length log)
    then take compile_max_log_bytes log ++ (10 ∷ codes "...(output truncated)")
    else log

abbrev is_zero_code : ℤ → Bool
is_zero_code (pos n) = n == 0
is_zero_code (negsuc n) = false

-- The end of `Compile`, on what the compiler left.
unfoldable pub compiler_answer :
    Toolchain → LangConfig → Bytes × Outcome ExecResult → Outcome CompileResult
compiler_answer tools cfg (output, failed e) = failed (codes "compiler: sandbox error: " ++ e)
compiler_answer tools cfg (output, panicked e) = panicked e
compiler_answer tools cfg (output, returned result) =
    let log = cut_log output in
    if not (is_zero_code result.exit_code) || not (is_exec_ok result.status)
    then returned record {
      success = false;
      run_cmd = [];
      log = if is_blank log then tools.silent_text result else log;
    }
    else returned record { success = true; run_cmd = cfg.run_cmd; log = log }

abbrev pub compile_step : Toolchain → LangConfig → Outcome {0} Unit → Outcome CompileResult
compile_step tools cfg (failed e) = failed (codes "compiler: download source: " ++ e)
compile_step tools cfg (panicked e) = panicked e
compile_step tools cfg (returned u) = elim cfg.compile_cmd [
  | [] ↦ returned record { success = true; run_cmd = cfg.run_cmd; log = [] }
  | command ∷ args ↦ compiler_answer tools cfg (tools.execute (command ∷ args) compile_limits)
]

-- `Compile`, with the key of the source in the object store.
unfoldable pub compile : Toolchain → Language → String → Outcome CompileResult
compile tools lang source_key = elim (tools.configs lang) [
  | none ↦ failed (codes "compiler: unsupported language " ++ tools.unsupported_text lang)
  | some cfg ↦ compile_step tools cfg (tools.get_to_file source_key cfg.source_file)
]
