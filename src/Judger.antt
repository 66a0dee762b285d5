-- ===== src/Judger.antt =====
-- internal/judger: verdicts, the comparison of outputs, the runners, the compiler and the scheduler.
pub mod Verdict
pub mod Tokens
pub mod Step
pub mod Compiler
pub mod Scheduler
pub mod Runners
pub mod Cache
pub mod Interactive
pub mod Nsjail
