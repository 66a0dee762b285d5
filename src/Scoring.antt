-- ===== src/Scoring.antt =====
-- internal/core/contest: the scoring strategies, their laws, and the ranking of the board.
pub mod Entry
pub mod Icpc
pub mod Oi
pub mod Rank
