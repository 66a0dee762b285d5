-- ===== src/Ranking.antt =====
-- internal/core/ranking: the live scoreboard.
pub mod Board
pub mod Service
pub mod Hub
