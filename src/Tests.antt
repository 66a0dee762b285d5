-- ===== src/Tests.antt =====
-- Concrete inputs: each theorem at data that exercises the code, and small runs.
mod Scoring
mod Ranking
mod Judger
mod Submissions
mod Stream
mod Resolver
mod Cache
mod Hub
mod Interactive
mod Nsjail
