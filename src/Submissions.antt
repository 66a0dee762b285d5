-- ===== src/Submissions.antt =====
-- internal/api/handler/submission.go: taking submissions in, who sees what of one, and the batch
-- evaluation of a contest that withholds them.
pub mod Visibility
pub mod Batch
pub mod Intake
