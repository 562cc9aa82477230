-- ===== src/Jobs.antt =====
-- jobs/: the steps of a job and the runner.
pub mod Schema
pub mod Runner
pub mod Track
pub mod Call
pub mod Phone
