-- ===== src/Reducer.antt =====
-- The event reducer of the batch program,
-- paper_reader_batch/src/paper_reader_batch/v2_reducer.py: from a manifest and the journal's events
-- to the state, every event checked against the state before it.
pub mod Base
pub mod Leases
pub mod Claim
pub mod Finish
pub mod WriteClaim
pub mod WriteRun
pub mod WriteSettle
pub mod Recover
pub mod Apply
