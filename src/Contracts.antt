-- ===== src/Contracts.antt =====
-- The data contracts of the batch program, paper_reader_batch/src/paper_reader_batch/v2_contracts.py:
-- the manifest, the state snapshot with its validators, the journal's events, and the
-- results that are handed in.
pub mod Scalars
pub mod Manifest
pub mod Status
pub mod State
pub mod Lanes
pub mod Snapshot
pub mod Events
pub mod Results
