-- ===== src/Recovery.antt =====
-- `run recover` of v2_run.py: what it proposes for leases that have ended.
pub mod Attempts
pub mod Propose
pub mod Quiet
pub mod Workers
pub mod Accepted
pub mod Writes
pub mod Tests
