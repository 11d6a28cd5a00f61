-- ===== src/Batch.antt =====
-- What the reducer guarantees of every batch.
pub mod Frame
pub mod Steps
pub mod Accepted
pub mod Refines
pub mod History
pub mod Finishes
pub mod Mutations
pub mod Items
pub mod Replayed
pub mod WriteLane
pub mod Serial
pub mod Chain
pub mod Summary
pub mod Concurrency
pub mod Starts
pub mod Written
pub mod Clock
pub mod Durations
pub mod Kinds
pub mod Apart
pub mod Opening
pub mod Identities
pub mod Sample
pub mod Tests
