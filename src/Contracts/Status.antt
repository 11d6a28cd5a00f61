-- ===== src/Contracts/Status.antt =====
-- The literal types of the state in v2_contracts.py, with `==` on them.
use paperread.Prelude.{Bool, true, false, ◌≡◌, ◌↔◌, arith, Eq}

pub data Lane : Type 0 where
  worker local_prepare : Lane

pub data WorkerStatus : Type 0 where
  queued claimed succeeded failed blocked : WorkerStatus

pub data LocalPrepareStatus : Type 0 where
  not_applicable queued claimed prepared failed blocked : LocalPrepareStatus

pub data WriteStatus : Type 0 where
  not_applicable awaiting_candidate queued claimed started prepared_only written uncertain
        retry_confirmation_required blocked :
      WriteStatus

pub data BatchStatus : Type 0 where
  corrupt write_uncertain running needs_attention awaiting_write ready succeeded : BatchStatus

abbrev pub lane_beq : Lane → Lane → Bool
lane_beq worker worker = true
lane_beq local_prepare local_prepare = true
lane_beq _ _ = false

abbrev pub worker_beq : WorkerStatus → WorkerStatus → Bool
worker_beq WorkerStatus.queued WorkerStatus.queued = true
worker_beq WorkerStatus.claimed WorkerStatus.claimed = true
worker_beq WorkerStatus.succeeded WorkerStatus.succeeded = true
worker_beq WorkerStatus.failed WorkerStatus.failed = true
worker_beq WorkerStatus.blocked WorkerStatus.blocked = true
worker_beq _ _ = false

abbrev pub local_beq : LocalPrepareStatus → LocalPrepareStatus → Bool
local_beq LocalPrepareStatus.not_applicable LocalPrepareStatus.not_applicable = true
local_beq LocalPrepareStatus.queued LocalPrepareStatus.queued = true
local_beq LocalPrepareStatus.claimed LocalPrepareStatus.claimed = true
local_beq LocalPrepareStatus.prepared LocalPrepareStatus.prepared = true
local_beq LocalPrepareStatus.failed LocalPrepareStatus.failed = true
local_beq LocalPrepareStatus.blocked LocalPrepareStatus.blocked = true
local_beq _ _ = false

abbrev pub write_beq : WriteStatus → WriteStatus → Bool
write_beq WriteStatus.not_applicable WriteStatus.not_applicable = true
write_beq WriteStatus.awaiting_candidate WriteStatus.awaiting_candidate = true
write_beq WriteStatus.queued WriteStatus.queued = true
write_beq WriteStatus.claimed WriteStatus.claimed = true
write_beq WriteStatus.started WriteStatus.started = true
write_beq WriteStatus.prepared_only WriteStatus.prepared_only = true
write_beq WriteStatus.written WriteStatus.written = true
write_beq WriteStatus.uncertain WriteStatus.uncertain = true
write_beq WriteStatus.retry_confirmation_required WriteStatus.retry_confirmation_required = true
write_beq WriteStatus.blocked WriteStatus.blocked = true
write_beq _ _ = false

pub lane_beq_iff : (a b : Lane) → (lane_beq a b ≡ true) ↔ (a ≡ b)
lane_beq_iff a b = ground arith

pub worker_beq_iff : (a b : WorkerStatus) → (worker_beq a b ≡ true) ↔ (a ≡ b)
worker_beq_iff a b = ground arith

pub local_beq_iff : (a b : LocalPrepareStatus) → (local_beq a b ≡ true) ↔ (a ≡ b)
local_beq_iff a b = ground arith

pub write_beq_iff : (a b : WriteStatus) → (write_beq a b ≡ true) ↔ (a ≡ b)
write_beq_iff a b = ground arith

instance abbrev pub lane_eq : Eq Lane
lane_eq = record { test = lane_beq; tests = lane_beq_iff }

instance abbrev pub worker_eq : Eq WorkerStatus
worker_eq = record { test = worker_beq; tests = worker_beq_iff }

instance abbrev pub local_eq : Eq LocalPrepareStatus
local_eq = record { test = local_beq; tests = local_beq_iff }

instance abbrev pub write_eq : Eq WriteStatus
write_eq = record { test = write_beq; tests = write_beq_iff }
