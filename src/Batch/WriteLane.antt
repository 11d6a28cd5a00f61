-- ===== src/Batch/WriteLane.antt =====
-- The write lane as an abstract state machine: what of an item it concerns, and its moves. Its child
-- Moves shows that the reducer's changes follow it.
pub mod Moves
use paperread.Prelude.{ℕ, ◌+◌, Bool, true, false, ◌≡◌, Option, none, some, is_some}
use paperread.Contracts.Scalars.{Sha256}
use paperread.Contracts.Status.{WriteStatus}
use paperread.Contracts.State.{StateItem}
use paperread.Contracts.Events.{EventData}
use paperread.Batch.Steps.{is_write_claim}

pub record WriteView : Type 0 where
  pub status : WriteStatus
  pub attempts : ℕ
  pub authorization : Option Sha256
  pub candidate : Option Sha256
  pub result : Option Sha256
  pub reconciliation : Option Sha256

abbrev pub write_view : StateItem → WriteView
write_view s = record {
  status = s.write_status;
  attempts = s.write_attempt_count;
  authorization = s.authorization_sha256;
  candidate = s.candidate_sha256;
  result = s.write_result_sha256;
  reconciliation = s.reconciliation_sha256;
}

-- No candidate has come to the write lane yet.
abbrev pub is_waiting : WriteStatus → Bool
is_waiting WriteStatus.not_applicable = true
is_waiting WriteStatus.awaiting_candidate = true
is_waiting _ = false

-- Where a finished worker may leave a waiting item.
abbrev pub is_handed_over : WriteStatus → Bool
is_handed_over WriteStatus.not_applicable = true
is_handed_over WriteStatus.awaiting_candidate = true
is_handed_over WriteStatus.queued = true
is_handed_over WriteStatus.prepared_only = true
is_handed_over _ = false

abbrev pub is_reconciled : WriteStatus → Bool
is_reconciled WriteStatus.written = true
is_reconciled WriteStatus.retry_confirmation_required = true
is_reconciled WriteStatus.blocked = true
is_reconciled _ = false

abbrev pub is_write_start : EventData → Bool
is_write_start (EventData.write_started d) = true
is_write_start _ = false

abbrev pub is_write_retry : EventData → Bool
is_write_retry (EventData.write_retried d) = true
is_write_retry _ = false

-- A move of the lane under an event with the given data.
pub data WriteMove (payload : EventData) (v w : WriteView) : Type 0 where
  stays : w ≡ v → WriteMove payload v w
  -- a worker hands a candidate over, or fails
  hands_over :
      is_waiting v.status ≡ true
      → is_handed_over w.status ≡ true
      → w.authorization ≡ v.authorization
      → w.attempts ≡ v.attempts
      → WriteMove payload v w
  claims :
      is_write_claim payload ≡ true
      → v.status ≡ WriteStatus.queued
      → v.authorization ≡ none
      → is_some v.candidate ≡ true
      → w ≡ record v {
        status = WriteStatus.claimed;
        attempts = v.attempts + 1;
        result = none;
        reconciliation = none;
      }
      → WriteMove payload v w
  releases :
      v.status ≡ WriteStatus.claimed
      → w ≡ record v { status = WriteStatus.queued }
      → WriteMove payload v w
  starts :
      (sha : Sha256)
      → is_write_start payload ≡ true
      → v.status ≡ WriteStatus.claimed
      → v.authorization ≡ none
      → w ≡ record v { status = WriteStatus.started; authorization = some sha }
      → WriteMove payload v w
  commits :
      (sha : Sha256)
      → v.status ≡ WriteStatus.started
      → is_some v.authorization ≡ true
      → w ≡ record v { status = WriteStatus.written; result = some sha; reconciliation = none }
      → WriteMove payload v w
  doubts :
      v.status ≡ WriteStatus.started
      → w ≡ record v { status = WriteStatus.uncertain }
      → WriteMove payload v w
  reconciles :
      (sha : Sha256) (status : WriteStatus)
      → v.status ≡ WriteStatus.uncertain
      → is_reconciled status ≡ true
      → w ≡ record v { status = status; reconciliation = some sha }
      → WriteMove payload v w
  retries :
      is_write_retry payload ≡ true
      → v.status ≡ WriteStatus.retry_confirmation_required
      → is_some v.reconciliation ≡ true
      → w ≡ record v {
        status = WriteStatus.queued;
        authorization = none;
        result = none;
        reconciliation = none;
      }
      → WriteMove payload v w
