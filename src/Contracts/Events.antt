-- ===== src/Contracts/Events.antt =====
-- The journal's events of v2_contracts.py. The fields that identify a lease, which the source
-- repeats in each model, are one record, and its fields are read through it.
use paperread.Prelude.{ℕ, String, Bool, List, Option}
use paperread.Contracts.Scalars.{Sha256, UuidString, NonEmptyString, ItemId, Rfc3339Utc}
use paperread.Contracts.Manifest.{SourceIdentity}
use paperread.Contracts.Status.{Lane}

pub record LeaseIdentity : Type 0 where
  pub actor_id : NonEmptyString
  pub claim_id : UuidString
  pub attempt_id : UuidString
  pub attempt_number : ℕ
  pub lease_token_sha256 : Sha256

pub record WriteIdentity : Type 0 where
  pub writer_id : NonEmptyString
  pub claim_id : UuidString
  pub write_attempt_id : UuidString
  pub attempt_number : ℕ
  pub lease_token_sha256 : Sha256
  pub candidate_sha256 : Sha256

pub record ClaimAssignment : Type 0 where
  pub item_id : ItemId
  pub lane : Lane
  pub identity : LeaseIdentity
  pub open identity use *
  pub issued_at : Rfc3339Utc
  pub expires_at : Rfc3339Utc
  pub source : SourceIdentity

pub record RunInitializedData : Type 0 where
  pub manifest_id : UuidString
  pub initialized_at : Rfc3339Utc
  pub lease_secret_sha256 : Sha256

pub data ClaimKind : Type 0 where
  worker_claimed local_prepare_claimed : ClaimKind

pub record ClaimedData : Type 0 where
  pub kind : ClaimKind
  pub assignments : List ClaimAssignment

pub record CoordinationReservedData : Type 0 where
  pub item_id : ItemId
  pub identity : LeaseIdentity
  pub open identity use *
  pub coordinator_request_id : UuidString
  pub coordinator_request_fingerprint : NonEmptyString
  pub request_dir_device : ℕ
  pub request_dir_inode : ℕ

-- The last word of the six kinds of `LeaseMutationData`; the first is the lane.
pub data MutationKind : Type 0 where
  renewed released lease_expired : MutationKind

pub record LeaseMutationData : Type 0 where
  pub lane : Lane
  pub kind : MutationKind
  pub item_id : ItemId
  pub identity : LeaseIdentity
  pub open identity use *
  pub issued_at : Option Rfc3339Utc
  pub expires_at : Option Rfc3339Utc

pub data FinishStatus : Type 0 where
  succeeded failed blocked prepared : FinishStatus

-- `kind` is the lane with `.finished`.
pub record FinishedData : Type 0 where
  pub lane : Lane
  pub item_id : ItemId
  pub identity : LeaseIdentity
  pub open identity use *
  pub status : FinishStatus
  pub result_sha256 : Sha256
  pub resolved_zotero_item_key : Option NonEmptyString
  pub candidate_sha256 : Option Sha256
  pub failure_code : Option NonEmptyString
  pub failure_message : Option NonEmptyString

pub record RetriedData : Type 0 where
  pub item_id : ItemId
  pub previous_actor_id : NonEmptyString
  pub previous_claim_id : UuidString
  pub previous_attempt_id : UuidString
  pub previous_attempt_number : ℕ
  pub previous_lease_token_sha256 : Sha256
  pub next_attempt_id : UuidString
  pub next_attempt_number : ℕ

pub record RecoveredLease : Type 0 where
  pub item_id : ItemId
  pub lane : Lane
  pub identity : LeaseIdentity
  pub open identity use *
  pub expires_at : Rfc3339Utc

-- Its lane is always `local_prepare`.
pub record ResumedLocalPrepareLease : Type 0 where
  pub item_id : ItemId
  pub identity : LeaseIdentity
  pub open identity use *
  pub previous_expires_at : Rfc3339Utc
  pub issued_at : Rfc3339Utc
  pub expires_at : Rfc3339Utc

pub record RecoveredUncertainWrite : Type 0 where
  pub item_id : ItemId
  pub identity : WriteIdentity
  pub open identity use *
  pub authorization_id : NonEmptyString
  pub authorization_path : String
  pub authorization_sha256 : Sha256
  pub authorization_nonce_sha256 : Sha256
  pub external_claim_id : UuidString
  pub write_started_event_sha256 : Sha256

pub record RunRecoveredData : Type 0 where
  pub expired_worker_leases : List RecoveredLease
  pub expired_local_prepare_leases : List RecoveredLease
  pub resumed_local_prepare_leases : List ResumedLocalPrepareLease
  pub snapshot_repaired : Bool
  pub reconciliation_write : Option RecoveredUncertainWrite

pub record RequestAbortedData : Type 0 where
  pub aborted_request_id : UuidString
  pub aborted_command : NonEmptyString
  pub aborted_request_fingerprint : Sha256
  pub proposed_event_sha256 : Sha256
  pub proposed_event_canonical_json : NonEmptyString

pub record WriteClaimedData : Type 0 where
  pub item_id : ItemId
  pub identity : WriteIdentity
  pub open identity use *
  pub issued_at : Rfc3339Utc
  pub expires_at : Rfc3339Utc

pub record WriteLeaseMutationData : Type 0 where
  pub kind : MutationKind
  pub item_id : ItemId
  pub identity : WriteIdentity
  pub open identity use *
  pub issued_at : Option Rfc3339Utc
  pub expires_at : Option Rfc3339Utc

pub record WriteStartedData : Type 0 where
  pub item_id : ItemId
  pub identity : WriteIdentity
  pub open identity use *
  pub authorization_sha256 : Sha256
  pub authorization_nonce_sha256 : Sha256
  pub external_claim_id : UuidString
  pub started_at : Rfc3339Utc

pub record WriteWrittenData : Type 0 where
  pub item_id : ItemId
  pub identity : WriteIdentity
  pub open identity use *
  pub authorization_sha256 : Sha256
  pub result_sha256 : Sha256
  pub note_key : NonEmptyString
  pub parent_key : NonEmptyString
  pub canonical_html_sha256 : Sha256

-- `write.marked_uncertain` and `write.lease_expired_uncertain`
pub data UncertainKind : Type 0 where
  marked_uncertain lease_expired_uncertain : UncertainKind

pub record WriteUncertainData : Type 0 where
  pub kind : UncertainKind
  pub item_id : ItemId
  pub identity : WriteIdentity
  pub open identity use *
  pub authorization_sha256 : Sha256
  pub reason : NonEmptyString

pub data ReconciliationOutcome : Type 0 where
  verified not_found ambiguous blocked : ReconciliationOutcome

pub record WriteReconciledData : Type 0 where
  pub item_id : ItemId
  pub identity : WriteIdentity
  pub open identity use *
  pub authorization_sha256 : Sha256
  pub reconciliation_sha256 : Sha256
  pub outcome : ReconciliationOutcome

pub record WriteRetriedData : Type 0 where
  pub item_id : ItemId
  pub previous_writer_id : NonEmptyString
  pub previous_claim_id : UuidString
  pub previous_write_attempt_id : UuidString
  pub previous_attempt_number : ℕ
  pub previous_lease_token_sha256 : Sha256
  pub candidate_sha256 : Sha256
  pub authorization_sha256 : Sha256
  pub previous_authorization_nonce_sha256 : Sha256
  pub previous_external_claim_id : UuidString
  pub reconciliation_sha256 : Sha256
  pub acknowledged_no_match : Bool
  pub next_write_attempt_id : UuidString
  pub next_attempt_number : ℕ

pub data EventData : Type 0 where
  run_initialized : RunInitializedData → EventData
  claimed : ClaimedData → EventData
  coordination_reserved : CoordinationReservedData → EventData
  lease_mutation : LeaseMutationData → EventData
  finished : FinishedData → EventData
  retried : RetriedData → EventData
  run_recovered : RunRecoveredData → EventData
  request_aborted : RequestAbortedData → EventData
  write_claimed : WriteClaimedData → EventData
  write_lease_mutation : WriteLeaseMutationData → EventData
  write_started : WriteStartedData → EventData
  write_written : WriteWrittenData → EventData
  write_uncertain : WriteUncertainData → EventData
  write_reconciled : WriteReconciledData → EventData
  write_retried : WriteRetriedData → EventData

pub record BatchEvent : Type 0 where
  pub sequence : ℕ
  pub event_id : UuidString
  pub occurred_at : Rfc3339Utc
  pub request_id : UuidString
  pub command : NonEmptyString
  pub request_fingerprint : Sha256
  pub manifest_sha256 : Sha256
  pub previous_event_sha256 : Option Sha256
  pub payload : EventData
  pub event_sha256 : Sha256
