-- ===== src/Contracts/State.antt =====
-- The state snapshot of v2_contracts.py: leases, one item with its three lanes, the whole batch.
use paperread.Prelude.{ℕ, List, Option}
use paperread.Contracts.Scalars.{Sha256, UuidString, NonEmptyString, ItemId, Rfc3339Utc}
use paperread.Contracts.Manifest.{InputType, ExpectedOutput}
use paperread.Contracts.Status.{Lane, WorkerStatus, LocalPrepareStatus, WriteStatus, BatchStatus}

pub record LeaseState : Type 0 where
  pub lane : Lane
  pub actor_id : NonEmptyString
  pub claim_id : UuidString
  pub attempt_id : UuidString
  pub attempt_number : ℕ
  pub lease_token_sha256 : Sha256
  pub issued_at : Rfc3339Utc
  pub expires_at : Rfc3339Utc

pub record WriteLeaseState : Type 0 where
  pub writer_id : NonEmptyString
  pub claim_id : UuidString
  pub write_attempt_id : UuidString
  pub attempt_number : ℕ
  pub lease_token_sha256 : Sha256
  pub issued_at : Rfc3339Utc
  pub expires_at : Rfc3339Utc
  pub candidate_sha256 : Sha256

pub record StateItem : Type 0 where
  pub item_id : ItemId
  pub input_type : InputType
  pub expected_output : ExpectedOutput
  pub worker_status : WorkerStatus
  pub worker_attempt_count : ℕ
  pub worker_lease : Option LeaseState
  pub worker_result_sha256 : Option Sha256
  pub worker_last_actor_id : Option NonEmptyString
  pub worker_last_claim_id : Option UuidString
  pub worker_last_attempt_id : Option UuidString
  pub worker_last_lease_token_sha256 : Option Sha256
  pub worker_pending_attempt_id : Option UuidString
  pub worker_failure_code : Option NonEmptyString
  pub worker_failure_message : Option NonEmptyString
  pub local_prepare_status : LocalPrepareStatus
  pub local_prepare_attempt_count : ℕ
  pub local_prepare_lease : Option LeaseState
  pub local_prepare_result_sha256 : Option Sha256
  pub local_prepare_last_actor_id : Option NonEmptyString
  pub local_prepare_last_claim_id : Option UuidString
  pub local_prepare_last_attempt_id : Option UuidString
  pub local_prepare_last_lease_token_sha256 : Option Sha256
  pub local_prepare_last_expires_at : Option Rfc3339Utc
  pub local_prepare_coordination_request_id : Option UuidString
  pub local_prepare_coordination_fingerprint : Option NonEmptyString
  pub local_prepare_coordination_device : Option ℕ
  pub local_prepare_coordination_inode : Option ℕ
  pub local_prepare_failure_code : Option NonEmptyString
  pub local_prepare_failure_message : Option NonEmptyString
  pub resolved_zotero_item_key : Option NonEmptyString
  pub write_status : WriteStatus
  pub write_attempt_count : ℕ
  pub write_lease : Option WriteLeaseState
  pub write_last_writer_id : Option NonEmptyString
  pub write_last_claim_id : Option UuidString
  pub write_last_attempt_id : Option UuidString
  pub write_last_lease_token_sha256 : Option Sha256
  pub write_pending_attempt_id : Option UuidString
  pub candidate_sha256 : Option Sha256
  pub write_started_event_sha256 : Option Sha256
  pub authorization_sha256 : Option Sha256
  pub authorization_nonce_sha256 : Option Sha256
  pub external_claim_id : Option UuidString
  pub write_last_authorization_sha256 : Option Sha256
  pub write_last_authorization_nonce_sha256 : Option Sha256
  pub write_last_external_claim_id : Option UuidString
  pub write_result_sha256 : Option Sha256
  pub reconciliation_sha256 : Option Sha256
  pub write_failure_code : Option NonEmptyString
  pub write_failure_message : Option NonEmptyString

pub record BatchState : Type 0 where
  pub manifest_id : UuidString
  pub manifest_sha256 : Sha256
  pub lease_secret_sha256 : Sha256
  pub initialized_at : Rfc3339Utc
  pub updated_at : Rfc3339Utc
  pub next_sequence : ℕ
  pub latest_event_sha256 : Sha256
  pub batch_status : BatchStatus
  pub items : List StateItem
