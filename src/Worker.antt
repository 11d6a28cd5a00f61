-- ===== src/Worker.antt =====
-- v2_worker.py: the lease that a worker's command names, and `worker.finish`, the event that a
-- worker's result becomes.
pub mod Accepted
pub mod Claims
pub mod Mutations
pub mod Extended
pub mod Requeued
pub mod Taken
pub mod Offered
pub mod Lookups
pub mod Loop
pub mod Claimed
pub mod Inputs
pub mod Reconciled
pub mod Tests
use paperread.Prelude.{
  ℕ, Option, none, some, Bool, false, true, Result, ok, err, ◌>>◌, raise_if, ◌||◌, ◌!=◌, nat_eq,
  string_eq, ◌>>=◌, not, leb, ◌+s◌, List, [], ◌∷◌, any, ◌&&◌, ◌==◌, option_eq, String, RuntimeError,
  if◌then◌else◌,
}
use paperread.Contracts.Scalars.{Sha256, UuidString, NonEmptyString, ItemId, Rfc3339Utc, timestamp}
use paperread.Contracts.Status.{worker, WorkerStatus}
use paperread.Contracts.State.{LeaseState, StateItem, BatchState}
use paperread.Contracts.Manifest.{BatchManifest, SourceIdentity, item_id_of, source_of}
use paperread.Contracts.Events.{
  LeaseIdentity, FinishedData, FinishStatus, succeeded, failed, blocked,
}
use paperread.Contracts.Results.{
  ArtifactRef, ResultError, WorkerResult, WorkerOutcome, worker_succeeded, worker_failed,
  worker_blocked,
}

-- The arguments of a command that name the attempt, the token by its digest.
pub record LeaseRequest : Type 0 where
  pub item_id : ItemId
  pub worker_id : NonEmptyString
  pub claim_id : UuidString
  pub attempt_id : UuidString
  pub token_hash : Sha256

pub record FinishRequest : Type 0 where
  pub request : LeaseRequest
  pub open request use *
  pub result_sha256 : Sha256

-- The lease that a command names, for the data of its event.
abbrev pub named_lease : LeaseRequest → LeaseState → LeaseIdentity
named_lease q lease = record {
  actor_id = q.worker_id;
  claim_id = q.claim_id;
  attempt_id = q.attempt_id;
  attempt_number = lease.attempt_number;
  lease_token_sha256 = q.token_hash;
}

abbrev pub finish_status : WorkerOutcome → FinishStatus
finish_status worker_succeeded = succeeded
finish_status worker_failed = failed
finish_status worker_blocked = blocked

abbrev candidate_sha : Option ArtifactRef → Option Sha256
candidate_sha none = none
candidate_sha (some a) = some a.sha256

abbrev error_code : Option ResultError → Option NonEmptyString
error_code none = none
error_code (some e) = some e.code

abbrev error_message : Option ResultError → Option NonEmptyString
error_message none = none
error_message (some e) = some e.message

-- The result must bind the active lease.
unfoldable pub check_binding :
    Sha256 → FinishRequest → LeaseState → WorkerResult → Result (Unit {0})
check_binding manifest_sha256 q lease r =
    raise_if
      (r.manifest_sha256 != manifest_sha256
        || r.item_id != q.item_id
        || r.worker_id != q.worker_id
        || r.claim_id != q.claim_id
        || r.attempt_id != q.attempt_id
        || r.attempt_number != lease.attempt_number
        || r.lease_token_sha256 != q.token_hash)
      (record {
        code = "result_identity_mismatch";
        message = "worker result does not bind the active lease";
      })

-- The data of `worker.finished`; the resolved key is what the check of the artifacts gives.
abbrev pub finished_data :
    FinishRequest → LeaseState → WorkerResult → Option NonEmptyString → FinishedData
finished_data q lease r resolved_key = record {
  lane = worker;
  item_id = q.item_id;
  identity = named_lease q.request lease;
  status = finish_status r.status;
  result_sha256 = q.result_sha256;
  resolved_zotero_item_key = resolved_key;
  candidate_sha256 = candidate_sha r.candidate;
  failure_code = error_code r.error;
  failure_message = error_message r.error;
}

worker_lease_of : ItemId → WorkerStatus → Option LeaseState → Result LeaseState
worker_lease_of item_id WorkerStatus.claimed (some lease) = ok lease
worker_lease_of item_id _ _ =
    err (record { code = "lease_inactive"; message = ◌+s◌ "worker lease is not active: " item_id })

-- `_active_worker_lease`, from the item that was found on. The argument `token_fits` is the comparison
-- of the request's token with the one that is derived for a claim and an attempt.
unfoldable pub active_worker_lease :
    (UuidString → UuidString → Bool) → LeaseRequest → Rfc3339Utc → StateItem → Result LeaseState
unfolding worker_lease_of
active_worker_lease token_fits q now item = do
  lease ← worker_lease_of q.item_id item.worker_status item.worker_lease
  raise_if
      (lease.actor_id != q.worker_id
        || lease.claim_id != q.claim_id
        || lease.attempt_id != q.attempt_id
        || not (token_fits lease.claim_id lease.attempt_id)
        || lease.lease_token_sha256 != q.token_hash)
      (record {
        code = "lease_identity_mismatch";
        message = "worker lease identity, actor, attempt, or token does not match";
      })
  raise_if (leb (timestamp lease.expires_at) (timestamp now))
      (record { code = "lease_expired"; message = ◌+s◌ "worker lease has expired: " q.item_id })
  ok lease

-- `next((candidate for candidate in items if candidate.item_id == item_id), None)`
unfoldable pub find_item : List StateItem → ItemId → Result StateItem
find_item [] item_id =
    err (record { code = "unknown_item"; message = ◌+s◌ "unknown item id: " item_id })
find_item (item ∷ items) item_id =
    if item.item_id == item_id then ok item else find_item items item_id

-- the key that a manifest item names, if it does
abbrev pub manifest_key : SourceIdentity → Option NonEmptyString
manifest_key (SourceIdentity.pdf s) = none
manifest_key (SourceIdentity.zotero_item s) = some s.item_key
manifest_key (SourceIdentity.zotero_title s) = s.resolved_item_key

abbrev duplicate_source : String → RuntimeError
duplicate_source message = record { code = "duplicate_source"; message = message }

-- A resolved key is of no other item, neither in the manifest nor in the state.
unfoldable pub check_unique_key :
    BatchManifest → BatchState → ItemId → Option NonEmptyString → Result (Unit {0})
check_unique_key manifest state item_id none = ok tt
check_unique_key manifest state item_id (some key) = do
  raise_if
      (any (λ m. item_id_of m != item_id && manifest_key (source_of m) == some key) manifest.items)
      (duplicate_source (◌+s◌ "resolved Zotero key duplicates manifest item: " key))
  raise_if (any (λ s. s.item_id != item_id && s.resolved_zotero_item_key == some key) state.items)
      (duplicate_source (◌+s◌ "resolved Zotero key duplicates finished item: " key))
  ok tt

-- `propose` of `finish_worker`. The argument `artifacts` is `validate_worker_result_artifacts` at this
-- view, which reads the artifacts' files.
unfoldable pub propose_finish :
    (UuidString → UuidString → Bool)
    → (WorkerResult → Result (Option NonEmptyString))
    → BatchManifest
    → BatchState
    → FinishRequest
    → Rfc3339Utc
    → WorkerResult
    → Result FinishedData
propose_finish token_fits artifacts manifest state q now r = do
  item ← find_item state.items q.item_id
  lease ← active_worker_lease token_fits q.request now item
  check_binding state.manifest_sha256 q lease r
  key ← artifacts r
  check_unique_key manifest state q.item_id key
  ok (finished_data q lease r key)
