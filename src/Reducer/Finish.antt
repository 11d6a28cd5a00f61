-- ===== src/Reducer/Finish.antt =====
-- `_apply_finished` and the worker-retry branch of `apply_event` in v2_reducer.py.
use paperread.Prelude.{
  ◌+◌, Bool, true, false, not, ◌&&◌, ◌||◌, Option, none, some, Result, ok, err, ◌>>=◌, ◌>>◌,
  or_raise, raise_if, leb, is_some, is_none, ◌==◌, ◌!=◌, nat_eq, string_eq, option_eq,
  if◌then◌else◌,
}
use paperread.Contracts.Scalars.{NonEmptyString, timestamp}
use paperread.Contracts.Manifest.{BatchManifest, ManifestItem, is_pdf, WritePolicy, is_zotero_write}
use paperread.Contracts.Status.{
  Lane, worker, local_prepare, WorkerStatus, LocalPrepareStatus, WriteStatus,
}
use paperread.Contracts.State.{StateItem, BatchState}
use paperread.Contracts.Lanes.{is_failed, is_local_failed}
use paperread.Contracts.Events.{
  FinishStatus, succeeded, failed, blocked, prepared, FinishedData, RetriedData, BatchEvent,
}
use paperread.Reducer.Base.{corrupt, corrupt_at, manifest_item, update_item}
use paperread.Reducer.Leases.{same_lease, lane_lease, assertion_error}

abbrev has_failure : FinishedData → Bool
has_failure finish = is_some finish.failure_code || is_some finish.failure_message

abbrev has_identity : FinishedData → Bool
has_identity finish = is_some finish.resolved_zotero_item_key || is_some finish.candidate_sha256

-- A failure carries a failure and no success identity; a success carries no failure.
unfoldable pub check_outcome : FinishStatus → FinishedData → Result (Unit {0})
check_outcome failed finish =
    raise_if (not (has_failure finish) || has_identity finish)
      (corrupt "failed/blocked finish requires a typed failure and forbids success identities")
check_outcome blocked finish =
    raise_if (not (has_failure finish) || has_identity finish)
      (corrupt "failed/blocked finish requires a typed failure and forbids success identities")
check_outcome succeeded finish =
    raise_if (has_failure finish) (corrupt "successful/prepared finish forbids failure fields")
check_outcome prepared finish =
    raise_if (has_failure finish) (corrupt "successful/prepared finish forbids failure fields")

-- The fields that every worker finish writes.
abbrev pub worker_update : WorkerStatus → FinishedData → StateItem → StateItem
worker_update status finish item = record item {
  worker_status = status;
  worker_lease = none;
  worker_result_sha256 = some finish.result_sha256;
  resolved_zotero_item_key = finish.resolved_zotero_item_key;
  candidate_sha256 = finish.candidate_sha256;
  worker_failure_code = finish.failure_code;
  worker_failure_message = finish.failure_message;
}

-- A success settles the local lane of a PDF, with what a failed local attempt has left.
abbrev pub settle_local : StateItem → StateItem
settle_local item =
    if is_local_failed item.local_prepare_status
    then record item {
      local_prepare_status = LocalPrepareStatus.prepared;
      local_prepare_lease = none;
      local_prepare_result_sha256 = none;
      local_prepare_coordination_request_id = none;
      local_prepare_coordination_fingerprint = none;
      local_prepare_coordination_device = none;
      local_prepare_coordination_inode = none;
      local_prepare_failure_code = none;
      local_prepare_failure_message = none;
    }
    else record item { local_prepare_status = LocalPrepareStatus.prepared }

-- A success opens the write lane of a Zotero item, as the policy says.
abbrev pub open_write : WritePolicy → StateItem → StateItem
open_write policy item = record item {
  write_status = if is_zotero_write policy then WriteStatus.queued else WriteStatus.prepared_only;
}

-- Only a Zotero item has a parent to resolve.
check_parent : Bool → Option NonEmptyString → Result (Unit {0})
check_parent true key =
    raise_if (is_some key) (corrupt "local PDF worker finish cannot resolve a Zotero item")
check_parent false key =
    raise_if (is_none key) (corrupt "Zotero worker finish requires exact resolved parent key")

finish_succeeded : WritePolicy → FinishedData → StateItem → ManifestItem → Result StateItem
unfolding check_parent
finish_succeeded policy finish item m = do
  raise_if (is_none finish.candidate_sha256)
      (corrupt "successful worker finish requires candidate digest")
  check_parent (is_pdf m) finish.resolved_zotero_item_key
  let settled = worker_update WorkerStatus.succeeded finish item
  ok (if is_pdf m then settle_local settled else open_write policy settled)

finish_worker :
    FinishStatus → WritePolicy → Result ManifestItem → FinishedData → StateItem → Result StateItem
unfolding finish_succeeded
finish_worker prepared policy found finish item =
    err (corrupt "worker result cannot use prepared status")
finish_worker failed policy found finish item =
    found >>= λ m. ok (worker_update WorkerStatus.failed finish item)
finish_worker blocked policy found finish item =
    found >>= λ m. ok (worker_update WorkerStatus.blocked finish item)
finish_worker succeeded policy found finish item = found >>= finish_succeeded policy finish item

abbrev pub local_update : LocalPrepareStatus → FinishedData → StateItem → StateItem
local_update status finish item = record item {
  local_prepare_status = status;
  local_prepare_lease = none;
  local_prepare_result_sha256 = some finish.result_sha256;
  local_prepare_failure_code = finish.failure_code;
  local_prepare_failure_message = finish.failure_message;
}

abbrev has_binding : StateItem → Bool
has_binding item =
    is_some item.local_prepare_coordination_request_id
    && is_some item.local_prepare_coordination_fingerprint
    && is_some item.local_prepare_coordination_device
    && is_some item.local_prepare_coordination_inode

abbrev is_blocked : FinishStatus → Bool
is_blocked blocked = true
is_blocked _ = false

local_outcome : FinishStatus → Result LocalPrepareStatus
local_outcome succeeded = err (corrupt "local prepare finish has invalid status")
local_outcome failed = ok LocalPrepareStatus.failed
local_outcome blocked = ok LocalPrepareStatus.blocked
local_outcome prepared = ok LocalPrepareStatus.prepared

finish_local : FinishedData → StateItem → Result StateItem
unfolding local_outcome
finish_local finish item = do
  status ← local_outcome finish.status
  raise_if
      (finish.failure_code == some "coordination_uncertain"
        && (not (is_blocked finish.status) || not (has_binding item)))
      (corrupt "coordination-uncertain finish requires one exact coordination reservation")
  ok (local_update status finish item)

unfoldable pub finish_lane :
    Lane → WritePolicy → Result ManifestItem → FinishedData → StateItem → Result StateItem
unfolding finish_worker finish_local
finish_lane worker policy found finish item = finish_worker finish.status policy found finish item
finish_lane local_prepare policy found finish item = finish_local finish item

-- `found` is what the lookup of the manifest item gives, which only a worker finish makes.
unfoldable pub finish_item :
    WritePolicy → Result ManifestItem → BatchEvent → FinishedData → StateItem → Result StateItem
finish_item policy found event finish item = do
  raise_if (not (same_lease (lane_lease finish.lane item) finish.identity))
      (corrupt_at "finish identity mismatch: " finish.item_id)
  lease ← or_raise (lane_lease finish.lane item) assertion_error
  raise_if (leb (timestamp lease.expires_at) (timestamp event.occurred_at))
      (corrupt_at "finish event occurred after lease expiry: " finish.item_id)
  check_outcome finish.status finish
  finish_lane finish.lane policy found finish item

unfoldable pub apply_finished :
    BatchState → BatchManifest → BatchEvent → FinishedData → Result BatchState
apply_finished state manifest event finish =
    update_item state event finish.item_id
      (finish_item manifest.write_policy (manifest_item manifest.items finish.item_id) event finish)

-- The `RetriedData` branch of `apply_event`.
unfoldable pub retry_item : RetriedData → StateItem → Result StateItem
retry_item retry item = do
  raise_if (not (is_failed item.worker_status) || is_some item.worker_lease)
      (corrupt_at "illegal worker retry transition: " retry.item_id)
  raise_if
      (item.worker_last_actor_id != some retry.previous_actor_id
        || item.worker_last_claim_id != some retry.previous_claim_id
        || item.worker_last_attempt_id != some retry.previous_attempt_id
        || item.worker_attempt_count != retry.previous_attempt_number
        || item.worker_last_lease_token_sha256 != some retry.previous_lease_token_sha256
        || retry.next_attempt_number != item.worker_attempt_count + 1
        || retry.next_attempt_id == retry.previous_attempt_id)
      (corrupt_at "worker retry identity does not bind the failed attempt: " retry.item_id)
  ok (record item {
    worker_status = WorkerStatus.queued;
    worker_result_sha256 = none;
    worker_pending_attempt_id = some retry.next_attempt_id;
    worker_failure_code = none;
    worker_failure_message = none;
  })

unfoldable pub apply_retried : BatchState → BatchEvent → RetriedData → Result BatchState
apply_retried state event retry = update_item state event retry.item_id (retry_item retry)
