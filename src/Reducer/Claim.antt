-- ===== src/Reducer/Claim.antt =====
-- `_apply_claim` of v2_reducer.py: a worker or local-prepare claim event, assignment by assignment.
use paperread.Prelude.{
  ℕ, ◌+◌, ◌-◌, Bool, true, false, not, ◌&&◌, ◌||◌, Option, none, some, List, [], ◌∷◌, Result, ok,
  ◌>>=◌, ◌>>◌, raise_if, ltb, leb, length, total, to_nat, ◌==◌, ◌!=◌, nat_eq, string_eq, option_eq,
}
use paperread.Contracts.Scalars.{rfc3339_eq, timestamp, timedelta}
use paperread.Contracts.Manifest.{BatchManifest, ManifestItem, is_pdf, source_of, source_beq}
use paperread.Contracts.Status.{
  Lane, worker, local_prepare, WorkerStatus, LocalPrepareStatus, worker_eq, local_eq,
}
use paperread.Contracts.State.{LeaseState, StateItem, BatchState}
use paperread.Contracts.Lanes.{is_local_failed}
use paperread.Contracts.Events.{
  ClaimAssignment, ClaimedData, ClaimKind, worker_claimed, local_prepare_claimed, BatchEvent,
}
use paperread.Reducer.Base.{
  corrupt, corrupt_at, max_task_lease_seconds, manifest_item, update_at, with_items,
}

-- `isinstance(_manifest_item(manifest, assignment.item_id), PdfManifestItem)`, summed
unfoldable pub pdf_assignment_count : BatchManifest → List ClaimAssignment → Result ℕ
pdf_assignment_count manifest [] = ok 0
pdf_assignment_count manifest (a ∷ rest) = do
  m ← manifest_item manifest.items a.item_id
  n ← pdf_assignment_count manifest rest
  ok (to_nat (is_pdf m) + n)

-- an active task claim, in either lane
abbrev pub is_claimed : StateItem → Bool
is_claimed item =
    item.worker_status == WorkerStatus.claimed
    || item.local_prepare_status == LocalPrepareStatus.claimed

abbrev pub active_claims : List StateItem → ℕ
active_claims items = total (λ item. to_nat (is_claimed item)) items

-- a local attempt whose side effects are not known
abbrev pub coordination_uncertain : StateItem → Bool
coordination_uncertain item =
    item.local_prepare_status == LocalPrepareStatus.blocked
    && item.local_prepare_failure_code == some "coordination_uncertain"

abbrev pub new_lease : ClaimAssignment → LeaseState
new_lease a = record {
  lane = a.lane;
  actor_id = a.actor_id;
  claim_id = a.claim_id;
  attempt_id = a.attempt_id;
  attempt_number = a.attempt_number;
  lease_token_sha256 = a.lease_token_sha256;
  issued_at = a.issued_at;
  expires_at = a.expires_at;
}

abbrev is_worker_kind : ClaimKind → Bool
is_worker_kind worker_claimed = true
is_worker_kind local_prepare_claimed = false

-- `pending is not None and attempt != pending`
abbrev pub mismatch : Option ℕ → ℕ → Bool
mismatch none attempt = false
mismatch (some pending) attempt = attempt != pending

claim_worker : ClaimKind → ClaimAssignment → StateItem → Result StateItem
claim_worker kind a item = do
  raise_if
      (not (is_worker_kind kind)
        || item.worker_status != WorkerStatus.queued
        || coordination_uncertain item)
      (corrupt_at "illegal worker claim transition: " a.item_id)
  raise_if (a.attempt_number != item.worker_attempt_count + 1)
      (corrupt_at "worker attempt number is not monotonic: " a.item_id)
  raise_if (mismatch item.worker_pending_attempt_id a.attempt_id)
      (corrupt_at "worker claim does not consume the retry-bound attempt: " a.item_id)
  ok (record item {
    worker_status = WorkerStatus.claimed;
    worker_attempt_count = a.attempt_number;
    worker_lease = some (new_lease a);
    worker_result_sha256 = none;
    worker_last_actor_id = some a.actor_id;
    worker_last_claim_id = some a.claim_id;
    worker_last_attempt_id = some a.attempt_id;
    worker_last_lease_token_sha256 = some a.lease_token_sha256;
    worker_pending_attempt_id = none;
    worker_failure_code = none;
    worker_failure_message = none;
  })

claim_local : ClaimKind → ManifestItem → ClaimAssignment → StateItem → Result StateItem
claim_local kind m a item = do
  raise_if
      (is_worker_kind kind
        || not (
            item.local_prepare_status == LocalPrepareStatus.queued
            || is_local_failed item.local_prepare_status)
        || coordination_uncertain item)
      (corrupt_at "illegal local prepare claim transition: " a.item_id)
  raise_if (not (is_pdf m)) (corrupt_at "local prepare claim targets a non-PDF item: " a.item_id)
  raise_if (a.attempt_number != item.local_prepare_attempt_count + 1)
      (corrupt_at "local prepare attempt number is not monotonic: " a.item_id)
  ok (record item {
    local_prepare_status = LocalPrepareStatus.claimed;
    local_prepare_attempt_count = a.attempt_number;
    local_prepare_lease = some (new_lease a);
    local_prepare_result_sha256 = none;
    local_prepare_last_actor_id = some a.actor_id;
    local_prepare_last_claim_id = some a.claim_id;
    local_prepare_last_attempt_id = some a.attempt_id;
    local_prepare_last_lease_token_sha256 = some a.lease_token_sha256;
    local_prepare_last_expires_at = some a.expires_at;
    local_prepare_coordination_request_id = none;
    local_prepare_coordination_fingerprint = none;
    local_prepare_coordination_device = none;
    local_prepare_coordination_inode = none;
    local_prepare_failure_code = none;
    local_prepare_failure_message = none;
  })

claim_lane : Lane → ClaimKind → ManifestItem → ClaimAssignment → StateItem → Result StateItem
unfolding claim_worker claim_local
claim_lane worker kind m a item = claim_worker kind a item
claim_lane local_prepare kind m a item = claim_local kind m a item

unfoldable pub claim_item :
    ClaimKind → ManifestItem → ClaimAssignment → StateItem → Result StateItem
unfolding claim_lane
claim_item kind m a item = do
  raise_if (is_claimed item) (corrupt_at "cross-lane or duplicate active claim: " a.item_id)
  claim_lane a.lane kind m a item

-- One round of the loop over the assignments.
unfoldable pub claim_assignment :
    BatchState
    → BatchManifest
    → BatchEvent
    → ClaimKind
    → ClaimAssignment
    → List StateItem
    → Result (List StateItem)
claim_assignment state manifest event kind a items = do
  raise_if
      (a.issued_at != event.occurred_at
        || leb (timestamp a.expires_at) (timestamp a.issued_at)
        || ltb (timedelta max_task_lease_seconds) (timestamp a.expires_at - timestamp a.issued_at))
      (corrupt "claim event has non-authoritative lease times")
  m ← manifest_item manifest.items a.item_id
  raise_if (not (source_beq a.source (source_of m)))
      (corrupt_at "claim source identity does not match manifest: " a.item_id)
  update_at state.items a.item_id (claim_item kind m a) items

unfoldable pub claim_all :
    BatchState
    → BatchManifest
    → BatchEvent
    → ClaimKind
    → List ClaimAssignment
    → List StateItem
    → Result (List StateItem)
claim_all state manifest event kind [] items = ok items
claim_all state manifest event kind (a ∷ rest) items = do
  items' ← claim_assignment state manifest event kind a items
  claim_all state manifest event kind rest items'

unfoldable pub apply_claim :
    BatchState → BatchManifest → BatchEvent → ClaimedData → Result BatchState
apply_claim state manifest event claims = do
  pdfs ← pdf_assignment_count manifest claims.assignments
  raise_if (ltb 1 pdfs) (corrupt "claim event binds more than one PDF source")
  raise_if
      (ltb manifest.default_concurrency (active_claims state.items + length claims.assignments))
      (corrupt "claim event exceeds manifest concurrency")
  items ← claim_all state manifest event claims.kind claims.assignments state.items
  with_items state items event
