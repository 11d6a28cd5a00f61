-- ===== src/Reducer/Recover.antt =====
-- The `RunRecoveredData` branch of `apply_event` in v2_reducer.py: expired leases are dropped, and
-- local attempts with a coordination of their own are resumed.
use paperread.Prelude.{
  ◌-◌, Bool, true, false, not, ◌&&◌, ◌||◌, Option, none, some, List, [], ◌∷◌, ◌++◌, map, Result, ok,
  ◌>>=◌, ◌>>◌, err, or_raise, raise_if, ltb, leb, is_some, is_none, any, ◌==◌, ◌!=◌, nat_eq,
  string_eq, option_eq,
}
use paperread.Contracts.Scalars.{ItemId, Rfc3339Utc, rfc3339_eq, timestamp, timedelta}
use paperread.Contracts.Status.{
  Lane, worker, local_prepare, WorkerStatus, LocalPrepareStatus, WriteStatus, lane_eq, worker_eq,
  local_eq, write_eq,
}
use paperread.Contracts.State.{LeaseState, StateItem, BatchState}
use paperread.Contracts.Events.{
  RecoveredLease, ResumedLocalPrepareLease, RecoveredUncertainWrite, RunRecoveredData, BatchEvent,
}
use paperread.Reducer.Base.{
  corrupt, corrupt_at, max_task_lease_seconds, state_item_index, items_at, update_at, with_items,
}
use paperread.Reducer.Leases.{same_lease, same_last_write_identity, assertion_error}

check_uncertain : RecoveredUncertainWrite → StateItem → Result (Unit {0})
check_uncertain receipt item =
    raise_if
      (item.write_status != WriteStatus.uncertain
        || is_some item.write_lease
        || not (same_last_write_identity item receipt.identity)
        || item.authorization_sha256 != some receipt.authorization_sha256
        || item.authorization_nonce_sha256 != some receipt.authorization_nonce_sha256
        || item.external_claim_id != some receipt.external_claim_id
        || item.write_started_event_sha256 != some receipt.write_started_event_sha256)
      (corrupt_at "recover reconciliation receipt differs from uncertain write: " receipt.item_id)

unfoldable pub check_receipt : BatchState → Option RecoveredUncertainWrite → Result (Unit {0})
unfolding check_uncertain
check_receipt state none = ok tt
check_receipt state (some receipt) = do
  index ← state_item_index state.items receipt.item_id
  item ← items_at state.items index
  check_uncertain receipt item

-- What the first loop reads of each entry: its key `(lane, item_id)` and the expiry it must have
-- passed.
pub record Entry : Type 0 where
  pub lane : Lane
  pub item_id : ItemId
  pub authoritative_expiry : Rfc3339Utc

abbrev pub expired_entry : RecoveredLease → Entry
expired_entry r = record { lane = r.lane; item_id = r.item_id; authoritative_expiry = r.expires_at }

abbrev pub resumed_entry : ResumedLocalPrepareLease → Entry
resumed_entry r = record {
  lane = local_prepare;
  item_id = r.item_id;
  authoritative_expiry = r.previous_expires_at;
}

abbrev pub entries : RunRecoveredData → List Entry
entries recovery =
    map expired_entry recovery.expired_worker_leases
    ++ (map expired_entry recovery.expired_local_prepare_leases
        ++ map resumed_entry recovery.resumed_local_prepare_leases)

unfoldable pub same_key : Entry → Entry → Bool
same_key a b = a.lane == b.lane && a.item_id == b.item_id

unfoldable pub check_entries : BatchEvent → List Entry → List Entry → Result (Unit {0})
unfolding same_key
check_entries event seen [] = ok tt
check_entries event seen (e ∷ rest) = do
  raise_if (any (same_key e) seen) (corrupt_at "recover repeats one lease identity: " e.item_id)
  raise_if (ltb (timestamp event.occurred_at) (timestamp e.authoritative_expiry))
      (corrupt_at "recover event precedes lease expiry: " e.item_id)
  check_entries event (e ∷ seen) rest

unfoldable pub recover_worker_item : RecoveredLease → StateItem → Result StateItem
recover_worker_item recovered item = do
  raise_if
      (item.worker_status != WorkerStatus.claimed
        || not (same_lease item.worker_lease recovered.identity))
      (corrupt_at "recover references inactive worker lease: " recovered.item_id)
  lease ← or_raise item.worker_lease assertion_error
  raise_if (lease.expires_at != recovered.expires_at)
      (corrupt_at "recover worker expiry does not match authoritative lease: " recovered.item_id)
  ok (record item { worker_status = WorkerStatus.queued; worker_lease = none })

unfoldable pub recover_workers :
    BatchState → List RecoveredLease → List StateItem → Result (List StateItem)
recover_workers state [] items = ok items
recover_workers state (r ∷ rest) items = do
  raise_if (r.lane != worker) (corrupt "worker recovery contains another lane")
  items' ← update_at state.items r.item_id (recover_worker_item r) items
  recover_workers state rest items'

unfoldable pub recover_local_item : RecoveredLease → StateItem → Result StateItem
recover_local_item recovered item = do
  raise_if
      (item.local_prepare_status != LocalPrepareStatus.claimed
        || not (same_lease item.local_prepare_lease recovered.identity))
      (corrupt_at "recover references inactive local lease: " recovered.item_id)
  lease ← or_raise item.local_prepare_lease assertion_error
  raise_if (lease.expires_at != recovered.expires_at)
      (corrupt_at "recover local expiry does not match authoritative lease: " recovered.item_id)
  ok (record item {
    local_prepare_status = LocalPrepareStatus.queued;
    local_prepare_lease = none;
    local_prepare_coordination_request_id = none;
    local_prepare_coordination_fingerprint = none;
    local_prepare_coordination_device = none;
    local_prepare_coordination_inode = none;
  })

unfoldable pub recover_locals :
    BatchState → List RecoveredLease → List StateItem → Result (List StateItem)
recover_locals state [] items = ok items
recover_locals state (r ∷ rest) items = do
  raise_if (r.lane != local_prepare) (corrupt "local recovery contains another lane")
  items' ← update_at state.items r.item_id (recover_local_item r) items
  recover_locals state rest items'

-- The lease that a resumed attempt gets where none is left.
abbrev pub resumed_lease : ResumedLocalPrepareLease → LeaseState
resumed_lease r = record {
  lane = local_prepare;
  actor_id = r.actor_id;
  claim_id = r.claim_id;
  attempt_id = r.attempt_id;
  attempt_number = r.attempt_number;
  lease_token_sha256 = r.lease_token_sha256;
  issued_at = r.issued_at;
  expires_at = r.expires_at;
}

-- A blocked attempt whose side effects are not known, and which `resumed` names exactly.
is_resumable : ResumedLocalPrepareLease → StateItem → Bool
is_resumable r item =
    item.local_prepare_status == LocalPrepareStatus.blocked
    && is_none item.local_prepare_lease
    && item.local_prepare_failure_code == some "coordination_uncertain"
    && is_some item.local_prepare_result_sha256
    && item.local_prepare_attempt_count == r.attempt_number
    && item.local_prepare_last_actor_id == some r.actor_id
    && item.local_prepare_last_claim_id == some r.claim_id
    && item.local_prepare_last_attempt_id == some r.attempt_id
    && item.local_prepare_last_lease_token_sha256 == some r.lease_token_sha256
    && item.local_prepare_last_expires_at == some r.previous_expires_at

resume_active : ResumedLocalPrepareLease → StateItem → LeaseState → Result StateItem
resume_active r item lease = do
  raise_if (lease.expires_at != r.previous_expires_at)
      (corrupt_at "recover local coordination expiry is not authoritative: " r.item_id)
  ok (record item {
    local_prepare_lease =
        some (record lease { issued_at = r.issued_at; expires_at = r.expires_at });
    local_prepare_last_expires_at = some r.expires_at;
  })

resume_blocked : ResumedLocalPrepareLease → StateItem → Result StateItem
resume_blocked r item = ok (record item {
  local_prepare_status = LocalPrepareStatus.claimed;
  local_prepare_lease = some (resumed_lease r);
  local_prepare_result_sha256 = none;
  local_prepare_failure_code = none;
  local_prepare_failure_message = none;
  local_prepare_last_expires_at = some r.expires_at;
})

resume_by : Bool → Bool → ResumedLocalPrepareLease → StateItem → Result StateItem
unfolding resume_active resume_blocked
resume_by true resumable r item =
    or_raise item.local_prepare_lease assertion_error >>= resume_active r item
resume_by false true r item = resume_blocked r item
resume_by false false r item =
    err (corrupt_at "recover references inactive local coordination lease: " r.item_id)

unfoldable pub resume_item : BatchEvent → ResumedLocalPrepareLease → StateItem → Result StateItem
unfolding resume_by is_resumable
resume_item event r item = do
  raise_if
      (r.issued_at != event.occurred_at
        || leb (timestamp r.expires_at) (timestamp r.issued_at)
        || ltb (timedelta max_task_lease_seconds) (timestamp r.expires_at - timestamp r.issued_at))
      (corrupt_at "recover local coordination lease times are invalid: " r.item_id)
  resume_by
      (item.local_prepare_status == LocalPrepareStatus.claimed
        && same_lease item.local_prepare_lease r.identity)
      (is_resumable r item) r item

unfoldable pub resume_locals :
    BatchState
    → BatchEvent
    → List ResumedLocalPrepareLease
    → List StateItem
    → Result (List StateItem)
resume_locals state event [] items = ok items
resume_locals state event (r ∷ rest) items = do
  items' ← update_at state.items r.item_id (resume_item event r) items
  resume_locals state event rest items'

unfoldable pub apply_recovered : BatchState → BatchEvent → RunRecoveredData → Result BatchState
unfolding check_receipt
apply_recovered state event recovery = do
  check_receipt state recovery.reconciliation_write
  check_entries event [] (entries recovery)
  workers ← recover_workers state recovery.expired_worker_leases state.items
  locals ← recover_locals state recovery.expired_local_prepare_leases workers
  items ← resume_locals state event recovery.resumed_local_prepare_leases locals
  with_items state items event
