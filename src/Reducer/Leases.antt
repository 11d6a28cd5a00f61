-- ===== src/Reducer/Leases.antt =====
-- Lease identities in v2_reducer.py, and the events that change a task lease without finishing it:
-- `_apply_local_prepare_coordination_reserved` and `_apply_lease_mutation`.
use paperread.Prelude.{
  ℕ, ◌-◌, Bool, false, not, ◌&&◌, ◌||◌, Option, none, some, Result, RuntimeError, ok, ◌>>=◌, ◌>>◌,
  or_raise, raise_if, ltb, leb, is_some, ◌==◌, ◌!=◌, nat_eq, string_eq, option_eq,
}
use paperread.Contracts.Scalars.{UuidString, Rfc3339Utc, rfc3339_eq, timestamp, timedelta}
use paperread.Contracts.Status.{
  Lane, worker, local_prepare, WorkerStatus, LocalPrepareStatus, local_eq,
}
use paperread.Contracts.State.{LeaseState, WriteLeaseState, StateItem, BatchState}
use paperread.Contracts.Events.{
  LeaseIdentity, WriteIdentity, CoordinationReservedData, LeaseMutationData, MutationKind, renewed,
  released, lease_expired, BatchEvent,
}
use paperread.Reducer.Base.{corrupt, corrupt_at, max_task_lease_seconds, update_item}

abbrev pub lease_is : LeaseState → LeaseIdentity → Bool
lease_is lease ident =
    lease.actor_id == ident.actor_id
    && lease.claim_id == ident.claim_id
    && lease.attempt_id == ident.attempt_id
    && lease.attempt_number == ident.attempt_number
    && lease.lease_token_sha256 == ident.lease_token_sha256

unfoldable pub same_lease : Option LeaseState → LeaseIdentity → Bool
same_lease none ident = false
same_lease (some lease) ident = lease_is lease ident

abbrev pub write_lease_is : WriteLeaseState → WriteIdentity → Bool
write_lease_is lease ident =
    lease.writer_id == ident.writer_id
    && lease.claim_id == ident.claim_id
    && lease.write_attempt_id == ident.write_attempt_id
    && lease.attempt_number == ident.attempt_number
    && lease.lease_token_sha256 == ident.lease_token_sha256
    && lease.candidate_sha256 == ident.candidate_sha256

unfoldable pub same_write_lease : Option WriteLeaseState → WriteIdentity → Bool
same_write_lease none ident = false
same_write_lease (some lease) ident = write_lease_is lease ident

unfoldable pub same_last_write_identity : StateItem → WriteIdentity → Bool
same_last_write_identity item ident =
    item.write_last_writer_id == some ident.writer_id
    && item.write_last_claim_id == some ident.claim_id
    && item.write_last_attempt_id == some ident.write_attempt_id
    && item.write_attempt_count == ident.attempt_number
    && item.write_last_lease_token_sha256 == some ident.lease_token_sha256
    && item.candidate_sha256 == some ident.candidate_sha256

-- `assert lease is not None`, and an attribute of a lease that the identity test has found there
abbrev pub assertion_error : RuntimeError
assertion_error = record { code = "AssertionError"; message = "lease is not None" }

-- `uuid5(UUID(request_id), LOCAL_PREPARE_COORDINATION_UUID_NAME)` is the argument `derive`.
unfoldable pub reserve_item :
    (UuidString → UuidString) → BatchEvent → CoordinationReservedData → StateItem → Result StateItem
reserve_item derive event reservation item = do
  raise_if
      (item.local_prepare_status != LocalPrepareStatus.claimed
        || not (same_lease item.local_prepare_lease reservation.identity))
      (corrupt_at "coordination reservation references inactive local lease: " reservation.item_id)
  lease ← or_raise item.local_prepare_lease assertion_error
  raise_if (event.request_id != derive reservation.coordinator_request_id) (
      corrupt_at "coordination reservation request id is not derived canonically: "
        reservation.item_id)
  raise_if
      (not (
        leb (timestamp lease.issued_at) (timestamp event.occurred_at)
        && ltb (timestamp event.occurred_at) (timestamp lease.expires_at)))
      (corrupt_at "coordination reservation occurred outside its lease: " reservation.item_id)
  raise_if (is_some item.local_prepare_coordination_request_id)
      (corrupt_at "local attempt has more than one coordination reservation: " reservation.item_id)
  ok (record item {
    local_prepare_coordination_request_id = some reservation.coordinator_request_id;
    local_prepare_coordination_fingerprint = some reservation.coordinator_request_fingerprint;
    local_prepare_coordination_device = some reservation.request_dir_device;
    local_prepare_coordination_inode = some reservation.request_dir_inode;
  })

unfoldable pub apply_coordination_reserved :
    (UuidString → UuidString)
    → BatchState
    → BatchEvent
    → CoordinationReservedData
    → Result BatchState
apply_coordination_reserved derive state event reservation =
    update_item state event reservation.item_id (reserve_item derive event reservation)

-- `item.worker_lease if lane == "worker" else item.local_prepare_lease`
abbrev pub lane_lease : Lane → StateItem → Option LeaseState
lane_lease worker item = item.worker_lease
lane_lease local_prepare item = item.local_prepare_lease

-- The update of a renewal, by lane.
abbrev pub renew_lane : Lane → StateItem → LeaseState → Rfc3339Utc → StateItem
renew_lane worker item lease expires = record item { worker_lease = some lease }
renew_lane local_prepare item lease expires = record item {
  local_prepare_lease = some lease;
  local_prepare_last_expires_at = some expires;
}

-- The update of a release or an expiry, by lane.
abbrev pub release_lane : Lane → StateItem → StateItem
release_lane worker item = record item { worker_lease = none; worker_status = WorkerStatus.queued }
release_lane local_prepare item = record item {
  local_prepare_lease = none;
  local_prepare_status = LocalPrepareStatus.queued;
  local_prepare_coordination_request_id = none;
  local_prepare_coordination_fingerprint = none;
  local_prepare_coordination_device = none;
  local_prepare_coordination_inode = none;
}

unfoldable pub renew_lease :
    BatchEvent → LeaseMutationData → StateItem → LeaseState → Result StateItem
renew_lease event mutation item lease = do
  issued ← or_raise mutation.issued_at (corrupt "renew event is missing lease times")
  expires ← or_raise mutation.expires_at (corrupt "renew event is missing lease times")
  raise_if
      (issued != event.occurred_at
        || leb (timestamp lease.expires_at) (timestamp event.occurred_at)
        || ltb (timestamp issued) (timestamp lease.issued_at)
        || leb (timestamp expires) (timestamp issued)
        || leb (timestamp expires) (timestamp lease.expires_at)
        || ltb (timedelta max_task_lease_seconds) (timestamp expires - timestamp issued))
      (corrupt "renew event has non-authoritative or non-extending lease times")
  ok (
      renew_lane mutation.lane item (record lease { issued_at = issued; expires_at = expires })
        expires)

-- The clock of the two ways to end a lease: an expiry comes at its end or later, a release before.
ends_in_time : MutationKind → ℕ → ℕ → Result (Unit {0})
ends_in_time lease_expired now expiry =
    raise_if (ltb now expiry) (corrupt "lease_expired event occurred before authoritative expiry")
ends_in_time _ now expiry =
    raise_if (leb expiry now) (corrupt "release event occurred after authoritative expiry")

unfoldable pub end_lease :
    BatchEvent → LeaseMutationData → StateItem → LeaseState → Result StateItem
unfolding ends_in_time
end_lease event mutation item lease = do
  raise_if (is_some mutation.issued_at || is_some mutation.expires_at)
      (corrupt "release/expiry event must not carry replacement lease times")
  ends_in_time mutation.kind (timestamp event.occurred_at) (timestamp lease.expires_at)
  ok (release_lane mutation.lane item)

unfoldable pub mutate_lease :
    MutationKind → BatchEvent → LeaseMutationData → StateItem → LeaseState → Result StateItem
mutate_lease renewed = renew_lease
mutate_lease released = end_lease
mutate_lease lease_expired = end_lease

unfoldable pub mutate_item : BatchEvent → LeaseMutationData → StateItem → Result StateItem
mutate_item event mutation item = do
  raise_if (not (same_lease (lane_lease mutation.lane item) mutation.identity))
      (corrupt_at "lease mutation identity mismatch: " mutation.item_id)
  lease ← or_raise (lane_lease mutation.lane item) assertion_error
  mutate_lease mutation.kind event mutation item lease

unfoldable pub apply_lease_mutation :
    BatchState → BatchEvent → LeaseMutationData → Result BatchState
apply_lease_mutation state event mutation =
    update_item state event mutation.item_id (mutate_item event mutation)
