-- ===== src/Contracts/Lanes.antt =====
-- `StateItem.validate_lane_state` of v2_contracts.py, one function for each group of its tests.
-- A function is `true` where the validator goes on, `false` where it raises.
use paperread.Prelude.{
  ℕ, Bool, true, false, not, ◌&&◌, ◌||◌, List, [], ◌∷◌, Option, none, some, any, all, is_some,
  is_none, differ, ◌==◌, nat_eq, string_eq, option_eq,
}
use paperread.Contracts.Scalars.{rfc3339_eq}
use paperread.Contracts.Status.{
  worker, local_prepare, WorkerStatus, LocalPrepareStatus, WriteStatus, lane_eq, worker_eq,
  local_eq, write_eq,
}
use paperread.Contracts.State.{LeaseState, WriteLeaseState, StateItem}

-- `any(...) != all(...)` over a group of fields, each given as "is not None"
abbrev pub uneven : List Bool → Bool
uneven present = differ (any (λ b. b) present) (all (λ b. b) present)

abbrev pub is_failed : WorkerStatus → Bool
is_failed s = s == WorkerStatus.failed || s == WorkerStatus.blocked

abbrev pub is_local_failed : LocalPrepareStatus → Bool
is_local_failed s = s == LocalPrepareStatus.failed || s == LocalPrepareStatus.blocked

-- `write_status in {"claimed", "started"}`
abbrev pub is_write_active : WriteStatus → Bool
is_write_active s = s == WriteStatus.claimed || s == WriteStatus.started

worker_lease_fits : StateItem → Option LeaseState → Bool
worker_lease_fits item none = true
worker_lease_fits item (some lease) =
    lease.lane == worker && lease.attempt_number == item.worker_attempt_count

local_lease_fits : StateItem → Option LeaseState → Bool
local_lease_fits item none = true
local_lease_fits item (some lease) =
    lease.lane == local_prepare && lease.attempt_number == item.local_prepare_attempt_count

-- Claimed states and leases come together, and a lease is of its lane and attempt.
unfoldable pub valid_leases : StateItem → Bool
unfolding worker_lease_fits local_lease_fits
valid_leases item =
    not (differ (item.worker_status == WorkerStatus.claimed) (is_some item.worker_lease))
    && not (
        differ (item.local_prepare_status == LocalPrepareStatus.claimed)
          (is_some item.local_prepare_lease))
    && worker_lease_fits item item.worker_lease
    && local_lease_fits item item.local_prepare_lease

local_last_fits : StateItem → Option LeaseState → Bool
local_last_fits item none = true
local_last_fits item (some lease) =
    some lease.actor_id == item.local_prepare_last_actor_id
    && some lease.claim_id == item.local_prepare_last_claim_id
    && some lease.attempt_id == item.local_prepare_last_attempt_id
    && some lease.lease_token_sha256 == item.local_prepare_last_lease_token_sha256
    && some lease.expires_at == item.local_prepare_last_expires_at

unfoldable pub valid_local_identity : StateItem → Bool
unfolding local_last_fits
valid_local_identity item =
    not (
      uneven (
        is_some item.local_prepare_last_actor_id
        ∷ is_some item.local_prepare_last_claim_id
        ∷ is_some item.local_prepare_last_attempt_id
        ∷ is_some item.local_prepare_last_lease_token_sha256
        ∷ is_some item.local_prepare_last_expires_at
        ∷ []))
    && local_last_fits item item.local_prepare_lease

write_lease_fits : StateItem → Option WriteLeaseState → Bool
write_lease_fits item none = true
write_lease_fits item (some lease) =
    lease.attempt_number == item.write_attempt_count
    && some lease.writer_id == item.write_last_writer_id
    && some lease.claim_id == item.write_last_claim_id
    && some lease.write_attempt_id == item.write_last_attempt_id
    && some lease.lease_token_sha256 == item.write_last_lease_token_sha256
    && some lease.candidate_sha256 == item.candidate_sha256

pending_fits : StateItem → Option ℕ → Bool
pending_fits item none = true
pending_fits item (some pending) =
    item.write_status == WriteStatus.queued
    && is_none item.write_lease
    && not (some pending == item.write_last_attempt_id)

unfoldable pub valid_write_identity : StateItem → Bool
unfolding write_lease_fits pending_fits
valid_write_identity item =
    not (differ (is_write_active item.write_status) (is_some item.write_lease))
    && not (
        uneven (
          is_some item.write_last_writer_id
          ∷ is_some item.write_last_claim_id
          ∷ is_some item.write_last_attempt_id
          ∷ is_some item.write_last_lease_token_sha256
          ∷ []))
    && write_lease_fits item item.write_lease
    && pending_fits item item.write_pending_attempt_id

authorization_fits : StateItem → Option ℕ → Bool
authorization_fits item none = not (item.write_status == WriteStatus.started)
authorization_fits item (some sha) =
    some sha == item.write_last_authorization_sha256
    && item.authorization_nonce_sha256 == item.write_last_authorization_nonce_sha256
    && item.external_claim_id == item.write_last_external_claim_id
    && item.external_claim_id == item.write_last_claim_id

unfoldable pub valid_authorization : StateItem → Bool
unfolding authorization_fits
valid_authorization item =
    not (
      uneven (
        is_some item.authorization_sha256
        ∷ is_some item.authorization_nonce_sha256
        ∷ is_some item.external_claim_id
        ∷ is_some item.write_started_event_sha256
        ∷ []))
    && not (
        uneven (
          is_some item.write_last_authorization_sha256
          ∷ is_some item.write_last_authorization_nonce_sha256
          ∷ is_some item.write_last_external_claim_id
          ∷ []))
    && authorization_fits item item.authorization_sha256

abbrev write_failure : StateItem → Bool
write_failure item = is_some item.write_failure_code || is_some item.write_failure_message

pre_start : StateItem → Bool
pre_start item =
    is_none item.authorization_sha256
    && is_none item.write_result_sha256
    && is_none item.reconciliation_sha256
    && not (write_failure item)

needs_attention : StateItem → Bool
needs_attention item =
    is_some item.authorization_sha256
    && is_none item.write_result_sha256
    && is_some item.reconciliation_sha256
    && write_failure item

-- The artifacts that a write status admits.
valid_at : WriteStatus → StateItem → Bool
unfolding pre_start needs_attention
valid_at WriteStatus.not_applicable item = pre_start item
valid_at WriteStatus.awaiting_candidate item = pre_start item
valid_at WriteStatus.queued item = pre_start item
valid_at WriteStatus.claimed item = pre_start item
valid_at WriteStatus.prepared_only item = pre_start item
valid_at WriteStatus.started item =
    is_none item.write_result_sha256
    && is_none item.reconciliation_sha256
    && not (write_failure item)
valid_at WriteStatus.uncertain item =
    is_some item.authorization_sha256
    && is_none item.write_result_sha256
    && is_none item.reconciliation_sha256
    && write_failure item
valid_at WriteStatus.retry_confirmation_required item = needs_attention item
valid_at WriteStatus.blocked item = needs_attention item
valid_at WriteStatus.written item =
    is_some item.authorization_sha256
    && differ (is_none item.write_result_sha256) (is_none item.reconciliation_sha256)
    && not (write_failure item)

unfoldable pub valid_artifacts : StateItem → Bool
unfolding valid_at
valid_artifacts item =
    not (is_some item.write_result_sha256 && is_some item.reconciliation_sha256)
    && valid_at item.write_status item

outcome_fits : Bool → Bool → Option ℕ → Bool
outcome_fits true failure result = failure && is_some result
outcome_fits false failure result = not failure

-- The worker's and the local lane's failures and results.
unfoldable pub valid_outcomes : StateItem → Bool
unfolding outcome_fits
valid_outcomes item =
    not (uneven binding)
    && not (all (λ b. b) binding && is_none item.local_prepare_last_attempt_id)
    && outcome_fits (is_failed item.worker_status) worker_failure item.worker_result_sha256
    && outcome_fits (is_local_failed item.local_prepare_status) local_failure
        item.local_prepare_result_sha256
    && not (
        item.worker_status == WorkerStatus.succeeded
        && (is_none item.worker_result_sha256 || is_none item.candidate_sha256))
    && not (
        item.local_prepare_status == LocalPrepareStatus.prepared
        && is_none item.local_prepare_result_sha256
        && not (item.worker_status == WorkerStatus.succeeded))
  where
    binding : List Bool
    binding =
        is_some item.local_prepare_coordination_request_id
        ∷ is_some item.local_prepare_coordination_fingerprint
        ∷ is_some item.local_prepare_coordination_device
        ∷ is_some item.local_prepare_coordination_inode
        ∷ []

    worker_failure : Bool
    worker_failure = is_some item.worker_failure_code || is_some item.worker_failure_message

    local_failure : Bool
    local_failure =
        is_some item.local_prepare_failure_code || is_some item.local_prepare_failure_message

unfoldable pub validate_lane_state : StateItem → Bool
validate_lane_state item =
    valid_leases item
    && valid_local_identity item
    && valid_write_identity item
    && valid_authorization item
    && valid_artifacts item
    && valid_outcomes item
