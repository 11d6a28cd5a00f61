-- ===== src/Reducer/WriteSettle.antt =====
-- The write lane of v2_reducer.py, last part: an uncertain write is reconciled, and one that was not
-- found may be retried.
use paperread.Prelude.{
  ◌+◌, String, Bool, not, ◌&&◌, ◌||◌, Option, none, some, Result, ok, ◌>>◌, raise_if, is_some, any,
  ◌==◌, ◌!=◌, nat_eq, string_eq, option_eq,
}
use paperread.Contracts.Status.{WriteStatus, write_eq}
use paperread.Contracts.State.{StateItem, BatchState}
use paperread.Contracts.Events.{
  WriteReconciledData, WriteRetriedData, ReconciliationOutcome, verified, not_found, ambiguous,
  blocked, BatchEvent,
}
use paperread.Reducer.Base.{corrupt_at, update_item}
use paperread.Reducer.Leases.{same_last_write_identity}

abbrev pub reconciled_status : ReconciliationOutcome → WriteStatus
reconciled_status verified = WriteStatus.written
reconciled_status not_found = WriteStatus.retry_confirmation_required
reconciled_status ambiguous = WriteStatus.blocked
reconciled_status blocked = WriteStatus.blocked

abbrev reconciled_code : ReconciliationOutcome → Option String
reconciled_code verified = none
reconciled_code not_found = some "write_not_found"
reconciled_code ambiguous = some "write_reconciliation_ambiguous"
reconciled_code blocked = some "write_verification_blocked"

abbrev reconciled_message : ReconciliationOutcome → Option String
reconciled_message verified = none
reconciled_message not_found = some "read-only reconciliation found no exact note match"
reconciled_message ambiguous = some "read-only reconciliation found multiple exact note matches"
reconciled_message blocked = some "the unique located note failed full verification"

unfoldable pub reconcile_item : WriteReconciledData → StateItem → Result StateItem
unfolding same_last_write_identity
reconcile_item found item = do
  raise_if
      (item.write_status != WriteStatus.uncertain
        || is_some item.write_lease
        || not (same_last_write_identity item found.identity)
        || some found.authorization_sha256 != item.authorization_sha256)
      (corrupt_at "write reconciliation identity mismatch: " found.item_id)
  ok (record item {
    write_status = reconciled_status found.outcome;
    reconciliation_sha256 = some found.reconciliation_sha256;
    write_failure_code = reconciled_code found.outcome;
    write_failure_message = reconciled_message found.outcome;
  })

unfoldable pub apply_write_reconciled :
    BatchState → BatchEvent → WriteReconciledData → Result BatchState
apply_write_reconciled state event found =
    update_item state event found.item_id (reconcile_item found)

-- `next_write_attempt_id in {other.write_last_attempt_id, other.write_pending_attempt_id}`
reuses_attempt : WriteRetriedData → StateItem → Bool
reuses_attempt retry other =
    some retry.next_write_attempt_id == other.write_last_attempt_id
    || some retry.next_write_attempt_id == other.write_pending_attempt_id

unfoldable pub retry_write_item : BatchState → WriteRetriedData → StateItem → Result StateItem
unfolding reuses_attempt
retry_write_item state retry item = do
  raise_if
      (item.write_status != WriteStatus.retry_confirmation_required
        || is_some item.write_lease
        || not retry.acknowledged_no_match
        || item.write_last_writer_id != some retry.previous_writer_id
        || item.write_last_claim_id != some retry.previous_claim_id
        || item.write_last_attempt_id != some retry.previous_write_attempt_id
        || item.write_attempt_count != retry.previous_attempt_number
        || item.write_last_lease_token_sha256 != some retry.previous_lease_token_sha256
        || item.candidate_sha256 != some retry.candidate_sha256
        || item.authorization_sha256 != some retry.authorization_sha256
        || item.authorization_nonce_sha256 != some retry.previous_authorization_nonce_sha256
        || item.external_claim_id != some retry.previous_external_claim_id
        || item.reconciliation_sha256 != some retry.reconciliation_sha256
        || retry.next_attempt_number != item.write_attempt_count + 1
        || retry.next_write_attempt_id == retry.previous_write_attempt_id)
      (corrupt_at "write retry does not bind an acknowledged no-match attempt: " retry.item_id)
  raise_if (any (λ other. other.item_id != retry.item_id && reuses_attempt retry other) state.items)
      (corrupt_at "write retry reuses another item's attempt identity: " retry.item_id)
  ok (record item {
    write_status = WriteStatus.queued;
    write_pending_attempt_id = some retry.next_write_attempt_id;
    write_started_event_sha256 = none;
    authorization_sha256 = none;
    authorization_nonce_sha256 = none;
    external_claim_id = none;
    write_result_sha256 = none;
    reconciliation_sha256 = none;
    write_failure_code = none;
    write_failure_message = none;
  })

unfoldable pub apply_write_retried : BatchState → BatchEvent → WriteRetriedData → Result BatchState
apply_write_retried state event retry =
    update_item state event retry.item_id (retry_write_item state retry)
