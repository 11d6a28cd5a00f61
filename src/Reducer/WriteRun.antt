-- ===== src/Reducer/WriteRun.antt =====
-- The write lane of v2_reducer.py, second part: the authorized write starts, is committed, or is
-- marked uncertain.
use paperread.Prelude.{
  Bool, not, ◌&&◌, ◌||◌, none, some, Result, ok, ◌>>=◌, ◌>>◌, or_raise, raise_if, ltb, leb, is_some,
  any, ◌==◌, ◌!=◌, nat_eq, string_eq, option_eq, ℕ,
}
use paperread.Contracts.Scalars.{rfc3339_eq, timestamp}
use paperread.Contracts.Manifest.{BatchManifest, ManifestItem, is_pdf}
use paperread.Contracts.Status.{WriteStatus, write_eq}
use paperread.Contracts.State.{StateItem, BatchState}
use paperread.Contracts.Events.{
  WriteStartedData, WriteWrittenData, WriteUncertainData, UncertainKind, marked_uncertain,
  lease_expired_uncertain, BatchEvent,
}
use paperread.Reducer.Base.{corrupt, corrupt_at, manifest_item, update_item}
use paperread.Reducer.Leases.{same_write_lease, assertion_error}

reuses_authorization : WriteStartedData → StateItem → Bool
reuses_authorization start item =
    some start.authorization_sha256 == item.write_last_authorization_sha256
    || some start.authorization_nonce_sha256 == item.write_last_authorization_nonce_sha256

unfoldable pub start_item :
    BatchState → BatchEvent → WriteStartedData → StateItem → Result StateItem
unfolding reuses_authorization
start_item state event start item = do
  raise_if
      (item.write_status != WriteStatus.claimed
        || not (same_write_lease item.write_lease start.identity))
      (corrupt_at "write start identity mismatch: " start.item_id)
  lease ← or_raise item.write_lease assertion_error
  raise_if
      (start.started_at != event.occurred_at
        || not (
            leb (timestamp lease.issued_at) (timestamp event.occurred_at)
            && ltb (timestamp event.occurred_at) (timestamp lease.expires_at))
        || start.external_claim_id != start.claim_id
        || is_some item.authorization_sha256
        || is_some item.authorization_nonce_sha256
        || is_some item.external_claim_id
        || reuses_authorization start item)
      (corrupt_at "write start has stale authorization or non-authoritative time: " start.item_id)
  raise_if
      (any (λ other. other.item_id != start.item_id && reuses_authorization start other)
        state.items)
      (corrupt_at "write start reuses another item's authorization: " start.item_id)
  ok (record item {
    write_status = WriteStatus.started;
    write_started_event_sha256 = some event.event_sha256;
    authorization_sha256 = some start.authorization_sha256;
    authorization_nonce_sha256 = some start.authorization_nonce_sha256;
    external_claim_id = some start.external_claim_id;
    write_last_authorization_sha256 = some start.authorization_sha256;
    write_last_authorization_nonce_sha256 = some start.authorization_nonce_sha256;
    write_last_external_claim_id = some start.external_claim_id;
    write_failure_code = none;
    write_failure_message = none;
  })

unfoldable pub apply_write_started : BatchState → BatchEvent → WriteStartedData → Result BatchState
apply_write_started state event start =
    update_item state event start.item_id (start_item state event start)

-- `found` is what the lookup of the manifest item gives.
unfoldable pub write_item :
    Result ManifestItem → BatchEvent → WriteWrittenData → StateItem → Result StateItem
write_item found event commit item = do
  m ← found
  raise_if
      (item.write_status != WriteStatus.started
        || not (same_write_lease item.write_lease commit.identity))
      (corrupt_at "write commit identity mismatch: " commit.item_id)
  lease ← or_raise item.write_lease assertion_error
  raise_if
      (leb (timestamp lease.expires_at) (timestamp event.occurred_at)
        || some commit.authorization_sha256 != item.authorization_sha256
        || is_pdf m
        || some commit.parent_key != item.resolved_zotero_item_key)
      (corrupt_at "write commit has stale authorization, parent, or lease: " commit.item_id)
  ok (record item {
    write_status = WriteStatus.written;
    write_lease = none;
    write_result_sha256 = some commit.result_sha256;
    reconciliation_sha256 = none;
    write_failure_code = none;
    write_failure_message = none;
  })

unfoldable pub apply_write_written :
    BatchState → BatchManifest → BatchEvent → WriteWrittenData → Result BatchState
apply_write_written state manifest event commit =
    update_item state event commit.item_id
      (write_item (manifest_item manifest.items commit.item_id) event commit)

-- The clock of the two ways to uncertainty.
uncertain_in_time : UncertainKind → ℕ → ℕ → Result (Unit {0})
uncertain_in_time lease_expired_uncertain now expiry =
    raise_if (ltb now expiry)
      (corrupt "started write expiry event occurred before authoritative expiry")
uncertain_in_time marked_uncertain now expiry =
    raise_if (leb expiry now)
      (corrupt "active write uncertain event occurred after authoritative expiry")

unfoldable pub uncertain_item : BatchEvent → WriteUncertainData → StateItem → Result StateItem
unfolding uncertain_in_time
uncertain_item event doubt item = do
  raise_if
      (item.write_status != WriteStatus.started
        || not (same_write_lease item.write_lease doubt.identity))
      (corrupt_at "write uncertain identity mismatch: " doubt.item_id)
  lease ← or_raise item.write_lease assertion_error
  raise_if (some doubt.authorization_sha256 != item.authorization_sha256)
      (corrupt_at "write uncertain authorization mismatch: " doubt.item_id)
  uncertain_in_time doubt.kind (timestamp event.occurred_at) (timestamp lease.expires_at)
  ok (record item {
    write_status = WriteStatus.uncertain;
    write_lease = none;
    write_failure_code = some "write_outcome_uncertain";
    write_failure_message = some doubt.reason;
  })

unfoldable pub apply_write_uncertain :
    BatchState → BatchEvent → WriteUncertainData → Result BatchState
apply_write_uncertain state event doubt =
    update_item state event doubt.item_id (uncertain_item event doubt)
