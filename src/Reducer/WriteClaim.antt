-- ===== src/Reducer/WriteClaim.antt =====
-- The write lane of v2_reducer.py, first part: `_apply_write_claimed` and
-- `_apply_write_lease_mutation`.
use paperread.Prelude.{
  ℕ, ◌+◌, ◌-◌, String, Bool, true, false, not, ◌&&◌, ◌||◌, Option, none, some, Result, ok, ◌>>=◌,
  ◌>>◌, or_raise, raise_if, ltb, leb, is_some, is_none, any, ◌==◌, ◌!=◌, nat_eq, string_eq,
  option_eq,
}
use paperread.Contracts.Scalars.{rfc3339_eq, timestamp, timedelta}
use paperread.Contracts.Manifest.{
  BatchManifest, ManifestItem, pdf_item, zotero_item_item, zotero_title_item, is_pdf,
  is_zotero_write,
}
use paperread.Contracts.Status.{WorkerStatus, WriteStatus, worker_eq, write_eq}
use paperread.Contracts.State.{WriteLeaseState, StateItem, BatchState}
use paperread.Contracts.Lanes.{is_write_active}
use paperread.Contracts.Events.{
  WriteClaimedData, WriteLeaseMutationData, MutationKind, renewed, released, lease_expired,
  BatchEvent,
}
use paperread.Reducer.Base.{
  corrupt, corrupt_at, max_write_lease_seconds, manifest_item, update_item,
}
use paperread.Reducer.Leases.{same_write_lease, assertion_error}

-- `write_status in {"claimed", "started", "uncertain"}`: the item holds the serial write lane.
abbrev pub holds_write_lane : StateItem → Bool
holds_write_lane item =
    is_write_active item.write_status || item.write_status == WriteStatus.uncertain

matches_key : Option String → Option String → Bool
matches_key none resolved = true
matches_key (some key) resolved = resolved == some key

parent_identity_matches : ManifestItem → StateItem → Bool
unfolding matches_key
parent_identity_matches (pdf_item i s) item = false
parent_identity_matches (zotero_item_item i s) item =
    item.resolved_zotero_item_key == some s.item_key
parent_identity_matches (zotero_title_item i s) item =
    matches_key s.resolved_item_key item.resolved_zotero_item_key

-- `reused` holds where an identity of the claim is the item's previous one.
reuses_claim : WriteClaimedData → StateItem → Bool
reuses_claim claim item =
    some claim.claim_id == item.write_last_claim_id
    || some claim.write_attempt_id == item.write_last_attempt_id
    || some claim.lease_token_sha256 == item.write_last_lease_token_sha256

abbrev pub new_write_lease : WriteClaimedData → WriteLeaseState
new_write_lease claim = record {
  writer_id = claim.writer_id;
  claim_id = claim.claim_id;
  write_attempt_id = claim.write_attempt_id;
  attempt_number = claim.attempt_number;
  lease_token_sha256 = claim.lease_token_sha256;
  issued_at = claim.issued_at;
  expires_at = claim.expires_at;
  candidate_sha256 = claim.candidate_sha256;
}

abbrev mismatch : Option ℕ → ℕ → Bool
mismatch none attempt = false
mismatch (some pending) attempt = attempt != pending

unfoldable pub claim_write_item :
    BatchState → ManifestItem → BatchEvent → WriteClaimedData → StateItem → Result StateItem
unfolding parent_identity_matches reuses_claim
claim_write_item state m event claim item = do
  raise_if
      (item.write_status != WriteStatus.queued
        || is_some item.write_lease
        || item.worker_status != WorkerStatus.succeeded
        || is_none item.resolved_zotero_item_key
        || not (parent_identity_matches m item)
        || is_none item.candidate_sha256
        || some claim.candidate_sha256 != item.candidate_sha256
        || claim.attempt_number != item.write_attempt_count + 1
        || claim.issued_at != event.occurred_at
        || leb (timestamp claim.expires_at) (timestamp claim.issued_at)
        || ltb (timedelta max_write_lease_seconds)
            (timestamp claim.expires_at - timestamp claim.issued_at))
      (corrupt_at "illegal or non-authoritative write claim: " claim.item_id)
  raise_if (mismatch item.write_pending_attempt_id claim.write_attempt_id)
      (corrupt_at "write claim does not consume the retry-bound attempt: " claim.item_id)
  raise_if (is_some item.write_started_event_sha256 || is_some item.authorization_sha256)
      (corrupt_at "queued write retains an active authorization: " claim.item_id)
  raise_if (reuses_claim claim item)
      (corrupt_at "write claim reuses the previous attempt identity: " claim.item_id)
  raise_if (any (λ other. other.item_id != claim.item_id && reuses_claim claim other) state.items)
      (corrupt_at "write claim reuses another item's attempt identity: " claim.item_id)
  ok (record item {
    write_status = WriteStatus.claimed;
    write_attempt_count = claim.attempt_number;
    write_lease = some (new_write_lease claim);
    write_last_writer_id = some claim.writer_id;
    write_last_claim_id = some claim.claim_id;
    write_last_attempt_id = some claim.write_attempt_id;
    write_last_lease_token_sha256 = some claim.lease_token_sha256;
    write_pending_attempt_id = none;
    write_result_sha256 = none;
    reconciliation_sha256 = none;
    write_failure_code = none;
    write_failure_message = none;
  })

unfoldable pub apply_write_claimed :
    BatchState → BatchManifest → BatchEvent → WriteClaimedData → Result BatchState
apply_write_claimed state manifest event claim = do
  raise_if (not (is_zotero_write manifest.write_policy))
      (corrupt "write claim is forbidden by manifest write policy")
  m ← manifest_item manifest.items claim.item_id
  raise_if (is_pdf m) (corrupt_at "write claim targets a local PDF item: " claim.item_id)
  raise_if (any holds_write_lane state.items) (corrupt "write claim violates the serial write lane")
  update_item state event claim.item_id (claim_write_item state m event claim)

-- A renewal is allowed while claimed or started, a release or an expiry only while claimed.
unfoldable pub mutable_at : MutationKind → WriteStatus → Bool
mutable_at renewed status = is_write_active status
mutable_at released status = status == WriteStatus.claimed
mutable_at lease_expired status = status == WriteStatus.claimed

unfoldable pub renew_write :
    BatchEvent → WriteLeaseMutationData → StateItem → WriteLeaseState → Result StateItem
renew_write event mutation item lease = do
  issued ← or_raise mutation.issued_at (corrupt "write renew event is missing lease times")
  expires ← or_raise mutation.expires_at (corrupt "write renew event is missing lease times")
  raise_if
      (issued != event.occurred_at
        || leb (timestamp lease.expires_at) (timestamp event.occurred_at)
        || ltb (timestamp issued) (timestamp lease.issued_at)
        || leb (timestamp expires) (timestamp issued)
        || leb (timestamp expires) (timestamp lease.expires_at)
        || ltb (timedelta max_write_lease_seconds) (timestamp expires - timestamp issued))
      (corrupt "write renew event has non-authoritative lease times")
  ok (record item {
    write_lease = some (record lease { issued_at = issued; expires_at = expires });
  })

write_ends_in_time : MutationKind → ℕ → ℕ → Result (Unit {0})
write_ends_in_time lease_expired now expiry =
    raise_if (ltb now expiry)
      (corrupt "write lease expiry event occurred before authoritative expiry")
write_ends_in_time _ now expiry =
    raise_if (leb expiry now) (corrupt "write release event occurred after authoritative expiry")

unfoldable pub end_write :
    BatchEvent → WriteLeaseMutationData → StateItem → WriteLeaseState → Result StateItem
unfolding write_ends_in_time
end_write event mutation item lease = do
  raise_if (is_some mutation.issued_at || is_some mutation.expires_at)
      (corrupt "write release/expiry event must not carry replacement lease times")
  write_ends_in_time mutation.kind (timestamp event.occurred_at) (timestamp lease.expires_at)
  ok (record item { write_status = WriteStatus.queued; write_lease = none })

unfoldable pub mutate_write :
    MutationKind
    → BatchEvent
    → WriteLeaseMutationData
    → StateItem
    → WriteLeaseState
    → Result StateItem
mutate_write renewed = renew_write
mutate_write released = end_write
mutate_write lease_expired = end_write

unfoldable pub mutate_write_item :
    BatchEvent → WriteLeaseMutationData → StateItem → Result StateItem
mutate_write_item event mutation item = do
  raise_if
      (not (mutable_at mutation.kind item.write_status)
        || not (same_write_lease item.write_lease mutation.identity))
      (corrupt_at "write lease mutation identity mismatch: " mutation.item_id)
  lease ← or_raise item.write_lease assertion_error
  mutate_write mutation.kind event mutation item lease

unfoldable pub apply_write_lease_mutation :
    BatchState → BatchEvent → WriteLeaseMutationData → Result BatchState
apply_write_lease_mutation state event mutation =
    update_item state event mutation.item_id (mutate_write_item event mutation)
