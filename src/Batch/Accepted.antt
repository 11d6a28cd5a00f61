-- ===== src/Batch/Accepted.antt =====
-- What an accepted call of a handler of v2_reducer.py has checked on its way.
use paperread.Prelude.{
  true, false, ◌≡◌, some, List, ok, Result-cases, inl, inr, arith, any, leb, length, ◌+◌, ◌≤◌,
}
use paperread.Contracts.Scalars.{UuidString, timestamp}
use paperread.Contracts.Manifest.{BatchManifest, ManifestItem, is_pdf, is_zotero_write}
use paperread.Contracts.State.{StateItem, BatchState}
use paperread.Contracts.Events.{
  BatchEvent, ClaimKind, ClaimAssignment, ClaimedData, RunRecoveredData, WriteClaimedData,
}
use paperread.Reducer.Base.{manifest_item, update_at, update_item, with_items}
use paperread.Reducer.Claim.{active_claims, claim_item, claim_assignment, claim_all, apply_claim}
use paperread.Reducer.WriteClaim.{holds_write_lane, claim_write_item, apply_write_claimed}
use paperread.Reducer.Recover.{recover_workers, recover_locals, resume_locals, apply_recovered}
use paperread.Reducer.Apply.{apply_aborted, dispatch, apply_event}
use paperread.Batch.Steps.{LeaseTimes}

-- What the events about several items, and the write claim, have passed when they are accepted.
module _ (state : BatchState) (manifest : BatchManifest) (event : BatchEvent) where
  pub claim_assignment-eq-ok :
      (kind : ClaimKind) (d : ClaimAssignment) (items : List StateItem) {items' : List StateItem}
      → claim_assignment state manifest event kind d items ≡ ok items'
      → (m : ManifestItem) × (manifest_item manifest.items d.item_id ≡ ok m)
        × LeaseTimes event d.issued_at d.expires_at
        × (update_at state.items d.item_id (claim_item kind m d) items ≡ ok items')
  unfolding claim_assignment
  claim_assignment-eq-ok kind d items h =
      elim (Result-cases (manifest_item manifest.items d.item_id)) [
        | inl (m, e) ↦ (m, e, ground arith, ground arith)
        | inr (x, e) ↦ absurd (ground arith)
      ]

  pub apply_claim-eq-ok :
      (d : ClaimedData) {state' : BatchState}
      → apply_claim state manifest event d ≡ ok state'
      → (items' : List StateItem) × (leb
            (active_claims state.items + length d.assignments)
            manifest.default_concurrency
          ≡ true)
        × (claim_all state manifest event d.kind d.assignments state.items ≡ ok items')
        × (with_items state items' event ≡ ok state')
  unfolding apply_claim
  apply_claim-eq-ok d h = ground arith

  pub apply_recovered-eq-ok :
      (d : RunRecoveredData) {state' : BatchState}
      → apply_recovered state event d ≡ ok state'
      → (workers : List StateItem) × (locals : List StateItem) × (items' : List StateItem)
        × (recover_workers state d.expired_worker_leases state.items ≡ ok workers)
        × (recover_locals state d.expired_local_prepare_leases workers ≡ ok locals)
        × (resume_locals state event d.resumed_local_prepare_leases locals ≡ ok items')
        × (with_items state items' event ≡ ok state')
  unfolding apply_recovered
  apply_recovered-eq-ok d h = ground arith

  pub apply_write_claimed-eq-ok :
      (d : WriteClaimedData) {state' : BatchState}
      → apply_write_claimed state manifest event d ≡ ok state'
      → (m : ManifestItem) × (is_zotero_write manifest.write_policy ≡ true)
        × (manifest_item manifest.items d.item_id ≡ ok m)
        × (is_pdf m ≡ false)
        × (any holds_write_lane state.items ≡ false)
        × (update_item state event d.item_id (claim_write_item state m event d) ≡ ok state')
  unfolding apply_write_claimed
  apply_write_claimed-eq-ok d h = elim (Result-cases (manifest_item manifest.items d.item_id)) [
    | inl (m, e) ↦ (m, ground arith, e, ground arith, ground arith, ground arith)
    | inr (x, e) ↦ absurd (ground arith)
  ]

  pub apply_aborted-eq-ok :
      {state' : BatchState}
      → apply_aborted state event ≡ ok state'
      → with_items state state.items event ≡ ok state'
  unfolding apply_aborted
  apply_aborted-eq-ok h = ground arith

module _ (derive : UuidString → UuidString) (state : BatchState) (manifest : BatchManifest)
    (event : BatchEvent) where
  -- The event continues the journal: its number, the hash before it, and its time.
  abbrev pub Continues : Type 0
  Continues =
      (event.sequence ≡ state.next_sequence)
      × (event.previous_event_sha256 ≡ some state.latest_event_sha256)
      × (timestamp state.updated_at ≤ timestamp event.occurred_at)

  pub apply_event-eq-ok :
      {state' : BatchState}
      → apply_event derive state manifest event ≡ ok state'
      → Continues × (dispatch derive state manifest event event.payload ≡ ok state')
  unfolding apply_event
  apply_event-eq-ok h = ground arith
