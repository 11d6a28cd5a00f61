-- ===== src/Batch/Steps.antt =====
-- The abstract view of the reducer: a step relation on single items, one constructor for each change
-- that an event can make to an item, and the runs of such steps. Below, every accepted event is
-- shown to be such a run.
use paperread.Prelude.{
  ℕ, Bool, true, false, ◌≡◌, some, List, [], ◌∷◌, get_elem?, set, ok, ◌+◌, ◌<◌, ◌≤◌,
}
use paperread.Prelude.{any}
use paperread.Contracts.Scalars.{UuidString, Rfc3339Utc, timestamp, timedelta}
use paperread.Contracts.Manifest.{BatchManifest, ManifestItem, is_pdf, item_id_of, is_zotero_write}
use paperread.Contracts.State.{StateItem, BatchState}
use paperread.Contracts.Events.{
  BatchEvent, EventData, ClaimKind, ClaimAssignment, CoordinationReservedData, LeaseMutationData,
  FinishedData, RetriedData, RecoveredLease, ResumedLocalPrepareLease, WriteClaimedData,
  WriteLeaseMutationData, WriteStartedData, WriteWrittenData, WriteUncertainData,
  WriteReconciledData, WriteRetriedData,
}
use paperread.Reducer.Base.{max_task_lease_seconds}
use paperread.Reducer.Leases.{reserve_item, mutate_item}
use paperread.Reducer.Claim.{claim_item}
use paperread.Reducer.Finish.{finish_item, retry_item}
use paperread.Reducer.WriteClaim.{holds_write_lane, claim_write_item, mutate_write_item}
use paperread.Reducer.WriteRun.{start_item, write_item, uncertain_item}
use paperread.Reducer.WriteSettle.{reconcile_item, retry_write_item}
use paperread.Reducer.Recover.{recover_worker_item, recover_local_item, resume_item}

abbrev pub is_write_claim : EventData → Bool
is_write_claim (EventData.write_claimed d) = true
is_write_claim _ = false

abbrev pub is_claim : EventData → Bool
is_claim (EventData.claimed d) = true
is_claim _ = false

abbrev has_more {ℓ} : {A : Type ℓ} → List A → Bool
has_more [] = false
has_more (x ∷ xs) = true

-- A new task lease begins with the event, and lasts for at most the maximal duration.
abbrev pub LeaseTimes : BatchEvent → Rfc3339Utc → Rfc3339Utc → Type 0
LeaseTimes event issued expires =
    (issued ≡ event.occurred_at)
    × (timestamp issued < timestamp expires)
    × (timestamp expires ≤ timestamp issued + timedelta max_task_lease_seconds)

-- a recovery that resumes some local attempt
abbrev pub is_resumption : EventData → Bool
is_resumption (EventData.run_recovered d) = has_more d.resumed_local_prepare_leases
is_resumption _ = false

module _ (derive : UuidString → UuidString) (state : BatchState) (manifest : BatchManifest)
    (event : BatchEvent) where
  -- One change of the state item `s` of the manifest item `m` into `s'`.
  pub data ItemStep (m : ManifestItem) (s s' : StateItem) : Type 0 where
    claims :
        (kind : ClaimKind) (d : ClaimAssignment)
        → is_claim event.payload ≡ true
        → LeaseTimes event d.issued_at d.expires_at
        → claim_item kind m d s ≡ ok s'
        → ItemStep m s s'
    reserves :
        (d : CoordinationReservedData) → reserve_item derive event d s ≡ ok s' → ItemStep m s s'
    mutates : (d : LeaseMutationData) → mutate_item event d s ≡ ok s' → ItemStep m s s'
    finishes :
        (d : FinishedData)
        → finish_item manifest.write_policy (ok m) event d s ≡ ok s'
        → ItemStep m s s'
    retries : (d : RetriedData) → retry_item d s ≡ ok s' → ItemStep m s s'
    recovers_worker : (d : RecoveredLease) → recover_worker_item d s ≡ ok s' → ItemStep m s s'
    recovers_local : (d : RecoveredLease) → recover_local_item d s ≡ ok s' → ItemStep m s s'
    resumes :
        (d : ResumedLocalPrepareLease)
        → is_resumption event.payload ≡ true
        → resume_item event d s ≡ ok s'
        → ItemStep m s s'
    claims_write :
        (d : WriteClaimedData)
        → is_write_claim event.payload ≡ true
        → is_zotero_write manifest.write_policy ≡ true
        → is_pdf m ≡ false
        → any holds_write_lane state.items ≡ false
        → claim_write_item state m event d s ≡ ok s'
        → ItemStep m s s'
    mutates_write :
        (d : WriteLeaseMutationData) → mutate_write_item event d s ≡ ok s' → ItemStep m s s'
    starts :
        (d : WriteStartedData)
        → event.payload ≡ EventData.write_started d
        → d.item_id ≡ item_id_of m
        → start_item state event d s ≡ ok s'
        → ItemStep m s s'
    writes : (d : WriteWrittenData) → write_item (ok m) event d s ≡ ok s' → ItemStep m s s'
    doubts : (d : WriteUncertainData) → uncertain_item event d s ≡ ok s' → ItemStep m s s'
    reconciles : (d : WriteReconciledData) → reconcile_item d s ≡ ok s' → ItemStep m s s'
    retries_write :
        (d : WriteRetriedData)
        → event.payload ≡ EventData.write_retried d
        → d.item_id ≡ item_id_of m
        → retry_write_item state d s ≡ ok s'
        → ItemStep m s s'

  -- One step of the list: the item at one position takes a step, the others stay.
  pub data ListStep (items items' : List StateItem) : Type 0 where
    at :
        (index : ℕ) (m : ManifestItem) (s s' : StateItem)
        → get_elem? manifest.items index ≡ some m
        → get_elem? items index ≡ some s
        → ItemStep m s s'
        → items' ≡ set items index s'
        → ListStep items items'

  pub data Run (items : List StateItem) : List StateItem → Type 0 where
    here : Run items items
    next :
        {items' items'' : List StateItem}
        → Run items items'
        → ListStep items' items''
        → Run items items''
