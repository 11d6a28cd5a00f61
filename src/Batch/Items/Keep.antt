-- ===== src/Batch/Items/Keep.antt =====
-- Every change of an item that v2_reducer.py makes keeps `Sound`.
use paperread.Prelude.{true, ◌≡◌, refl, ok, is_some, arith}
use paperread.Contracts.Scalars.{UuidString}
use paperread.Contracts.Manifest.{BatchManifest, ManifestItem, is_zotero_write}
use paperread.Contracts.Status.{Lane, worker, local_prepare, worker_eq, local_eq, write_eq}
use paperread.Contracts.State.{StateItem, BatchState}
use paperread.Contracts.Events.{
  BatchEvent, ClaimKind, ClaimAssignment, CoordinationReservedData, LeaseMutationData, FinishedData,
  RetriedData, RecoveredLease, ResumedLocalPrepareLease, WriteClaimedData, WriteLeaseMutationData,
  WriteStartedData, WriteWrittenData, WriteUncertainData, WriteReconciledData, WriteRetriedData,
}
use paperread.Batch.Finishes.{
  Finished, worker_failed, pdf_succeeded, zotero_succeeded, FinishesLocal, finish_item-eq-ok,
  worker_finish-Finished, local_finish,
}
use paperread.Reducer.Leases.{reserve_item}
use paperread.Reducer.Claim.{claim_item}
use paperread.Reducer.Finish.{finish_item, retry_item}
use paperread.Reducer.WriteClaim.{claim_write_item}
use paperread.Reducer.WriteRun.{start_item, write_item, uncertain_item}
use paperread.Reducer.WriteSettle.{reconcile_item, retry_write_item}
use paperread.Reducer.Recover.{recover_worker_item, recover_local_item, resume_item}
use paperread.Batch.Steps.{
  ItemStep, claims, reserves, mutates, finishes, retries, recovers_worker, recovers_local, resumes,
  claims_write, mutates_write, starts, writes, doubts, reconciles, retries_write,
}
use paperread.Batch.Mutations.{
  Mutated, renewed_worker, renewed_local, ended_worker, ended_local, mutate_item-Mutated,
  WriteMutated, renewed_write, ended_write, mutate_write_item-WriteMutated,
}
use paperread.Batch.Items.{Sound}

module _ (derive : UuidString → UuidString) (manifest : BatchManifest) (state : BatchState)
    (event : BatchEvent) (m : ManifestItem) (s s' : StateItem) where
  abbrev pub Keeps : Type 0
  Keeps = Sound manifest m s → Sound manifest m s'

  claim-Sound : (kind : ClaimKind) (d : ClaimAssignment) → claim_item kind m d s ≡ ok s' → Keeps
  unfolding claim_item
  claim-Sound kind d h r = ground arith

  reserve-Sound : (d : CoordinationReservedData) → reserve_item derive event d s ≡ ok s' → Keeps
  unfolding reserve_item
  reserve-Sound d h r = ground arith

  retry-Sound : (d : RetriedData) → retry_item d s ≡ ok s' → Keeps
  unfolding retry_item
  retry-Sound d h r = ground arith

  recover_worker-Sound : (d : RecoveredLease) → recover_worker_item d s ≡ ok s' → Keeps
  unfolding recover_worker_item
  recover_worker-Sound d h r = ground arith

  recover_local-Sound : (d : RecoveredLease) → recover_local_item d s ≡ ok s' → Keeps
  unfolding recover_local_item
  recover_local-Sound d h r = ground arith

  resume-Sound : (d : ResumedLocalPrepareLease) → resume_item event d s ≡ ok s' → Keeps
  unfolding resume_item
  resume-Sound d h r = ground arith

  start-Sound : (d : WriteStartedData) → start_item state event d s ≡ ok s' → Keeps
  unfolding start_item
  start-Sound d h r = ground arith

  write-Sound : (d : WriteWrittenData) → write_item (ok m) event d s ≡ ok s' → Keeps
  unfolding write_item
  write-Sound d h r = ground arith

  doubt-Sound : (d : WriteUncertainData) → uncertain_item event d s ≡ ok s' → Keeps
  unfolding uncertain_item
  doubt-Sound d h r = ground arith

  reconcile-Sound : (d : WriteReconciledData) → reconcile_item d s ≡ ok s' → Keeps
  unfolding reconcile_item
  reconcile-Sound d h r = ground arith

  retry_write-Sound : (d : WriteRetriedData) → retry_write_item state d s ≡ ok s' → Keeps
  unfolding retry_write_item
  retry_write-Sound d h r = ground arith

  mutate-Sound : (d : LeaseMutationData) → Mutated d s s' → Keeps
  mutate-Sound d (renewed_worker lease lease' l x p e) r = ground arith
  mutate-Sound d (renewed_local lease lease' l x p e) r = ground arith
  mutate-Sound d (ended_worker lease l e) r = ground arith
  mutate-Sound d (ended_local lease l e) r = ground arith

  mutate_write-Sound : (d : WriteLeaseMutationData) → WriteMutated d s s' → Keeps
  mutate_write-Sound d (renewed_write lease lease' l e) r = ground arith
  mutate_write-Sound d (ended_write lease l p e) r = ground arith

  claim_write-Sound :
      (d : WriteClaimedData)
      → is_zotero_write manifest.write_policy ≡ true
      → claim_write_item state m event d s ≡ ok s'
      → Keeps
  unfolding claim_write_item
  claim_write-Sound d p h r = ground arith

  worker_finish-Sound :
      (d : FinishedData)
      → is_some s.worker_lease ≡ true
      → Finished manifest.write_policy m d s s'
      → Keeps
  worker_finish-Sound d l (worker_failed status f e) r = ground arith
  worker_finish-Sound d l (pdf_succeeded p e) r = ground arith
  worker_finish-Sound d l (zotero_succeeded p e) r = ground arith

  local_finish-Sound :
      (d : FinishedData) → is_some s.local_prepare_lease ≡ true → FinishesLocal d s s' → Keeps
  local_finish-Sound d l (status, f, e) r = ground arith

  finish-Sound :
      (d : FinishedData) → finish_item manifest.write_policy (ok m) event d s ≡ ok s' → Keeps
  finish-Sound d h r = by_lane d.lane refl
    where
      by_lane : (lane : Lane) → d.lane ≡ lane → Sound manifest m s'
      by_lane worker e =
          let (lease, held, _, _, _, rest) =
            finish_item-eq-ok manifest.write_policy (ok m) event d s h in
          worker_finish-Sound d (ground arith)
            (worker_finish-Finished manifest.write_policy m d s s' (rw (← e) rest)) r
      by_lane local_prepare e =
          let (lease, held, _, _, _, rest) =
            finish_item-eq-ok manifest.write_policy (ok m) event d s h in
          local_finish-Sound d (ground arith)
            (local_finish manifest.write_policy (ok m) d s s' (rw (← e) rest)) r

  pub ItemStep-Sound : ItemStep derive state manifest event m s s' → Keeps
  ItemStep-Sound (claims kind d _ _ h) r = claim-Sound kind d h r
  ItemStep-Sound (reserves d h) r = reserve-Sound d h r
  ItemStep-Sound (mutates d h) r = mutate-Sound d (mutate_item-Mutated event d s s' h) r
  ItemStep-Sound (finishes d h) r = finish-Sound d h r
  ItemStep-Sound (retries d h) r = retry-Sound d h r
  ItemStep-Sound (recovers_worker d h) r = recover_worker-Sound d h r
  ItemStep-Sound (recovers_local d h) r = recover_local-Sound d h r
  ItemStep-Sound (resumes d _ h) r = resume-Sound d h r
  ItemStep-Sound (claims_write d _ p _ _ h) r = claim_write-Sound d p h r
  ItemStep-Sound (mutates_write d h) r =
      mutate_write-Sound d (mutate_write_item-WriteMutated event d s s' h) r
  ItemStep-Sound (starts d _ _ h) r = start-Sound d h r
  ItemStep-Sound (writes d h) r = write-Sound d h r
  ItemStep-Sound (doubts d h) r = doubt-Sound d h r
  ItemStep-Sound (reconciles d h) r = reconcile-Sound d h r
  ItemStep-Sound (retries_write d _ _ h) r = retry_write-Sound d h r
