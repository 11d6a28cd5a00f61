-- ===== src/Batch/WriteLane/Moves.antt =====
-- Every change of an item that v2_reducer.py makes is a move of the abstract write lane.
use paperread.Prelude.{true, ◌≡◌, refl, ok, is_some, arith, nat_eq}
use paperread.Contracts.Scalars.{UuidString}
use paperread.Contracts.Manifest.{BatchManifest, ManifestItem}
use paperread.Contracts.Status.{Lane, worker, local_prepare, write_eq}
use paperread.Contracts.State.{StateItem, BatchState}
use paperread.Contracts.Events.{
  BatchEvent, LeaseMutationData, FinishedData, WriteClaimedData, WriteLeaseMutationData,
  WriteStartedData, WriteWrittenData, WriteUncertainData, WriteReconciledData, WriteRetriedData,
}
use paperread.Reducer.Leases.{reserve_item}
use paperread.Reducer.Claim.{claim_item}
use paperread.Reducer.Finish.{finish_item, retry_item}
use paperread.Reducer.WriteClaim.{claim_write_item}
use paperread.Reducer.WriteRun.{start_item, write_item, uncertain_item}
use paperread.Reducer.WriteSettle.{reconcile_item, retry_write_item, reconciled_status}
use paperread.Reducer.Recover.{recover_worker_item, recover_local_item, resume_item}
use paperread.Batch.Steps.{ItemStep, is_write_claim}
use paperread.Batch.Steps
use paperread.Batch.Finishes.{
  Finished, worker_failed, pdf_succeeded, zotero_succeeded, finish_item-eq-ok,
  worker_finish-Finished, local_finish,
}
use paperread.Batch.Mutations.{
  Mutated, renewed_worker, renewed_local, ended_worker, ended_local, mutate_item-Mutated,
  WriteMutated, renewed_write, ended_write, mutate_write_item-WriteMutated,
}
use paperread.Batch.Items.{Sound}
use paperread.Batch.WriteLane.{
  WriteMove, write_view, is_write_start, is_write_retry, stays, hands_over, claims, releases,
  starts, commits, doubts, reconciles, retries,
}

module _ (derive : UuidString → UuidString) (manifest : BatchManifest) (state : BatchState)
    (event : BatchEvent) (m : ManifestItem) (s s' : StateItem) where
  abbrev Moves : Type 0
  Moves = WriteMove event.payload (write_view s) (write_view s')

  mutate-Moves : (d : LeaseMutationData) → Mutated d s s' → Moves
  mutate-Moves d (renewed_worker lease lease' l x p e) = stays (ground arith)
  mutate-Moves d (renewed_local lease lease' l x p e) = stays (ground arith)
  mutate-Moves d (ended_worker lease l e) = stays (ground arith)
  mutate-Moves d (ended_local lease l e) = stays (ground arith)

  mutate_write-Moves : (d : WriteLeaseMutationData) → WriteMutated d s s' → Moves
  mutate_write-Moves d (renewed_write lease lease' l e) = stays (ground arith)
  mutate_write-Moves d (ended_write lease l p e) = releases (ground arith) (ground arith)

  worker_finish-Moves :
      (d : FinishedData)
      → is_some s.worker_lease ≡ true
      → Sound manifest m s
      → Finished manifest.write_policy m d s s'
      → Moves
  worker_finish-Moves d l r (worker_failed status f e) =
      hands_over (ground arith) (ground arith) (ground arith) (ground arith)
  worker_finish-Moves d l r (pdf_succeeded p e) =
      hands_over (ground arith) (ground arith) (ground arith) (ground arith)
  worker_finish-Moves d l r (zotero_succeeded p e) =
      hands_over (ground arith) (ground arith) (ground arith) (ground arith)

  finish-Moves :
      (d : FinishedData)
      → finish_item manifest.write_policy (ok m) event d s ≡ ok s'
      → Sound manifest m s
      → Moves
  finish-Moves d h r = by_lane d.lane refl
    where
      by_lane : (lane : Lane) → d.lane ≡ lane → Moves
      by_lane worker e =
          let (lease, held, _, _, _, rest) =
            finish_item-eq-ok manifest.write_policy (ok m) event d s h in
          worker_finish-Moves d (ground arith) r
            (worker_finish-Finished manifest.write_policy m d s s' (rw (← e) rest))
      by_lane local_prepare e =
          let (lease, held, _, _, _, rest) =
            finish_item-eq-ok manifest.write_policy (ok m) event d s h in
          let (status, f, e') = local_finish manifest.write_policy (ok m) d s s' (rw (← e) rest) in
          stays (ground arith)

  claim_write-Moves :
      (d : WriteClaimedData)
      → is_write_claim event.payload ≡ true
      → claim_write_item state m event d s ≡ ok s'
      → Moves
  unfolding claim_write_item
  claim_write-Moves d p h = claims p (ground arith) (ground arith) (ground arith) (ground arith)

  start-Moves :
      (d : WriteStartedData)
      → is_write_start event.payload ≡ true
      → start_item state event d s ≡ ok s'
      → Moves
  unfolding start_item
  start-Moves d p h = starts d.authorization_sha256 p (ground arith) (ground arith) (ground arith)

  write-Moves : (d : WriteWrittenData) → write_item (ok m) event d s ≡ ok s' → Moves
  unfolding write_item
  write-Moves d h = commits d.result_sha256 (ground arith) (ground arith) (ground arith)

  doubt-Moves : (d : WriteUncertainData) → uncertain_item event d s ≡ ok s' → Moves
  unfolding uncertain_item
  doubt-Moves d h = doubts (ground arith) (ground arith)

  reconcile-Moves : (d : WriteReconciledData) → reconcile_item d s ≡ ok s' → Moves
  unfolding reconcile_item
  reconcile-Moves d h =
      reconciles d.reconciliation_sha256 (reconciled_status d.outcome) (ground arith) (ground arith)
        (ground arith)

  retry_write-Moves :
      (d : WriteRetriedData)
      → is_write_retry event.payload ≡ true
      → retry_write_item state d s ≡ ok s'
      → Moves
  unfolding retry_write_item
  retry_write-Moves d p h = retries p (ground arith) (ground arith) (ground arith)

  -- Each change of a sound item that an event makes is a move of the abstract write lane under that
  -- event: a hand-over, a claim, a release, a start, a commit, a doubt, a reconciliation or a retry,
  -- each from the status that it needs, or it leaves the lane's view as it is.
  pub ItemStep-WriteMove : ItemStep derive state manifest event m s s' → Sound manifest m s → Moves
  ItemStep-WriteMove (Steps.claims kind d _ _ h) r = stays (unfold claim_item in ground arith)
  ItemStep-WriteMove (Steps.reserves d h) r = stays (unfold reserve_item in ground arith)
  ItemStep-WriteMove (Steps.mutates d h) r = mutate-Moves d (mutate_item-Mutated event d s s' h)
  ItemStep-WriteMove (Steps.finishes d h) r = finish-Moves d h r
  ItemStep-WriteMove (Steps.retries d h) r = stays (unfold retry_item in ground arith)
  ItemStep-WriteMove (Steps.recovers_worker d h) r =
      stays (unfold recover_worker_item in ground arith)
  ItemStep-WriteMove (Steps.recovers_local d h) r =
      stays (unfold recover_local_item in ground arith)
  ItemStep-WriteMove (Steps.resumes d _ h) r = stays (unfold resume_item in ground arith)
  ItemStep-WriteMove (Steps.claims_write d p _ _ _ h) r = claim_write-Moves d p h
  ItemStep-WriteMove (Steps.mutates_write d h) r =
      mutate_write-Moves d (mutate_write_item-WriteMutated event d s s' h)
  ItemStep-WriteMove (Steps.starts d p _ h) r = start-Moves d (rw p) h
  ItemStep-WriteMove (Steps.writes d h) r = write-Moves d h
  ItemStep-WriteMove (Steps.doubts d h) r = doubt-Moves d h
  ItemStep-WriteMove (Steps.reconciles d h) r = reconcile-Moves d h
  ItemStep-WriteMove (Steps.retries_write d p _ h) r = retry_write-Moves d (rw p) h
