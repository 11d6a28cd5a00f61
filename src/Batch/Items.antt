-- ===== src/Batch/Items.antt =====
-- What holds of every single item of a replayed state: leases, lanes, kinds and authorizations agree.
pub mod Keep
use paperread.Prelude.{
  ℕ, Bool, true, false, not, ◌&&◌, ◌||◌, ◌≡◌, refl, Option, none, some, Paired, Result, ok, is_some,
  arith, ◌==◌,
}
use paperread.Contracts.Scalars.{UuidString}
use paperread.Contracts.Manifest.{BatchManifest, ManifestItem, is_pdf, is_zotero_write}
use paperread.Contracts.Status.{
  WorkerStatus, LocalPrepareStatus, WriteStatus, worker_eq, local_eq, write_eq,
}
use paperread.Contracts.Lanes.{is_write_active}
use paperread.Contracts.State.{StateItem, BatchState}
use paperread.Contracts.Events.{
  BatchEvent, EventData, ClaimKind, ClaimAssignment, CoordinationReservedData, LeaseMutationData,
  FinishedData, RetriedData, RecoveredLease, ResumedLocalPrepareLease, WriteClaimedData,
  WriteLeaseMutationData, WriteStartedData, WriteWrittenData, WriteUncertainData,
  WriteReconciledData, WriteRetriedData,
}
use paperread.Batch.Finishes.{
  Finished, worker_failed, pdf_succeeded, zotero_succeeded, FinishesLocal, finish_item-eq-ok,
  worker_finish-Finished, local_finish,
}
use paperread.Reducer.Base.{initial_item}
use paperread.Reducer.Leases.{reserve_item, mutate_item, same_lease, same_write_lease}
use paperread.Reducer.Claim.{claim_item, coordination_uncertain}
use paperread.Reducer.Finish.{finish_item, retry_item}
use paperread.Reducer.WriteClaim.{claim_write_item, mutate_write_item}
use paperread.Reducer.WriteRun.{start_item, write_item, uncertain_item}
use paperread.Reducer.WriteSettle.{reconcile_item, retry_write_item}
use paperread.Reducer.Recover.{recover_worker_item, recover_local_item, resume_item}
use paperread.Batch.Steps.{
  ItemStep, claims, reserves, mutates, finishes, retries, recovers_worker, recovers_local, resumes,
  claims_write, mutates_write, starts, writes, doubts, reconciles, retries_write,
}

-- The statuses after an authorized write has started.
abbrev pub has_started : WriteStatus → Bool
has_started WriteStatus.started = true
has_started WriteStatus.uncertain = true
has_started WriteStatus.retry_confirmation_required = true
has_started WriteStatus.written = true
has_started WriteStatus.blocked = true
has_started _ = false

-- The statuses of an item that no Zotero write concerns.
abbrev pub is_unwritten : WriteStatus → Bool
is_unwritten WriteStatus.not_applicable = true
is_unwritten WriteStatus.awaiting_candidate = true
is_unwritten WriteStatus.prepared_only = true
is_unwritten _ = false

pub record Sound (manifest : BatchManifest) (m : ManifestItem) (s : StateItem) : Type 0 where
  pub worker_leased : is_some s.worker_lease ≡ (s.worker_status == WorkerStatus.claimed)
  pub local_leased :
      is_some s.local_prepare_lease ≡ (s.local_prepare_status == LocalPrepareStatus.claimed)
  pub write_leased : is_some s.write_lease ≡ is_write_active s.write_status
  pub exclusive :
      s.worker_status ≡ WorkerStatus.claimed
      → ((s.local_prepare_status == LocalPrepareStatus.claimed) ≡ false)
        × (coordination_uncertain s ≡ false)
  pub local_kind : (s.local_prepare_status == LocalPrepareStatus.not_applicable) ≡ not (is_pdf m)
  pub write_kind : (s.write_status == WriteStatus.not_applicable) ≡ is_pdf m
  pub opened :
      is_pdf m ≡ false
      → (s.write_status == WriteStatus.awaiting_candidate)
        ≡ not (s.worker_status == WorkerStatus.succeeded)
  pub settled :
      is_pdf m ≡ true
      → s.worker_status ≡ WorkerStatus.succeeded
      → s.local_prepare_status ≡ LocalPrepareStatus.prepared
  pub unwritten : is_zotero_write manifest.write_policy ≡ false → is_unwritten s.write_status ≡ true
  pub writable :
      is_zotero_write manifest.write_policy ≡ true
      → (s.write_status == WriteStatus.prepared_only) ≡ false
  pub authorized : is_some s.authorization_sha256 ≡ has_started s.write_status

pub initial_item-Sound :
    (manifest : BatchManifest) (m : ManifestItem) → Sound manifest m (initial_item m)
unfolding initial_item
initial_item-Sound manifest m = ground arith
