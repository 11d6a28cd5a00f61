-- ===== src/Batch/Finishes.antt =====
-- The four ways in which `_apply_finished` changes an item.
use paperread.Prelude.{
  true, false, ◌≡◌, refl, some, Result, ok, ltb, arith, ◌==◌, ◌||◌, inl, inr, Bool-cases,
}
use paperread.Contracts.Scalars.{timestamp}
use paperread.Contracts.Manifest.{ManifestItem, WritePolicy, is_pdf}
use paperread.Contracts.Status.{worker, local_prepare, WorkerStatus, LocalPrepareStatus, local_eq}
use paperread.Contracts.Lanes.{is_failed, is_local_failed}
use paperread.Contracts.State.{LeaseState, StateItem}
use paperread.Contracts.Events.{
  BatchEvent, FinishedData, FinishStatus, succeeded, failed, blocked, prepared,
}
use paperread.Reducer.Leases.{same_lease, lane_lease}
use paperread.Reducer.Finish.{
  finish_item, finish_lane, check_outcome, worker_update, settle_local, open_write, local_update,
}

-- A finish is accepted only from the holder of an unexpired lease.
pub finish_item-eq-ok :
    (policy : WritePolicy) (found : Result ManifestItem) (event : BatchEvent) (d : FinishedData)
    (s : StateItem) {s' : StateItem}
    → finish_item policy found event d s ≡ ok s'
    → (lease : LeaseState) × (lane_lease d.lane s ≡ some lease)
      × (same_lease (lane_lease d.lane s) d.identity ≡ true)
      × (ltb (timestamp event.occurred_at) (timestamp lease.expires_at) ≡ true)
      × (check_outcome d.status d ≡ ok tt)
      × (finish_lane d.lane policy found d s ≡ ok s')
unfolding finish_item
finish_item-eq-ok policy found event d s h = ground arith

pub data Finished (policy : WritePolicy) (m : ManifestItem) (d : FinishedData) (s s' : StateItem)
    : Type 0 where
  worker_failed :
      (status : WorkerStatus)
      → is_failed status ≡ true
      → s' ≡ worker_update status d s
      → Finished policy m d s s'
  pdf_succeeded :
      is_pdf m ≡ true
      → s' ≡ settle_local (worker_update WorkerStatus.succeeded d s)
      → Finished policy m d s s'
  zotero_succeeded :
      is_pdf m ≡ false
      → s' ≡ open_write policy (worker_update WorkerStatus.succeeded d s)
      → Finished policy m d s s'

worker_finishes :
    (policy : WritePolicy) (m : ManifestItem) (d : FinishedData) (status : FinishStatus)
    (s s' : StateItem)
    → d.status ≡ status
    → finish_lane worker policy (ok m) d s ≡ ok s'
    → Finished policy m d s s'
unfolding finish_lane
worker_finishes policy m d prepared s s' e h = absurd (ground arith)
worker_finishes policy m d failed s s' e h = worker_failed WorkerStatus.failed refl (ground arith)
worker_finishes policy m d blocked s s' e h = worker_failed WorkerStatus.blocked refl (ground arith)
worker_finishes policy m d succeeded s s' e h = elim (Bool-cases (is_pdf m)) [
  | inl p ↦ pdf_succeeded p (ground arith)
  | inr p ↦ zotero_succeeded p (ground arith)
]

pub worker_finish-Finished :
    (policy : WritePolicy) (m : ManifestItem) (d : FinishedData) (s s' : StateItem)
    → finish_lane worker policy (ok m) d s ≡ ok s'
    → Finished policy m d s s'
worker_finish-Finished policy m d s s' h = worker_finishes policy m d d.status s s' refl h

abbrev pub FinishesLocal : FinishedData → StateItem → StateItem → Type 0
FinishesLocal d s s' =
    (status : LocalPrepareStatus) × ((is_local_failed status
        || status == LocalPrepareStatus.prepared)
      ≡ true)
    × (s' ≡ local_update status d s)

local_finishes :
    (policy : WritePolicy) (found : Result ManifestItem) (d : FinishedData) (status : FinishStatus)
    (s s' : StateItem)
    → d.status ≡ status
    → finish_lane local_prepare policy found d s ≡ ok s'
    → FinishesLocal d s s'
unfolding finish_lane
local_finishes policy found d prepared s s' e h = (LocalPrepareStatus.prepared, refl, ground arith)
local_finishes policy found d failed s s' e h = (LocalPrepareStatus.failed, refl, ground arith)
local_finishes policy found d blocked s s' e h = (LocalPrepareStatus.blocked, refl, ground arith)
local_finishes policy found d succeeded s s' e h = absurd (ground arith)

-- A local finish writes one of three statuses.
pub local_finish :
    (policy : WritePolicy) (found : Result ManifestItem) (d : FinishedData) (s s' : StateItem)
    → finish_lane local_prepare policy found d s ≡ ok s'
    → FinishesLocal d s s'
local_finish policy found d s s' h = local_finishes policy found d d.status s s' refl h
