-- ===== src/Batch/Durations.antt =====
-- How long the leases of v2_reducer.py last.
use paperread.Prelude.{
  ◌+◌, Bool, true, ◌&&◌, ◌≡◌, Option, none, some, Paired, ok, arith, ltb, leb, List, subst, sym,
}
use paperread.Contracts.Scalars.{UuidString, timestamp, timedelta}
use paperread.Contracts.Manifest.{BatchManifest, ManifestItem}
use paperread.Contracts.State.{LeaseState, WriteLeaseState, StateItem, BatchState}
use paperread.Contracts.Events.{BatchEvent, MutationKind, renewed, released, lease_expired}
use paperread.Reducer.Base.{initial_item, max_task_lease_seconds, max_write_lease_seconds}
use paperread.Reducer.Leases.{reserve_item}
use paperread.Reducer.Claim.{claim_item}
use paperread.Reducer.Finish.{finish_lane, retry_item}
use paperread.Reducer.WriteClaim.{claim_write_item}
use paperread.Reducer.WriteRun.{start_item, write_item, uncertain_item}
use paperread.Reducer.WriteSettle.{reconcile_item, retry_write_item}
use paperread.Reducer.Recover.{recover_worker_item, recover_local_item, resume_item}
use paperread.Contracts.Events.{
  ClaimKind, ClaimAssignment, FinishedData, LeaseMutationData, WriteLeaseMutationData,
  WriteClaimedData, ResumedLocalPrepareLease,
}
use paperread.Contracts.Status.{Lane, worker, local_prepare}
use paperread.Reducer.Leases.{renew_lane, release_lane, mutate_lease, renew_lease}
use paperread.Reducer.WriteClaim.{mutate_write}
use paperread.Reducer.Base.{initial_items, initial_state}
use paperread.Reducer.Apply.{replay, apply_event}
use paperread.Batch.Refines.{apply_event-Run}
use paperread.Batch.History.{initial_state-eq-ok, replay-keeps, Run-Paired}
use paperread.Batch.Replayed.{Good, apply_event-Good, initial_state-Good, Paired-initial}
use paperread.Batch.Mutations.{
  mutate_item-eq-ok, renew_lease-eq-ok, end_lease-eq-ok, mutate_write_item-eq-ok, renew_write-eq-ok,
  end_write-eq-ok,
}
use paperread.Batch.Finishes.{
  Finished, worker_failed, pdf_succeeded, zotero_succeeded, finish_item-eq-ok,
  worker_finish-Finished, local_finish,
}
use paperread.Batch.Steps.{LeaseTimes}
use paperread.Batch.Steps.{
  ItemStep, claims, reserves, mutates, finishes, retries, recovers_worker, recovers_local, resumes,
  claims_write, mutates_write, starts, writes, doubts, reconciles, retries_write,
}

-- A task lease lasts for some time, but no longer than an hour,
abbrev pub fits_task : Option LeaseState → Bool
fits_task none = true
fits_task (some l) =
    ltb (timestamp l.issued_at) (timestamp l.expires_at)
    && leb (timestamp l.expires_at) (timestamp l.issued_at + timedelta max_task_lease_seconds)

-- and a write lease no longer than five minutes.
abbrev pub fits_write : Option WriteLeaseState → Bool
fits_write none = true
fits_write (some l) =
    ltb (timestamp l.issued_at) (timestamp l.expires_at)
    && leb (timestamp l.expires_at) (timestamp l.issued_at + timedelta max_write_lease_seconds)

pub record Timed (m : ManifestItem) (s : StateItem) : Type 0 where
  pub worker_fits : fits_task s.worker_lease ≡ true
  pub local_fits : fits_task s.local_prepare_lease ≡ true
  pub write_fits : fits_write s.write_lease ≡ true

initial_item-Timed : (m : ManifestItem) → Timed m (initial_item m)
unfolding initial_item
initial_item-Timed m = ground arith

module _ (derive : UuidString → UuidString) (manifest : BatchManifest) (state : BatchState)
    (event : BatchEvent) (m : ManifestItem) (s s' : StateItem) where
  abbrev Stays : Type 0
  Stays = Timed m s → Timed m s'

  claim-Timed :
      (kind : ClaimKind) (d : ClaimAssignment)
      → LeaseTimes event d.issued_at d.expires_at
      → claim_item kind m d s ≡ ok s'
      → Stays
  unfolding claim_item
  claim-Timed kind d t h r = ground arith

  renewed-Timed :
      (lane : Lane) (lease : LeaseState)
      → ltb (timestamp lease.issued_at) (timestamp lease.expires_at) ≡ true
      → leb
          (timestamp lease.expires_at)
          (timestamp lease.issued_at + timedelta max_task_lease_seconds)
        ≡ true
      → s' ≡ renew_lane lane s lease lease.expires_at
      → Stays
  renewed-Timed worker lease p q e r = ground arith
  renewed-Timed local_prepare lease p q e r = ground arith

  released-Timed : (lane : Lane) → s' ≡ release_lane lane s → Stays
  released-Timed worker e r = ground arith
  released-Timed local_prepare e r = ground arith

  renew-Timed :
      (d : LeaseMutationData) (lease : LeaseState) → renew_lease event d s lease ≡ ok s' → Stays
  renew-Timed d lease h r =
      let (issued, expires, times, e) = renew_lease-eq-ok event d s lease h in
      renewed-Timed d.lane (record lease { issued_at = issued; expires_at = expires })
        (ground arith) (ground arith) e r

  mutate-Timed :
      (kind : MutationKind) (d : LeaseMutationData) (lease : LeaseState)
      → mutate_lease kind event d s lease ≡ ok s'
      → Stays
  unfolding mutate_lease
  mutate-Timed renewed d lease h r = renew-Timed d lease h r
  mutate-Timed released d lease h r = released-Timed d.lane (end_lease-eq-ok event d s lease h) r
  mutate-Timed lease_expired d lease h r =
      released-Timed d.lane (end_lease-eq-ok event d s lease h) r

  write-Timed :
      (kind : MutationKind) (d : WriteLeaseMutationData) (lease : WriteLeaseState)
      → mutate_write kind event d s lease ≡ ok s'
      → Stays
  unfolding mutate_write
  write-Timed renewed d lease h r =
      let (issued, expires, times, e) = renew_write-eq-ok event d s lease h in ground arith
  write-Timed released d lease h r = let e = end_write-eq-ok event d s lease h in ground arith
  write-Timed lease_expired d lease h r = let e = end_write-eq-ok event d s lease h in ground arith

  finished-Timed : (d : FinishedData) → Finished manifest.write_policy m d s s' → Stays
  finished-Timed d (worker_failed status f e) r = ground arith
  finished-Timed d (pdf_succeeded p e) r = ground arith
  finished-Timed d (zotero_succeeded p e) r = ground arith

  finish-Timed :
      (lane : Lane) (d : FinishedData)
      → finish_lane lane manifest.write_policy (ok m) d s ≡ ok s'
      → Stays
  finish-Timed worker d h r =
      finished-Timed d (worker_finish-Finished manifest.write_policy m d s s' h) r
  finish-Timed local_prepare d h r =
      let (status, _, e) = local_finish manifest.write_policy (ok m) d s s' h in ground arith

  resume-Timed : (d : ResumedLocalPrepareLease) → resume_item event d s ≡ ok s' → Stays
  unfolding resume_item
  resume-Timed d h r = ground arith

  claim_write-Timed : (d : WriteClaimedData) → claim_write_item state m event d s ≡ ok s' → Stays
  unfolding claim_write_item
  claim_write-Timed d h r = ground arith

  ItemStep-Timed : ItemStep derive state manifest event m s s' → Stays
  ItemStep-Timed (claims kind d _ t h) r = claim-Timed kind d t h r
  ItemStep-Timed (reserves d h) r = unfold reserve_item in ground arith
  ItemStep-Timed (mutates d h) r =
      let (lease, _, _, rest) = mutate_item-eq-ok event d s h in mutate-Timed d.kind d lease rest r
  ItemStep-Timed (finishes d h) r =
      let (_, _, _, _, _, rest) = finish_item-eq-ok manifest.write_policy (ok m) event d s h in
      finish-Timed d.lane d rest r
  ItemStep-Timed (retries d h) r = unfold retry_item in ground arith
  ItemStep-Timed (recovers_worker d h) r = unfold recover_worker_item in ground arith
  ItemStep-Timed (recovers_local d h) r = unfold recover_local_item in ground arith
  ItemStep-Timed (resumes d _ h) r = resume-Timed d h r
  ItemStep-Timed (claims_write d _ _ _ _ h) r = claim_write-Timed d h r
  ItemStep-Timed (mutates_write d h) r =
      let (lease, _, _, _, rest) = mutate_write_item-eq-ok event d s h in
      write-Timed d.kind d lease rest r
  ItemStep-Timed (starts d _ _ h) r = unfold start_item in ground arith
  ItemStep-Timed (writes d h) r = unfold write_item in ground arith
  ItemStep-Timed (doubts d h) r = unfold uncertain_item in ground arith
  ItemStep-Timed (reconciles d h) r = unfold reconcile_item in ground arith
  ItemStep-Timed (retries_write d _ _ h) r = unfold retry_write_item in ground arith

module _ (derive : UuidString → UuidString) (manifest : BatchManifest) where
  abbrev IsTimed : BatchState → Type 0
  IsTimed state = Good manifest state × Paired Timed manifest.items state.items

  apply_event-IsTimed :
      (state : BatchState) (event : BatchEvent) (state' : BatchState)
      → apply_event derive state manifest event ≡ ok state'
      → IsTimed state
      → IsTimed state'
  apply_event-IsTimed state event state' h (g, p) =
      let (_, (items', run, built, valid)) = apply_event-Run derive state manifest event g.same h in
      (
        apply_event-Good derive manifest state event state' h g,
        subst (λ t. Paired Timed manifest.items t.items) (sym built)
            (Run-Paired derive manifest Timed state event
              (ItemStep-Timed derive manifest state event) run p),
      )

  initial-IsTimed :
      (event : BatchEvent) (state : BatchState)
      → initial_state manifest event ≡ ok state
      → IsTimed state
  unfolding initial_items
  initial-IsTimed event state h = (
    initial_state-Good manifest event state h,
    subst (Paired Timed manifest.items) (sym (initial_state-eq-ok manifest event h).0)
        (Paired-initial Timed initial_item-Timed manifest.items),
  )

-- In every state that a journal replays to, each worker and each local lease ends later than it
-- begins and within an hour of it, and each write lease within five minutes.
pub replay-Timed :
    (derive : UuidString → UuidString) (manifest : BatchManifest) (events : List BatchEvent)
    {state : BatchState}
    → replay derive manifest events ≡ ok state
    → Paired Timed manifest.items state.items
replay-Timed derive manifest events h =
    (replay-keeps derive manifest (IsTimed derive manifest) (apply_event-IsTimed derive manifest)
      (initial-IsTimed derive manifest) events h).1
