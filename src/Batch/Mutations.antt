-- ===== src/Batch/Mutations.antt =====
-- The ways in which `_apply_lease_mutation` and `_apply_write_lease_mutation` change an item.
use paperread.Prelude.{
  ◌-◌, true, ◌≡◌, refl, inl, inr, Option-cases, none, some, ok, ltb, leb, arith, ◌==◌, nat_eq,
}
use paperread.Contracts.Scalars.{Rfc3339Utc, timestamp, timedelta}
use paperread.Contracts.Status.{Lane, worker, local_prepare, WriteStatus, write_eq}
use paperread.Contracts.State.{LeaseState, WriteLeaseState, StateItem}
use paperread.Contracts.Events.{
  BatchEvent, LeaseMutationData, WriteLeaseMutationData, MutationKind, renewed, released,
  lease_expired,
}
use paperread.Reducer.Base.{max_task_lease_seconds, max_write_lease_seconds}
use paperread.Reducer.Leases.{
  same_lease, same_write_lease, lane_lease, mutate_item, mutate_lease, renew_lease, end_lease,
  renew_lane, release_lane,
}
use paperread.Reducer.WriteClaim.{
  mutable_at, mutate_write_item, mutate_write, renew_write, end_write,
}

-- Only the holder of a lease changes it.
pub mutate_item-eq-ok :
    (event : BatchEvent) (d : LeaseMutationData) (s : StateItem) {s' : StateItem}
    → mutate_item event d s ≡ ok s'
    → (lease : LeaseState) × (lane_lease d.lane s ≡ some lease)
      × (same_lease (some lease) d.identity ≡ true)
      × (mutate_lease d.kind event d s lease ≡ ok s')
unfolding mutate_item
mutate_item-eq-ok event d s h = ground arith

-- A renewal comes within the old lease, and ends later than it, within the maximal duration.
abbrev pub RenewsTask : BatchEvent → LeaseState → Rfc3339Utc → Rfc3339Utc → Type 0
RenewsTask event lease issued expires =
    (issued ≡ event.occurred_at)
    × (ltb (timestamp event.occurred_at) (timestamp lease.expires_at) ≡ true)
    × (ltb (timestamp issued) (timestamp expires) ≡ true)
    × (ltb (timestamp lease.expires_at) (timestamp expires) ≡ true)
    × (leb (timestamp expires - timestamp issued) (timedelta max_task_lease_seconds) ≡ true)

pub renew_lease-eq-ok :
    (event : BatchEvent) (d : LeaseMutationData) (s : StateItem) (lease : LeaseState)
    {s' : StateItem}
    → renew_lease event d s lease ≡ ok s'
    → (issued : Rfc3339Utc) × (expires : Rfc3339Utc) × RenewsTask event lease issued expires
      × (s'
          ≡ renew_lane d.lane s (record lease { issued_at = issued; expires_at = expires }) expires)
unfolding renew_lease
renew_lease-eq-ok event d s lease h = elim (Option-cases d.issued_at) [
  | inl missing ↦ absurd (ground arith)
  | inr (issued, i) ↦ elim (Option-cases d.expires_at) [
    | inl missing ↦ absurd (ground arith)
    | inr (expires, x) ↦ (issued, expires, ground arith, ground arith)
  ]
]

pub end_lease-eq-ok :
    (event : BatchEvent) (d : LeaseMutationData) (s : StateItem) (lease : LeaseState)
    {s' : StateItem}
    → end_lease event d s lease ≡ ok s'
    → s' ≡ release_lane d.lane s
unfolding end_lease
end_lease-eq-ok event d s lease h = ground arith

pub data Mutated (d : LeaseMutationData) (s s' : StateItem) : Type 0 where
  renewed_worker :
      (lease lease' : LeaseState)
      → s.worker_lease ≡ some lease
      → (expires : Rfc3339Utc) → d.lane ≡ worker
      → s' ≡ renew_lane worker s lease' expires
      → Mutated d s s'
  renewed_local :
      (lease lease' : LeaseState)
      → s.local_prepare_lease ≡ some lease
      → (expires : Rfc3339Utc) → d.lane ≡ local_prepare
      → s' ≡ renew_lane local_prepare s lease' expires
      → Mutated d s s'
  ended_worker :
      (lease : LeaseState)
      → s.worker_lease ≡ some lease
      → s' ≡ release_lane worker s
      → Mutated d s s'
  ended_local :
      (lease : LeaseState)
      → s.local_prepare_lease ≡ some lease
      → s' ≡ release_lane local_prepare s
      → Mutated d s s'

module _ (event : BatchEvent) (d : LeaseMutationData) (s s' : StateItem) where
  renews :
      (lane : Lane) (lease : LeaseState)
      → d.lane ≡ lane
      → lane_lease d.lane s ≡ some lease
      → renew_lease event d s lease ≡ ok s'
      → Mutated d s s'
  renews worker lease e l h =
      let (issued, expires, _, r) = renew_lease-eq-ok event d s lease h in
      renewed_worker lease (record lease { issued_at = issued; expires_at = expires })
        (ground arith) expires e (ground arith)
  renews local_prepare lease e l h =
      let (issued, expires, _, r) = renew_lease-eq-ok event d s lease h in
      renewed_local lease (record lease { issued_at = issued; expires_at = expires }) (ground arith)
        expires e (ground arith)

  ends :
      (lane : Lane) (lease : LeaseState)
      → d.lane ≡ lane
      → lane_lease d.lane s ≡ some lease
      → end_lease event d s lease ≡ ok s'
      → Mutated d s s'
  ends worker lease e l h =
      let r = end_lease-eq-ok event d s lease h in ended_worker lease (ground arith) (ground arith)
  ends local_prepare lease e l h =
      let r = end_lease-eq-ok event d s lease h in ended_local lease (ground arith) (ground arith)

  by_kind :
      (kind : MutationKind) (lease : LeaseState)
      → lane_lease d.lane s ≡ some lease
      → mutate_lease kind event d s lease ≡ ok s'
      → Mutated d s s'
  unfolding mutate_lease
  by_kind renewed lease l h = renews d.lane lease refl l h
  by_kind released lease l h = ends d.lane lease refl l h
  by_kind lease_expired lease l h = ends d.lane lease refl l h

  pub mutate_item-Mutated : mutate_item event d s ≡ ok s' → Mutated d s s'
  mutate_item-Mutated h =
      let (lease, l, _, rest) = mutate_item-eq-ok event d s h in by_kind d.kind lease l rest

-- A write lease is changed by its holder, and ended only while no write has started.
pub mutate_write_item-eq-ok :
    (event : BatchEvent) (d : WriteLeaseMutationData) (s : StateItem) {s' : StateItem}
    → mutate_write_item event d s ≡ ok s'
    → (lease : WriteLeaseState) × (s.write_lease ≡ some lease)
      × (same_write_lease (some lease) d.identity ≡ true)
      × (mutable_at d.kind s.write_status ≡ true)
      × (mutate_write d.kind event d s lease ≡ ok s')
unfolding mutate_write_item
mutate_write_item-eq-ok event d s h = ground arith

abbrev pub RenewsWrite : BatchEvent → WriteLeaseState → Rfc3339Utc → Rfc3339Utc → Type 0
RenewsWrite event lease issued expires =
    (issued ≡ event.occurred_at)
    × (ltb (timestamp event.occurred_at) (timestamp lease.expires_at) ≡ true)
    × (ltb (timestamp issued) (timestamp expires) ≡ true)
    × (ltb (timestamp lease.expires_at) (timestamp expires) ≡ true)
    × (leb (timestamp expires - timestamp issued) (timedelta max_write_lease_seconds) ≡ true)

pub renew_write-eq-ok :
    (event : BatchEvent) (d : WriteLeaseMutationData) (s : StateItem) (lease : WriteLeaseState)
    {s' : StateItem}
    → renew_write event d s lease ≡ ok s'
    → (issued : Rfc3339Utc) × (expires : Rfc3339Utc) × RenewsWrite event lease issued expires
      × (s' ≡ record s {
        write_lease = some (record lease { issued_at = issued; expires_at = expires });
      })
unfolding renew_write
renew_write-eq-ok event d s lease h = elim (Option-cases d.issued_at) [
  | inl missing ↦ absurd (ground arith)
  | inr (issued, i) ↦ elim (Option-cases d.expires_at) [
    | inl missing ↦ absurd (ground arith)
    | inr (expires, x) ↦ (issued, expires, ground arith, ground arith)
  ]
]

pub end_write-eq-ok :
    (event : BatchEvent) (d : WriteLeaseMutationData) (s : StateItem) (lease : WriteLeaseState)
    {s' : StateItem}
    → end_write event d s lease ≡ ok s'
    → s' ≡ record s { write_status = WriteStatus.queued; write_lease = none }
unfolding end_write
end_write-eq-ok event d s lease h = ground arith

pub data WriteMutated (d : WriteLeaseMutationData) (s s' : StateItem) : Type 0 where
  renewed_write :
      (lease lease' : WriteLeaseState)
      → s.write_lease ≡ some lease
      → s' ≡ record s { write_lease = some lease' }
      → WriteMutated d s s'
  ended_write :
      (lease : WriteLeaseState)
      → s.write_lease ≡ some lease
      → (s.write_status == WriteStatus.claimed) ≡ true
      → s' ≡ record s { write_status = WriteStatus.queued; write_lease = none }
      → WriteMutated d s s'

module _ (event : BatchEvent) (d : WriteLeaseMutationData) (s s' : StateItem) where
  write_by_kind :
      (kind : MutationKind) (lease : WriteLeaseState)
      → s.write_lease ≡ some lease
      → mutable_at kind s.write_status ≡ true
      → mutate_write kind event d s lease ≡ ok s'
      → WriteMutated d s s'
  unfolding mutate_write mutable_at
  write_by_kind renewed lease l p h =
      let (issued, expires, _, r) = renew_write-eq-ok event d s lease h in
      renewed_write lease (record lease { issued_at = issued; expires_at = expires }) l r
  write_by_kind released lease l p h = ended_write lease l p (end_write-eq-ok event d s lease h)
  write_by_kind lease_expired lease l p h =
      ended_write lease l p (end_write-eq-ok event d s lease h)

  pub mutate_write_item-WriteMutated : mutate_write_item event d s ≡ ok s' → WriteMutated d s s'
  mutate_write_item-WriteMutated h =
      let (lease, l, _, p, rest) = mutate_write_item-eq-ok event d s h in
      write_by_kind d.kind lease l p rest
