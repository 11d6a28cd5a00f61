-- ===== src/Recovery/Writes.antt =====
-- What the reducer makes of the write lease that v2_run.py finds to have ended.
use paperread.Prelude.{
  ℕ, zero, suc, true, ◌≡◌, refl, sym, ◌∙◌, ap, none, some, List, [], ◌∷◌, get_elem?, Result, ok,
  err, arith, inl, inr, Bool-cases, Option-cases, eq_of_some, ◌==◌, nat_eq, string_eq, option_eq,
}
use text.Mathlib.TextEquality.{eq_iff}
use paperread.Contracts.Scalars.{UuidString, Sha256, Rfc3339Utc}
use paperread.Contracts.Manifest.{BatchManifest}
use paperread.Contracts.Status.{WriteStatus, write_eq}
use paperread.Contracts.State.{WriteLeaseState, StateItem, BatchState}
use paperread.Contracts.Events.{EventData, BatchEvent}
use paperread.Reducer.Base.{corrupt}
use paperread.Reducer.Leases.{same_write_lease}
use paperread.Reducer.WriteClaim.{mutate_write_item, mutate_write, end_write, mutable_at}
use paperread.Reducer.WriteRun.{uncertain_item}
use paperread.Reducer.Apply.{replay}
use paperread.Batch.Items.{Sound}
use paperread.Batch.Replayed.{replay-Good}
use paperread.Next.Found.{beside}
use paperread.Recovery.Propose.{
  has_ended, first_expired_write, write_identity_of, claimed_expiry, started_expiry, write_expiry,
}

-- The change that the reducer makes of an item by the two kinds of data of an ended write lease.
abbrev pub write_change : BatchEvent → EventData → StateItem → Result StateItem
write_change event (EventData.write_lease_mutation d) s = mutate_write_item event d s
write_change event (EventData.write_uncertain d) s = uncertain_item event d s
write_change event _ s = err (corrupt "no end of a write lease")

-- A write that had started is in doubt; one that was only claimed is queued again.
abbrev pub after_expiry : WriteStatus → WriteStatus
after_expiry WriteStatus.started = WriteStatus.uncertain
after_expiry _ = WriteStatus.queued

first_expired_write-eq-some :
    (now : Rfc3339Utc) (items : List StateItem) {found : StateItem × WriteLeaseState}
    → first_expired_write now items ≡ some found
    → (i : ℕ) × (get_elem? items i ≡ some found.0)
      × ((found.0).write_lease ≡ some found.1)
      × (has_ended now (found.1).expires_at ≡ true)
unfolding first_expired_write
first_expired_write-eq-some now [] h = cc
first_expired_write-eq-some now (s ∷ items) {found} h = elim (Option-cases s.write_lease) [
  | inl free ↦
      let (i, at_i, held, ended) =
        first_expired_write-eq-some now items {found = found} (ground (arith, free)) in
      (suc i, at_i, held, ended)
  | inr (lease, leased) ↦ elim (Bool-cases (has_ended now lease.expires_at)) [
    | inl over ↦
        let here : (s, lease) ≡ found = eq_of_some (ground (arith, leased, over)) in
        (
          zero,
          ap (λ p. some p.0) here,
          ap (λ p. p.0.write_lease) (sym here) ∙ leased ∙ ap (λ p. some p.1) here,
          ap (λ p. has_ended now p.1.expires_at) (sym here) ∙ over,
        )
    | inr runs ↦
        let (i, at_i, held, ended) =
          first_expired_write-eq-some now items {found = found} (ground (arith, leased, runs)) in
        (suc i, at_i, held, ended)
  ]
]

same_write_lease_refl :
    (lease : WriteLeaseState) → same_write_lease (some lease) (write_identity_of lease) ≡ true
unfolding same_write_lease
same_write_lease_refl lease = ground (arith, (eq_iff lease.writer_id lease.writer_id).1 refl)

module _ (event : BatchEvent) (s : StateItem) (lease : WriteLeaseState)
    (held : s.write_lease ≡ some lease)
    (ended : has_ended event.occurred_at lease.expires_at ≡ true) where
  -- The end of the lease can be proposed and accepted.
  abbrev pub Ends : Type 0
  Ends =
      (d : EventData) × (s' : StateItem) × (write_expiry s lease ≡ ok d)
      × (write_change event d s ≡ ok s')
      × (s'.write_lease ≡ none)
      × (s'.write_status ≡ after_expiry s.write_status)

  claimed_fits :
      s.write_status ≡ WriteStatus.claimed
      → mutate_write_item event (claimed_expiry s lease) s
        ≡ ok (record s { write_status = WriteStatus.queued; write_lease = none })
  unfolding mutate_write_item mutate_write end_write mutable_at
  claimed_fits at_claimed = ground (arith, held, same_write_lease_refl lease, ended)

  started_fits :
      (authorization : Sha256)
      → s.write_status ≡ WriteStatus.started
      → s.authorization_sha256 ≡ some authorization
      → uncertain_item event (started_expiry s lease authorization) s
        ≡ ok (record s {
          write_status = WriteStatus.uncertain;
          write_lease = none;
          write_failure_code = some "write_outcome_uncertain";
          write_failure_message =
              some "started write lease expired before a verified outcome was committed";
        })
  unfolding uncertain_item
  started_fits authorization at_started has =
      ground (arith, held, same_write_lease_refl lease, ended)

  claimed_Ends : s.write_status ≡ WriteStatus.claimed → Ends
  unfolding write_expiry
  claimed_Ends at_claimed = (
    EventData.write_lease_mutation (claimed_expiry s lease),
    record s { write_status = WriteStatus.queued; write_lease = none },
    rw at_claimed refl,
    claimed_fits at_claimed,
    refl,
    rw at_claimed refl,
  )

  started_Ends :
      (authorization : Sha256)
      → s.write_status ≡ WriteStatus.started
      → s.authorization_sha256 ≡ some authorization
      → Ends
  unfolding write_expiry
  started_Ends authorization at_started has = (
    EventData.write_uncertain (started_expiry s lease authorization),
    _,
    rw at_started (rw has refl),
    started_fits authorization at_started has,
    refl,
    rw at_started refl,
  )

-- Where a recovery finds, in a replayed state and at the time of its event, an item whose write lease
-- has ended, it proposes an event, and the change of the reducer accepts it for the item: the lease
-- is gone, a write that was only claimed is queued again, and one that had started is uncertain.
pub write_expiry_accepted :
    (derive : UuidString → UuidString) (manifest : BatchManifest) (events : List BatchEvent)
    (state : BatchState) (event : BatchEvent) {found : StateItem × WriteLeaseState}
    → replay derive manifest events ≡ ok state
    → first_expired_write event.occurred_at state.items ≡ some found
    → (d : EventData) × (s' : StateItem) × (write_expiry found.0 found.1 ≡ ok d)
      × (write_change event d found.0 ≡ ok s')
      × (s'.write_lease ≡ none)
      × (s'.write_status ≡ after_expiry (found.0).write_status)
write_expiry_accepted derive manifest events state event {found} replayed h =
    let (i, at_i, held, ended) = first_expired_write-eq-some event.occurred_at state.items h in
    let (m, _, r) =
      beside (Sound manifest) manifest.items state.items i
        (replay-Good derive manifest events replayed).sound at_i in
    elim (Bool-cases ((found.0).write_status == WriteStatus.claimed)) [
      | inl at_claimed ↦ claimed_Ends event found.0 found.1 held ended (ground arith)
      | inr other ↦
          let at_started : (found.0).write_status ≡ WriteStatus.started =
            ground (arith, held, r.write_leased) in
          elim (Option-cases (found.0).authorization_sha256) [
            | inl none_there ↦ absurd (ground (arith, at_started, none_there, r.authorized))
            | inr (authorization, has) ↦
                started_Ends event found.0 found.1 held ended authorization at_started has
          ]
    ]
