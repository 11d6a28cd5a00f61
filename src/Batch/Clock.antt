-- ===== src/Batch/Clock.antt =====
-- The clock of a lease in v2_reducer.py: which events come before its end, and which after.
use paperread.Prelude.{
  ◌<◌, Bool, true, false, ◌≡◌, refl, some, Result, ok, arith, sym, ◌∙◌, eq_of_some, ltb, not,
  Option-cases, inl, inr, ap, ◌⊎◌,
}
use paperread.Contracts.Scalars.{timestamp}
use paperread.Contracts.Status.{Lane}
use paperread.Contracts.Manifest.{ManifestItem, WritePolicy}
use paperread.Contracts.State.{LeaseState, WriteLeaseState, StateItem}
use paperread.Contracts.Events.{
  BatchEvent, LeaseMutationData, FinishedData, MutationKind, renewed, released, lease_expired,
  WriteWrittenData, WriteUncertainData, marked_uncertain, lease_expired_uncertain, UncertainKind,
}
use paperread.Reducer.Leases.{lane_lease, mutate_item, mutate_lease, renew_lease, end_lease}
use paperread.Reducer.Finish.{finish_item}
use paperread.Reducer.WriteRun.{write_item, uncertain_item}
use paperread.Batch.Mutations.{mutate_item-eq-ok}

abbrev is_expiry : MutationKind → Bool
is_expiry lease_expired = true
is_expiry _ = false

-- An accepted expiry comes at the lease's end or later, all other changes come before it.
lease_clock :
    (kind : MutationKind) (event : BatchEvent) (d : LeaseMutationData) (s : StateItem)
    (l : LeaseState) {s' : StateItem}
    → kind ≡ d.kind
    → mutate_lease kind event d s l ≡ ok s'
    → ltb (timestamp event.occurred_at) (timestamp l.expires_at) ≡ not (is_expiry kind)
unfolding mutate_lease renew_lease end_lease
lease_clock renewed event d s l e h = ground arith
lease_clock released event d s l e h = ground arith
lease_clock lease_expired event d s l e h = ground arith

mutate_item-clock :
    (event : BatchEvent) (d : LeaseMutationData) (s : StateItem) {s' : StateItem}
    → mutate_item event d s ≡ ok s'
    → (l : LeaseState) × (lane_lease d.lane s ≡ some l)
      × (ltb (timestamp event.occurred_at) (timestamp l.expires_at) ≡ not (is_expiry d.kind))
mutate_item-clock event d s h =
    let (l, e, _, rest) = mutate_item-eq-ok event d s h in
    (l, e, lease_clock d.kind event d s l refl rest)

finish_item-clock :
    (policy : WritePolicy) (found : Result ManifestItem) (event : BatchEvent) (d : FinishedData)
    (s : StateItem) {s' : StateItem}
    → finish_item policy found event d s ≡ ok s'
    → (l : LeaseState) × (lane_lease d.lane s ≡ some l)
      × (ltb (timestamp event.occurred_at) (timestamp l.expires_at) ≡ true)
unfolding finish_item
finish_item-clock policy found event d s h = ground arith

-- What the holder of the item's lease in a lane does that the reducer accepts: a finish, a renewal, or
-- a release.
abbrev pub HolderActs :
    WritePolicy → Result ManifestItem → Lane → BatchEvent → StateItem → StateItem → Type 0
HolderActs policy found lane event s s' =
    ((f : FinishedData) × (f.lane ≡ lane) × (finish_item policy found event f s ≡ ok s'))
    ⊎ ((f : LeaseMutationData) × (f.lane ≡ lane)
        × (is_expiry f.kind ≡ false)
        × (mutate_item event f s ≡ ok s'))

-- Of one lease in one lane of an item, an expiry that is accepted comes strictly later than any
-- finish, renewal or release that is accepted: at no time are both acceptable.
pub expiry_is_last :
    (policy : WritePolicy) (found : Result ManifestItem) (expiry other : BatchEvent)
    (d : LeaseMutationData) (s : StateItem) {s1 s2 : StateItem}
    → mutate_item expiry d s ≡ ok s1
    → d.kind ≡ lease_expired
    → HolderActs policy found d.lane other s s2
    → timestamp other.occurred_at < timestamp expiry.occurred_at
expiry_is_last policy found expiry other d s h k (inl (f, lane, g)) =
    let (l, e, late) = mutate_item-clock expiry d s h in
    let (l', e', early) = finish_item-clock policy found other f s g in
    let same : l' ≡ l = eq_of_some (sym e' ∙ ap (λ x. lane_lease x s) lane ∙ e) in ground arith
expiry_is_last policy found expiry other d s h k (inr (f, lane, n, g)) =
    let (l, e, late) = mutate_item-clock expiry d s h in
    let (l', e', early) = mutate_item-clock other f s g in
    let same : l' ≡ l = eq_of_some (sym e' ∙ ap (λ x. lane_lease x s) lane ∙ e) in ground arith

write_item-clock :
    (found : Result ManifestItem) (event : BatchEvent) (d : WriteWrittenData) (s : StateItem)
    {s' : StateItem}
    → write_item found event d s ≡ ok s'
    → (l : WriteLeaseState) × (s.write_lease ≡ some l)
      × (ltb (timestamp event.occurred_at) (timestamp l.expires_at) ≡ true)
unfolding write_item
write_item-clock found event d s h = ground arith

abbrev is_timeout : UncertainKind → Bool
is_timeout lease_expired_uncertain = true
is_timeout marked_uncertain = false

uncertain_item-clock :
    (event : BatchEvent) (d : WriteUncertainData) (s : StateItem) {s' : StateItem}
    → uncertain_item event d s ≡ ok s'
    → (l : WriteLeaseState) × (s.write_lease ≡ some l)
      × (ltb (timestamp event.occurred_at) (timestamp l.expires_at) ≡ not (is_timeout d.kind))
unfolding uncertain_item
uncertain_item-clock event d s h = elim (Option-cases s.write_lease) [
  | inl missing ↦ absurd (ground arith)
  | inr (l, e) ↦ (l, e, ground arith)
]

-- What the holder of a started write does that the reducer accepts: a commit, or a mark of
-- uncertainty.
abbrev pub WriterActs : Result ManifestItem → BatchEvent → StateItem → StateItem → Type 0
WriterActs found event s s' =
    ((f : WriteWrittenData) × (write_item found event f s ≡ ok s'))
    ⊎ ((f : WriteUncertainData) × (f.kind ≡ marked_uncertain) × (uncertain_item event f s ≡ ok s'))

-- Of one started write, an expiry that is accepted comes strictly later than any commit, and than any
-- mark of uncertainty, that is accepted.
pub write_expiry_is_last :
    (found : Result ManifestItem) (expiry other : BatchEvent) (d : WriteUncertainData)
    (s : StateItem) {s1 s2 : StateItem}
    → uncertain_item expiry d s ≡ ok s1
    → d.kind ≡ lease_expired_uncertain
    → WriterActs found other s s2
    → timestamp other.occurred_at < timestamp expiry.occurred_at
write_expiry_is_last found expiry other d s h k (inl (f, g)) =
    let (l, e, late) = uncertain_item-clock expiry d s h in
    let (l', e', early) = write_item-clock found other f s g in
    let same : l' ≡ l = eq_of_some (sym e' ∙ e) in ground arith
write_expiry_is_last found expiry other d s h k (inr (f, n, g)) =
    let (l, e, late) = uncertain_item-clock expiry d s h in
    let (l', e', early) = uncertain_item-clock other f s g in
    let same : l' ≡ l = eq_of_some (sym e' ∙ e) in ground arith
