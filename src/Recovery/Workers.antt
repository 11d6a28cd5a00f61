-- ===== src/Recovery/Workers.antt =====
-- What the reducer makes of the expired worker leases that v2_run.py collects.
use mathlib.Core.List.{map}
use paperread.Prelude.{
  suc, Bool, true, false, ◌≡◌, refl, sym, ◌∙◌, ap, none, some, List, [], ◌∷◌, ◌++◌, get_elem?, set,
  ok, length, all, arith, inl, inr, Bool-cases, Option-cases, if◌then◌else◌, ◌==◌, string_eq,
  nat_eq,
}
use text.Mathlib.TextEquality.{eq_iff}
use paperread.Contracts.Lanes.{validate_lane_state, valid_leases}
use paperread.Contracts.Scalars.{UuidString, Rfc3339Utc, text_beq_iff}
use paperread.Contracts.Manifest.{BatchManifest, reject_duplicate_identities}
use paperread.Contracts.Status.{WorkerStatus, worker, lane_eq, worker_eq}
use paperread.Contracts.State.{LeaseState, StateItem, BatchState}
use paperread.Contracts.Events.{BatchEvent, RecoveredLease}
use paperread.Reducer.Base.{state_item_index, update_at}
use paperread.Batch.Apart.{valid_parts}
use paperread.Reducer.Leases.{same_lease}
use paperread.Reducer.Recover.{recover_worker_item, recover_workers}
use paperread.Reducer.Apply.{replay}
use paperread.Batch.Replayed.{replay-Good}
use paperread.Next.Found.{IdsApart, ids_apart}
use paperread.Worker.Lookups.{state_item_index-at, update_at-accepts}
use paperread.Recovery.Propose.{has_ended, recovered, expired_workers}

-- The worker of the item has a lease that has ended.
abbrev pub is_overdue : Rfc3339Utc → StateItem → Bool
is_overdue now item = elim item.worker_lease [
  | none ↦ false
  | some lease ↦ has_ended now lease.expires_at
]

-- An item whose worker is overdue is queued again; every other is left.
abbrev pub requeue_overdue : Rfc3339Utc → StateItem → StateItem
requeue_overdue now item =
    if is_overdue now item
    then record item { worker_status = WorkerStatus.queued; worker_lease = none }
    else item

-- A valid item with a worker's lease is claimed, and the lease is of the worker's lane.
leased_worker :
    (s : StateItem) {lease : LeaseState}
    → validate_lane_state s ≡ true
    → s.worker_lease ≡ some lease
    → ((s.worker_status == WorkerStatus.claimed) ≡ true) × ((lease.lane == worker) ≡ true)
unfolding validate_lane_state valid_leases
leased_worker s valid held = ground (arith, held)

recovered_fits :
    (s : StateItem) (lease : LeaseState)
    → s.worker_lease ≡ some lease
    → (s.worker_status == WorkerStatus.claimed) ≡ true
    → recover_worker_item (recovered lease s.item_id) s
      ≡ ok (record s { worker_status = WorkerStatus.queued; worker_lease = none })
unfolding recover_worker_item same_lease
recovered_fits s lease held claimed = ground (
  arith,
  held,
  (eq_iff lease.actor_id lease.actor_id).1 refl,
  (text_beq_iff lease.expires_at lease.expires_at).1 refl,
)

pub get_elem?-append :
    (done : List StateItem) (s : StateItem) (rest : List StateItem)
    → get_elem? (done ++ s ∷ rest) (length done) ≡ some s
get_elem?-append [] s rest = refl
get_elem?-append (x ∷ done) s rest = get_elem?-append done s rest

set-append :
    (done : List StateItem) (s s' : StateItem) (rest : List StateItem)
    → set (done ++ s ∷ rest) (length done) s' ≡ done ++ s' ∷ rest
set-append [] s s' rest = refl
set-append (x ∷ done) s s' rest = ap (◌∷◌ x) (set-append done s s' rest)

pub append_one :
    (done : List StateItem) (s : StateItem) (rest : List StateItem)
    → (done ++ (s ∷ [])) ++ rest ≡ done ++ s ∷ rest
append_one [] s rest = refl
append_one (x ∷ done) s rest = ap (◌∷◌ x) (append_one done s rest)

pub length_one : (xs : List StateItem) (s : StateItem) → length (xs ++ (s ∷ [])) ≡ suc (length xs)
length_one [] s = refl
length_one (x ∷ xs) s = ap suc (length_one xs s)

pub keep_one :
    (now : Rfc3339Utc) (s : StateItem) (rest : List StateItem)
    → is_overdue now s ≡ false
    → (expired_workers now (s ∷ rest) ≡ expired_workers now rest) × (requeue_overdue now s ≡ s)
unfolding expired_workers
keep_one now s rest h = elim (Option-cases s.worker_lease) [
  | inl free ↦ (rw free refl, rw h refl)
  | inr (lease, held) ↦
      let runs : has_ended now lease.expires_at ≡ false =
        ap (λ o. elim o as (λ _. Bool) [ none ↦ false | some l ↦ has_ended now l.expires_at ])
          (sym held)
        ∙ h in
      (rw held (rw runs refl), rw h refl)
]

pub expire_one :
    (now : Rfc3339Utc) (s : StateItem) (rest : List StateItem)
    → is_overdue now s ≡ true
    → (lease : LeaseState) × (s.worker_lease ≡ some lease)
      × (expired_workers now (s ∷ rest) ≡ recovered lease s.item_id ∷ expired_workers now rest)
      × (has_ended now lease.expires_at ≡ true)
unfolding expired_workers
expire_one now s rest h = elim (Option-cases s.worker_lease) [
  | inl free ↦ absurd (ground (arith, free))
  | inr (lease, held) ↦
      let ended : has_ended now lease.expires_at ≡ true =
        ap (λ o. elim o as (λ _. Bool) [ none ↦ false | some l ↦ has_ended now l.expires_at ])
          (sym held)
        ∙ h in
      (lease, held, rw held (rw ended refl), ended)
]

recover_step :
    (state : BatchState) (r : RecoveredLease) (rs : List RecoveredLease) (items : List StateItem)
    {items' : List StateItem}
    → (r.lane == worker) ≡ true
    → update_at state.items r.item_id (recover_worker_item r) items ≡ ok items'
    → recover_workers state (r ∷ rs) items ≡ recover_workers state rs items'
unfolding recover_workers
recover_step state r rs items lane changed = rw lane (rw changed refl)

module _ (state : BatchState) (now : Rfc3339Utc) (apart : IdsApart state.items) where
  -- From any position on, the reducer's loop requeues just the items that are overdue.
  recover_from :
      (before done rest : List StateItem)
      → state.items ≡ before ++ rest
      → length before ≡ length done
      → all validate_lane_state rest ≡ true
      → recover_workers state (expired_workers now rest) (done ++ rest)
        ≡ ok (done ++ map (requeue_overdue now) rest)
  unfolding recover_workers expired_workers
  recover_from before done [] e l valid = refl
  recover_from before done (s ∷ rest) e l valid =
      let go_on : (s' : StateItem)
          → recover_workers state (expired_workers now rest) (done ++ s' ∷ rest)
            ≡ ok (done ++ s' ∷ map (requeue_overdue now) rest) =
        λ s'.
          ap (recover_workers state (expired_workers now rest)) (sym (append_one done s' rest))
          ∙ recover_from (before ++ (s ∷ [])) (done ++ (s' ∷ [])) rest
              (e ∙ sym (append_one before s rest))
              (length_one before s ∙ ap suc l ∙ sym (length_one done s')) (ground (arith, valid))
          ∙ ap ok (append_one done s' (map (requeue_overdue now) rest)) in
      elim (Bool-cases (is_overdue now s)) [
        | inr fresh ↦
            let (same_list, kept) = keep_one now s rest fresh in
            ap (λ r. recover_workers state r (done ++ s ∷ rest)) same_list
            ∙ go_on s
            ∙ ap (λ x. ok (done ++ x ∷ map (requeue_overdue now) rest)) (sym kept)
        | inl late ↦
            let (lease, held, listed, _) = expire_one now s rest late in
            let (claimed, lane) = leased_worker s (ground (arith, valid)) held in
            let index : state_item_index state.items s.item_id ≡ ok (length done) =
              state_item_index-at state.items (length before) apart
                (ap (λ t. get_elem? t (length before)) e ∙ get_elem?-append before s rest)
              ∙ ap ok l in
            let s' = record s { worker_status = WorkerStatus.queued; worker_lease = none } in
            let changed =
              update_at-accepts state.items (done ++ s ∷ rest) s.item_id
                (recover_worker_item (recovered lease s.item_id)) (length done) index
                (get_elem?-append done s rest) (recovered_fits s lease held claimed)
              ∙ ap ok (set-append done s s' rest) in
            ap (λ r. recover_workers state r (done ++ s ∷ rest)) listed
            ∙ recover_step state (recovered lease s.item_id) (expired_workers now rest)
                (done ++ s ∷ rest) lane changed
            ∙ go_on s'
            ∙ ap (λ b. ok (done ++ (if b then s' else s) ∷ map (requeue_overdue now) rest))
                (sym late)
      ]

-- The reducer's loop takes the expired worker leases of a replayed state, and requeues their items.
pub recover_workers-expired :
    (derive : UuidString → UuidString) (manifest : BatchManifest) (events : List BatchEvent)
    (state : BatchState) (now : Rfc3339Utc)
    → replay derive manifest events ≡ ok state
    → reject_duplicate_identities manifest ≡ true
    → recover_workers state (expired_workers now state.items) state.items
      ≡ ok (map (requeue_overdue now) state.items)
recover_workers-expired derive manifest events state now replayed distinct_ids =
    let good = replay-Good derive manifest events replayed in
    recover_from state now (ids_apart manifest state.items distinct_ids good.same) [] [] state.items
      refl refl (valid_parts state good.valid).0
