-- ===== src/Recovery/Accepted.antt =====
-- What the reducer makes of the event that v2_run.py proposes for expired worker leases.
use mathlib.Core.List.{map}
use paperread.Prelude.{
  ℕ, suc, ◌<◌, not, ltb, Bool, true, false, ◌≡◌, refl, sym, ◌∙◌, ap, Option, none, some, List, [],
  ◌∷◌, ◌++◌, get_elem?, ok, Result, length, any, All, subst, arith, inl, inr, Bool-cases, ◌==◌,
  string_eq, nat_eq, is_empty,
}
use text.Mathlib.TextEquality.{eq_iff}
use paperread.Contracts.Scalars.{ItemId, UuidString, Rfc3339Utc, timestamp}
use paperread.Contracts.Manifest.{BatchManifest, reject_duplicate_identities}
use paperread.Contracts.Status.{lane_eq}
use paperread.Contracts.State.{StateItem, BatchState}
use paperread.Contracts.Events.{BatchEvent, EventData, RunRecoveredData, RecoveredUncertainWrite}
use paperread.Reducer.Base.{with_items}
use paperread.Reducer.Recover.{
  check_receipt, Entry, expired_entry, entries, same_key, check_entries, recover_workers,
  recover_locals, resume_locals, apply_recovered,
}
use paperread.Reducer.Apply.{replay}
use paperread.Batch.Replayed.{replay-Good}
use paperread.Next.Found.{IdsApart, ids_apart}
use paperread.Recovery.Propose.{
  recovered, expired_workers, first_expired_write, local_recovery, recover_leases, propose_recovery,
}
use paperread.Recovery.Workers.{
  is_overdue, requeue_overdue, get_elem?-append, append_one, length_one, keep_one, expire_one,
  recover_workers-expired,
}

module _ (event : BatchEvent) (items : List StateItem) (apart : IdsApart items) where
  -- The entry is of an item before a position.
  abbrev IsBefore : ℕ → Entry → Type 0
  IsBefore k e =
      (j : ℕ) × (s : StateItem) × (get_elem? items j ≡ some s) × (s.item_id ≡ e.item_id) × (j < k)

  widen : (k : ℕ) (seen : List Entry) → All (IsBefore k) seen → All (IsBefore (suc k)) seen
  widen k [] hs = tt
  widen k (x ∷ seen) ((j, s, at_j, named, below), hs) =
      ((j, s, at_j, named, omega arith), widen k seen hs)

  unseen :
      (k : ℕ) (s : StateItem) (e : Entry) (seen : List Entry)
      → get_elem? items k ≡ some s
      → e.item_id ≡ s.item_id
      → All (IsBefore k) seen
      → any (same_key e) seen ≡ false
  unfolding same_key
  unseen k s e [] at_k named hs = refl
  unseen k s e (x ∷ seen) at_k named ((j, t, at_j, same, below), hs) =
      let others = unseen k s e seen at_k named hs in
      elim (Bool-cases (e.item_id == x.item_id)) [
        | inl p ↦
            let q =
              apart j k t s at_j at_k (same ∙ sym ((eq_iff e.item_id x.item_id).0 p) ∙ named) in
            absurd (omega arith)
        | inr p ↦ ground (arith, p, others)
      ]

  check_step :
      (e : Entry) (seen rest : List Entry)
      → any (same_key e) seen ≡ false
      → ltb (timestamp event.occurred_at) (timestamp e.authoritative_expiry) ≡ false
      → check_entries event (e ∷ seen) rest ≡ ok tt
      → check_entries event seen (e ∷ rest) ≡ ok tt
  unfolding check_entries
  check_step e seen rest new ended next = rw new (rw ended next)

  -- From any position on, no entry repeats another, and each has ended.
  check_from :
      (before rest : List StateItem) (seen : List Entry)
      → items ≡ before ++ rest
      → All (IsBefore (length before)) seen
      → check_entries event seen (map expired_entry (expired_workers event.occurred_at rest))
        ≡ ok tt
  unfolding check_entries expired_workers
  check_from before [] seen e hs = refl
  check_from before (s ∷ rest) seen e hs =
      let at_s : get_elem? items (length before) ≡ some s =
        ap (λ t. get_elem? t (length before)) e ∙ get_elem?-append before s rest in
      let go_on : (seen' : List Entry)
          → All (IsBefore (suc (length before))) seen'
          → check_entries event seen' (map expired_entry (expired_workers event.occurred_at rest))
            ≡ ok tt =
        λ seen' hs'.
          check_from (before ++ (s ∷ [])) rest seen' (e ∙ sym (append_one before s rest))
            (subst (λ k. All (IsBefore k) seen') (sym (length_one before s)) hs') in
      elim (Bool-cases (is_overdue event.occurred_at s)) [
        | inr fresh ↦
            ap (λ r. check_entries event seen (map expired_entry r))
              (keep_one event.occurred_at s rest fresh).0
            ∙ go_on seen (widen (length before) seen hs)
        | inl late ↦
            let (lease, held, listed, ended) = expire_one event.occurred_at s rest late in
            let entry = expired_entry (recovered lease s.item_id) in
            let new = unseen (length before) s entry seen at_s refl hs in
            let next =
              go_on (entry ∷ seen)
                ((length before, s, at_s, refl, omega arith), widen (length before) seen hs) in
            ap (λ r. check_entries event seen (map expired_entry r)) listed
            ∙ check_step entry seen _ new (ground (arith, ended)) next
      ]

some_expired :
    (now : Rfc3339Utc) (items : List StateItem)
    → any (is_overdue now) items ≡ true
    → is_empty (expired_workers now items) ≡ false
some_expired now [] h = cc
some_expired now (s ∷ rest) h = elim (Bool-cases (is_overdue now s)) [
  | inl late ↦ let (_, _, listed, _) = expire_one now s rest late in ap is_empty listed
  | inr fresh ↦
      ap is_empty (keep_one now s rest fresh).0 ∙ some_expired now rest (ground (arith, h, fresh))
]

-- The event's data, where only worker leases have ended.
abbrev pub workers_expired : Rfc3339Utc → Bool → List StateItem → RunRecoveredData
workers_expired now is_current items = record {
  expired_worker_leases = expired_workers now items;
  expired_local_prepare_leases = [];
  resumed_local_prepare_leases = [];
  snapshot_repaired = not is_current;
  reconciliation_write = none;
}

no_more : (xs : List Entry) → xs ++ [] ≡ xs
no_more [] = refl
no_more (x ∷ xs) = ap (◌∷◌ x) (no_more xs)

applied :
    (state : BatchState) (event : BatchEvent) (is_current : Bool) {requeued : List StateItem}
    → check_entries event [] (map expired_entry (expired_workers event.occurred_at state.items))
      ≡ ok tt
    → recover_workers state (expired_workers event.occurred_at state.items) state.items
      ≡ ok requeued
    → apply_recovered state event (workers_expired event.occurred_at is_current state.items)
      ≡ with_items state requeued event
unfolding apply_recovered check_receipt recover_locals resume_locals
applied state event is_current checked changed =
    let all_checked : check_entries event []
          (entries (workers_expired event.occurred_at is_current state.items))
        ≡ ok tt =
      ap (check_entries event []) (no_more _) ∙ checked in
    rw all_checked (rw changed refl)

module _ (has_side_effects : ItemId → UuidString → UuidString → Result Bool) where
  workers_proposed :
      (uncertain : Result (Option RecoveredUncertainWrite)) (is_current : Bool)
      (events : List BatchEvent) (state : BatchState) (now : Rfc3339Utc)
      → first_expired_write now state.items ≡ none
      → local_recovery has_side_effects events now state.items
        ≡ ok (record { local = []; resumed_local = [] })
      → any (is_overdue now) state.items ≡ true
      → propose_recovery has_side_effects false none uncertain is_current events state now
        ≡ ok (EventData.run_recovered (workers_expired now is_current state.items))
  unfolding propose_recovery recover_leases
  workers_proposed uncertain is_current events state now writes locals late =
      rw writes (rw locals (rw (some_expired now state.items late) refl))

  -- Where no write lease of a replayed state has ended, no local lease is given up or resumed, and the
  -- lease of at least one worker has ended, a recovery without a paper-reader root proposes an event,
  -- for a manifest with distinct ids. The reducer's own tests of the event, which comes at the time of
  -- the recovery, all pass, up to the validation of the next snapshot. Its items are those of before,
  -- where each item whose worker's lease had ended is queued again without a lease.
  pub expired_workers_accepted :
      (derive : UuidString → UuidString) (manifest : BatchManifest) (events : List BatchEvent)
      (state : BatchState) (event : BatchEvent)
      (uncertain : Result (Option RecoveredUncertainWrite)) (is_current : Bool)
      → replay derive manifest events ≡ ok state
      → reject_duplicate_identities manifest ≡ true
      → first_expired_write event.occurred_at state.items ≡ none
      → local_recovery has_side_effects events event.occurred_at state.items
        ≡ ok (record { local = []; resumed_local = [] })
      → any (is_overdue event.occurred_at) state.items ≡ true
      → (d : RunRecoveredData) × (propose_recovery has_side_effects false none uncertain is_current
            events state event.occurred_at
          ≡ ok (EventData.run_recovered d))
        × (apply_recovered state event d
            ≡ with_items state (map (requeue_overdue event.occurred_at) state.items) event)
  expired_workers_accepted derive manifest events state event uncertain is_current replayed
        distinct_ids writes locals late =
      let now = event.occurred_at in
      let apart =
        ids_apart manifest state.items distinct_ids
          (replay-Good derive manifest events replayed).same in
      let checked = check_from event state.items apart [] state.items [] refl tt in
      let requeued =
        recover_workers-expired derive manifest events state now replayed distinct_ids in
      (
        workers_expired now is_current state.items,
        workers_proposed uncertain is_current events state now writes locals late,
        applied state event is_current checked requeued,
      )
