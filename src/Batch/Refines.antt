-- ===== src/Batch/Refines.antt =====
-- `apply_event` of v2_reducer.py against the step relation of Batch/Steps.antt.
use paperread.Prelude.{
  true, ◌≡◌, refl, sym, subst, List, [], ◌∷◌, Paired, Result, ok, >>=-eq-ok, past_guard, eq_of_ok,
  ◌∙◌,
}
use paperread.Contracts.Scalars.{UuidString, ItemId}
use paperread.Contracts.Manifest.{BatchManifest, ManifestItem, item_id_of}
use paperread.Contracts.State.{StateItem, BatchState}
use paperread.Contracts.Snapshot.{model_validate}
use paperread.Contracts.Events.{
  BatchEvent, EventData, ClaimKind, ClaimAssignment, ClaimedData, RecoveredLease,
  ResumedLocalPrepareLease, RunRecoveredData, WriteClaimedData,
}
use paperread.Reducer.Base.{manifest_item, update_at, update_item, successor}
use paperread.Reducer.Leases.{apply_coordination_reserved, apply_lease_mutation}
use paperread.Reducer.Claim.{claim_item, claim_assignment, claim_all, apply_claim}
use paperread.Reducer.Finish.{apply_finished, apply_retried}
use paperread.Reducer.WriteClaim.{claim_write_item, apply_write_claimed, apply_write_lease_mutation}
use paperread.Reducer.WriteRun.{apply_write_started, apply_write_written, apply_write_uncertain}
use paperread.Reducer.WriteSettle.{apply_write_reconciled, apply_write_retried}
use paperread.Reducer.Recover.{recover_workers, recover_locals, resume_locals, apply_recovered}
use paperread.Reducer.Apply.{apply_aborted, dispatch, apply_event}
use paperread.Batch.Frame.{
  SameId, with_items-eq-ok, update_at-eq-ok, lookups_meet, update_item-eq-ok,
}
use paperread.Batch.Steps.{
  is_write_claim, is_claim, is_resumption, ItemStep, claims, reserves, mutates, finishes, retries,
  recovers_worker, recovers_local, resumes, claims_write, mutates_write, starts, writes, doubts,
  reconciles, retries_write, ListStep, at, Run, here, next,
}
use paperread.Batch.Accepted.{
  Continues, apply_aborted-eq-ok, apply_claim-eq-ok, apply_event-eq-ok, apply_recovered-eq-ok,
  apply_write_claimed-eq-ok, claim_assignment-eq-ok,
}

module _ (derive : UuidString → UuidString) (state : BatchState) (manifest : BatchManifest)
    (event : BatchEvent) (same : Paired SameId manifest.items state.items) where
  abbrev Step : ManifestItem → StateItem → StateItem → Type 0
  Step = ItemStep derive state manifest event

  -- A change through the frame is a step of the list, if it is a step of the item.
  Step-at :
      (id : ItemId) (change : StateItem → Result StateItem) (items : List StateItem)
      {items' : List StateItem}
      → ((m : ManifestItem) (s s' : StateItem)
          → manifest_item manifest.items id ≡ ok m
          → item_id_of m ≡ id
          → change s ≡ ok s'
          → Step m s s')
      → update_at state.items id change items ≡ ok items'
      → ListStep derive state manifest event items items'
  Step-at id change items step h =
      let (index, s, s', found, read, changed, e) = update_at-eq-ok state.items id change items h in
      let (m, looked, read_m, named) =
        lookups_meet id manifest.items state.items index same found in
      at index m s s' read_m read (step m s s' looked named changed) e

  -- An event about one item is one step, and its snapshot is valid.
  abbrev pub Ends : BatchState → Type 0
  Ends state' =
      (items' : List StateItem) × Run derive state manifest event state.items items'
      × (state' ≡ successor state items' event)
      × (model_validate state' ≡ true)

  item-Ends :
      (id : ItemId) (change : StateItem → Result StateItem) {state' : BatchState}
      → ((m : ManifestItem) (s s' : StateItem)
          → manifest_item manifest.items id ≡ ok m
          → item_id_of m ≡ id
          → change s ≡ ok s'
          → Step m s s')
      → update_item state event id change ≡ ok state'
      → Ends state'
  item-Ends id change step h =
      let (items', changed, built, valid) = update_item-eq-ok state event id change h in
      (items', next here (Step-at id change state.items step changed), built, valid)

  assigned :
      is_claim event.payload ≡ true
      → (kind : ClaimKind) (d : ClaimAssignment) (items : List StateItem) {items' : List StateItem}
      → claim_assignment state manifest event kind d items ≡ ok items'
      → ListStep derive state manifest event items items'
  assigned p kind d items h =
      let (m0, found, times, changed) =
        claim_assignment-eq-ok state manifest event kind d items h in
      Step-at d.item_id (claim_item kind m0 d) items
        (λ m s s' looked named c.
          let same_item : m0 ≡ m = eq_of_ok (sym found ∙ looked) in
          claims kind d p times (rw (← same_item) c))
        changed

  claim_all-Run :
      is_claim event.payload ≡ true
      → (kind : ClaimKind) (ds : List ClaimAssignment) (items : List StateItem)
        {items' : List StateItem}
      → claim_all state manifest event kind ds items ≡ ok items'
      → Run derive state manifest event state.items items
      → Run derive state manifest event state.items items'
  unfolding claim_all
  claim_all-Run p kind [] items h run =
      subst (Run derive state manifest event state.items) (eq_of_ok h) run
  claim_all-Run p kind (d ∷ ds) items h run =
      let (items1, first, rest) =
        >>=-eq-ok (claim_assignment state manifest event kind d items) _ h in
      claim_all-Run p kind ds items1 rest (next run (assigned p kind d items first))

  workers-Run :
      (ds : List RecoveredLease) (items : List StateItem) {items' : List StateItem}
      → recover_workers state ds items ≡ ok items'
      → Run derive state manifest event state.items items
      → Run derive state manifest event state.items items'
  unfolding recover_workers
  workers-Run [] items h run = subst (Run derive state manifest event state.items) (eq_of_ok h) run
  workers-Run (d ∷ ds) items h run =
      let (laned, h1) = past_guard _ _ _ h in
      let (items1, first, rest) = >>=-eq-ok (update_at state.items d.item_id _ items) _ h1 in
      workers-Run ds items1 rest
        (next run (Step-at d.item_id _ items (λ m s s' _ _ c. recovers_worker d c) first))

  locals-Run :
      (ds : List RecoveredLease) (items : List StateItem) {items' : List StateItem}
      → recover_locals state ds items ≡ ok items'
      → Run derive state manifest event state.items items
      → Run derive state manifest event state.items items'
  unfolding recover_locals
  locals-Run [] items h run = subst (Run derive state manifest event state.items) (eq_of_ok h) run
  locals-Run (d ∷ ds) items h run =
      let (laned, h1) = past_guard _ _ _ h in
      let (items1, first, rest) = >>=-eq-ok (update_at state.items d.item_id _ items) _ h1 in
      locals-Run ds items1 rest
        (next run (Step-at d.item_id _ items (λ m s s' _ _ c. recovers_local d c) first))

  resumes-Run :
      is_resumption event.payload ≡ true
      → (ds : List ResumedLocalPrepareLease) (items : List StateItem) {items' : List StateItem}
      → resume_locals state event ds items ≡ ok items'
      → Run derive state manifest event state.items items
      → Run derive state manifest event state.items items'
  unfolding resume_locals
  resumes-Run p [] items h run =
      subst (Run derive state manifest event state.items) (eq_of_ok h) run
  resumes-Run p (d ∷ ds) items h run =
      let (items1, first, rest) = >>=-eq-ok (update_at state.items d.item_id _ items) _ h in
      resumes-Run p ds items1 rest
        (next run (Step-at d.item_id _ items (λ m s s' _ _ c. resumes d p c) first))

  claim-Ends :
      (d : ClaimedData) {state' : BatchState}
      → is_claim event.payload ≡ true
      → apply_claim state manifest event d ≡ ok state'
      → Ends state'
  claim-Ends d p h =
      let (items', _, claimed, rest) = apply_claim-eq-ok state manifest event d h in
      let (built, valid) = with_items-eq-ok state items' event rest in
      (items', claim_all-Run p d.kind d.assignments state.items claimed here, built, valid)

  maybe_resumes-Run :
      (ds : List ResumedLocalPrepareLease) (d : RunRecoveredData) (items : List StateItem)
      {items' : List StateItem}
      → event.payload ≡ EventData.run_recovered d
      → d.resumed_local_prepare_leases ≡ ds
      → resume_locals state event ds items ≡ ok items'
      → Run derive state manifest event state.items items
      → Run derive state manifest event state.items items'
  unfolding resume_locals
  maybe_resumes-Run [] d items p e h run =
      subst (Run derive state manifest event state.items) (eq_of_ok h) run
  maybe_resumes-Run (x ∷ xs) d items p e h run = resumes-Run (rw (p, e)) (x ∷ xs) items h run

  recover-Ends :
      (d : RunRecoveredData) {state' : BatchState}
      → event.payload ≡ EventData.run_recovered d
      → apply_recovered state event d ≡ ok state'
      → Ends state'
  recover-Ends d p h =
      let (workers, locals, items', w, l, r, rest) =
        apply_recovered-eq-ok state manifest event d h in
      let (built, valid) = with_items-eq-ok state items' event rest in
      (
        items',
        maybe_resumes-Run d.resumed_local_prepare_leases d locals p refl r (
            locals-Run d.expired_local_prepare_leases workers l
              (workers-Run d.expired_worker_leases state.items w here)),
        built,
        valid,
      )

  write_claim-Ends :
      (d : WriteClaimedData) {state' : BatchState}
      → is_write_claim event.payload ≡ true
      → apply_write_claimed state manifest event d ≡ ok state'
      → Ends state'
  write_claim-Ends d p h =
      let (m0, policy, found, zotero, free, rest) =
        apply_write_claimed-eq-ok state manifest event d h in
      item-Ends d.item_id (claim_write_item state m0 event d)
        (λ m s s' looked named c.
          let same_item : m0 ≡ m = eq_of_ok (sym found ∙ looked) in
          claims_write d p policy (rw (← same_item) zotero) free (rw (← same_item) c))
        rest

  aborted-Ends : {state' : BatchState} → apply_aborted state event ≡ ok state' → Ends state'
  aborted-Ends h =
      let (built, valid) =
        with_items-eq-ok state state.items event (apply_aborted-eq-ok state manifest event h) in
      (state.items, here, built, valid)

  -- Every branch of `apply_event` ends in a run of item steps and a valid snapshot.
  dispatch-Ends :
      (d : EventData) {state' : BatchState}
      → event.payload ≡ d
      → dispatch derive state manifest event d ≡ ok state'
      → Ends state'
  unfolding dispatch
  dispatch-Ends (EventData.run_initialized d) p h = cc
  dispatch-Ends (EventData.claimed d) p h = claim-Ends d (rw p) h
  dispatch-Ends (EventData.coordination_reserved d) p h =
      item-Ends d.item_id _ (λ m s s' _ _ c. reserves d c) (unfold apply_coordination_reserved in h)
  dispatch-Ends (EventData.lease_mutation d) p h =
      item-Ends d.item_id _ (λ m s s' _ _ c. mutates d c) (unfold apply_lease_mutation in h)
  dispatch-Ends (EventData.finished d) p h =
      item-Ends d.item_id _ (λ m s s' looked _ c. finishes d (rw (← looked) c))
        (unfold apply_finished in h)
  dispatch-Ends (EventData.retried d) p h =
      item-Ends d.item_id _ (λ m s s' _ _ c. retries d c) (unfold apply_retried in h)
  dispatch-Ends (EventData.run_recovered d) p h = recover-Ends d p h
  dispatch-Ends (EventData.request_aborted d) p h = aborted-Ends h
  dispatch-Ends (EventData.write_claimed d) p h = write_claim-Ends d (rw p) h
  dispatch-Ends (EventData.write_lease_mutation d) p h =
      item-Ends d.item_id _ (λ m s s' _ _ c. mutates_write d c)
        (unfold apply_write_lease_mutation in h)
  dispatch-Ends (EventData.write_started d) p h =
      item-Ends d.item_id _ (λ m s s' _ named c. starts d p (sym named) c)
        (unfold apply_write_started in h)
  dispatch-Ends (EventData.write_written d) p h =
      item-Ends d.item_id _ (λ m s s' looked _ c. writes d (rw (← looked) c))
        (unfold apply_write_written in h)
  dispatch-Ends (EventData.write_uncertain d) p h =
      item-Ends d.item_id _ (λ m s s' _ _ c. doubts d c) (unfold apply_write_uncertain in h)
  dispatch-Ends (EventData.write_reconciled d) p h =
      item-Ends d.item_id _ (λ m s s' _ _ c. reconciles d c) (unfold apply_write_reconciled in h)
  dispatch-Ends (EventData.write_retried d) p h =
      item-Ends d.item_id _ (λ m s s' _ named c. retries_write d p (sym named) c)
        (unfold apply_write_retried in h)

  -- An accepted event continues the journal, comes no earlier than the state, and takes the items by
  -- a run of item steps into a valid snapshot, which is the state with the new items.
  pub apply_event-Run :
      {state' : BatchState}
      → apply_event derive state manifest event ≡ ok state'
      → Continues derive state manifest event × Ends state'
  apply_event-Run {state'} h =
      let (order, rest) = apply_event-eq-ok derive state manifest event h in
      (order, dispatch-Ends event.payload {state' = state'} refl rest)
