-- ===== src/Batch/History.antt =====
-- Rules of induction over the journal: what every accepted event keeps holds of every replayed
-- state.
use paperread.Prelude.{◌≡◌, subst, sym, List, [], ◌∷◌, Paired, ok, >>=-eq-ok, arith, true}
use paperread.Contracts.Scalars.{UuidString}
use paperread.Contracts.Manifest.{BatchManifest, ManifestItem}
use paperread.Contracts.State.{StateItem, BatchState}
use paperread.Contracts.Snapshot.{model_validate}
use paperread.Contracts.Events.{BatchEvent}
use paperread.Reducer.Base.{initial_items, initial_state}
use paperread.Reducer.Leases.{reserve_item, mutate_item, mutate_lease, renew_lease, end_lease}
use paperread.Reducer.Claim.{claim_item}
use paperread.Reducer.Finish.{finish_item, check_outcome, finish_lane, retry_item}
use paperread.Reducer.WriteClaim.{
  claim_write_item, mutate_write_item, mutate_write, renew_write, end_write,
}
use paperread.Reducer.WriteRun.{start_item, write_item, uncertain_item}
use paperread.Reducer.WriteSettle.{reconcile_item, retry_write_item}
use paperread.Reducer.Recover.{recover_worker_item, recover_local_item, resume_item}
use paperread.Reducer.Apply.{apply_event, apply_all, replay}
use paperread.Batch.Frame.{SameId, Paired-get_elem?, Paired-set}
use paperread.Batch.Steps.{
  ItemStep, claims, reserves, mutates, finishes, retries, recovers_worker, recovers_local, resumes,
  claims_write, mutates_write, starts, writes, doubts, reconciles, retries_write, at, Run, here,
  next,
}

-- The first snapshot holds the initial items and is valid.
pub initial_state-eq-ok :
    (manifest : BatchManifest) (event : BatchEvent) {state : BatchState}
    → initial_state manifest event ≡ ok state
    → (state.items ≡ initial_items manifest) × (model_validate state ≡ true)
unfolding initial_state
initial_state-eq-ok manifest event h = ground arith

module _ (derive : UuidString → UuidString) (manifest : BatchManifest) where
  module _ (P : BatchState → Type 0)
      (keeps : (state : BatchState) (event : BatchEvent) (state' : BatchState)
        → apply_event derive state manifest event ≡ ok state'
        → P state
        → P state') where
    pub apply_all-keeps :
        (events : List BatchEvent) (state : BatchState) {state' : BatchState}
        → apply_all derive state manifest events ≡ ok state'
        → P state
        → P state'
    unfolding apply_all
    apply_all-keeps [] state h p = ground arith
    apply_all-keeps (e ∷ events) state h p =
        let (state1, first, rest) = >>=-eq-ok (apply_event derive state manifest e) _ h in
        apply_all-keeps events state1 rest (keeps state e state1 first p)

    pub replay-keeps :
        ((event : BatchEvent) (state : BatchState)
          → initial_state manifest event ≡ ok state
          → P state)
        → (events : List BatchEvent) {state : BatchState} → replay derive manifest events ≡ ok state
        → P state
    unfolding replay
    replay-keeps starts_well [] h = cc
    replay-keeps starts_well (e ∷ events) h =
        let (state1, first, rest) = >>=-eq-ok (initial_state manifest e) _ h in
        apply_all-keeps events state1 rest (starts_well e state1 first)

  -- What each item step keeps, a run keeps in the whole list.
  pub Run-Paired :
      (R : ManifestItem → StateItem → Type 0) (state : BatchState) (event : BatchEvent)
      → ((m : ManifestItem) (s s' : StateItem)
          → ItemStep derive state manifest event m s s'
          → R m s
          → R m s')
      → {items items' : List StateItem} → Run derive state manifest event items items'
      → Paired R manifest.items items
      → Paired R manifest.items items'
  Run-Paired R state event keeps here p = p
  Run-Paired R state event keeps (next {items' = mid} run (at index m s s' em es step e)) p =
      let q = Run-Paired R state event keeps run p in
      subst (Paired R manifest.items) (sym e) (
        Paired-set R manifest.items mid index s' q em
          (keeps m s s' step (Paired-get_elem? R manifest.items mid index q em es)))

  pub ItemStep-SameId :
      (state : BatchState) (event : BatchEvent) (m : ManifestItem) (s s' : StateItem)
      → ItemStep derive state manifest event m s s'
      → SameId m s
      → SameId m s'
  ItemStep-SameId state event m s s' (claims kind d _ _ h) r = unfold claim_item in ground arith
  ItemStep-SameId state event m s s' (reserves d h) r = unfold reserve_item in ground arith
  ItemStep-SameId state event m s s' (mutates d h) r =
      unfold mutate_item mutate_lease renew_lease end_lease in ground arith
  ItemStep-SameId state event m s s' (finishes d h) r =
      unfold finish_item check_outcome finish_lane in ground arith
  ItemStep-SameId state event m s s' (retries d h) r = unfold retry_item in ground arith
  ItemStep-SameId state event m s s' (recovers_worker d h) r =
      unfold recover_worker_item in ground arith
  ItemStep-SameId state event m s s' (recovers_local d h) r =
      unfold recover_local_item in ground arith
  ItemStep-SameId state event m s s' (resumes d _ h) r = unfold resume_item in ground arith
  ItemStep-SameId state event m s s' (claims_write d _ _ _ _ h) r =
      unfold claim_write_item in ground arith
  ItemStep-SameId state event m s s' (mutates_write d h) r =
      unfold mutate_write_item mutate_write renew_write end_write in ground arith
  ItemStep-SameId state event m s s' (starts d _ _ h) r = unfold start_item in ground arith
  ItemStep-SameId state event m s s' (writes d h) r = unfold write_item in ground arith
  ItemStep-SameId state event m s s' (doubts d h) r = unfold uncertain_item in ground arith
  ItemStep-SameId state event m s s' (reconciles d h) r = unfold reconcile_item in ground arith
  ItemStep-SameId state event m s s' (retries_write d _ _ h) r =
      unfold retry_write_item in ground arith
