-- ===== src/Batch/Kinds.antt =====
-- The kind of an item's input, which v2_reducer.py takes from the manifest and never changes.
use paperread.Prelude.{◌≡◌, refl, subst, sym, Paired, ok, arith, List}
use paperread.Contracts.Scalars.{UuidString}
use paperread.Contracts.Manifest.{BatchManifest, ManifestItem, input_type_of}
use paperread.Contracts.State.{StateItem, BatchState}
use paperread.Contracts.Events.{BatchEvent}
use paperread.Reducer.Base.{initial_item, initial_items, initial_state}
use paperread.Reducer.Leases.{reserve_item, mutate_item, mutate_lease, renew_lease, end_lease}
use paperread.Reducer.Claim.{claim_item}
use paperread.Reducer.Finish.{finish_item, check_outcome, finish_lane, retry_item}
use paperread.Reducer.WriteClaim.{
  claim_write_item, mutate_write_item, mutate_write, renew_write, end_write,
}
use paperread.Reducer.WriteRun.{start_item, write_item, uncertain_item}
use paperread.Reducer.WriteSettle.{reconcile_item, retry_write_item}
use paperread.Reducer.Recover.{recover_worker_item, recover_local_item, resume_item}
use paperread.Reducer.Apply.{apply_event, replay}
use paperread.Batch.Steps.{
  ItemStep, claims, reserves, mutates, finishes, retries, recovers_worker, recovers_local, resumes,
  claims_write, mutates_write, starts, writes, doubts, reconciles, retries_write,
}
use paperread.Batch.Refines.{apply_event-Run}
use paperread.Batch.History.{initial_state-eq-ok, replay-keeps, Run-Paired}
use paperread.Batch.Replayed.{Good, apply_event-Good, initial_state-Good, Paired-initial}

abbrev pub SameKind : ManifestItem → StateItem → Type 0
SameKind m s = s.input_type ≡ input_type_of m

initial_item-SameKind : (m : ManifestItem) → SameKind m (initial_item m)
unfolding initial_item
initial_item-SameKind m = refl

module _ (derive : UuidString → UuidString) (manifest : BatchManifest) (state : BatchState)
    (event : BatchEvent) (m : ManifestItem) (s s' : StateItem) where
  ItemStep-SameKind : ItemStep derive state manifest event m s s' → SameKind m s → SameKind m s'
  ItemStep-SameKind (claims kind d _ _ h) r = unfold claim_item in ground arith
  ItemStep-SameKind (reserves d h) r = unfold reserve_item in ground arith
  ItemStep-SameKind (mutates d h) r =
      unfold mutate_item mutate_lease renew_lease end_lease in ground arith
  ItemStep-SameKind (finishes d h) r = unfold finish_item check_outcome finish_lane in ground arith
  ItemStep-SameKind (retries d h) r = unfold retry_item in ground arith
  ItemStep-SameKind (recovers_worker d h) r = unfold recover_worker_item in ground arith
  ItemStep-SameKind (recovers_local d h) r = unfold recover_local_item in ground arith
  ItemStep-SameKind (resumes d _ h) r = unfold resume_item in ground arith
  ItemStep-SameKind (claims_write d _ _ _ _ h) r = unfold claim_write_item in ground arith
  ItemStep-SameKind (mutates_write d h) r =
      unfold mutate_write_item mutate_write renew_write end_write in ground arith
  ItemStep-SameKind (starts d _ _ h) r = unfold start_item in ground arith
  ItemStep-SameKind (writes d h) r = unfold write_item in ground arith
  ItemStep-SameKind (doubts d h) r = unfold uncertain_item in ground arith
  ItemStep-SameKind (reconciles d h) r = unfold reconcile_item in ground arith
  ItemStep-SameKind (retries_write d _ _ h) r = unfold retry_write_item in ground arith

module _ (derive : UuidString → UuidString) (manifest : BatchManifest) where
  abbrev IsKind : BatchState → Type 0
  IsKind state = Good manifest state × Paired SameKind manifest.items state.items

  apply_event-IsKind :
      (state : BatchState) (event : BatchEvent) (state' : BatchState)
      → apply_event derive state manifest event ≡ ok state'
      → IsKind state
      → IsKind state'
  apply_event-IsKind state event state' h (g, p) =
      let (_, (items', run, built, valid)) = apply_event-Run derive state manifest event g.same h in
      (
        apply_event-Good derive manifest state event state' h g,
        subst (λ t. Paired SameKind manifest.items t.items) (sym built)
            (Run-Paired derive manifest SameKind state event
              (ItemStep-SameKind derive manifest state event) run p),
      )

  initial-IsKind :
      (event : BatchEvent) (state : BatchState)
      → initial_state manifest event ≡ ok state
      → IsKind state
  unfolding initial_items
  initial-IsKind event state h = (
    initial_state-Good manifest event state h,
    subst (Paired SameKind manifest.items) (sym (initial_state-eq-ok manifest event h).0)
        (Paired-initial SameKind initial_item-SameKind manifest.items),
  )

-- In every replayed state the items have the input types of the manifest.
pub replay-SameKind :
    (derive : UuidString → UuidString) (manifest : BatchManifest) (events : List BatchEvent)
    {state : BatchState}
    → replay derive manifest events ≡ ok state
    → Paired SameKind manifest.items state.items
replay-SameKind derive manifest events h =
    (replay-keeps derive manifest (IsKind derive manifest) (apply_event-IsKind derive manifest)
      (initial-IsKind derive manifest) events h).1
