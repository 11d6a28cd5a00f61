-- ===== src/Batch/Concurrency.antt =====
-- The bound on active task claims, `default_concurrency` of the manifest, in v2_reducer.py.
use paperread.Prelude.{
  ℕ, ◌+◌, ◌≤◌, true, false, ◌≡◌, refl, ap, subst, List, [], ◌∷◌, map, length, to_nat, All, ok,
  >>=-eq-ok, arith, inl, inr, Bool-cases, leb, eq_of_ok,
}
use paperread.Contracts.Scalars.{UuidString}
use paperread.Contracts.Manifest.{BatchManifest, ManifestItem}
use paperread.Contracts.Status.{Lane, worker, local_prepare}
use paperread.Contracts.State.{StateItem, BatchState}
use paperread.Contracts.Events.{
  BatchEvent, EventData, ClaimedData, ClaimKind, ClaimAssignment, FinishedData, LeaseMutationData,
  WriteLeaseMutationData,
}
use paperread.Reducer.Base.{initial_items, initial_item, initial_state}
use paperread.Reducer.Leases.{reserve_item}
use paperread.Reducer.Claim.{
  is_claimed, active_claims, claim_item, claim_assignment, claim_all, apply_claim,
}
use paperread.Reducer.Finish.{finish_item, retry_item}
use paperread.Reducer.WriteClaim.{claim_write_item}
use paperread.Reducer.WriteRun.{start_item, write_item, uncertain_item}
use paperread.Reducer.WriteSettle.{reconcile_item, retry_write_item}
use paperread.Reducer.Recover.{recover_worker_item, recover_local_item}
use paperread.Reducer.Apply.{apply_event, apply_all, dispatch, replay}
use paperread.Batch.Frame.{total-set, update_at-eq-ok, with_items-eq-ok}
use paperread.Batch.Steps.{ItemStep, is_claim, is_resumption}
use paperread.Batch.Steps
use paperread.Batch.Accepted.{apply_event-eq-ok, claim_assignment-eq-ok, apply_claim-eq-ok}
use paperread.Batch.Refines.{apply_event-Run}
use paperread.Batch.History.{initial_state-eq-ok}
use paperread.Batch.Finishes.{
  Finished, worker_failed, pdf_succeeded, zotero_succeeded, finish_item-eq-ok,
  worker_finish-Finished, local_finish,
}
use paperread.Batch.Mutations.{
  Mutated, renewed_worker, renewed_local, ended_worker, ended_local, mutate_item-Mutated,
  WriteMutated, renewed_write, ended_write, mutate_write_item-WriteMutated,
}
use paperread.Batch.Items.{Sound}
use paperread.Batch.Replayed.{Good, apply_event-Good, initial_state-Good, Run-total-le}

abbrev claim_weight : StateItem → ℕ
claim_weight s = to_nat (is_claimed s)

module _ (derive : UuidString → UuidString) (manifest : BatchManifest) (state : BatchState)
    (event : BatchEvent) (m : ManifestItem) (s s' : StateItem) where
  abbrev Falls : Type 0
  Falls = claim_weight s' ≤ claim_weight s

  mutate-Falls : (d : LeaseMutationData) → Sound manifest m s → Mutated d s s' → Falls
  mutate-Falls d r (renewed_worker lease lease' l x p e) = ground arith
  mutate-Falls d r (renewed_local lease lease' l x p e) = ground arith
  mutate-Falls d r (ended_worker lease l e) = ground arith
  mutate-Falls d r (ended_local lease l e) = ground arith

  worker_finish-Falls : (d : FinishedData) → Finished manifest.write_policy m d s s' → Falls
  worker_finish-Falls d (worker_failed status f e) = ground arith
  worker_finish-Falls d (pdf_succeeded p e) = ground arith
  worker_finish-Falls d (zotero_succeeded p e) = ground arith

  finish-Falls :
      (d : FinishedData) → finish_item manifest.write_policy (ok m) event d s ≡ ok s' → Falls
  finish-Falls d h = by_lane d.lane refl
    where
      by_lane : (lane : Lane) → d.lane ≡ lane → Falls
      by_lane worker e = worker_finish-Falls d (
          worker_finish-Finished manifest.write_policy m d s s'
            (rw (← e) (finish_item-eq-ok manifest.write_policy (ok m) event d s h).5))
      by_lane local_prepare e =
          let (status, f, e') =
            local_finish manifest.write_policy (ok m) d s s'
              (rw (← e) (finish_item-eq-ok manifest.write_policy (ok m) event d s h).5) in
          ground arith

  mutate_write-Falls : (d : WriteLeaseMutationData) → WriteMutated d s s' → Falls
  mutate_write-Falls d (renewed_write lease lease' l e) = ground arith
  mutate_write-Falls d (ended_write lease l p e) = ground arith

  -- Every step but a claim or a resumption leaves no more active claims.
  ItemStep-Falls :
      is_claim event.payload ≡ false
      → is_resumption event.payload ≡ false
      → Sound manifest m s
      → ItemStep derive state manifest event m s s'
      → Falls
  ItemStep-Falls c n r (Steps.claims kind d p _ h) = absurd (ground arith)
  ItemStep-Falls c n r (Steps.reserves d h) = unfold reserve_item in ground arith
  ItemStep-Falls c n r (Steps.mutates d h) = mutate-Falls d r (mutate_item-Mutated event d s s' h)
  ItemStep-Falls c n r (Steps.finishes d h) = finish-Falls d h
  ItemStep-Falls c n r (Steps.retries d h) = unfold retry_item in ground arith
  ItemStep-Falls c n r (Steps.recovers_worker d h) = unfold recover_worker_item in ground arith
  ItemStep-Falls c n r (Steps.recovers_local d h) = unfold recover_local_item in ground arith
  ItemStep-Falls c n r (Steps.resumes d p h) = absurd (ground arith)
  ItemStep-Falls c n r (Steps.claims_write d _ _ _ _ h) = unfold claim_write_item in ground arith
  ItemStep-Falls c n r (Steps.mutates_write d h) =
      mutate_write-Falls d (mutate_write_item-WriteMutated event d s s' h)
  ItemStep-Falls c n r (Steps.starts d _ _ h) = unfold start_item in ground arith
  ItemStep-Falls c n r (Steps.writes d h) = unfold write_item in ground arith
  ItemStep-Falls c n r (Steps.doubts d h) = unfold uncertain_item in ground arith
  ItemStep-Falls c n r (Steps.reconciles d h) = unfold reconcile_item in ground arith
  ItemStep-Falls c n r (Steps.retries_write d _ _ h) = unfold retry_write_item in ground arith

-- A claim turns an unclaimed item into a claimed one.
claim_item-unclaimed :
    (kind : ClaimKind) (m : ManifestItem) (a : ClaimAssignment) (s : StateItem) {s' : StateItem}
    → claim_item kind m a s ≡ ok s'
    → (is_claimed s ≡ false) × (is_claimed s' ≡ true)
unfolding claim_item
claim_item-unclaimed kind m a s h = ground arith

leb_le : (a b : ℕ) → leb a b ≡ true → a ≤ b
leb_le a b h = ground arith

claim_data :
    (payload : EventData)
    → is_claim payload ≡ true
    → (d : ClaimedData) × (payload ≡ EventData.claimed d)
claim_data payload h = ground arith

initial_claims : (ms : List ManifestItem) → active_claims (map initial_item ms) ≡ 0
unfolding initial_item
initial_claims [] = refl
initial_claims (m ∷ ms) = ground (arith, initial_claims ms)

module _ (manifest : BatchManifest) (state : BatchState) (event : BatchEvent) where
  -- Each accepted assignment adds one active claim.
  claim_all-active :
      (kind : ClaimKind) (ds : List ClaimAssignment) (items : List StateItem)
      {items' : List StateItem}
      → claim_all state manifest event kind ds items ≡ ok items'
      → active_claims items' ≡ active_claims items + length ds
  unfolding claim_all
  claim_all-active kind [] items h = omega (arith, ap active_claims (eq_of_ok h))
  claim_all-active kind (d ∷ ds) items h =
      let (items1, first, rest) =
        >>=-eq-ok (claim_assignment state manifest event kind d items) _ h in
      let (m, _, _, changed) = claim_assignment-eq-ok state manifest event kind d items first in
      let (j, s, s', _, es, c, e) = update_at-eq-ok state.items d.item_id _ items changed in
      let (before, after) = claim_item-unclaimed kind m d s c in
      omega (
        arith,
        claim_all-active kind ds items1 rest,
        total-set claim_weight items j s' es,
        ap to_nat before,
        ap to_nat after,
        ap active_claims e,
      )

  claim_within :
      (d : ClaimedData) {state' : BatchState}
      → apply_claim state manifest event d ≡ ok state'
      → active_claims state'.items ≤ manifest.default_concurrency
  claim_within d h =
      let (items', fits, claimed, rest) = apply_claim-eq-ok state manifest event d h in
      let (built, _) = with_items-eq-ok state items' event rest in
      omega (
        arith,
        claim_all-active d.kind d.assignments state.items claimed,
        leb_le (active_claims state.items + length d.assignments) manifest.default_concurrency fits,
        ap (λ t. active_claims t.items) built,
      )

-- An accepted event that resumes no local attempt keeps the active claims, in both lanes together,
-- within the manifest's concurrency.
pub active_claims-apply_event :
    (derive : UuidString → UuidString) (manifest : BatchManifest) (state : BatchState)
    (event : BatchEvent) {state' : BatchState}
    → Good manifest state
    → is_resumption event.payload ≡ false
    → active_claims state.items ≤ manifest.default_concurrency
    → apply_event derive state manifest event ≡ ok state'
    → active_claims state'.items ≤ manifest.default_concurrency
unfolding dispatch
active_claims-apply_event derive manifest state event {state'} g n within h =
    elim (Bool-cases (is_claim event.payload)) [
      | inl c ↦
          let (d, p) = claim_data event.payload c in
          claim_within manifest state event d (
            subst (λ q. dispatch derive state manifest event q ≡ ok state') p
              (apply_event-eq-ok derive state manifest event h).1)
      | inr c ↦
          let (_, (items', run, built, _)) = apply_event-Run derive state manifest event g.same h in
          omega (
            arith,
            Run-total-le derive manifest claim_weight state event
                (λ m s s' r step. ItemStep-Falls derive manifest state event m s s' c n r step)
                g.sound run,
            ap (λ t. active_claims t.items) built,
          )
    ]

module _ (derive : UuidString → UuidString) (manifest : BatchManifest) where
  apply_all-active :
      (events : List BatchEvent) (state : BatchState) {state' : BatchState}
      → Good manifest state
      → All (λ e. is_resumption e.payload ≡ false) events
      → active_claims state.items ≤ manifest.default_concurrency
      → apply_all derive state manifest events ≡ ok state'
      → active_claims state'.items ≤ manifest.default_concurrency
  unfolding apply_all
  apply_all-active [] state g n within h =
      omega (arith, ap (λ t. active_claims t.items) (eq_of_ok h))
  apply_all-active (e ∷ events) state g (n, rest_n) within h =
      let (state1, first, rest) = >>=-eq-ok (apply_event derive state manifest e) _ h in
      apply_all-active events state1 (apply_event-Good derive manifest state e state1 first g)
        rest_n (active_claims-apply_event derive manifest state e g n within first) rest

-- A journal whose recoveries resume no local attempt replays to a state with at most
-- `default_concurrency` active claims, in both lanes together.
pub active_claims-replay :
    (derive : UuidString → UuidString) (manifest : BatchManifest) (first : BatchEvent)
    (events : List BatchEvent) {state : BatchState}
    → All (λ e. is_resumption e.payload ≡ false) events
    → replay derive manifest (first ∷ events) ≡ ok state
    → active_claims state.items ≤ manifest.default_concurrency
unfolding replay initial_items
active_claims-replay derive manifest first events n h =
    let (state1, begun, rest) = >>=-eq-ok (initial_state manifest first) _ h in
    apply_all-active derive manifest events state1 (initial_state-Good manifest first state1 begun)
      n
      (omega (
        arith,
        initial_claims manifest.items,
        ap active_claims (initial_state-eq-ok manifest first begun).0,
      ))
      rest
