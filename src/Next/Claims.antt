-- ===== src/Next/Claims.antt =====
-- What an offered claim of v2_next_actions.py means for the reducer.
use paperread.Prelude.{
  ◌+◌, ◌<◌, Bool, true, false, not, ◌&&◌, ◌≡◌, sym, ◌∙◌, some, List, [], ◌∷◌, ok, any, arith, inl,
  inr, Bool-cases, Option-cases, ◌==◌, Result-cases, eq_of_some, ap,
}
use paperread.Contracts.Scalars.{ItemId}
use paperread.Contracts.Manifest.{BatchManifest, ManifestItem, is_pdf, is_zotero_write, item_id_of}
use paperread.Contracts.Status.{worker, local_prepare, WriteStatus, write_eq}
use paperread.Contracts.State.{StateItem, BatchState}
use paperread.Contracts.Events.{
  BatchEvent, WriteClaimedData, ClaimAssignment, worker_claimed, local_prepare_claimed,
}
use paperread.Reducer.Claim.{claim_item, active_claims, mismatch}
use paperread.Reducer.Base.{manifest_item, update_item}
use paperread.Reducer.WriteClaim.{holds_write_lane, claim_write_item, apply_write_claimed}
use paperread.Next.{
  state_by_id, next_id, worker_claimable, local_claimable, first_runtime_worker_claim_id,
  first_local_prepare_claim_id, first_claimable_write_id, capacity_available,
}

-- What is found is an item that passes the test.
next_id-eq-some :
    (test : StateItem → Bool) (items : List StateItem) (ms : List ManifestItem) {id : ItemId}
    → next_id test items ms ≡ ok (some id)
    → (s : StateItem) × (state_by_id items id ≡ some s) × (test s ≡ true)
unfolding next_id
next_id-eq-some test items [] h = absurd (ground arith)
next_id-eq-some test items (m ∷ ms) {id} h =
    elim (Option-cases (state_by_id items (item_id_of m))) [
      | inl e ↦ absurd (ground arith)
      | inr (s, e) ↦ elim (Bool-cases (test s)) [
        | inl p ↦ (s, ground arith, p)
        | inr p ↦ next_id-eq-some test items ms (ground arith)
      ]
    ]

pub worker_claim_fits :
    (m : ManifestItem) (d : ClaimAssignment) (s : StateItem)
    → worker_claimable s ≡ true
    → d.lane ≡ worker
    → d.attempt_number ≡ s.worker_attempt_count + 1
    → mismatch s.worker_pending_attempt_id d.attempt_id ≡ false
    → (s' : StateItem) × (claim_item worker_claimed m d s ≡ ok s')
unfolding claim_item
worker_claim_fits m d s p l n a = elim (Result-cases (claim_item worker_claimed m d s)) [
  | inl r ↦ r
  | inr (e, r) ↦ absurd (ground arith)
]

-- Where an item is offered for a worker's claim, the concurrency of the manifest leaves room, and the
-- reducer's change accepts for it every worker assignment with the next attempt number that keeps to
-- the attempt that a retry has set.
pub offered_worker_claim :
    (manifest : BatchManifest) (state : BatchState) (m : ManifestItem) (d : ClaimAssignment)
    {s : StateItem}
    → first_runtime_worker_claim_id manifest state ≡ ok (some d.item_id)
    → state_by_id state.items d.item_id ≡ some s
    → d.lane ≡ worker
    → d.attempt_number ≡ s.worker_attempt_count + 1
    → mismatch s.worker_pending_attempt_id d.attempt_id ≡ false
    → (active_claims state.items < manifest.default_concurrency)
      × ((s' : StateItem) × (claim_item worker_claimed m d s ≡ ok s'))
unfolding first_runtime_worker_claim_id
offered_worker_claim manifest state m d {s} h found l n a =
    elim (Bool-cases (capacity_available manifest state)) [
      | inl room ↦
          let (s1, e, p) =
            next_id-eq-some worker_claimable state.items manifest.items {id = d.item_id}
              (ground arith) in
          let same : s1 ≡ s = eq_of_some (sym e ∙ found) in
          (ground arith, worker_claim_fits m d s (rw (← same) p) l n a)
      | inr full ↦ absurd (ground arith)
    ]

local_claim_fits :
    (m : ManifestItem) (d : ClaimAssignment) (s : StateItem)
    → is_pdf m ≡ true
    → local_claimable s ≡ true
    → d.lane ≡ local_prepare
    → d.attempt_number ≡ s.local_prepare_attempt_count + 1
    → (s' : StateItem) × (claim_item local_prepare_claimed m d s ≡ ok s')
unfolding claim_item
local_claim_fits m d s pdf p l n = elim (Result-cases (claim_item local_prepare_claimed m d s)) [
  | inl r ↦ r
  | inr (e, r) ↦ absurd (ground arith)
]

-- Where an item is offered for a local preparation, the concurrency leaves room, and the reducer's
-- change accepts for it, as a PDF, every local assignment with the next attempt number.
pub offered_local_claim :
    (manifest : BatchManifest) (state : BatchState) (m : ManifestItem) (d : ClaimAssignment)
    {s : StateItem}
    → first_local_prepare_claim_id manifest state ≡ ok (some d.item_id)
    → state_by_id state.items d.item_id ≡ some s
    → is_pdf m ≡ true
    → d.lane ≡ local_prepare
    → d.attempt_number ≡ s.local_prepare_attempt_count + 1
    → (active_claims state.items < manifest.default_concurrency)
      × ((s' : StateItem) × (claim_item local_prepare_claimed m d s ≡ ok s'))
unfolding first_local_prepare_claim_id
offered_local_claim manifest state m d {s} h found pdf l n =
    elim (Bool-cases (capacity_available manifest state)) [
      | inl room ↦
          let (s1, e, p) =
            next_id-eq-some local_claimable state.items manifest.items {id = d.item_id}
              (ground arith) in
          let same : s1 ≡ s = eq_of_some (sym e ∙ found) in
          (ground arith, local_claim_fits m d s pdf (rw (← same) p) l n)
      | inr full ↦ absurd (ground arith)
    ]

-- Where an item is offered for a write claim, it is queued, and a write claim of it passes all tests
-- that the reducer makes of the batch, if it is no PDF: what remains is the change of the item.
pub offered_write_claim :
    (manifest : BatchManifest) (state : BatchState) (m : ManifestItem) (event : BatchEvent)
    (d : WriteClaimedData) {s : StateItem}
    → first_claimable_write_id manifest state ≡ ok (some d.item_id)
    → state_by_id state.items d.item_id ≡ some s
    → manifest_item manifest.items d.item_id ≡ ok m
    → is_pdf m ≡ false
    → (s.write_status ≡ WriteStatus.queued)
      × (apply_write_claimed state manifest event d
          ≡ update_item state event d.item_id (claim_write_item state m event d))
unfolding first_claimable_write_id apply_write_claimed
offered_write_claim manifest state m event d {s} h found looked zotero =
    elim (Bool-cases
      (is_zotero_write manifest.write_policy && not (any holds_write_lane state.items))) [
        | inl free ↦
            let (s1, e, p) =
              next_id-eq-some (λ item. item.write_status == WriteStatus.queued) state.items
                manifest.items {id = d.item_id} (ground arith) in
            let same : s1 ≡ s = eq_of_some (sym e ∙ found) in
            let queued : s1.write_status ≡ WriteStatus.queued = ground arith in
            (ap (λ x. x.write_status) (sym same) ∙ queued, ground arith)
        | inr busy ↦ absurd (ground arith)
      ]
