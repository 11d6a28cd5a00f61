-- ===== src/Worker/Offered.antt =====
-- v2_next_actions.py offers the claim of a worker for the item that `worker.claim` of v2_worker.py
-- takes first.
use paperread.Prelude.{
  ℕ, zero, suc, ◌-◌, ◌≤◌, Bool, true, false, ◌&&◌, ◌||◌, ◌≡◌, refl, ◌∙◌, ap, Option, none, some,
  List, [], ◌∷◌, get_elem?, Paired, ok, arith, inl, inr, Bool-cases, Option-cases, eq_of_ok,
  eq_of_some, string_eq,
}
use text.Mathlib.TextEquality.{eq_iff}
use paperread.Contracts.Scalars.{ItemId, UuidString}
use paperread.Contracts.Manifest.{
  BatchManifest, ManifestItem, item_id_of, is_pdf, reject_duplicate_identities,
}
use paperread.Contracts.State.{StateItem, BatchState}
use paperread.Contracts.Events.{BatchEvent}
use paperread.Reducer.Apply.{replay}
use paperread.Batch.Frame.{SameId}
use paperread.Batch.Replayed.{replay-Good}
use paperread.Next.{
  state_by_id, next_id, worker_claimable, capacity_available, first_runtime_worker_claim_id,
}
use paperread.Next.Found.{ids_apart, beside}
use paperread.Next.Progress.{found_at}
use paperread.Worker.Claims.{
  manifest_by_id, is_waiting, select_items, min, capacity, claimable_worker_items,
}

-- Both modules put the same question to an item.
pub same_test : (s : StateItem) → is_waiting s ≡ worker_claimable s
same_test s = ground arith

abbrev pub first_id : List StateItem → Option ItemId
first_id [] = none
first_id (s ∷ items) = some s.item_id

manifest_by_id-present :
    (ms : List ManifestItem) (i : ℕ) {m : ManifestItem}
    → get_elem? ms i ≡ some m
    → (n : ManifestItem) × (manifest_by_id ms (item_id_of m) ≡ some n)
unfolding manifest_by_id
manifest_by_id-present [] i e = cc
manifest_by_id-present (k ∷ ms) zero {m} e =
    elim (Option-cases (manifest_by_id ms (item_id_of m))) [
      | inr (n, f) ↦ (n, ground arith)
      | inl missing ↦
          (k, ground (arith, eq_iff (item_id_of k) (item_id_of m), ap item_id_of (eq_of_some e)))
    ]
manifest_by_id-present (k ∷ ms) (suc i) e =
    let (n, f) = manifest_by_id-present ms i e in (n, ground arith)

module _ (ms : List ManifestItem) where
  -- Each id of the list is one of the manifest.
  abbrev pub Listed : List StateItem → Type 0
  Listed items =
      (i : ℕ) (s : StateItem)
      → get_elem? items i ≡ some s
      → (m : ManifestItem) × (manifest_by_id ms s.item_id ≡ some m)

  pub select_items_total :
      (count : ℕ) (p : Bool) (items : List StateItem)
      → Listed items
      → (out : List StateItem) × (select_items ms count p items ≡ ok out)
  unfolding select_items
  select_items_total zero p items listed = ([], refl)
  select_items_total (suc count) p [] listed = ([], refl)
  select_items_total (suc count) p (s ∷ items) listed =
      let (m, found) = listed 0 s refl in
      let (skipped, e) = select_items_total (suc count) p items (λ i. listed (suc i)) in
      let (rest, f) = select_items_total count (is_pdf m || p) items (λ i. listed (suc i)) in
      elim (Bool-cases (is_waiting s)) [
        | inr busy ↦ (skipped, ground arith)
        | inl waits ↦ elim (Bool-cases (is_pdf m && p)) [
          | inl second ↦ (skipped, ground arith)
          | inr first ↦ (s ∷ rest, ground arith)
        ]
      ]

  agree_from :
      (items : List StateItem) (count : ℕ) (ms' : List ManifestItem) (items' : List StateItem)
      → Paired SameId ms' items'
      → Listed items'
      → ((i : ℕ) (m : ManifestItem) (s : StateItem)
          → get_elem? ms' i ≡ some m
          → get_elem? items' i ≡ some s
          → state_by_id items (item_id_of m) ≡ some s)
      → {claim : Option ItemId} → next_id worker_claimable items ms' ≡ ok claim
      → (out : List StateItem) × (select_items ms (suc count) false items' ≡ ok out)
        × (first_id out ≡ claim)
  unfolding select_items next_id
  agree_from items count [] [] p listed at h = ([], refl, eq_of_ok h)
  agree_from items count [] (s ∷ items') p listed at h = absurd p
  agree_from items count (k ∷ ms') [] p listed at h = absurd p
  agree_from items count (k ∷ ms') (s ∷ items') p listed at {claim} h =
      let (m, found) = listed 0 s refl in
      let there = at 0 k s refl refl in
      elim (Bool-cases (is_waiting s)) [
        | inl waits ↦
            let (rest, e) =
              select_items_total count (is_pdf m || false) items' (λ i. listed (suc i)) in
            (s ∷ rest, ground arith, ap some p.0 ∙ eq_of_ok (ground (arith, same_test s)))
        | inr busy ↦
            let (out, e, same) =
              agree_from items count ms' items' p.1 (λ i. listed (suc i)) (λ i. at (suc i))
                {claim = claim} (ground (arith, same_test s)) in
            (out, ground arith, same)
      ]

min_room :
    (limit : ℕ) (manifest : BatchManifest) (state : BatchState)
    → 1 ≤ limit
    → capacity_available manifest state ≡ true
    → (count : ℕ) × (min limit (capacity manifest state) ≡ suc count)
min_room limit manifest state one room = (min limit (capacity manifest state) - 1, ground arith)

min_full :
    (limit : ℕ) (manifest : BatchManifest) (state : BatchState)
    → capacity_available manifest state ≡ false
    → min limit (capacity manifest state) ≡ 0
min_full limit manifest state full = ground arith

-- For a replayed state and a manifest of distinct ids, where the limit is not 0: the item that the
-- next actions offer to a worker is the first that `worker.claim` takes, and where they offer none,
-- it takes none.
pub claimable_worker_items_offered :
    (derive : UuidString → UuidString) (manifest : BatchManifest) (events : List BatchEvent)
    (state : BatchState) (limit : ℕ) {claim : Option ItemId}
    → replay derive manifest events ≡ ok state
    → reject_duplicate_identities manifest ≡ true
    → 1 ≤ limit
    → first_runtime_worker_claim_id manifest state ≡ ok claim
    → (out : List StateItem) × (claimable_worker_items manifest state
          (min limit (capacity manifest state))
        ≡ ok out)
      × (first_id out ≡ claim)
unfolding first_runtime_worker_claim_id select_items
claimable_worker_items_offered derive manifest events state limit {claim} replayed distinct_ids one
      h =
    let same = (replay-Good derive manifest events replayed).same in
    let apart = ids_apart manifest state.items distinct_ids same in
    let listed : Listed manifest.items state.items = λ i s es.
      let (m, em, id) = beside SameId manifest.items state.items i same es in
      let (n, found) = manifest_by_id-present manifest.items i em in
      (n, ap (manifest_by_id manifest.items) id ∙ found) in
    elim (Bool-cases (capacity_available manifest state)) [
      | inl room ↦
          let (count, counted) = min_room limit manifest state one room in
          let (out, e, f) =
            agree_from manifest.items state.items count manifest.items state.items same listed
              (λ i m s em es. found_at manifest state.items same apart i em es) {claim = claim}
              (ground arith) in
          (out, ap (λ n. select_items manifest.items n false state.items) counted ∙ e, f)
      | inr full ↦ (
        [],
        ap (λ n. select_items manifest.items n false state.items)
            (min_full limit manifest state full),
        ground arith,
      )
    ]
