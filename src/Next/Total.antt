-- ===== src/Next/Total.antt =====
-- v2_next_actions.py raises nothing on a replayed state: each of its lookups in a dict finds its key.
use paperread.Prelude.{
  ℕ, zero, suc, Bool, true, false, not, ◌&&◌, if◌then◌else◌, any, ◌≡◌, refl, sym, ◌∙◌, ap, Option,
  none, some, List, [], ◌∷◌, ◌++◌, get_elem?, Result, ok, arith, inl, inr, Bool-cases, Option-cases,
  Result-cases, eq_of_some, ◌==◌, string_eq,
}
use text.Mathlib.TextEquality.{eq_iff}
use paperread.Contracts.Scalars.{ItemId, UuidString}
use paperread.Contracts.Manifest.{BatchManifest, ManifestItem, item_id_of, is_zotero_write}
use paperread.Contracts.Status.{WriteStatus, write_eq}
use paperread.Reducer.WriteClaim.{holds_write_lane}
use paperread.Contracts.State.{StateItem, BatchState}
use paperread.Reducer.Apply.{replay}
use paperread.Batch.Frame.{SameId}
use paperread.Batch.Replayed.{replay-Good}
use paperread.Next.{
  state_by_id, next_id, first_runtime_worker_claim_id, first_local_prepare_claim_id,
  first_claimable_write_id, capacity_available, worker_claimable, local_claimable,
}
use paperread.Next.Action.{NextAction, lane_rank}
use paperread.Next.Derive.{
  Key, group_key, index_key, RunView, FirstClaims, first_claims, item_actions, all_item_actions,
  manifest_index, sort_key, keyed, candidates, sorted_actions, storage_actions,
}
use paperread.Next.Pending.{derive_next_actions}
use paperread.Next.Found.{beside_first, state_by_id-eq-some}
use paperread.Next.Ranked.{
  Every, Every-append, HasRank, IsFor, item_actions-IsFor, storage_actions-HasRank,
}

-- The dict has an entry for the id of everything in the list.
state_by_id-present :
    (items : List StateItem) (i : ℕ) {s : StateItem}
    → get_elem? items i ≡ some s
    → (t : StateItem) × (state_by_id items s.item_id ≡ some t)
unfolding state_by_id
state_by_id-present [] i e = cc
state_by_id-present (x ∷ items) zero {s} e = elim (Option-cases (state_by_id items s.item_id)) [
  | inr (t, f) ↦ (t, ground arith)
  | inl missing ↦
      (x, ground (arith, eq_iff x.item_id s.item_id, ap (λ u. u.item_id) (eq_of_some e)))
]
state_by_id-present (x ∷ items) (suc i) e =
    let (t, f) = state_by_id-present items i e in (t, ground arith)

manifest_index-present :
    (ms : List ManifestItem) (i : ℕ) {m : ManifestItem}
    → get_elem? ms i ≡ some m
    → (index : ℕ) × (manifest_index ms (item_id_of m) ≡ some index)
unfolding manifest_index
manifest_index-present [] i e = cc
manifest_index-present (k ∷ ms) zero {m} e =
    elim (Option-cases (manifest_index ms (item_id_of m))) [
      | inr (j, f) ↦ (suc j, ground arith)
      | inl missing ↦
          (0, ground (arith, eq_iff (item_id_of k) (item_id_of m), ap item_id_of (eq_of_some e)))
    ]
manifest_index-present (k ∷ ms) (suc i) e =
    let (j, f) = manifest_index-present ms i e in (suc j, ground arith)

-- Each id of the list is one of the dict.
abbrev Known : List StateItem → List ManifestItem → Type 0
Known items ms =
    (i : ℕ) (m : ManifestItem)
    → get_elem? ms i ≡ some m
    → (s : StateItem) × (state_by_id items (item_id_of m) ≡ some s)

next_id_total :
    (test : StateItem → Bool) (items : List StateItem) (ms : List ManifestItem)
    → Known items ms
    → (claim : Option ItemId) × (next_id test items ms ≡ ok claim)
unfolding next_id
next_id_total test items [] known = (none, refl)
next_id_total test items (m ∷ ms) known =
    let (s, e) = known 0 m refl in
    elim (Bool-cases (test s)) [
      | inl p ↦ (some (item_id_of m), ground arith)
      | inr p ↦
          let (claim, f) = next_id_total test items ms (λ i. known (suc i)) in (claim, ground arith)
    ]

if_total :
    (test : Bool) {r : Result (Option ItemId)}
    → (claim : Option ItemId) × (r ≡ ok claim)
    → (claim : Option ItemId) × ((if test then r else ok none) ≡ ok claim)
if_total true found = found
if_total false found = (none, refl)

first_claims_total :
    (manifest : BatchManifest) (state : BatchState)
    → Known state.items manifest.items
    → (first : FirstClaims) × (first_claims manifest state ≡ ok first)
unfolding first_runtime_worker_claim_id first_local_prepare_claim_id first_claimable_write_id
first_claims_total manifest state known =
    let (w, ew) =
      if_total (capacity_available manifest state)
        (next_id_total worker_claimable state.items manifest.items known) in
    let (l, el) =
      if_total (capacity_available manifest state)
        (next_id_total local_claimable state.items manifest.items known) in
    let (v, ev) =
      if_total (is_zotero_write manifest.write_policy && not (any holds_write_lane state.items)) (
        next_id_total (λ item. item.write_status == WriteStatus.queued) state.items manifest.items
          known) in
    (record { worker_claim = w; local_claim = l; write_claim = v }, ground arith)

-- What can be sorted: an action with a rank, and an item of the manifest or none.
abbrev CanSort : List ManifestItem → NextAction → Type 0
CanSort ms a = (key : Key) × (sort_key ms a ≡ ok key)

item_CanSort :
    (ms : List ManifestItem) (i : ℕ) {m : ManifestItem} (s : StateItem) (a : NextAction)
    → get_elem? ms i ≡ some m
    → s.item_id ≡ item_id_of m
    → IsFor s a
    → CanSort ms a
unfolding sort_key index_key
item_CanSort ms i {m} s a em named ((rank, r), own) =
    let (index, e) = manifest_index-present ms i em in
    let there : manifest_index ms s.item_id ≡ some index = ap (manifest_index ms) named ∙ e in
    let indexed : index_key ms a.item_id ≡ ok (suc index) = rw own (rw there refl) in
    (
      record { group = group_key a.lane; index = suc index; lane = lane_rank a.lane; rank = rank },
      rw indexed (rw r refl),
    )

keyed_total :
    (ms : List ManifestItem) {actions : List NextAction}
    → Every (CanSort ms) actions
    → (pairs : List (Key × NextAction)) × (keyed ms actions ≡ ok pairs)
unfolding keyed
keyed_total ms Every.nil = ([], refl)
keyed_total ms (Every.cons {x = a} (k, e) more) =
    let (rest, f) = keyed_total ms more in ((k, a) ∷ rest, ground arith)

free_CanSort :
    (ms : List ManifestItem) (a : NextAction) → HasRank a → a.item_id ≡ none → CanSort ms a
unfolding sort_key index_key
free_CanSort ms a (rank, r) free =
    let indexed : index_key ms a.item_id ≡ ok 0 = rw free refl in
    (
      record { group = group_key a.lane; index = 0; lane = lane_rank a.lane; rank = rank },
      rw indexed (rw r refl),
    )

Every-map :
    {A : Type 0} {P Q : A → Type 0} {xs : List A} → ((x : A) → P x → Q x) → Every P xs → Every Q xs
Every-map f Every.nil = Every.nil
Every-map f (Every.cons p ps) = Every.cons (f _ p) (Every-map f ps)

-- All that is offered for the items after a position of the manifest can be sorted.
all_item_actions_total :
    (manifest : BatchManifest) (first : FirstClaims) (items : List StateItem)
    (whole ms : List ManifestItem)
    → Known items ms
    → ((i : ℕ) (m : ManifestItem)
        → get_elem? ms i ≡ some m
        → (j : ℕ) × (get_elem? whole j ≡ some m))
    → (actions : List NextAction) × (all_item_actions manifest first items ms ≡ ok actions)
      × Every (CanSort whole) actions
unfolding all_item_actions
all_item_actions_total manifest first items whole [] known within = ([], refl, Every.nil)
all_item_actions_total manifest first items whole (m ∷ ms) known within =
    let (s, e) = known 0 m refl in
    let (j, at_j) = within 0 m refl in
    let (k, at_k, named) = state_by_id-eq-some items (item_id_of m) e in
    let (rest, f, more) =
      all_item_actions_total manifest first items whole ms (λ i. known (suc i))
        (λ i. within (suc i)) in
    (
      item_actions manifest first s ++ rest,
      ground arith,
      Every-append
          (Every-map (λ a. item_CanSort whole j s a at_j named)
            (item_actions-IsFor manifest first s))
          more,
    )

-- On a view whose state is the replay of its events, the derivation of the next actions raises
-- nothing: it returns a list.
pub derive_next_actions_total :
    (reconcile_id derive : UuidString → UuidString) (view : RunView)
    → replay derive view.manifest view.events ≡ ok view.state
    → (actions : List NextAction) × (derive_next_actions reconcile_id view ≡ ok actions)
unfolding derive_next_actions sorted_actions candidates
derive_next_actions_total reconcile_id derive view replayed =
    let same = (replay-Good derive view.manifest view.events replayed).same in
    let known : Known view.state.items view.manifest.items = λ i m em.
      let (s, es, id) = beside_first SameId view.manifest.items view.state.items i same em in
      let (t, f) = state_by_id-present view.state.items i es in
      (t, ap (state_by_id view.state.items) (sym id) ∙ f) in
    let (first, claims) = first_claims_total view.manifest view.state known in
    let (actions, offered, sortable) =
      all_item_actions_total view.manifest first view.state.items view.manifest.items
        view.manifest.items known (λ i m em. (i, em)) in
    let (pairs, sorted) =
      keyed_total view.manifest.items {actions = storage_actions view ++ actions} (
        Every-append
          (Every-map (λ a (rank, free). free_CanSort view.manifest.items a rank free)
            (storage_actions-HasRank view))
          sortable) in
    elim (Result-cases (derive_next_actions reconcile_id view)) [
      | inl returned ↦ returned
      | inr (_, raised) ↦ absurd (ground arith)
    ]
