-- ===== src/Next/Progress.antt =====
-- The end of a run: what is known of a replayed batch for which v2_next_actions.py offers nothing.
use mathlib.Core.List.Perm
use paperread.Prelude.{
  ℕ, suc, ◌≤◌, true, ◌≡◌, refl, sym, ◌∙◌, ap, none, some, List, [], ◌∷◌, get_elem?, Paired, ok,
  arith, inl, inr, Option-cases, Result-cases, Bool-cases, eq_of_some, string_eq,
}
use paperread.Contracts.Scalars.{UuidString}
use paperread.Contracts.Manifest.{
  BatchManifest, ManifestItem, item_id_of, is_pdf, reject_duplicate_identities,
}
use paperread.Contracts.State.{StateItem, BatchState}
use paperread.Reducer.Apply.{replay}
use paperread.Batch.Frame.{SameId}
use paperread.Batch.Items.{Sound}
use paperread.Batch.Kinds.{SameKind, replay-SameKind}
use paperread.Batch.Replayed.{Good, replay-Good}
use paperread.Batch.Summary.{Settled}
use paperread.Next.{state_by_id, is_pdf_input}
use paperread.Next.Derive.{
  RunView, FirstClaims, first_claims, all_item_actions, storage_actions, is_current, candidates,
  sorted_actions,
}
use paperread.Next.Pending.{with_pending, derive_next_actions}
use paperread.Next.Found.{IdsApart, ids_apart, state_by_id-at, beside}
use paperread.Next.Quiet.{Quiet, append_nothing, item_actions-Quiet}
use paperread.Next.Finished.{nothing_offered, closed_Settled, worker_done, write_closed, pdf_input}
use paperread.Next.Order.{sorted_actions-Ascending}

-- What stands beside everything in two lists of one length is a pairing of them.
paired :
    {A B : Type 0} (R Q : A → B → Type 0) (xs : List A) (ys : List B)
    → Paired R xs ys
    → ((i : ℕ) (x : A) (y : B) → get_elem? xs i ≡ some x → get_elem? ys i ≡ some y → R x y → Q x y)
    → Paired Q xs ys
paired R Q [] [] p f = tt
paired R Q [] (y ∷ ys) p f = absurd p
paired R Q (x ∷ xs) [] p f = absurd p
paired R Q (x ∷ xs) (y ∷ ys) p f = (f 0 x y refl refl p.0, paired R Q xs ys p.1 (λ i. f (suc i)))

module _ (manifest : BatchManifest) (items : List StateItem)
    (same : Paired SameId manifest.items items) (apart : IdsApart items) where
  -- The dict gives for an id of the manifest the item at that position.
  pub found_at :
      (i : ℕ) {m : ManifestItem} {s : StateItem}
      → get_elem? manifest.items i ≡ some m
      → get_elem? items i ≡ some s
      → state_by_id items (item_id_of m) ≡ some s
  found_at i {m} {s} em es =
      let (n, en, id) = beside SameId manifest.items items i same es in
      let named : s.item_id ≡ item_id_of m = id ∙ ap item_id_of (eq_of_some (sym en ∙ em)) in
      ap (state_by_id items) (sym named) ∙ state_by_id-at items i apart es

  all_Quiet :
      (first : FirstClaims)
      → all_item_actions manifest first items manifest.items ≡ ok []
      → (i : ℕ) (s : StateItem) → get_elem? items i ≡ some s
      → Quiet manifest first s
  all_Quiet first h i s es =
      let (m, em, _) = beside SameId manifest.items items i same es in
      item_actions-Quiet manifest first s
        (nothing_offered manifest first items manifest.items i h em (found_at i em es))

module _ (manifest : BatchManifest) (state : BatchState) (good : Good manifest state)
    (kinds : Paired SameKind manifest.items state.items) (apart : IdsApart state.items)
    (room : 1 ≤ manifest.default_concurrency) where
  -- Where nothing is offered for any item, each is settled.
  nothing_offered-Settled :
      (first : FirstClaims)
      → first_claims manifest state ≡ ok first
      → all_item_actions manifest first state.items manifest.items ≡ ok []
      → Paired (Settled manifest) manifest.items state.items
  nothing_offered-Settled first claims h =
      let quiet = all_Quiet manifest state.items good.same apart first h in
      paired (Sound manifest) (Settled manifest) manifest.items state.items good.sound
        λ i m s em es r.
          let (n, en, k) = beside SameKind manifest.items state.items i kinds es in
          let named : state_by_id state.items (item_id_of m) ≡ some s =
            found_at manifest state.items good.same apart i em es in
          let kind : is_pdf_input s.input_type ≡ is_pdf m =
            ap is_pdf_input k ∙ pdf_input n ∙ ap is_pdf (eq_of_some (sym en ∙ em)) in
          closed_Settled manifest m s r
            (worker_done manifest state first good.sound kinds quiet room claims i em es named r
              kind)
            (write_closed manifest state first good.sound kinds quiet room claims i em es named
              kind)

nothing_pending :
    (reconcile_id : UuidString → UuidString) (view : RunView)
    → derive_next_actions reconcile_id view ≡ ok []
    → (sorted_actions view ≡ ok []) × (view.pending_event ≡ none)
unfolding derive_next_actions with_pending
nothing_pending reconcile_id view h = elim (Result-cases (sorted_actions view)) [
  | inl (actions, e) ↦ elim (Option-cases view.pending_event) [
    | inl none_there ↦ (ground arith, none_there)
    | inr (event, p) ↦ absurd (ground arith)
  ]
  | inr (_, e) ↦ absurd (ground arith)
]

no_candidates : (view : RunView) → sorted_actions view ≡ ok [] → candidates view ≡ ok []
no_candidates view h = elim (Result-cases (candidates view)) [
  | inl (actions, e) ↦ e ∙ ap ok (sym (Perm.nil-eq (sorted_actions-Ascending view e h).0))
  | inr (_, e) ↦ absurd (unfold sorted_actions in ground arith)
]

storage_current : (view : RunView) → storage_actions view ≡ [] → is_current view ≡ true
unfolding storage_actions
storage_current view h = elim (Bool-cases (is_current view)) [
  | inl p ↦ p
  | inr p ↦ absurd (ground arith)
]

candidates-nil :
    (view : RunView)
    → candidates view ≡ ok []
    → (first : FirstClaims) × (first_claims view.manifest view.state ≡ ok first)
      × (all_item_actions view.manifest first view.state.items view.manifest.items ≡ ok [])
      × (is_current view ≡ true)
unfolding candidates
candidates-nil view h = elim (Result-cases (first_claims view.manifest view.state)) [
  | inl (first, e) ↦
      elim (Result-cases
        (all_item_actions view.manifest first view.state.items view.manifest.items)) [
          | inl (actions, f) ↦
              let (stored, offered) =
                append_nothing (storage_actions view) actions (ground arith) in
              (first, e, f ∙ ap ok offered, storage_current view stored)
          | inr (_, f) ↦ absurd (ground arith)
        ]
  | inr (_, e) ↦ absurd (ground arith)
]

-- Where the state is the replay of the run's events, the manifest's identities are distinct and its
-- concurrency is not 0, no action is offered only at the end: then no request is pending, the
-- snapshot is current, and on every item nothing is left to do.
pub no_action-Settled :
    (reconcile_id derive : UuidString → UuidString) (view : RunView)
    → replay derive view.manifest view.events ≡ ok view.state
    → reject_duplicate_identities view.manifest ≡ true
    → 1 ≤ view.manifest.default_concurrency
    → derive_next_actions reconcile_id view ≡ ok []
    → (view.pending_event ≡ none)
      × (is_current view ≡ true)
      × Paired (Settled view.manifest) view.manifest.items view.state.items
no_action-Settled reconcile_id derive view replayed distinct_ids room h =
    let (sorted, idle) = nothing_pending reconcile_id view h in
    let (first, claims, offered, current) = candidates-nil view (no_candidates view sorted) in
    let good = replay-Good derive view.manifest view.events replayed in
    (
      idle,
      current,
      nothing_offered-Settled view.manifest view.state good
          (replay-SameKind derive view.manifest view.events replayed)
          (ids_apart view.manifest view.state.items distinct_ids good.same) room first claims
          offered,
    )
