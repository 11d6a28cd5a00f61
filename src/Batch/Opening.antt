-- ===== src/Batch/Opening.antt =====
-- The first event of a journal in v2_reducer.py: when it is accepted, and what it gives.
use paperread.Prelude.{
  ℕ, Bool, true, false, ◌≡◌, refl, ◌∙◌, ap, Option, none, List, [], ◌∷◌, map, all, ok, arith, any,
}
use paperread.Contracts.Manifest.{BatchManifest, ManifestItem}
use paperread.Contracts.Status.{BatchStatus}
use paperread.Contracts.State.{StateItem, BatchState}
use paperread.Contracts.Lanes.{
  validate_lane_state, valid_leases, valid_local_identity, valid_write_identity,
  valid_authorization, valid_artifacts, valid_outcomes,
}
use paperread.Contracts.Snapshot.{
  present, distinct, validate_cross_item_write_identities, model_validate,
}
use paperread.Contracts.Events.{BatchEvent, EventData, RunInitializedData}
use paperread.Reducer.Base.{
  initial_item, initial_items, initial_state, status, is_uncertain, is_running, wants_attention,
  awaits_write, is_ready,
}

initial_item-valid : (m : ManifestItem) → validate_lane_state (initial_item m) ≡ true
unfolding initial_item validate_lane_state valid_leases valid_local_identity valid_write_identity
    valid_authorization valid_artifacts valid_outcomes
initial_item-valid m = ground arith

initial_items-valid :
    (ms : List ManifestItem) → all validate_lane_state (map initial_item ms) ≡ true
initial_items-valid [] = refl
initial_items-valid (m ∷ ms) = ground (arith, initial_item-valid m, initial_items-valid ms)

-- Nothing is present that no initial item has.
initial-present :
    (f : StateItem → Option ℕ)
    → ((m : ManifestItem) → f (initial_item m) ≡ none)
    → (ms : List ManifestItem) → present f (map initial_item ms) ≡ []
unfolding present
initial-present f absent [] = refl
initial-present f absent (m ∷ ms) = ground (arith, absent m, initial-present f absent ms)

initial_items-apart :
    (ms : List ManifestItem) → validate_cross_item_write_identities (map initial_item ms) ≡ true
unfolding validate_cross_item_write_identities initial_item distinct
initial_items-apart ms =
    rw
      (
        initial-present (λ s. s.write_last_claim_id) (λ m. refl) ms,
        initial-present (λ s. s.write_last_attempt_id) (λ m. refl) ms,
        initial-present (λ s. s.write_last_lease_token_sha256) (λ m. refl) ms,
        initial-present (λ s. s.write_last_authorization_sha256) (λ m. refl) ms,
        initial-present (λ s. s.write_last_authorization_nonce_sha256) (λ m. refl) ms,
        initial-present (λ s. s.write_pending_attempt_id) (λ m. refl) ms,
      )
      refl

-- What holds of no initial item holds of none in the first list.
initial-any :
    (p : StateItem → Bool)
    → ((m : ManifestItem) → p (initial_item m) ≡ false)
    → (ms : List ManifestItem) → any p (map initial_item ms) ≡ false
initial-any p none_is [] = refl
initial-any p none_is (m ∷ ms) = ground (arith, none_is m, initial-any p none_is ms)

-- The tests of `_status` at an initial item.
initial_item-tests :
    (m : ManifestItem)
    → (is_uncertain (initial_item m) ≡ false)
      × (is_running (initial_item m) ≡ false)
      × (wants_attention (initial_item m) ≡ false)
      × (awaits_write (initial_item m) ≡ false)
      × (is_ready (initial_item m) ≡ true)
unfolding initial_item
initial_item-tests m = ground arith

initial-status :
    (m : ManifestItem) (ms : List ManifestItem)
    → status (map initial_item (m ∷ ms)) ≡ BatchStatus.ready
unfolding status
initial-status m ms =
    rw
      (
        initial-any is_uncertain (λ m. (initial_item-tests m).0) (m ∷ ms),
        initial-any is_running (λ m. (initial_item-tests m).1) (m ∷ ms),
        initial-any wants_attention (λ m. (initial_item-tests m).2) (m ∷ ms),
        initial-any awaits_write (λ m. (initial_item-tests m).3) (m ∷ ms),
        (initial_item-tests m).4,
      )
      refl

-- The snapshot that the first event gives.
abbrev first_state : BatchManifest → BatchEvent → RunInitializedData → BatchState
first_state manifest first init = record {
  manifest_id = manifest.manifest_id;
  manifest_sha256 = first.manifest_sha256;
  lease_secret_sha256 = init.lease_secret_sha256;
  initialized_at = init.initialized_at;
  updated_at = first.occurred_at;
  next_sequence = 2;
  latest_event_sha256 = first.event_sha256;
  batch_status = status (initial_items manifest);
  items = initial_items manifest;
}

first_state-valid :
    (manifest : BatchManifest) (first : BatchEvent) (init : RunInitializedData) (m : ManifestItem)
    (ms : List ManifestItem)
    → manifest.items ≡ m ∷ ms
    → model_validate (first_state manifest first init) ≡ true
unfolding initial_items model_validate
first_state-valid manifest first init m ms e =
    rw e (ground (arith, initial_items-valid (m ∷ ms), initial_items-apart (m ∷ ms)))

-- A first event at number 1 that initializes the manifest's own run is accepted for every manifest
-- that has an item. The batch is then ready, its items stand in the manifest's order, and event
-- number 2 comes next.
pub initial_state-accepts :
    (manifest : BatchManifest) (first : BatchEvent) (init : RunInitializedData) (m : ManifestItem)
    (ms : List ManifestItem)
    → manifest.items ≡ m ∷ ms
    → first.payload ≡ EventData.run_initialized init
    → first.sequence ≡ 1
    → init.manifest_id ≡ manifest.manifest_id
    → (state : BatchState) × (initial_state manifest first ≡ ok state)
      × (state.items ≡ map initial_item (m ∷ ms))
      × (state.batch_status ≡ BatchStatus.ready)
      × (state.next_sequence ≡ 2)
unfolding initial_state
initial_state-accepts manifest first init m ms e p n i =
    let valid = first_state-valid manifest first init m ms e in
    (
      first_state manifest first init,
      ground arith,
      unfold initial_items in ap (map initial_item) e,
      unfold initial_items in ap (λ ms. status (map initial_item ms)) e ∙ initial-status m ms,
      refl,
    )
