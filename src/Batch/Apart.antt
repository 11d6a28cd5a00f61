-- ===== src/Batch/Apart.antt =====
-- What the validator of `BatchState` in v2_contracts.py keeps apart: the identities of the write
-- attempts of different items.
use paperread.Prelude.{
  ℕ, zero, suc, Bool, true, false, ◌≡◌, refl, ◌∙◌, ap, Option, some, List, [], ◌∷◌, get_elem?,
  contains, all, ok, arith, inl, inr, nat_eq, option_eq, eq_of_some, ◌⊎◌,
}
use paperread.Contracts.Scalars.{UuidString}
use paperread.Contracts.Manifest.{BatchManifest}
use paperread.Contracts.State.{StateItem, BatchState}
use paperread.Contracts.Lanes.{validate_lane_state, valid_authorization}
use paperread.Contracts.Snapshot.{
  present, distinct, validate_cross_item_write_identities, model_validate,
}
use paperread.Contracts.Events.{BatchEvent}
use paperread.Reducer.Apply.{replay}
use paperread.Batch.Replayed.{replay-Good}

module _ (f : StateItem → Option ℕ) where
  -- What an item has is among what is present.
  contains-present :
      (items : List StateItem) (i : ℕ) {s : StateItem} {v : ℕ}
      → get_elem? items i ≡ some s
      → f s ≡ some v
      → contains (present f items) v ≡ true
  unfolding present
  contains-present [] i e h = cc
  contains-present (x ∷ items) zero e h = ground (arith, ap f (eq_of_some e))
  contains-present (x ∷ items) (suc i) e h = ground (arith, contains-present items i e h)

  distinct_rest :
      (x : StateItem) (items : List StateItem)
      → distinct (present f (x ∷ items)) ≡ true
      → distinct (present f items) ≡ true
  unfolding present distinct
  distinct_rest x items h = ground arith

  distinct_head :
      (x : StateItem) (items : List StateItem) {v : ℕ}
      → distinct (present f (x ∷ items)) ≡ true
      → f x ≡ some v
      → contains (present f items) v ≡ false
  unfolding present distinct
  distinct_head x items h e = ground arith

  -- Where all that is present is distinct, one value is at one position only.
  distinct_position :
      (items : List StateItem) (i j : ℕ) {s t : StateItem} {v : ℕ}
      → distinct (present f items) ≡ true
      → get_elem? items i ≡ some s
      → get_elem? items j ≡ some t
      → f s ≡ some v
      → f t ≡ some v
      → i ≡ j
  distinct_position [] i j h es et ps pt = cc
  distinct_position (x ∷ items) zero zero h es et ps pt = refl
  distinct_position (x ∷ items) zero (suc j) h es et ps pt = absurd (
      ground (
        arith,
        distinct_head x items h (ap f (eq_of_some es) ∙ ps),
        contains-present items j et pt,
      ))
  distinct_position (x ∷ items) (suc i) zero h es et ps pt = absurd (
      ground (
        arith,
        distinct_head x items h (ap f (eq_of_some et) ∙ pt),
        contains-present items i es ps,
      ))
  distinct_position (x ∷ items) (suc i) (suc j) h es et ps pt =
      ap suc (distinct_position items i j (distinct_rest x items h) es et ps pt)

-- What one item of a valid list passes.
all_at :
    (p : StateItem → Bool) (items : List StateItem) (i : ℕ) {s : StateItem}
    → all p items ≡ true
    → get_elem? items i ≡ some s
    → p s ≡ true
all_at p [] i h e = cc
all_at p (x ∷ items) zero h e = ground (arith, ap p (eq_of_some e))
all_at p (x ∷ items) (suc i) h e = all_at p items i (ground arith) e

-- An authorization that is held is also the item's last one.
last_authorization :
    (s : StateItem) {v : ℕ}
    → validate_lane_state s ≡ true
    → s.authorization_sha256 ≡ some v
    → (s.write_last_authorization_sha256 ≡ some v)
unfolding validate_lane_state valid_authorization
last_authorization s h e = ground arith

pub valid_parts :
    (state : BatchState)
    → model_validate state ≡ true
    → (all validate_lane_state state.items ≡ true)
      × (distinct (present (λ s. s.write_last_claim_id) state.items) ≡ true)
      × (distinct (present (λ s. s.write_last_lease_token_sha256) state.items) ≡ true)
      × (distinct (present (λ s. s.write_last_authorization_sha256) state.items) ≡ true)
unfolding model_validate validate_cross_item_write_identities
valid_parts state h = ground arith

-- Two items that hold one write authorization, or whose last write attempts had one claim or one
-- lease token.
abbrev pub ShareWrite : StateItem → StateItem → Type 0
ShareWrite s t =
    (v : ℕ) × (((s.authorization_sha256 ≡ some v) × (t.authorization_sha256 ≡ some v))
      ⊎ ((s.write_last_claim_id ≡ some v) × (t.write_last_claim_id ≡ some v))
      ⊎ ((s.write_last_lease_token_sha256 ≡ some v) × (t.write_last_lease_token_sha256 ≡ some v)))

-- In a replayed state, items that hold one write authorization, or whose last write attempts had one
-- claim id or one lease token, stand at one position.
pub write_identities_apart :
    (derive : UuidString → UuidString) (manifest : BatchManifest) (events : List BatchEvent)
    (i j : ℕ) {state : BatchState} {s t : StateItem}
    → replay derive manifest events ≡ ok state
    → get_elem? state.items i ≡ some s
    → get_elem? state.items j ≡ some t
    → ShareWrite s t
    → i ≡ j
write_identities_apart derive manifest events i j {state} {s} {t} h es et (v, shared) =
    let (each, claims, tokens, auths) =
      valid_parts state (replay-Good derive manifest events h).valid in
    elim shared [
      | inl (p, q) ↦
          distinct_position (λ s. s.write_last_authorization_sha256) state.items i j auths es et
            (last_authorization s (all_at validate_lane_state state.items i each es) p)
            (last_authorization t (all_at validate_lane_state state.items j each et) q)
      | inr (inl (p, q)) ↦
          distinct_position (λ s. s.write_last_claim_id) state.items i j claims es et p q
      | inr (inr (p, q)) ↦
          distinct_position (λ s. s.write_last_lease_token_sha256) state.items i j tokens es et p q
    ]
