-- ===== src/Contracts/Snapshot.antt =====
-- `BatchState` of v2_contracts.py: the validator over all items, and the check of a whole snapshot.
use paperread.Prelude.{
  ℕ, Bool, true, not, ◌&&◌, List, [], ◌∷◌, Option, none, some, any, all, contains, nat_eq, leb,
  length,
}
use paperread.Contracts.State.{StateItem, BatchState}
use paperread.Contracts.Lanes.{validate_lane_state}

-- `[f(item) for item in items if f(item) is not None]`
unfoldable pub present : (StateItem → Option ℕ) → List StateItem → List ℕ
present f [] = []
present f (x ∷ xs) = elim (f x) [ none ↦ present f xs | some v ↦ v ∷ present f xs ]

-- `len(values) == len(set(values))`
unfoldable pub distinct : List ℕ → Bool
distinct [] = true
distinct (x ∷ xs) = not (contains xs x) && distinct xs

-- `not (set(xs) & set(ys))`
disjoint : List ℕ → List ℕ → Bool
disjoint xs ys = not (any (contains ys) xs)

unfoldable pub validate_cross_item_write_identities : List StateItem → Bool
unfolding present distinct disjoint
validate_cross_item_write_identities items =
    distinct (present (λ s. s.write_last_claim_id) items)
    && distinct (present (λ s. s.write_last_attempt_id) items)
    && distinct (present (λ s. s.write_last_lease_token_sha256) items)
    && distinct (present (λ s. s.write_last_authorization_sha256) items)
    && distinct (present (λ s. s.write_last_authorization_nonce_sha256) items)
    && distinct (present (λ s. s.write_pending_attempt_id) items)
    && disjoint (present (λ s. s.write_pending_attempt_id) items)
        (present (λ s. s.write_last_attempt_id) items)

-- `BatchState.model_validate`: there is an item, each passes its validator, and so do all together.
unfoldable pub model_validate : BatchState → Bool
model_validate state =
    leb 1 (length state.items)
    && all validate_lane_state state.items
    && validate_cross_item_write_identities state.items
