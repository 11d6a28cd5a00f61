-- ===== src/Batch/Identities.antt =====
-- What the validator of `BatchManifest` in v2_contracts.py keeps apart: the items' ids.
use paperread.Prelude.{
  ℕ, zero, suc, true, false, ◌≡◌, refl, sym, ◌∙◌, ap, some, List, [], ◌∷◌, get_elem?, contains,
  arith, inl, inr, Option-cases, eq_of_some, string_eq, String,
}
use text.Mathlib.TextEquality.{eq_iff}
use paperread.Contracts.Manifest.{
  BatchManifest, ManifestItem, Seen, item_id_of, see, see_all, reject_duplicate_identities,
}

see-eq-some :
    (seen : Seen) (m : ManifestItem) {seen' : Seen}
    → see seen m ≡ some seen'
    → (contains seen.item_ids (item_id_of m) ≡ false)
      × (seen'.item_ids ≡ item_id_of m ∷ seen.item_ids)
unfolding see
see-eq-some seen m h = ground arith

see_all-cons :
    (seen : Seen) (m : ManifestItem) (ms : List ManifestItem)
    → see_all seen (m ∷ ms) ≡ true
    → (seen' : Seen) × (see seen m ≡ some seen') × (see_all seen' ms ≡ true)
unfolding see_all
see_all-cons seen m ms h = elim (Option-cases (see seen m)) [
  | inl e ↦ absurd (ground arith)
  | inr (seen', e) ↦ (seen', e, ground arith)
]

contains_cons :
    (k id : String) (ids : List String) → contains (k ∷ ids) id ≡ false → contains ids id ≡ false
contains_cons k id ids h = ground arith

contains_head : (k : String) (ids : List String) → contains (k ∷ ids) k ≡ true
contains_head k ids = ground (arith, (eq_iff k k).1 refl)

-- An accepted item is not among those that were seen.
see_all-unseen :
    (seen : Seen) (ms : List ManifestItem) (i : ℕ) {m : ManifestItem}
    → see_all seen ms ≡ true
    → get_elem? ms i ≡ some m
    → contains seen.item_ids (item_id_of m) ≡ false
see_all-unseen seen [] i h e = cc
see_all-unseen seen (k ∷ ms) zero h e =
    let (seen', one, rest) = see_all-cons seen k ms h in
    rw (← eq_of_some e) (see-eq-some seen k one).0
see_all-unseen seen (k ∷ ms) (suc i) {m} h e =
    let (seen', one, rest) = see_all-cons seen k ms h in
    contains_cons (item_id_of k) (item_id_of m) seen.item_ids (
      ap (λ ids. contains ids (item_id_of m)) (sym (see-eq-some seen k one).1)
      ∙ see_all-unseen seen' ms i rest e)

-- So no later item has the id of one that was just seen.
clash :
    (seen seen' : Seen) (k n : ManifestItem)
    → see seen k ≡ some seen'
    → item_id_of k ≡ item_id_of n
    → contains seen'.item_ids (item_id_of n) ≡ false
    → ⊥
clash seen seen' k n one e miss =
    let hit = contains_head (item_id_of k) seen.item_ids in
    let stored = (see-eq-some seen k one).1 in
    ground (
      arith,
      ap (λ ids. contains ids (item_id_of n)) stored,
      ap (λ id. contains (item_id_of k ∷ seen.item_ids) id) e,
    )

see_all-distinct :
    (seen : Seen) (ms : List ManifestItem) (i j : ℕ) {m n : ManifestItem}
    → see_all seen ms ≡ true
    → get_elem? ms i ≡ some m
    → get_elem? ms j ≡ some n
    → item_id_of m ≡ item_id_of n
    → i ≡ j
see_all-distinct seen [] i j h em en e = cc
see_all-distinct seen (k ∷ ms) zero zero h em en e = refl
see_all-distinct seen (k ∷ ms) zero (suc j) {m} {n} h em en e =
    let (seen', one, rest) = see_all-cons seen k ms h in
    absurd (
      clash seen seen' k n one (ap item_id_of (eq_of_some em) ∙ e)
        (see_all-unseen seen' ms j rest en))
see_all-distinct seen (k ∷ ms) (suc i) zero {m} {n} h em en e =
    let (seen', one, rest) = see_all-cons seen k ms h in
    absurd (
      clash seen seen' k m one (ap item_id_of (eq_of_some en) ∙ sym e)
        (see_all-unseen seen' ms i rest em))
see_all-distinct seen (k ∷ ms) (suc i) (suc j) h em en e =
    let (seen', one, rest) = see_all-cons seen k ms h in
    ap suc (see_all-distinct seen' ms i j rest em en e)

-- In a manifest that the validator accepts, no two positions hold items of one id.
pub accepted_ids_distinct :
    (manifest : BatchManifest) (i j : ℕ) {m n : ManifestItem}
    → reject_duplicate_identities manifest ≡ true
    → get_elem? manifest.items i ≡ some m
    → get_elem? manifest.items j ≡ some n
    → item_id_of m ≡ item_id_of n
    → i ≡ j
unfolding reject_duplicate_identities
accepted_ids_distinct manifest i j h em en e = see_all-distinct _ manifest.items i j h em en e
