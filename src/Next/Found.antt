-- ===== src/Next/Found.antt =====
-- The dict and the searches of v2_next_actions.py: what is found by an id, and by a test.
use paperread.Prelude.{
  ℕ, zero, suc, Bool, true, false, ◌≡◌, refl, sym, ◌∙◌, ap, none, some, List, [], ◌∷◌, get_elem?,
  Paired, ok, arith, inl, inr, Bool-cases, Option-cases, eq_of_some, subst, ◌==◌, string_eq,
}
use text.Mathlib.TextEquality.{eq_iff}
use paperread.Contracts.Scalars.{ItemId}
use paperread.Contracts.Manifest.{
  BatchManifest, ManifestItem, item_id_of, reject_duplicate_identities,
}
use paperread.Contracts.State.{StateItem}
use paperread.Batch.Frame.{SameId}
use paperread.Batch.Identities.{accepted_ids_distinct}
use paperread.Next.{state_by_id, next_id}

-- What stands at a position of the second list stands beside something of the first.
pub beside {ℓ κ} :
    {A : Type ℓ} {B : Type κ} (R : A → B → Type 0) (xs : List A) (ys : List B) (i : ℕ) {y : B}
    → Paired R xs ys
    → get_elem? ys i ≡ some y
    → (x : A) × (get_elem? xs i ≡ some x) × R x y
beside R [] [] i p e = cc
beside R [] (y ∷ ys) i p e = absurd p
beside R (x ∷ xs) [] i p e = absurd p
beside R (x ∷ xs) (y ∷ ys) zero p e = (x, refl, subst (R x) (eq_of_some e) p.0)
beside R (x ∷ xs) (y ∷ ys) (suc i) p e = beside R xs ys i p.1 e

-- and what stands in the first beside something of the second.
pub beside_first {ℓ κ} :
    {A : Type ℓ} {B : Type κ} (R : A → B → Type 0) (xs : List A) (ys : List B) (i : ℕ) {x : A}
    → Paired R xs ys
    → get_elem? xs i ≡ some x
    → (y : B) × (get_elem? ys i ≡ some y) × R x y
beside_first R [] [] i p e = cc
beside_first R [] (y ∷ ys) i p e = absurd p
beside_first R (x ∷ xs) [] i p e = absurd p
beside_first R (x ∷ xs) (y ∷ ys) zero p e = (y, refl, subst (λ t. R t y) (eq_of_some e) p.0)
beside_first R (x ∷ xs) (y ∷ ys) (suc i) p e = beside_first R xs ys i p.1 e

-- What the dict gives has the id and a position.
pub state_by_id-eq-some :
    (items : List StateItem) (id : ItemId) {s : StateItem}
    → state_by_id items id ≡ some s
    → (i : ℕ) × (get_elem? items i ≡ some s) × (s.item_id ≡ id)
unfolding state_by_id
state_by_id-eq-some [] id h = cc
state_by_id-eq-some (x ∷ items) id {s} h = elim (Option-cases (state_by_id items id)) [
  | inl missing ↦ elim (Bool-cases (x.item_id == id)) [
    | inl hit ↦ (zero, ground arith, ground (arith, eq_iff x.item_id id))
    | inr miss ↦ absurd (ground arith)
  ]
  | inr (t, e) ↦
      let (i, at_i, named) = state_by_id-eq-some items id e in
      let same : t ≡ s = ground arith in
      (suc i, at_i ∙ ap some same, ap (λ u. u.item_id) (sym same) ∙ named)
]

-- Items of different positions have different ids.
abbrev pub IdsApart : List StateItem → Type 0
IdsApart items =
    (i j : ℕ) (s t : StateItem)
    → get_elem? items i ≡ some s
    → get_elem? items j ≡ some t
    → s.item_id ≡ t.item_id
    → i ≡ j

pub state_by_id-at :
    (items : List StateItem) (i : ℕ) {s : StateItem}
    → IdsApart items
    → get_elem? items i ≡ some s
    → state_by_id items s.item_id ≡ some s
unfolding state_by_id
state_by_id-at [] i apart e = cc
state_by_id-at (x ∷ items) zero {s} apart e = elim (Option-cases (state_by_id items s.item_id)) [
  | inl missing ↦ ground (arith, eq_iff x.item_id s.item_id, ap (λ u. u.item_id) (eq_of_some e))
  | inr (t, f) ↦
      let (j, at_j, named) = state_by_id-eq-some items s.item_id f in
      absurd (ground (arith, apart zero (suc j) s t e at_j (sym named)))
]
state_by_id-at (x ∷ items) (suc i) {s} apart e =
    rw (state_by_id-at items i (λ j k t u p q r. ground (arith, apart (suc j) (suc k) t u p q r)) e)
      refl

-- Accepted manifests keep the ids of their states apart.
pub ids_apart :
    (manifest : BatchManifest) (items : List StateItem)
    → reject_duplicate_identities manifest ≡ true
    → Paired SameId manifest.items items
    → IdsApart items
ids_apart manifest items ok_ids p i j s t es et same =
    let (m, em, ms) = beside SameId manifest.items items i p es in
    let (n, en, ns) = beside SameId manifest.items items j p et in
    accepted_ids_distinct manifest i j ok_ids em en (sym ms ∙ same ∙ ns)

module _ (test : StateItem → Bool) (items : List StateItem) where
  -- A search that finds an id has found an item of the manifest that passes the test,
  pub next_id-found :
      (ms : List ManifestItem) {id : ItemId}
      → next_id test items ms ≡ ok (some id)
      → (i : ℕ) × (m : ManifestItem) × (s : StateItem) × (get_elem? ms i ≡ some m)
        × (item_id_of m ≡ id)
        × (state_by_id items (item_id_of m) ≡ some s)
        × (test s ≡ true)
  unfolding next_id
  next_id-found [] h = absurd (ground arith)
  next_id-found (m ∷ ms) {id} h = elim (Option-cases (state_by_id items (item_id_of m))) [
    | inl e ↦ absurd (ground arith)
    | inr (s, e) ↦ elim (Bool-cases (test s)) [
      | inl p ↦ (zero, m, s, refl, ground arith, e, p)
      | inr p ↦
          let (i, m', s', em, named, es, q) = next_id-found ms {id = id} (ground arith) in
          (suc i, m', s', em, named, es, q)
    ]
  ]

  -- and one that finds none, that none passes it.
  pub next_id-none :
      (ms : List ManifestItem) (i : ℕ) {m : ManifestItem} {s : StateItem}
      → next_id test items ms ≡ ok none
      → get_elem? ms i ≡ some m
      → state_by_id items (item_id_of m) ≡ some s
      → test s ≡ false
  unfolding next_id
  next_id-none [] i h em es = cc
  next_id-none (k ∷ ms) zero {m} {s} h em es =
      elim (Option-cases (state_by_id items (item_id_of k))) [
        | inl e ↦ absurd (ground arith)
        | inr (t, e) ↦
            let same : t ≡ s =
              eq_of_some
                (sym e ∙ ap (λ n. state_by_id items (item_id_of n)) (eq_of_some em) ∙ es) in
            elim (Bool-cases (test t)) [
              | inl p ↦ absurd (ground arith)
              | inr p ↦ ap test (sym same) ∙ p
            ]
      ]
  next_id-none (k ∷ ms) (suc i) h em es = elim (Option-cases (state_by_id items (item_id_of k))) [
    | inl e ↦ absurd (ground arith)
    | inr (t, e) ↦ elim (Bool-cases (test t)) [
      | inl p ↦ absurd (ground arith)
      | inr p ↦ next_id-none ms i (ground arith) em es
    ]
  ]
