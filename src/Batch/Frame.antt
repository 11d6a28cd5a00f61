-- ===== src/Batch/Frame.antt =====
-- The frame that the reducer's changes share (`update_at`, `with_items` of Reducer/Base.antt): what
-- a change that is accepted has done to the list of items.
use paperread.Prelude.{
  ℕ, zero, suc, ◌+◌, true, false, ◌≡◌, refl, sym, subst, ap, ◌⊎◌, inl, inr, some, List, [], ◌∷◌,
  get_elem?, set, total, Paired, Result, ok, >>=-eq-ok, eq_of_some, ◌==◌, string_eq, arith,
}
use text.Mathlib.TextEquality.{eq_iff}
use mathlib.Core.Path.{subst₂}
use paperread.Contracts.Scalars.{ItemId}
use paperread.Contracts.Manifest.{ManifestItem, item_id_of}
use paperread.Contracts.State.{StateItem, BatchState}
use paperread.Contracts.Snapshot.{model_validate}
use paperread.Contracts.Events.{BatchEvent}
use paperread.Reducer.Base.{
  manifest_item, state_item_index, items_at, update_at, update_item, with_items, successor,
}

-- The snapshot that `_with_items` returns is the one that it built, and it is valid.
pub with_items-eq-ok :
    (state : BatchState) (items : List StateItem) (event : BatchEvent) {state' : BatchState}
    → with_items state items event ≡ ok state'
    → (state' ≡ successor state items event) × (model_validate state' ≡ true)
unfolding with_items
with_items-eq-ok state items event h = ground arith

-- An accepted change found its item, changed it, and wrote it back in its place.
pub update_at-eq-ok :
    (known : List StateItem) (id : ItemId) (change : StateItem → Result StateItem)
    (items : List StateItem) {items' : List StateItem}
    → update_at known id change items ≡ ok items'
    → (index : ℕ) × (s : StateItem) × (s' : StateItem) × (state_item_index known id ≡ ok index)
      × (get_elem? items index ≡ some s)
      × (change s ≡ ok s')
      × (items' ≡ set items index s')
unfolding update_at
update_at-eq-ok known id change items h =
    let (index, found, h1) = >>=-eq-ok (state_item_index known id) _ h in
    let (s, read, h2) = >>=-eq-ok (items_at items index) _ h1 in
    let (s', changed, h3) = >>=-eq-ok (change s) _ h2 in
    (index, s, s', found, ground arith, changed, ground arith)

abbrev pub SameId : ManifestItem → StateItem → Type 0
SameId m s = s.item_id ≡ item_id_of m

-- The index of an item is 0 at its own id, and else one more than in the rest.
index_cases :
    (k : StateItem) (known : List StateItem) (id : ItemId) {index : ℕ}
    → state_item_index (k ∷ known) id ≡ ok index
    → ((k.item_id == id) ≡ true) × (index ≡ 0)
      ⊎ ((k.item_id == id) ≡ false)
        × ((j : ℕ) × (state_item_index known id ≡ ok j) × (index ≡ suc j))
unfolding state_item_index
index_cases k known id h = ground arith

-- The two lookups of one id meet at one position.
pub lookups_meet :
    (id : ItemId) (ms : List ManifestItem) (known : List StateItem) (index : ℕ)
    → Paired SameId ms known
    → state_item_index known id ≡ ok index
    → (m : ManifestItem) × (manifest_item ms id ≡ ok m)
      × (get_elem? ms index ≡ some m)
      × (item_id_of m ≡ id)
unfolding manifest_item state_item_index
lookups_meet id [] [] index same found = cc
lookups_meet id [] (k ∷ known) index same found = absurd same
lookups_meet id (m ∷ ms) [] index same found = absurd same
lookups_meet id (m ∷ ms) (k ∷ known) index same found = elim (index_cases k known id found) [
  | inl (hit, at_zero) ↦ rw at_zero (m, ground arith, refl, ground (arith, eq_iff k.item_id id))
  | inr (miss, (j, later, at_suc)) ↦
      let (m', e, read, named) = lookups_meet id ms known j same.1 later in
      rw at_suc (m', ground arith, read, named)
]

module _ (R : ManifestItem → StateItem → Type 0) where
  -- A relation of the two lists holds at each position,
  pub Paired-get_elem? :
      (ms : List ManifestItem) (items : List StateItem) (index : ℕ) {m : ManifestItem}
      {s : StateItem}
      → Paired R ms items
      → get_elem? ms index ≡ some m
      → get_elem? items index ≡ some s
      → R m s
  Paired-get_elem? [] [] index r em es = cc
  Paired-get_elem? [] (x ∷ items) index r em es = absurd r
  Paired-get_elem? (k ∷ ms) [] index r em es = absurd r
  Paired-get_elem? (k ∷ ms) (x ∷ items) zero r em es = subst₂ R (eq_of_some em) (eq_of_some es) r.0
  Paired-get_elem? (k ∷ ms) (x ∷ items) (suc i) r em es = Paired-get_elem? ms items i r.1 em es

  -- and is kept by a write at a position where the new item is related.
  pub Paired-set :
      (ms : List ManifestItem) (items : List StateItem) (index : ℕ) {m : ManifestItem}
      (s' : StateItem)
      → Paired R ms items
      → get_elem? ms index ≡ some m
      → R m s'
      → Paired R ms (set items index s')
  Paired-set [] [] index s' r em new = tt
  Paired-set [] (x ∷ items) index s' r em new = absurd r
  Paired-set (k ∷ ms) [] index s' r em new = absurd r
  Paired-set (k ∷ ms) (x ∷ items) zero s' r em new =
      (subst (λ k. R k s') (sym (eq_of_some em)) new, r.1)
  Paired-set (k ∷ ms) (x ∷ items) (suc i) s' r em new = (r.0, Paired-set ms items i s' r.1 em new)

-- A written list holds the new item at the written position, and else what it held.
pub get_elem?-set :
    (items : List StateItem) (j i : ℕ) (s' : StateItem) {s : StateItem}
    → get_elem? items i ≡ some s
    → (i ≡ j) × (get_elem? (set items j s') i ≡ some s') ⊎ (get_elem? (set items j s') i ≡ some s)
get_elem?-set [] j i s' h = cc
get_elem?-set (x ∷ items) zero zero s' h = inl (refl, refl)
get_elem?-set (x ∷ items) zero (suc i) s' h = inr h
get_elem?-set (x ∷ items) (suc j) zero s' h = inr h
get_elem?-set (x ∷ items) (suc j) (suc i) s' h = elim (get_elem?-set items j i s' h) [
  | inl (e, r) ↦ inl (ap suc e, r)
  | inr r ↦ inr r
]

-- A sum over the items changes by what the written item brings.
pub total-set :
    (f : StateItem → ℕ) (items : List StateItem) (index : ℕ) {s : StateItem} (s' : StateItem)
    → get_elem? items index ≡ some s
    → total f (set items index s') + f s ≡ total f items + f s'
total-set f [] index s' e = cc
total-set f (x ∷ items) zero s' e = omega (arith, ap f (eq_of_some e))
total-set f (x ∷ items) (suc i) s' e = omega (arith, total-set f items i s' e)

-- What an accepted change of one item by an event has done.
pub update_item-eq-ok :
    (state : BatchState) (event : BatchEvent) (id : ItemId) (change : StateItem → Result StateItem)
    {state' : BatchState}
    → update_item state event id change ≡ ok state'
    → (items' : List StateItem) × (update_at state.items id change state.items ≡ ok items')
      × (state' ≡ successor state items' event)
      × (model_validate state' ≡ true)
unfolding update_item
update_item-eq-ok state event id change h =
    let (items', changed, rest) = >>=-eq-ok (update_at state.items id change state.items) _ h in
    let (built, valid) = with_items-eq-ok state items' event rest in (items', changed, built, valid)
