-- ===== src/Worker/Lookups.antt =====
-- The lookups of v2_worker.py and of v2_reducer.py by an item's id meet, where the ids are distinct.
use paperread.Prelude.{
  ℕ, zero, suc, true, ◌≡◌, refl, sym, ◌∙◌, ap, some, List, [], ◌∷◌, get_elem?, set, Paired, Result,
  ok, arith, inl, inr, Bool-cases, Option-cases, eq_of_some, ◌==◌, Eq, nat_eq, string_eq, option_eq,
}
use text.Mathlib.TextEquality.{eq_iff}
use paperread.Contracts.Scalars.{ItemId}
use paperread.Contracts.Manifest.{
  BatchManifest, ManifestItem, SourceIdentity, source_beq, item_id_of, reject_duplicate_identities,
}
use paperread.Contracts.State.{StateItem}
use paperread.Reducer.Base.{state_item_index, manifest_item, update_at}
use paperread.Batch.Frame.{SameId, lookups_meet}
use paperread.Batch.Identities.{accepted_ids_distinct}
use paperread.Next.Found.{IdsApart}
use paperread.Worker.Claims.{manifest_by_id}

-- The index of an item is its position.
pub state_item_index-at :
    (items : List StateItem) (i : ℕ) {s : StateItem}
    → IdsApart items
    → get_elem? items i ≡ some s
    → state_item_index items s.item_id ≡ ok i
unfolding state_item_index
state_item_index-at [] i apart e = cc
state_item_index-at (x ∷ items) zero {s} apart e =
    ground (arith, eq_iff x.item_id s.item_id, ap (λ u. u.item_id) (eq_of_some e))
state_item_index-at (x ∷ items) (suc i) {s} apart e =
    let later =
      state_item_index-at items i (λ j k t u p q r. ground (arith, apart (suc j) (suc k) t u p q r))
        e in
    elim (Bool-cases (x.item_id == s.item_id)) [
      | inl hit ↦
          absurd (ground (arith, apart 0 (suc i) x s refl e ((eq_iff x.item_id s.item_id).0 hit)))
      | inr miss ↦ ground arith
    ]

pub update_at-accepts :
    (known items : List StateItem) (id : ItemId) (change : StateItem → Result StateItem) (i : ℕ)
    {s s' : StateItem}
    → state_item_index known id ≡ ok i
    → get_elem? items i ≡ some s
    → change s ≡ ok s'
    → update_at known id change items ≡ ok (set items i s')
unfolding update_at
update_at-accepts known items id change i found read changed = rw found (rw read (rw changed refl))

manifest_by_id-eq-some :
    (ms : List ManifestItem) (id : ItemId) {m : ManifestItem}
    → manifest_by_id ms id ≡ some m
    → (i : ℕ) × (get_elem? ms i ≡ some m) × (item_id_of m ≡ id)
unfolding manifest_by_id
manifest_by_id-eq-some [] id h = cc
manifest_by_id-eq-some (k ∷ ms) id {m} h = elim (Option-cases (manifest_by_id ms id)) [
  | inl missing ↦ elim (Bool-cases (item_id_of k == id)) [
    | inl hit ↦ (zero, ground arith, ground (arith, eq_iff (item_id_of k) id))
    | inr miss ↦ absurd (ground arith)
  ]
  | inr (n, e) ↦
      let (i, at_i, named) = manifest_by_id-eq-some ms id e in
      let same : n ≡ m = ground arith in
      (suc i, at_i ∙ ap some same, ap item_id_of (sym same) ∙ named)
]

-- The dict of the command and the search of the reducer find the same item.
pub manifest_item-manifest_by_id :
    (manifest : BatchManifest) (items : List StateItem) (id : ItemId) (i : ℕ) {m : ManifestItem}
    → reject_duplicate_identities manifest ≡ true
    → Paired SameId manifest.items items
    → state_item_index items id ≡ ok i
    → manifest_by_id manifest.items id ≡ some m
    → manifest_item manifest.items id ≡ ok m
manifest_item-manifest_by_id manifest items id i {m} distinct_ids same found known =
    let (n, looked, at_i, named) = lookups_meet id manifest.items items i same found in
    let (j, at_j, named') = manifest_by_id-eq-some manifest.items id known in
    let one : i ≡ j =
      accepted_ids_distinct manifest i j distinct_ids at_i at_j (named ∙ sym named') in
    let equal : n ≡ m = eq_of_some (sym at_i ∙ ap (get_elem? manifest.items) one ∙ at_j) in
    looked ∙ ap ok equal

==_refl : {K : Type 0} ⦃k : Eq K⦄ (a : K) → (a == a) ≡ true
==_refl ⦃k⦄ a = (k.tests a a).1 refl

pub source_beq_refl : (s : SourceIdentity) → source_beq s s ≡ true
source_beq_refl (SourceIdentity.pdf a) = ground (arith, ==_refl a.path)
source_beq_refl (SourceIdentity.zotero_item a) =
    ground (arith, ==_refl a.item_key, ==_refl a.title, ==_refl a.collection_key)
source_beq_refl (SourceIdentity.zotero_title a) =
    ground (arith, ==_refl a.title, ==_refl a.resolved_item_key, ==_refl a.inventory_sha256)
