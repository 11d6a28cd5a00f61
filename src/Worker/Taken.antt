-- ===== src/Worker/Taken.antt =====
-- The items that `_claimable_worker_items` of v2_worker.py takes.
use paperread.Prelude.{
  ℕ, zero, suc, ◌+◌, ◌≤◌, Bool, true, false, ◌&&◌, ◌||◌, ◌≡◌, Option, none, some, List, [], ◌∷◌, ok,
  All, total, to_nat, length, arith, inl, inr, Bool-cases, Option-cases, Result-cases, eq_of_ok,
  subst,
}
use mathlib.Core.List.{Sublist, nil-sublist}
use mathlib.Core.List.Sublist
use paperread.Contracts.Manifest.{ManifestItem, is_pdf}
use paperread.Contracts.State.{StateItem}
use paperread.Worker.Claims.{manifest_by_id, is_waiting, select_items}

-- What the dict's entry for an item is: a PDF or not.
abbrev pub is_pdf_entry : Option ManifestItem → Bool
is_pdf_entry none = false
is_pdf_entry (some m) = is_pdf m

abbrev pub pdfs_among : List ManifestItem → List StateItem → ℕ
pdfs_among ms items = total (λ s. to_nat (is_pdf_entry (manifest_by_id ms s.item_id))) items

-- What holds of the items taken from a list, when `count` are wanted and `p` counts the PDF before.
pub record Taken (ms : List ManifestItem) (count p : ℕ) (items out : List StateItem) : Type 0 where
  pub in_order : Sublist out items
  pub bounded : length out ≤ count
  pub one_pdf : pdfs_among ms out + p ≤ 1
  pub waiting : All (λ s. is_waiting s ≡ true) out

skip_Taken :
    {ms : List ManifestItem} {count p : ℕ} (item : StateItem) {items out : List StateItem}
    → Taken ms count p items out
    → Taken ms count p (item ∷ items) out
skip_Taken item t = record {
  in_order = Sublist.cons item t.in_order;
  bounded = t.bounded;
  one_pdf = t.one_pdf;
  waiting = t.waiting;
}

-- A round of the loop skips the item or takes it.
pub data Round (ms : List ManifestItem) (count : ℕ) (p : Bool) (item : StateItem)
    (items out : List StateItem) : Type 0 where
  skips : select_items ms (suc count) p items ≡ ok out → Round ms count p item items out
  takes :
      (m : ManifestItem) (rest : List StateItem)
      → is_waiting item ≡ true
      → manifest_by_id ms item.item_id ≡ some m
      → (is_pdf m && p) ≡ false
      → select_items ms count (is_pdf m || p) items ≡ ok rest
      → item ∷ rest ≡ out
      → Round ms count p item items out

pub select_items-Round :
    (ms : List ManifestItem) (count : ℕ) (p : Bool) (item : StateItem) (items : List StateItem)
    {out : List StateItem}
    → select_items ms (suc count) p (item ∷ items) ≡ ok out
    → Round ms count p item items out
unfolding select_items
select_items-Round ms count p item items h = elim (Bool-cases (is_waiting item)) [
  | inr busy ↦ skips (ground (arith, busy))
  | inl waits ↦ elim (Option-cases (manifest_by_id ms item.item_id)) [
    | inl missing ↦ absurd (ground arith)
    | inr (m, found) ↦ elim (Bool-cases (is_pdf m && p)) [
      | inl second ↦ skips (ground (arith, second))
      | inr first ↦ elim (Result-cases (select_items ms count (is_pdf m || p) items)) [
        | inl (rest, e) ↦ takes m rest waits found first e (eq_of_ok (ground arith))
        | inr (_, e) ↦ absurd (ground arith)
      ]
    ]
  ]
]

module _ (ms : List ManifestItem) where
  take_Taken :
      (count p : ℕ) (item : StateItem) (items out : List StateItem) {m : ManifestItem}
      → is_waiting item ≡ true
      → manifest_by_id ms item.item_id ≡ some m
      → Taken ms count (to_nat (is_pdf m) + p) items out
      → Taken ms (suc count) p (item ∷ items) (item ∷ out)
  take_Taken count p item items out {m} waits found t = record {
    in_order = Sublist.cons-cons item t.in_order;
    bounded = ground (arith, t.bounded);
    one_pdf = ground (arith, t.one_pdf);
    waiting = (waits, t.waiting);
  }

  none_Taken : (count : ℕ) (p : Bool) (items : List StateItem) → Taken ms count (to_nat p) items []
  none_Taken count p items = record {
    in_order = nil-sublist items;
    bounded = omega arith;
    one_pdf = ground arith;
    waiting = tt;
  }

  -- The items taken are at most as many as are wanted, in the order of the state; each of them waits
  -- for a worker, and at most one is a PDF, that taken before included.
  pub select_items-Taken :
      (count : ℕ) (p : Bool) (items : List StateItem) {out : List StateItem}
      → select_items ms count p items ≡ ok out
      → Taken ms count (to_nat p) items out
  unfolding select_items
  select_items-Taken zero p items h =
      subst (Taken ms zero (to_nat p) items) (eq_of_ok h) (none_Taken zero p items)
  select_items-Taken (suc count) p [] h =
      subst (Taken ms (suc count) (to_nat p) []) (eq_of_ok h) (none_Taken (suc count) p [])
  select_items-Taken (suc count) p (item ∷ items) {out} h =
      elim (select_items-Round ms count p item items h) [
        | skips e ↦ skip_Taken item (select_items-Taken (suc count) p items e)
        | takes m rest waits found first e built ↦
            let t = select_items-Taken count (is_pdf m || p) items e in
            subst (Taken ms (suc count) (to_nat p) (item ∷ items)) built (
              take_Taken count (to_nat p) item items rest waits found
                (subst (λ k. Taken ms count k items rest) (ground arith) t))
      ]
