-- ===== src/Next/Finished.antt =====
-- The end of a batch as v2_next_actions.py sees it: when no action is offered any more.
use paperread.Prelude.{
  ℕ, zero, suc, ◌≤◌, Bool, true, false, not, ◌||◌, ◌≡◌, refl, sym, ◌∙◌, ap, Option, none, some,
  List, [], ◌∷◌, get_elem?, Paired, ok, any, arith, inl, inr, Bool-cases, Option-cases,
  Result-cases, eq_of_some, ◌⊎◌, ◌==◌, string_eq, option_eq,
}
use text.Mathlib.TextEquality.{eq_iff}
use paperread.Contracts.Scalars.{ItemId}
use paperread.Contracts.Manifest.{
  BatchManifest, ManifestItem, item_id_of, is_pdf, input_type_of, is_zotero_write,
}
use paperread.Contracts.Status.{WorkerStatus, WriteStatus, worker_eq, local_eq, write_eq}
use paperread.Contracts.State.{StateItem, BatchState}
use paperread.Reducer.Claim.{active_claims, is_claimed}
use paperread.Reducer.WriteClaim.{holds_write_lane}
use paperread.Batch.Items.{Sound}
use paperread.Batch.Kinds.{SameKind}
use paperread.Batch.Summary.{Settled, pdf_settled, zotero_written, zotero_prepared}
use paperread.Next.{
  state_by_id, next_id, worker_claimable, is_pdf_input, first_runtime_worker_claim_id,
  first_claimable_write_id,
}
use paperread.Next.Derive.{FirstClaims, first_claims, item_actions, all_item_actions}
use paperread.Next.Found.{next_id-found, next_id-none, state_by_id-eq-some, beside}
use paperread.Next.Quiet.{Quiet, is_closed, append_nothing}

all_item_actions-cons :
    (manifest : BatchManifest) (first : FirstClaims) (items : List StateItem) (k : ManifestItem)
    (ms : List ManifestItem)
    → all_item_actions manifest first items (k ∷ ms) ≡ ok []
    → ((t : StateItem)
        → state_by_id items (item_id_of k) ≡ some t
        → item_actions manifest first t ≡ [])
      × (all_item_actions manifest first items ms ≡ ok [])
unfolding all_item_actions
all_item_actions-cons manifest first items k ms h =
    elim (Option-cases (state_by_id items (item_id_of k))) [
      | inl e ↦ absurd (ground arith)
      | inr (t, e) ↦ elim (Result-cases (all_item_actions manifest first items ms)) [
        | inl (rest, r) ↦
            let (here, later) =
              append_nothing (item_actions manifest first t) rest (ground arith) in
            (
              λ u f. ap (item_actions manifest first) (eq_of_some (sym f ∙ e)) ∙ here,
              r ∙ ap ok later,
            )
        | inr (_, r) ↦ absurd (ground arith)
      ]
    ]

-- Nothing is offered for any item of the manifest, if nothing is offered for all of them.
pub nothing_offered :
    (manifest : BatchManifest) (first : FirstClaims) (items : List StateItem)
    (ms : List ManifestItem) (i : ℕ) {m : ManifestItem} {s : StateItem}
    → all_item_actions manifest first items ms ≡ ok []
    → get_elem? ms i ≡ some m
    → state_by_id items (item_id_of m) ≡ some s
    → item_actions manifest first s ≡ []
nothing_offered manifest first items [] i h em es = cc
nothing_offered manifest first items (k ∷ ms) zero {s = s} h em es =
    (all_item_actions-cons manifest first items k ms h).0 s
      (ap (λ n. state_by_id items (item_id_of n)) (eq_of_some em) ∙ es)
nothing_offered manifest first items (k ∷ ms) (suc i) h em es =
    nothing_offered manifest first items ms i (all_item_actions-cons manifest first items k ms h).1
      em es

nobody_active :
    (items : List StateItem)
    → ((i : ℕ) (s : StateItem) → get_elem? items i ≡ some s → is_claimed s ≡ false)
    → active_claims items ≡ 0
nobody_active [] f = refl
nobody_active (x ∷ items) f =
    ground (arith, f zero x refl, nobody_active items (λ i s e. f (suc i) s e))

lane_free :
    (items : List StateItem)
    → ((i : ℕ) (s : StateItem) → get_elem? items i ≡ some s → holds_write_lane s ≡ false)
    → any holds_write_lane items ≡ false
lane_free [] f = refl
lane_free (x ∷ items) f = ground (arith, f zero x refl, lane_free items (λ i s e. f (suc i) s e))

-- What is certain, unclaimed and succeeded, and whose write is closed, is settled.
pub closed_Settled :
    (manifest : BatchManifest) (m : ManifestItem) (s : StateItem)
    → Sound manifest m s
    → s.worker_status ≡ WorkerStatus.succeeded
    → ((is_pdf m || not (is_zotero_write manifest.write_policy)) ≡ true)
      ⊎ (is_closed s.write_status ≡ true)
    → Settled manifest m s
closed_Settled manifest m s r w c = elim (Bool-cases (is_pdf m)) [
  | inl p ↦ pdf_settled p w (ground arith) (ground arith)
  | inr p ↦ elim (Bool-cases (is_zotero_write manifest.write_policy)) [
    | inl q ↦ zotero_written p q w (ground arith)
    | inr q ↦ zotero_prepared p q w (ground arith)
  ]
]

-- Where no item that passes the test has the id that a search gave, none passes it.
search_quiet :
    (test : StateItem → Bool) (items : List StateItem) (ms : List ManifestItem)
    (claim : Option ItemId)
    → next_id test items ms ≡ ok claim
    → ((j : ℕ) (t : StateItem)
        → get_elem? items j ≡ some t
        → test t ≡ true
        → (some t.item_id == claim) ≡ false)
    → (i : ℕ) {m : ManifestItem} {s : StateItem} → get_elem? ms i ≡ some m
    → state_by_id items (item_id_of m) ≡ some s
    → test s ≡ false
search_quiet test items ms none h f i em es = next_id-none test items ms i h em es
search_quiet test items ms (some id) h f i em es =
    let (j, m, t, en, named, et, p) = next_id-found test items ms h in
    let (k, at_k, same) = state_by_id-eq-some items (item_id_of m) et in
    absurd (ground (arith, f k t at_k p, eq_iff t.item_id id, same ∙ named))

pub pdf_input : (m : ManifestItem) → is_pdf_input (input_type_of m) ≡ is_pdf m
pdf_input (ManifestItem.pdf_item i s) = refl
pdf_input (ManifestItem.zotero_item_item i s) = refl
pdf_input (ManifestItem.zotero_title_item i s) = refl

first_claims-eq-ok :
    (manifest : BatchManifest) (state : BatchState) {first : FirstClaims}
    → first_claims manifest state ≡ ok first
    → (first_runtime_worker_claim_id manifest state ≡ ok first.worker_claim)
      × (first_claimable_write_id manifest state ≡ ok first.write_claim)
first_claims-eq-ok manifest state h = ground arith

module _ (manifest : BatchManifest) (state : BatchState) (first : FirstClaims)
    (sound : Paired (Sound manifest) manifest.items state.items)
    (kinds : Paired SameKind manifest.items state.items)
    (quiet : (i : ℕ) (s : StateItem) → get_elem? state.items i ≡ some s → Quiet manifest first s)
    (room : 1 ≤ manifest.default_concurrency)
    (claims : first_claims manifest state ≡ ok first) where
  worker_search : next_id worker_claimable state.items manifest.items ≡ ok first.worker_claim
  unfolding first_runtime_worker_claim_id
  worker_search = ground (
    arith,
    first_claims-eq-ok manifest state claims,
    nobody_active state.items (λ i s e. (quiet i s e).unclaimed),
  )

  write_search :
      is_zotero_write manifest.write_policy ≡ true
      → next_id (λ item. item.write_status == WriteStatus.queued) state.items manifest.items
        ≡ ok first.write_claim
  unfolding first_claimable_write_id
  write_search z = ground (
    arith,
    first_claims-eq-ok manifest state claims,
    lane_free state.items (λ i s e. (quiet i s e).holds_nothing),
  )

  no_worker_claimable :
      (i : ℕ) {m : ManifestItem} {s : StateItem}
      → get_elem? manifest.items i ≡ some m
      → state_by_id state.items (item_id_of m) ≡ some s
      → worker_claimable s ≡ false
  no_worker_claimable i em es =
      search_quiet worker_claimable state.items manifest.items first.worker_claim worker_search
        (λ j t et p. elim (quiet j t et).worker_waits [
          | inl done ↦ absurd (ground arith)
          | inr (_, other) ↦ other
        ])
        i em es

  -- An item that is queued for its write is no PDF.
  queued_no_pdf :
      (j : ℕ) (t : StateItem)
      → get_elem? state.items j ≡ some t
      → (t.write_status == WriteStatus.queued) ≡ true
      → is_pdf_input t.input_type ≡ false
  queued_no_pdf j t et q =
      let (m, em, r) = beside (Sound manifest) manifest.items state.items j sound et in
      let (n, en, k) = beside SameKind manifest.items state.items j kinds et in
      let same : m ≡ n = eq_of_some (sym em ∙ en) in
      let kind : is_pdf_input t.input_type ≡ is_pdf m =
        ap is_pdf_input k ∙ pdf_input n ∙ ap is_pdf (sym same) in
      kind ∙ ground (arith, r.write_kind)

  none_queued :
      is_zotero_write manifest.write_policy ≡ true
      → (i : ℕ) {m : ManifestItem} {s : StateItem} → get_elem? manifest.items i ≡ some m
      → state_by_id state.items (item_id_of m) ≡ some s
      → (s.write_status == WriteStatus.queued) ≡ false
  none_queued z i em es =
      search_quiet (λ item. item.write_status == WriteStatus.queued) state.items manifest.items
        first.write_claim (write_search z)
        (λ j t et q. elim (quiet j t et).write_waits [
          | inl none_here ↦ absurd (ground (arith, queued_no_pdf j t et q))
          | inr (inl closed) ↦ absurd (ground arith)
          | inr (inr (_, other)) ↦ other
        ])
        i em es

  pub worker_done :
      (i : ℕ) {m : ManifestItem} {s : StateItem}
      → get_elem? manifest.items i ≡ some m
      → get_elem? state.items i ≡ some s
      → state_by_id state.items (item_id_of m) ≡ some s
      → Sound manifest m s
      → is_pdf_input s.input_type ≡ is_pdf m
      → s.worker_status ≡ WorkerStatus.succeeded
  worker_done i {s = s} em et es r kind =
      let q = quiet i s et in
      elim q.worker_waits [
        | inl done ↦ done
        | inr (queued, _) ↦
            absurd
              (ground (arith, no_worker_claimable i em es, q.unclaimed, q.certain, r.local_kind))
      ]

  pub write_closed :
      (i : ℕ) {m : ManifestItem} {s : StateItem}
      → get_elem? manifest.items i ≡ some m
      → get_elem? state.items i ≡ some s
      → state_by_id state.items (item_id_of m) ≡ some s
      → is_pdf_input s.input_type ≡ is_pdf m
      → ((is_pdf m || not (is_zotero_write manifest.write_policy)) ≡ true)
        ⊎ (is_closed s.write_status ≡ true)
  write_closed i {s = s} em et es kind = elim (quiet i s et).write_waits [
    | inl none_here ↦ inl (ground arith)
    | inr (inl closed) ↦ inr closed
    | inr (inr (queued, _)) ↦ elim (Bool-cases (is_zotero_write manifest.write_policy)) [
      | inl z ↦ absurd (ground (arith, none_queued z i em es))
      | inr z ↦ inl (ground arith)
    ]
  ]
