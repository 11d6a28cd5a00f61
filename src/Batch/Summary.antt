-- ===== src/Batch/Summary.antt =====
-- What `batch_status` of v2_reducer.py tells of the items.
use paperread.Prelude.{
  Bool, true, false, ◌≡◌, sym, ◌∙◌, List, [], ◌∷◌, any, Paired, ok, arith, inl, inr, Bool-cases,
}
use paperread.Contracts.Scalars.{UuidString}
use paperread.Contracts.Manifest.{BatchManifest, ManifestItem, is_pdf, is_zotero_write}
use paperread.Contracts.Status.{WorkerStatus, LocalPrepareStatus, WriteStatus, BatchStatus}
use paperread.Contracts.State.{StateItem, BatchState}
use paperread.Contracts.Events.{BatchEvent}
use paperread.Reducer.Base.{
  status, is_uncertain, is_running, wants_attention, awaits_write, is_ready,
}
use paperread.Reducer.Apply.{replay}
use paperread.Batch.Items.{Sound}
use paperread.Batch.Replayed.{replay-Good}
use paperread.Batch.Chain.{replay-Chained}

-- An item on which nothing is left to do: the worker succeeded; a PDF is prepared and has no write;
-- a Zotero item is written, or only prepared where the policy says so.
pub data Settled (manifest : BatchManifest) (m : ManifestItem) (s : StateItem) : Type 0 where
  pdf_settled :
      is_pdf m ≡ true
      → s.worker_status ≡ WorkerStatus.succeeded
      → s.local_prepare_status ≡ LocalPrepareStatus.prepared
      → s.write_status ≡ WriteStatus.not_applicable
      → Settled manifest m s
  zotero_written :
      is_pdf m ≡ false
      → is_zotero_write manifest.write_policy ≡ true
      → s.worker_status ≡ WorkerStatus.succeeded
      → s.write_status ≡ WriteStatus.written
      → Settled manifest m s
  zotero_prepared :
      is_pdf m ≡ false
      → is_zotero_write manifest.write_policy ≡ false
      → s.worker_status ≡ WorkerStatus.succeeded
      → s.write_status ≡ WriteStatus.prepared_only
      → Settled manifest m s

none_open :
    (items : List StateItem)
    → status items ≡ BatchStatus.succeeded
    → (any is_uncertain items ≡ false)
      × (any is_running items ≡ false)
      × (any wants_attention items ≡ false)
      × (any awaits_write items ≡ false)
      × (any is_ready items ≡ false)
unfolding status
none_open items h = ground arith

item-Settled :
    (manifest : BatchManifest) (m : ManifestItem) (s : StateItem)
    → Sound manifest m s
    → is_uncertain s ≡ false
    → is_running s ≡ false
    → wants_attention s ≡ false
    → awaits_write s ≡ false
    → is_ready s ≡ false
    → Settled manifest m s
item-Settled manifest m s r u n a w d = elim (Bool-cases (is_pdf m)) [
  | inl p ↦ pdf_settled p (ground arith) (ground arith) (ground arith)
  | inr p ↦ elim (Bool-cases (is_zotero_write manifest.write_policy)) [
    | inl q ↦ zotero_written p q (ground arith) (ground arith)
    | inr q ↦ zotero_prepared p q (ground arith) (ground arith)
  ]
]

any_cons :
    (p : StateItem → Bool) (x : StateItem) (xs : List StateItem)
    → any p (x ∷ xs) ≡ false
    → (p x ≡ false) × (any p xs ≡ false)
any_cons p x xs h = ground arith

all_Settled :
    (manifest : BatchManifest) (ms : List ManifestItem) (items : List StateItem)
    → Paired (Sound manifest) ms items
    → any is_uncertain items ≡ false
    → any is_running items ≡ false
    → any wants_attention items ≡ false
    → any awaits_write items ≡ false
    → any is_ready items ≡ false
    → Paired (Settled manifest) ms items
all_Settled manifest [] [] p u n a w d = tt
all_Settled manifest [] (x ∷ items) p u n a w d = absurd p
all_Settled manifest (m ∷ ms) [] p u n a w d = absurd p
all_Settled manifest (m ∷ ms) (x ∷ items) p u n a w d =
    let (u0, u1) = any_cons is_uncertain x items u in
    let (n0, n1) = any_cons is_running x items n in
    let (a0, a1) = any_cons wants_attention x items a in
    let (w0, w1) = any_cons awaits_write x items w in
    let (d0, d1) = any_cons is_ready x items d in
    (item-Settled manifest m x p.0 u0 n0 a0 w0 d0, all_Settled manifest ms items p.1 u1 n1 a1 w1 d1)

-- A replayed batch whose status is `succeeded` has nothing left to do: every worker succeeded, every
-- PDF is prepared and has no write, and every Zotero item is written, or under the policy
-- `prepare_only` prepared.
pub succeeded-Settled :
    (derive : UuidString → UuidString) (manifest : BatchManifest) (first : BatchEvent)
    (events : List BatchEvent) {state : BatchState}
    → replay derive manifest (first ∷ events) ≡ ok state
    → state.batch_status ≡ BatchStatus.succeeded
    → Paired (Settled manifest) manifest.items state.items
succeeded-Settled derive manifest first events {state} h e =
    let (_, _, f) = replay-Chained derive manifest first events h in
    let (u, n, a, w, d) = none_open state.items (sym f.summed ∙ e) in
    all_Settled manifest manifest.items state.items
      (replay-Good derive manifest (first ∷ events) h).sound u n a w d
