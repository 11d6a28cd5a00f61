-- ===== src/Worker/Loop.antt =====
-- The loop of `_apply_claim` in v2_reducer.py over the assignments that `worker.claim` of v2_worker.py
-- proposes: it accepts each of them.
use paperread.Prelude.{
  ℕ, zero, suc, ◌+◌, ◌-◌, Bool, true, false, ◌||◌, ◌≡◌, refl, sym, ◌∙◌, ap, Option, none, some,
  List, [], ◌∷◌, get_elem?, set, Paired, Result, ok, length, arith, inl, inr, Result-cases,
  eq_of_ok, subst, leb, ltb, nat_eq,
}
use paperread.Contracts.Scalars.{
  UuidString, Sha256, NonEmptyString, timestamp, timedelta, text_beq, text_beq_iff,
}
use paperread.Contracts.Manifest.{
  BatchManifest, ManifestItem, is_pdf, source_of, reject_duplicate_identities,
}
use paperread.Contracts.State.{StateItem, BatchState}
use paperread.Contracts.Events.{BatchEvent, ClaimAssignment, worker_claimed}
use paperread.Reducer.Base.{state_item_index, manifest_item, max_task_lease_seconds}
use paperread.Reducer.Claim.{
  claim_item, claim_assignment, claim_all, mismatch, pdf_assignment_count,
}
use paperread.Batch.Frame.{SameId, get_elem?-set}
use paperread.Next.Found.{ids_apart}
use paperread.Next.Claims.{worker_claim_fits}
use paperread.Worker.Mutations.{after_seconds, check_lease_seconds}
use paperread.Worker.Extended.{timestamp-after_seconds}
use paperread.Worker.Claims.{
  manifest_by_id, is_waiting, select_items, attempt_of, assignment_of, draws_of, assign,
}
use paperread.Worker.Offered.{same_test}
use paperread.Worker.Taken.{pdfs_among, skips, takes, select_items-Round}
use paperread.Worker.Lookups.{
  state_item_index-at, update_at-accepts, manifest_item-manifest_by_id, source_beq_refl,
}

-- The attempt of an assignment is the one that a retry has set, where there is one.
attempt_fits :
    (pending : Option UuidString) (fresh : UuidString)
    → mismatch pending (attempt_of pending fresh) ≡ false
attempt_fits none fresh = refl
attempt_fits (some pending) fresh = ground arith

module _ (token_sha256 : UuidString → UuidString → Sha256) (uuid : ℕ → UuidString)
    (manifest : BatchManifest) (state : BatchState) (event : BatchEvent)
    (worker_id : NonEmptyString) (n : ℕ) where
  -- The assignment of an item, as the command makes it at the time of the event.
  abbrev taken : ManifestItem → ℕ → StateItem → ClaimAssignment
  taken m drawn s =
      assignment_of token_sha256 uuid m worker_id event.occurred_at
        (after_seconds event.occurred_at n) drawn s

  taken_fits :
      (m : ManifestItem) (drawn : ℕ) (s : StateItem)
      → is_waiting s ≡ true
      → (s' : StateItem) × (claim_item worker_claimed m (taken m drawn s) s ≡ ok s')
  taken_fits m drawn s waits =
      worker_claim_fits m (taken m drawn s) s (sym (same_test s) ∙ waits) refl refl
        (attempt_fits s.worker_pending_attempt_id _)

  -- The tests of one assignment pass, and its item is changed where it stands.
  assignment_accepted :
      (m : ManifestItem) (drawn j : ℕ) (s s' : StateItem) (items : List StateItem)
      → check_lease_seconds false n ≡ ok tt
      → state_item_index state.items s.item_id ≡ ok j
      → get_elem? items j ≡ some s
      → manifest_item manifest.items s.item_id ≡ ok m
      → claim_item worker_claimed m (taken m drawn s) s ≡ ok s'
      → claim_assignment state manifest event worker_claimed (taken m drawn s) items
        ≡ ok (set items j s')
  unfolding claim_assignment check_lease_seconds
  assignment_accepted m drawn j s s' items fits index read looked changed =
      let later = timestamp-after_seconds event.occurred_at n in
      let timed : (text_beq event.occurred_at event.occurred_at ≡ true)
          × (leb (timestamp (after_seconds event.occurred_at n)) (timestamp event.occurred_at)
              ≡ false)
          × (ltb (timedelta max_task_lease_seconds)
                (timestamp (after_seconds event.occurred_at n) - timestamp event.occurred_at)
              ≡ false) =
        ((text_beq_iff event.occurred_at event.occurred_at).1 refl, ground arith, ground arith) in
      rw timed.0 (
        rw timed.1 (
          rw timed.2 (
            rw looked (
              rw (source_beq_refl (source_of m)) (
                update_at-accepts state.items items s.item_id
                  (claim_item worker_claimed m (taken m drawn s)) j index read changed)))))

-- The items from position `j` on stand in the list as they stand in the state.
abbrev pub Untouched : List StateItem → ℕ → List StateItem → Type 0
Untouched suffix j items =
    (i : ℕ) (s : StateItem) → get_elem? suffix i ≡ some s → get_elem? items (i + j) ≡ some s

Untouched-rest :
    (x : StateItem) (suffix : List StateItem) (j : ℕ) (items : List StateItem)
    → Untouched (x ∷ suffix) j items
    → Untouched suffix (suc j) items
Untouched-rest x suffix j items u i s e =
    subst (λ k. get_elem? items k ≡ some s) (omega arith) (u (suc i) s e)

Untouched-set :
    (x x' : StateItem) (suffix : List StateItem) (j : ℕ) (items : List StateItem)
    → Untouched (x ∷ suffix) j items
    → Untouched suffix (suc j) (set items j x')
Untouched-set x x' suffix j items u i s e =
    elim (get_elem?-set items j (i + suc j) x' (Untouched-rest x suffix j items u i s e)) [
      | inl (same, _) ↦ absurd (omega (arith, same))
      | inr kept ↦ kept
    ]

module _ (token_sha256 : UuidString → UuidString → Sha256) (uuid : ℕ → UuidString)
    (manifest : BatchManifest) (state : BatchState) (event : BatchEvent)
    (worker_id : NonEmptyString) (n : ℕ) (fits : check_lease_seconds false n ≡ ok tt)
    (distinct_ids : reject_duplicate_identities manifest ≡ true)
    (same : Paired SameId manifest.items state.items) where
  abbrev assigned : ℕ → List StateItem → Result (List ClaimAssignment)
  assigned =
      assign token_sha256 uuid manifest.items worker_id event.occurred_at
        (after_seconds event.occurred_at n)

  -- What is known of an item that is taken: the reducer finds it, and its assignment fits.
  taken_found :
      (j : ℕ) (s : StateItem) {m : ManifestItem}
      → get_elem? state.items j ≡ some s
      → manifest_by_id manifest.items s.item_id ≡ some m
      → (state_item_index state.items s.item_id ≡ ok j)
        × (manifest_item manifest.items s.item_id ≡ ok m)
  taken_found j s at_j known =
      let index =
        state_item_index-at state.items j (ids_apart manifest state.items distinct_ids same) at_j in
      (
        index,
        manifest_item-manifest_by_id manifest state.items s.item_id j distinct_ids same index known,
      )

  -- Assignments that the reducer's loop accepts, and how many of them are of PDFs.
  abbrev Accepts : List StateItem → List StateItem → List ClaimAssignment → Type 0
  Accepts items out claims =
      ((items' : List StateItem) × (claim_all state manifest event worker_claimed claims items
          ≡ ok items'))
      × (pdf_assignment_count manifest claims ≡ ok (pdfs_among manifest.items out))
      × (length claims ≡ length out)

  assign-cons :
      (drawn : ℕ) (s : StateItem) (out : List StateItem) {m : ManifestItem}
      {claims : List ClaimAssignment}
      → manifest_by_id manifest.items s.item_id ≡ some m
      → assigned drawn (s ∷ out) ≡ ok claims
      → (rest : List ClaimAssignment) × (assigned (drawn + draws_of s.worker_pending_attempt_id) out
          ≡ ok rest)
        × (taken token_sha256 uuid manifest state event worker_id n m drawn s ∷ rest ≡ claims)
  unfolding assign
  assign-cons drawn s out {m} known a =
      elim (Result-cases (assigned (drawn + draws_of s.worker_pending_attempt_id) out)) [
        | inl (rest, e) ↦ (rest, e, eq_of_ok (ground arith))
        | inr (_, e) ↦ absurd (ground arith)
      ]

  Accepts-cons :
      (m : ManifestItem) (drawn j : ℕ) (s : StateItem) (items out : List StateItem)
      (rest : List ClaimAssignment)
      → is_waiting s ≡ true
      → manifest_by_id manifest.items s.item_id ≡ some m
      → get_elem? state.items j ≡ some s
      → get_elem? items j ≡ some s
      → ((s' : StateItem) → Accepts (set items j s') out rest)
      → Accepts items
          (s ∷ out)
          (taken token_sha256 uuid manifest state event worker_id n m drawn s ∷ rest)
  unfolding claim_all pdf_assignment_count
  Accepts-cons m drawn j s items out rest waits known at_j read later =
      let (index, looked) = taken_found j s at_j known in
      let (s', changed) =
        taken_fits token_sha256 uuid manifest state event worker_id n m drawn s waits in
      let accepted =
        assignment_accepted token_sha256 uuid manifest state event worker_id n m drawn j s s' items
          fits index read looked changed in
      let ((items', rest_ok), pdfs, counted) = later s' in
      ((items', rw accepted rest_ok), rw looked (rw pdfs (rw known refl)), ap suc counted)

  Accepts-none :
      (items : List StateItem) (drawn : ℕ) {out : List StateItem} {claims : List ClaimAssignment}
      → [] ≡ out
      → assigned drawn out ≡ ok claims
      → Accepts items out claims
  unfolding claim_all pdf_assignment_count assign
  Accepts-none items drawn {out} {claims} none_taken a =
      subst (λ o. Accepts items o claims) none_taken
        (subst (Accepts items []) (eq_of_ok (ap (assigned drawn) none_taken ∙ a))
          ((items, refl), refl, refl))

  pub claims_from :
      (count : ℕ) (p : Bool) (suffix : List StateItem) (j : ℕ) (items : List StateItem) (drawn : ℕ)
      {out : List StateItem} {claims : List ClaimAssignment}
      → Untouched suffix j state.items
      → Untouched suffix j items
      → select_items manifest.items count p suffix ≡ ok out
      → assigned drawn out ≡ ok claims
      → Accepts items out claims
  unfolding select_items
  claims_from zero p suffix j items drawn u v h a = Accepts-none items drawn (eq_of_ok h) a
  claims_from (suc count) p [] j items drawn u v h a = Accepts-none items drawn (eq_of_ok h) a
  claims_from (suc count) p (s ∷ suffix) j items drawn {out} {claims} u v h a =
      elim (select_items-Round manifest.items count p s suffix h) [
        | skips e ↦
            claims_from (suc count) p suffix (suc j) items drawn
              (Untouched-rest s suffix j state.items u) (Untouched-rest s suffix j items v) e a
        | takes m rest waits known first e built ↦
            let (claims', a', made) =
              assign-cons drawn s rest known (ap (assigned drawn) built ∙ a) in
            subst (λ o. Accepts items o claims) built
              (subst (Accepts items (s ∷ rest)) made (
                Accepts-cons m drawn j s items rest claims' waits known
                  (subst (λ k. get_elem? state.items k ≡ some s) (omega arith) (u 0 s refl))
                  (subst (λ k. get_elem? items k ≡ some s) (omega arith) (v 0 s refl))
                  (λ s'.
                    claims_from count (is_pdf m || p) suffix (suc j) (set items j s')
                      (drawn + draws_of s.worker_pending_attempt_id)
                      (Untouched-rest s suffix j state.items u)
                      (Untouched-set s s' suffix j items v) e a')))
      ]
