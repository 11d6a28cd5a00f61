-- ===== src/Worker/Claimed.antt =====
-- What the reducer makes of the claims that `worker.claim` of v2_worker.py proposes.
use paperread.Prelude.{
  is_empty, ℕ, ◌+◌, ◌-◌, ◌≤◌, true, false, ◌≡◌, refl, sym, ◌∙◌, ap, some, List, [], ◌∷◌, get_elem?,
  Result, ok, length, arith, eq_of_ok, subst, ltb, >>=-eq-ok, past_guard, nat_eq,
}
use paperread.Contracts.Scalars.{UuidString, Sha256, NonEmptyString, Rfc3339Utc}
use paperread.Contracts.Manifest.{BatchManifest, ManifestItem, reject_duplicate_identities}
use paperread.Contracts.State.{StateItem, BatchState}
use paperread.Contracts.Events.{BatchEvent, ClaimAssignment, ClaimedData, worker_claimed}
use paperread.Reducer.Base.{with_items}
use paperread.Reducer.Claim.{claim_all, apply_claim, active_claims, pdf_assignment_count}
use paperread.Reducer.Apply.{replay}
use paperread.Batch.Replayed.{replay-Good}
use paperread.Worker.Mutations.{after_seconds, check_lease_seconds}
use paperread.Worker.Claims.{
  min, capacity, claimable_worker_items, check_sources, assign, propose_claim,
}
use paperread.Worker.Taken.{pdfs_among, Taken, select_items-Taken}
use paperread.Worker.Loop.{Untouched, claims_from}

propose_claim-eq-ok :
    (token_sha256 : UuidString → UuidString → Sha256) (uuid : ℕ → UuidString)
    (validate : ManifestItem → Result (Unit {0})) (manifest : BatchManifest) (state : BatchState)
    (worker_id : NonEmptyString) (limit n : ℕ) (now : Rfc3339Utc) {d : ClaimedData}
    → propose_claim token_sha256 uuid validate manifest state worker_id limit n now ≡ ok d
    → (out : List StateItem) × (claims : List ClaimAssignment) × (claimable_worker_items manifest
          state
          (min limit (capacity manifest state))
        ≡ ok out)
      × (is_empty out ≡ false)
      × (assign token_sha256 uuid manifest.items worker_id now (after_seconds now n) 0 out
          ≡ ok claims)
      × (record { kind = worker_claimed; assignments = claims } ≡ d)
unfolding propose_claim
propose_claim-eq-ok token_sha256 uuid validate manifest state worker_id limit n now h =
    let (out, taken_out, h1) =
      >>=-eq-ok (claimable_worker_items manifest state (min limit (capacity manifest state))) _ h in
    let (some_taken, h2) = past_guard (is_empty out) _ _ h1 in
    let (_, _, h3) = >>=-eq-ok (check_sources validate manifest.items out) _ h2 in
    let (claims, made, h4) =
      >>=-eq-ok (assign token_sha256 uuid manifest.items worker_id now (after_seconds now n) 0 out)
        _ h3 in
    (out, claims, taken_out, some_taken, made, eq_of_ok h4)

not_empty : {A : Type 0} (xs : List A) → is_empty xs ≡ false → 1 ≤ length xs
not_empty [] h = cc
not_empty (x ∷ xs) h = omega arith

within : (n p : ℕ) → n + p ≤ 1 → n ≤ 1
within n p h = omega arith

-- What fits into the capacity that is left fits beside the active claims.
fits_beside :
    (active concurrency limit count : ℕ)
    → 1 ≤ count
    → count ≤ min limit (concurrency - active)
    → (active + count ≤ concurrency) × (count ≤ limit)
fits_beside active concurrency limit count one few = ground arith

-- The tests that the reducer makes of a claim as a whole.
apply_claim-accepts :
    (manifest : BatchManifest) (state : BatchState) (event : BatchEvent)
    (claims : List ClaimAssignment) (pdfs : ℕ) (items' : List StateItem)
    → pdf_assignment_count manifest claims ≡ ok pdfs
    → pdfs ≤ 1
    → active_claims state.items + length claims ≤ manifest.default_concurrency
    → claim_all state manifest event worker_claimed claims state.items ≡ ok items'
    → apply_claim state manifest event (record { kind = worker_claimed; assignments = claims })
      ≡ with_items state items' event
unfolding apply_claim
apply_claim-accepts manifest state event claims pdfs items' counted one room accepted =
    let few : ltb 1 pdfs ≡ false = ground arith in
    let fit : ltb manifest.default_concurrency (active_claims state.items + length claims) ≡ false =
      ground arith in
    rw counted (rw few (rw fit (rw accepted refl)))

-- The claim that is proposed at the time of an event, for a replayed state, a manifest of distinct ids
-- and a number of seconds that passes the test of the input, passes the reducer's tests of a claim,
-- for each assignment and for all together: the reducer's answer is that of the last validation of
-- the new snapshot. It takes one item or more, at most as many as were requested.
pub proposed_claim_accepted :
    (derive : UuidString → UuidString) (token_sha256 : UuidString → UuidString → Sha256)
    (uuid : ℕ → UuidString) (validate : ManifestItem → Result (Unit {0})) (manifest : BatchManifest)
    (events : List BatchEvent) (state : BatchState) (event : BatchEvent)
    (worker_id : NonEmptyString) (limit n : ℕ) {d : ClaimedData}
    → replay derive manifest events ≡ ok state
    → reject_duplicate_identities manifest ≡ true
    → check_lease_seconds false n ≡ ok tt
    → propose_claim token_sha256 uuid validate manifest state worker_id limit n event.occurred_at
      ≡ ok d
    → (items' : List StateItem) × (apply_claim state manifest event d
        ≡ with_items state items' event)
      × (1 ≤ length d.assignments)
      × (length d.assignments ≤ limit)
proposed_claim_accepted derive token_sha256 uuid validate manifest events state event worker_id
      limit n {d} replayed distinct_ids fits h =
    let same = (replay-Good derive manifest events replayed).same in
    let (out, claims, taken_out, some_taken, made, built) =
      propose_claim-eq-ok token_sha256 uuid validate manifest state worker_id limit n
        event.occurred_at h in
    let t : Taken manifest.items (min limit (capacity manifest state)) 0 state.items out =
      select_items-Taken manifest.items (min limit (capacity manifest state)) false state.items
        taken_out in
    let from_start : Untouched state.items 0 state.items =
      λ i s e. subst (λ k. get_elem? state.items k ≡ some s) (omega arith) e in
    let ((items', accepted), pdfs, counted) =
      claims_from token_sha256 uuid manifest state event worker_id n fits distinct_ids same
        (min limit (capacity manifest state)) false state.items 0 state.items 0 {out = out}
        {claims = claims} from_start from_start taken_out made in
    let one_pdf = within (pdfs_among manifest.items out) 0 t.one_pdf in
    let nonempty = subst (λ k. 1 ≤ k) (sym counted) (not_empty out some_taken) in
    let (room, few) =
      fits_beside (active_claims state.items) manifest.default_concurrency limit (length claims)
        nonempty (subst (λ k. k ≤ min limit (capacity manifest state)) (sym counted) t.bounded) in
    (
      items',
      ap (apply_claim state manifest event) (sym built)
          ∙ apply_claim-accepts manifest state event claims (pdfs_among manifest.items out) items'
              pdfs one_pdf room accepted,
      subst (λ x. 1 ≤ length x.assignments) built nonempty,
      subst (λ x. length x.assignments ≤ limit) built few,
    )
