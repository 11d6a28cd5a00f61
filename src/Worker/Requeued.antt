-- ===== src/Worker/Requeued.antt =====
-- What the reducer makes of the releases and retries that v2_worker.py proposes: the item is queued
-- again.
use paperread.Prelude.{
  ℕ, ◌+◌, Bool, true, false, not, ◌||◌, ◌≡◌, refl, sym, ◌∙◌, ap, none, some, ok, arith, >>=-eq-ok,
  eq_of_ok, past_guard, or_raise, or_raise-eq-ok, leb, is_some, nat_eq, string_eq, ◌==◌, option_eq,
}
use text.Mathlib.TextEquality.{eq_iff}
use paperread.Contracts.Scalars.{UuidString, NonEmptyString, ItemId, timestamp}
use paperread.Contracts.Status.{WorkerStatus, worker}
use paperread.Contracts.State.{LeaseState, StateItem, BatchState}
use paperread.Contracts.Lanes.{is_failed}
use paperread.Contracts.Events.{BatchEvent, LeaseMutationData, RetriedData, released}
use paperread.Reducer.Leases.{same_lease, mutate_item, mutate_lease, end_lease}
use paperread.Reducer.Finish.{retry_item}
use paperread.Worker.{LeaseRequest, named_lease, active_worker_lease, find_item}
use paperread.Worker.Accepted.{active_worker_lease-eq-ok}
use paperread.Worker.Mutations.{propose_release, propose_retry}

module _ (event : BatchEvent) (q : LeaseRequest) (s : StateItem) (lease : LeaseState) where
  abbrev release : LeaseMutationData
  release = record {
    lane = worker;
    kind = released;
    item_id = q.item_id;
    identity = named_lease q lease;
    issued_at = none;
    expires_at = none;
  }

  release_fits :
      leb (timestamp lease.expires_at) (timestamp event.occurred_at) ≡ false
      → s.worker_lease ≡ some lease
      → same_lease (some lease) (named_lease q lease) ≡ true
      → mutate_item event release s
        ≡ ok (record s { worker_lease = none; worker_status = WorkerStatus.queued })
  unfolding mutate_item mutate_lease end_lease
  release_fits lives held named = rw held (rw named (rw lives refl))

-- The release that is proposed, the change of the reducer accepts for the item at the time of the
-- proposal. The item is queued again, without a lease.
pub proposed_release_accepted :
    (token_fits : UuidString → UuidString → Bool) (state : BatchState) (q : LeaseRequest)
    (event : BatchEvent) (s : StateItem) {d : LeaseMutationData}
    → propose_release token_fits state q event.occurred_at ≡ ok d
    → find_item state.items q.item_id ≡ ok s
    → (s' : StateItem) × (mutate_item event d s ≡ ok s')
      × (s'.worker_status ≡ WorkerStatus.queued)
      × (s'.worker_lease ≡ none)
unfolding propose_release
proposed_release_accepted token_fits state q event s h found =
    let (s1, found1, h1) = >>=-eq-ok (find_item state.items q.item_id) _ h in
    let same : s1 ≡ s = eq_of_ok (sym found1 ∙ found) in
    let (lease, active, h2) =
      >>=-eq-ok (active_worker_lease token_fits q event.occurred_at s1) _ h1 in
    let (held, named, lives) =
      active_worker_lease-eq-ok token_fits q event.occurred_at s (rw (← same) active) in
    (
      record s { worker_lease = none; worker_status = WorkerStatus.queued },
      ap (λ t. mutate_item event t s) (sym (eq_of_ok h2))
          ∙ release_fits event q s lease lives held named,
      refl,
      refl,
    )

module _ (next_attempt_id : UuidString) (item_id : ItemId) (s : StateItem) (actor : NonEmptyString)
    (claim attempt token : ℕ) where
  abbrev retry : RetriedData
  retry = record {
    item_id = item_id;
    previous_actor_id = actor;
    previous_claim_id = claim;
    previous_attempt_id = attempt;
    previous_attempt_number = s.worker_attempt_count;
    previous_lease_token_sha256 = token;
    next_attempt_id = next_attempt_id;
    next_attempt_number = s.worker_attempt_count + 1;
  }

  retry_fits :
      (not (is_failed s.worker_status) || is_some s.worker_lease) ≡ false
      → s.worker_last_actor_id ≡ some actor
      → s.worker_last_claim_id ≡ some claim
      → s.worker_last_attempt_id ≡ some attempt
      → s.worker_last_lease_token_sha256 ≡ some token
      → (s.worker_last_attempt_id == some next_attempt_id) ≡ false
      → retry_item retry s
        ≡ ok (record s {
          worker_status = WorkerStatus.queued;
          worker_result_sha256 = none;
          worker_pending_attempt_id = some next_attempt_id;
          worker_failure_code = none;
          worker_failure_message = none;
        })
  unfolding retry_item
  retry_fits idle a c t k fresh = ground (arith, (eq_iff actor actor).1 refl)

-- The retry that is proposed, the change of the reducer accepts for the item, if the id for the next
-- attempt is not the last attempt's. The item is queued again, and its next claim must take that id.
pub proposed_retry_accepted :
    (next_attempt_id : UuidString) (state : BatchState) (item_id : ItemId) (s : StateItem)
    {d : RetriedData}
    → propose_retry next_attempt_id state item_id ≡ ok d
    → find_item state.items item_id ≡ ok s
    → (s.worker_last_attempt_id == some next_attempt_id) ≡ false
    → (s' : StateItem) × (retry_item d s ≡ ok s')
      × (s'.worker_status ≡ WorkerStatus.queued)
      × (s'.worker_pending_attempt_id ≡ some next_attempt_id)
unfolding propose_retry
proposed_retry_accepted next_attempt_id state item_id s {d} h found fresh =
    let (s1, found1, h1) = >>=-eq-ok (find_item state.items item_id) _ h in
    let same : s1 ≡ s = eq_of_ok (sym found1 ∙ found) in
    let (idle, h2) = past_guard _ _ _ h1 in
    let (actor, a, h3) = >>=-eq-ok (or_raise s1.worker_last_actor_id _) _ h2 in
    let (claim, c, h4) = >>=-eq-ok (or_raise s1.worker_last_claim_id _) _ h3 in
    let (attempt, t, h5) = >>=-eq-ok (or_raise s1.worker_last_attempt_id _) _ h4 in
    let (token, k, h6) = >>=-eq-ok (or_raise s1.worker_last_lease_token_sha256 _) _ h5 in
    let fits =
      retry_fits next_attempt_id item_id s1 actor claim attempt token idle
        (or_raise-eq-ok s1.worker_last_actor_id _ a) (or_raise-eq-ok s1.worker_last_claim_id _ c)
        (or_raise-eq-ok s1.worker_last_attempt_id _ t)
        (or_raise-eq-ok s1.worker_last_lease_token_sha256 _ k)
        (ap (λ u. u.worker_last_attempt_id == some next_attempt_id) same ∙ fresh) in
    (
      _,
      ap (λ u. retry_item u s) (sym (eq_of_ok h6)) ∙ ap (retry_item _) (sym same) ∙ fits,
      refl,
      refl,
    )
