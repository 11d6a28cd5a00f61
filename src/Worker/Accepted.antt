-- ===== src/Worker/Accepted.antt =====
-- What the reducer makes of the events that `worker.finish` of v2_worker.py proposes.
use paperread.Prelude.{
  Bool, true, false, ◌≡◌, refl, sym, Option, none, some, Result, ok, is_some, is_none, arith, leb,
  >>=-eq-ok, eq_of_ok, ◌∙◌, subst, All, List, [], ◌∷◌, err, inl, inr, Bool-cases, differ, nat_eq,
  string_eq,
}
use paperread.Contracts.Scalars.{UuidString, Rfc3339Utc, NonEmptyString, timestamp}
use paperread.Contracts.Manifest.{ManifestItem, BatchManifest, WritePolicy, is_pdf}
use paperread.Contracts.Status.{WorkerStatus}
use paperread.Contracts.State.{LeaseState, StateItem, BatchState}
use paperread.Contracts.Events.{BatchEvent, FinishedData}
use paperread.Contracts.Results.{
  WorkerResult, WorkerOutcome, worker_succeeded, worker_failed, worker_blocked, validate_outcome,
}
use paperread.Reducer.Leases.{same_lease}
use paperread.Reducer.Finish.{
  finish_item, finish_lane, check_outcome, worker_update, settle_local, open_write,
}
use paperread.Worker.{
  FinishRequest, LeaseRequest, named_lease, finished_data, active_worker_lease, check_binding,
  find_item, check_unique_key, propose_finish,
}

-- The worker's status after a result.
abbrev pub worker_status_of : WorkerOutcome → WorkerStatus
worker_status_of worker_succeeded = WorkerStatus.succeeded
worker_status_of worker_failed = WorkerStatus.failed
worker_status_of worker_blocked = WorkerStatus.blocked

-- The key that the artifacts of a result resolve to: a success has one just when it is of a Zotero
-- item, a failure has none.
abbrev pub key_fits : ManifestItem → WorkerOutcome → Option NonEmptyString → Bool
key_fits m worker_succeeded key = differ (is_some key) (is_pdf m)
key_fits m _ key = is_none key

-- the key that the check of the artifacts gives, if it passes
abbrev pub resolved : Result (Option NonEmptyString) → List (Option NonEmptyString)
resolved (err e) = []
resolved (ok key) = key ∷ []

-- The lease that is found active is the item's, is named by the request, and has not ended.
pub active_worker_lease-eq-ok :
    (token_fits : UuidString → UuidString → Bool) (q : LeaseRequest) (now : Rfc3339Utc)
    (s : StateItem) {lease : LeaseState}
    → active_worker_lease token_fits q now s ≡ ok lease
    → (s.worker_lease ≡ some lease)
      × (same_lease (some lease) (named_lease q lease) ≡ true)
      × (leb (timestamp lease.expires_at) (timestamp now) ≡ false)
unfolding active_worker_lease same_lease
active_worker_lease-eq-ok token_fits q now s h = ground arith

module _ (policy : WritePolicy) (m : ManifestItem) (event : BatchEvent) (q : FinishRequest)
    (s : StateItem) (r : WorkerResult) (key : Option NonEmptyString) (lease : LeaseState) where
  -- An item of which the worker's status is the result's, and the lease is given up.
  abbrev pub Settles : Type 0
  Settles =
      (s' : StateItem) × (finish_item policy (ok m) event (finished_data q lease r key) s ≡ ok s')
      × (s'.worker_status ≡ worker_status_of r.status)
      × (s'.worker_lease ≡ none)

  settles_at :
      (outcome : WorkerOutcome)
      → r.status ≡ outcome
      → validate_outcome r ≡ true
      → key_fits m outcome key ≡ true
      → s.worker_lease ≡ some lease
      → same_lease (some lease) (finished_data q lease r key).identity ≡ true
      → leb (timestamp lease.expires_at) (timestamp event.occurred_at) ≡ false
      → Settles
  unfolding finish_item finish_lane check_outcome validate_outcome
  settles_at worker_failed e v k l i t = (
    worker_update WorkerStatus.failed (finished_data q lease r key) s,
    ground arith,
    rw e refl,
    refl,
  )
  settles_at worker_blocked e v k l i t = (
    worker_update WorkerStatus.blocked (finished_data q lease r key) s,
    ground arith,
    rw e refl,
    refl,
  )
  settles_at worker_succeeded e v k l i t = elim (Bool-cases (is_pdf m)) [
    | inl p ↦ (
      settle_local (worker_update WorkerStatus.succeeded (finished_data q lease r key) s),
      ground arith,
      ground arith,
      ground arith,
    )
    | inr p ↦ (
      open_write policy (worker_update WorkerStatus.succeeded (finished_data q lease r key) s),
      ground arith,
      ground arith,
      ground arith,
    )
  ]

propose_finish-eq-ok :
    (token_fits : UuidString → UuidString → Bool)
    (artifacts : WorkerResult → Result (Option NonEmptyString)) (manifest : BatchManifest)
    (state : BatchState) (q : FinishRequest) (now : Rfc3339Utc) (r : WorkerResult) (s : StateItem)
    {d : FinishedData}
    → propose_finish token_fits artifacts manifest state q now r ≡ ok d
    → find_item state.items q.item_id ≡ ok s
    → (lease : LeaseState) × (key : Option NonEmptyString) × (active_worker_lease token_fits
          q.request now s
        ≡ ok lease)
      × (artifacts r ≡ ok key)
      × (d ≡ finished_data q lease r key)
unfolding propose_finish
propose_finish-eq-ok token_fits artifacts manifest state q now r s h found =
    let (s1, found1, h1) = >>=-eq-ok (find_item state.items q.item_id) _ h in
    let (lease, active, h2) = >>=-eq-ok (active_worker_lease token_fits q.request now s1) _ h1 in
    let (_, _, h3) = >>=-eq-ok (check_binding state.manifest_sha256 q lease r) _ h2 in
    let (key, resolved, h4) = >>=-eq-ok (artifacts r) _ h3 in
    let (_, _, h5) = >>=-eq-ok (check_unique_key manifest state q.item_id key) _ h4 in
    let same : s1 ≡ s = eq_of_ok (sym found1 ∙ found) in
    (lease, key, rw (← same) active, resolved, sym (eq_of_ok h5))

-- What `worker.finish` proposes from a valid result, the change of the reducer accepts for the item
-- at the time of the proposal, provided that the check of the artifacts resolves a key just for the
-- success of a Zotero item. The item's worker then has the result's status and no lease.
pub proposed_finish_accepted :
    (token_fits : UuidString → UuidString → Bool)
    (artifacts : WorkerResult → Result (Option NonEmptyString)) (manifest : BatchManifest)
    (state : BatchState) (q : FinishRequest) (r : WorkerResult) (m : ManifestItem) (s : StateItem)
    (event : BatchEvent) {d : FinishedData}
    → propose_finish token_fits artifacts manifest state q event.occurred_at r ≡ ok d
    → find_item state.items q.item_id ≡ ok s
    → validate_outcome r ≡ true
    → All (λ key. key_fits m r.status key ≡ true) (resolved (artifacts r))
    → (s' : StateItem) × (finish_item manifest.write_policy (ok m) event d s ≡ ok s')
      × (s'.worker_status ≡ worker_status_of r.status)
      × (s'.worker_lease ≡ none)
proposed_finish_accepted token_fits artifacts manifest state q r m s event h found valid fits =
    let (lease, key, active, e, built) =
      propose_finish-eq-ok token_fits artifacts manifest state q event.occurred_at r s h found in
    let (l, i, t) = active_worker_lease-eq-ok token_fits q.request event.occurred_at s active in
    rw built (
      settles_at manifest.write_policy m event q s r key lease r.status refl valid
        (subst (λ x. All (λ key. key_fits m r.status key ≡ true) (resolved x)) e fits).0 l i t)
