-- ===== src/Worker/Extended.antt =====
-- What the reducer makes of the renewals, releases and retries that v2_worker.py proposes.
use paperread.Prelude.{
  ℕ, ◌+◌, ◌≤◌, ◌<◌, Bool, true, false, ◌≡◌, refl, sym, ◌∙◌, ap, some, Result, ok, >>=-eq-ok,
  eq_of_ok, eq_of_some, past_guard, leb, arith, nat_eq,
}
use paperread.Contracts.Scalars.{
  UuidString, Rfc3339Utc, timestamp, timedelta, rfc3339_eq, text_beq_iff,
}
use paperread.Contracts.Manifest.{BatchManifest, ManifestItem}
use paperread.Contracts.Status.{worker}
use paperread.Contracts.State.{LeaseState, StateItem, BatchState}
use paperread.Contracts.Events.{BatchEvent, LeaseMutationData, renewed}
use paperread.Reducer.Leases.{same_lease, renew_lane, mutate_item, mutate_lease, renew_lease}
use paperread.Worker.{LeaseRequest, named_lease, active_worker_lease, find_item}
use paperread.Worker.Accepted.{active_worker_lease-eq-ok}
use paperread.Worker.Mutations.{
  after_seconds, next_entry, check_source, check_lease_seconds, propose_renew,
}

-- The instant that is written is the one that is meant.
pub timestamp-after_seconds :
    (time : Rfc3339Utc) (n : ℕ) → timestamp (after_seconds time n) ≡ timestamp time + timedelta n
timestamp-after_seconds time n = ground arith

propose_renew-eq-ok :
    (token_fits : UuidString → UuidString → Bool) (validate : ManifestItem → Result (Unit {0}))
    (manifest : BatchManifest) (state : BatchState) (q : LeaseRequest) (n : ℕ) (now : Rfc3339Utc)
    (s : StateItem) {d : LeaseMutationData}
    → propose_renew token_fits validate manifest state q n now ≡ ok d
    → find_item state.items q.item_id ≡ ok s
    → (lease : LeaseState) × (active_worker_lease token_fits q now s ≡ ok lease)
      × (leb (timestamp (after_seconds now n)) (timestamp lease.expires_at) ≡ false)
      × (record {
        lane = worker;
        kind = renewed;
        item_id = q.item_id;
        identity = named_lease q lease;
        issued_at = some now;
        expires_at = some (after_seconds now n);
      }
          ≡ d)
unfolding propose_renew
propose_renew-eq-ok token_fits validate manifest state q n now s h found =
    let (s1, found1, h1) = >>=-eq-ok (find_item state.items q.item_id) _ h in
    let (lease, active, h2) = >>=-eq-ok (active_worker_lease token_fits q now s1) _ h1 in
    let (m, _, h3) = >>=-eq-ok (next_entry manifest.items q.item_id) _ h2 in
    let (_, _, h4) = >>=-eq-ok (check_source validate m) _ h3 in
    let (extends, h5) = past_guard _ _ _ h4 in
    let same : s1 ≡ s = eq_of_ok (sym found1 ∙ found) in
    (lease, rw (← same) active, extends, eq_of_ok h5)

module _ (event : BatchEvent) (q : LeaseRequest) (n : ℕ) (s : StateItem) (lease : LeaseState) where
  abbrev renewal : LeaseMutationData
  renewal = record {
    lane = worker;
    kind = renewed;
    item_id = q.item_id;
    identity = named_lease q lease;
    issued_at = some event.occurred_at;
    expires_at = some (after_seconds event.occurred_at n);
  }

  abbrev renewed_lease : LeaseState
  renewed_lease = record lease {
    issued_at = event.occurred_at;
    expires_at = after_seconds event.occurred_at n;
  }

  module _ (fits : check_lease_seconds false n ≡ ok tt)
      (lives : leb (timestamp lease.expires_at) (timestamp event.occurred_at) ≡ false)
      (extends : leb (timestamp (after_seconds event.occurred_at n)) (timestamp lease.expires_at)
        ≡ false)
      (issued : timestamp lease.issued_at ≤ timestamp event.occurred_at) where
    renew_fits :
        renew_lease event renewal s lease
        ≡ ok (renew_lane worker s renewed_lease (after_seconds event.occurred_at n))
    unfolding renew_lease check_lease_seconds
    renew_fits = ground (
      arith,
      (text_beq_iff event.occurred_at event.occurred_at).1 refl,
      timestamp-after_seconds event.occurred_at n,
    )

    renewal_fits :
        s.worker_lease ≡ some lease
        → same_lease (some lease) (named_lease q lease) ≡ true
        → mutate_item event renewal s
          ≡ ok (renew_lane worker s renewed_lease (after_seconds event.occurred_at n))
    unfolding mutate_item mutate_lease renew_lease
    renewal_fits held named = rw held (rw named renew_fits)

-- The renewal that is proposed, with a number of seconds that passes the test of the input, the change
-- of the reducer accepts for the item at the time of the proposal, if the lease was not issued later.
-- The item's lease then ends that many seconds after the event.
pub proposed_renew_accepted :
    (token_fits : UuidString → UuidString → Bool) (validate : ManifestItem → Result (Unit {0}))
    (manifest : BatchManifest) (state : BatchState) (q : LeaseRequest) (n : ℕ) (event : BatchEvent)
    (s : StateItem) {d : LeaseMutationData} {lease : LeaseState}
    → check_lease_seconds false n ≡ ok tt
    → propose_renew token_fits validate manifest state q n event.occurred_at ≡ ok d
    → find_item state.items q.item_id ≡ ok s
    → s.worker_lease ≡ some lease
    → timestamp lease.issued_at ≤ timestamp event.occurred_at
    → (s' : StateItem) × (lease' : LeaseState) × (mutate_item event d s ≡ ok s')
      × (s'.worker_lease ≡ some lease')
      × (timestamp lease.expires_at < timestamp lease'.expires_at)
      × (timestamp lease'.expires_at ≡ timestamp event.occurred_at + timedelta n)
proposed_renew_accepted token_fits validate manifest state q n event s {d} {lease} fits h found held
      issued =
    let (l, active, extends, built) =
      propose_renew-eq-ok token_fits validate manifest state q n event.occurred_at s h found in
    let (held', named, lives) = active_worker_lease-eq-ok token_fits q event.occurred_at s active in
    let same : l ≡ lease = eq_of_some (sym held' ∙ held) in
    let lives' =
      ap (λ t. leb (timestamp t.expires_at) (timestamp event.occurred_at)) (sym same) ∙ lives in
    let extends' =
      ap (λ t. leb (timestamp (after_seconds event.occurred_at n)) (timestamp t.expires_at))
        (sym same)
      ∙ extends in
    let named' = ap (λ t. same_lease (some t) (named_lease q t)) (sym same) ∙ named in
    (
      renew_lane worker s (renewed_lease event q n s lease) (after_seconds event.occurred_at n),
      renewed_lease event q n s lease,
      ap (λ t. mutate_item event t s) (sym built)
          ∙ ap (λ t. mutate_item event (renewal event q n s t) s) same
          ∙ renewal_fits event q n s lease fits lives' extends' issued held named',
      refl,
      ground (arith, extends'),
      timestamp-after_seconds event.occurred_at n,
    )
