-- ===== src/Recovery/Attempts.antt =====
-- What `recover_run` of v2_run.py reads from the journal about a local attempt whose side effects are
-- not known: `blocked_uncertain_identity` and `attempt_was_coordination_uncertain`.
use paperread.Prelude.{
  Bool, true, false, not, ◌&&◌, ◌||◌, Option, none, some, List, [], ◌∷◌, Result, RuntimeError, ok,
  ◌>>=◌, ◌>>◌, or_raise, raise_if, ltb, leb, is_some, is_none, ◌==◌, ◌!=◌, nat_eq, string_eq,
  option_eq, if◌then◌else◌,
}
use paperread.Contracts.Scalars.{ItemId, UuidString, Rfc3339Utc, rfc3339_eq, timestamp}
use paperread.Contracts.Status.{Lane, worker, local_prepare}
use paperread.Contracts.State.{LeaseState, StateItem}
use paperread.Contracts.Events.{
  LeaseIdentity, ClaimAssignment, ClaimedData, ClaimKind, worker_claimed, local_prepare_claimed,
  LeaseMutationData, MutationKind, renewed, ResumedLocalPrepareLease, EventData, BatchEvent,
}
use paperread.Reducer.Base.{corrupt_at}
use paperread.Reducer.Claim.{coordination_uncertain}

-- The identity in a claim, a renewal, a resumption or a finish is that of the attempt.
abbrev pub same_identity : LeaseIdentity → LeaseIdentity → Bool
same_identity a b =
    a.actor_id == b.actor_id
    && a.claim_id == b.claim_id
    && a.attempt_number == b.attempt_number
    && a.lease_token_sha256 == b.lease_token_sha256

-- The expiry that the journal gives the attempt so far; there is one just when `saw_claim` holds.
abbrev pub SeenExpiry : Type 0
SeenExpiry = Option Rfc3339Utc

module _ (item_id : ItemId) (attempt : LeaseIdentity) where
  see_assignment : SeenExpiry → ClaimAssignment → Result SeenExpiry
  see_assignment seen a =
      if a.item_id != item_id || a.attempt_id != attempt.attempt_id
      then ok seen
      else raise_if (is_some seen || not (same_identity a.identity attempt))
          (corrupt_at "coordination-uncertain claim identity is inconsistent: " item_id)
        >> ok (some a.expires_at)

  see_assignments : SeenExpiry → List ClaimAssignment → Result SeenExpiry
  see_assignments seen [] = ok seen
  see_assignments seen (a ∷ rest) = do seen' ← see_assignment seen a; see_assignments seen' rest

  see_claim : ClaimKind → SeenExpiry → ClaimedData → Result SeenExpiry
  see_claim worker_claimed seen d = ok seen
  see_claim local_prepare_claimed seen d = see_assignments seen d.assignments

  is_renewal : Lane → MutationKind → Bool
  is_renewal local_prepare renewed = true
  is_renewal _ _ = false

  renewal_error : RuntimeError
  renewal_error = corrupt_at "coordination-uncertain renewal identity is inconsistent: " item_id

  renew_seen : BatchEvent → SeenExpiry → LeaseMutationData → Result SeenExpiry
  unfolding renewal_error
  renew_seen event seen d = do
    previous ← or_raise seen renewal_error
    expires ← or_raise d.expires_at renewal_error
    raise_if (not (same_identity d.identity attempt)) renewal_error
    raise_if
        (d.issued_at != some event.occurred_at
          || leb (timestamp previous) (timestamp event.occurred_at)
          || leb (timestamp expires) (timestamp previous))
        (corrupt_at "coordination-uncertain renewal timing is inconsistent: " item_id)
    ok (some expires)

  see_renewal : BatchEvent → SeenExpiry → LeaseMutationData → Result SeenExpiry
  unfolding is_renewal renew_seen
  see_renewal event seen d =
      if is_renewal d.lane d.kind && d.item_id == item_id && d.attempt_id == attempt.attempt_id
      then renew_seen event seen d
      else ok seen

  resumption_error : RuntimeError
  resumption_error =
      corrupt_at "coordination-uncertain recovery identity or timing is inconsistent: " item_id

  resume_seen : BatchEvent → SeenExpiry → ResumedLocalPrepareLease → Result SeenExpiry
  unfolding resumption_error
  resume_seen event seen r = do
    previous ← or_raise seen resumption_error
    raise_if
        (not (same_identity r.identity attempt)
          || r.previous_expires_at != previous
          || r.issued_at != event.occurred_at
          || ltb (timestamp event.occurred_at) (timestamp r.previous_expires_at)
          || leb (timestamp r.expires_at) (timestamp r.issued_at))
        resumption_error
    ok (some r.expires_at)

  see_resumption : BatchEvent → SeenExpiry → ResumedLocalPrepareLease → Result SeenExpiry
  unfolding resume_seen
  see_resumption event seen r =
      if r.item_id != item_id || r.attempt_id != attempt.attempt_id
      then ok seen
      else resume_seen event seen r

  see_resumptions : BatchEvent → SeenExpiry → List ResumedLocalPrepareLease → Result SeenExpiry
  see_resumptions event seen [] = ok seen
  see_resumptions event seen (r ∷ rest) = do
    seen' ← see_resumption event seen r
    see_resumptions event seen' rest

  see_data : BatchEvent → SeenExpiry → EventData → Result SeenExpiry
  see_data event seen (EventData.claimed d) = see_claim d.kind seen d
  see_data event seen (EventData.lease_mutation d) = see_renewal event seen d
  see_data event seen (EventData.run_recovered d) =
      see_resumptions event seen d.resumed_local_prepare_leases
  see_data event seen _ = ok seen

  -- The loop over the events.
  unfoldable pub see_events : SeenExpiry → List BatchEvent → Result SeenExpiry
  unfolding see_data see_claim see_assignments see_assignment see_renewal see_resumptions
      see_resumption
  see_events seen [] = ok seen
  see_events seen (event ∷ events) = do
    seen' ← see_data event seen event.payload
    see_events seen' events

lacks_identity : ItemId → RuntimeError
lacks_identity = corrupt_at "coordination-uncertain item lacks its durable attempt identity: "

-- The last attempt of an item, with the expiry that the state has for it.
unfoldable pub last_attempt : StateItem → Result (LeaseIdentity × Rfc3339Utc)
unfolding lacks_identity
last_attempt item = do
  actor ← or_raise item.local_prepare_last_actor_id (lacks_identity item.item_id)
  claim ← or_raise item.local_prepare_last_claim_id (lacks_identity item.item_id)
  attempt ← or_raise item.local_prepare_last_attempt_id (lacks_identity item.item_id)
  token ← or_raise item.local_prepare_last_lease_token_sha256 (lacks_identity item.item_id)
  expires ← or_raise item.local_prepare_last_expires_at (lacks_identity item.item_id)
  raise_if (ltb item.local_prepare_attempt_count 1) (lacks_identity item.item_id)
  ok (
    record {
      actor_id = actor;
      claim_id = claim;
      attempt_id = attempt;
      attempt_number = item.local_prepare_attempt_count;
      lease_token_sha256 = token;
    },
    expires,
  )

abbrev binds_coordinator : StateItem → Bool
binds_coordinator item =
    is_some item.local_prepare_coordination_request_id
    && is_some item.local_prepare_coordination_fingerprint
    && is_some item.local_prepare_coordination_device
    && is_some item.local_prepare_coordination_inode

-- The argument `has_side_effects` is `local_prepare_attempt_has_execution_side_effects` at the view,
-- which reads the files of an attempt.
module _ (has_side_effects : ItemId → UuidString → UuidString → Result Bool) where
  uncertain_identity : List BatchEvent → StateItem → Result (LeaseIdentity × Rfc3339Utc)
  uncertain_identity events item = do
    found ← last_attempt item
    raise_if (not (binds_coordinator item)) (
        corrupt_at "coordination-uncertain item lacks its exact coordinator binding: " item.item_id)
    executed ← has_side_effects item.item_id (found.0).claim_id (found.0).attempt_id
    raise_if (not executed)
        (corrupt_at "coordination-uncertain item has no durable execution evidence: " item.item_id)
    seen ← see_events item.item_id found.0 none events
    previous ←
        or_raise seen (
          corrupt_at "coordination-uncertain item has no authoritative claim expiry: " item.item_id)
    raise_if (previous != found.1)
        (corrupt_at "coordination-uncertain state expiry differs from journal: " item.item_id)
    ok (found.0, previous)

  unfoldable pub blocked_uncertain_identity :
      List BatchEvent → StateItem → Result (Option (LeaseIdentity × Rfc3339Utc))
  unfolding uncertain_identity
  blocked_uncertain_identity events item =
      if coordination_uncertain item && is_none item.local_prepare_lease
      then (uncertain_identity events item >>= λ found. ok (some found))
      else ok none

is_uncertain_finish : ItemId → LeaseState → EventData → Option LeaseIdentity
is_uncertain_finish item_id lease (EventData.finished d) =
    if is_local d.lane
      && d.item_id == item_id
      && d.attempt_id == lease.attempt_id
      && d.failure_code == some "coordination_uncertain"
    then some d.identity
    else none
  where
    is_local : Lane → Bool
    is_local worker = false
    is_local local_prepare = true
is_uncertain_finish item_id lease _ = none

-- The identity that a lease has.
abbrev pub identity_of : LeaseState → LeaseIdentity
identity_of lease = record {
  actor_id = lease.actor_id;
  claim_id = lease.claim_id;
  attempt_id = lease.attempt_id;
  attempt_number = lease.attempt_number;
  lease_token_sha256 = lease.lease_token_sha256;
}

-- `attempt_was_coordination_uncertain`, for the lease of the item
unfoldable pub attempt_was_coordination_uncertain :
    ItemId → LeaseState → List BatchEvent → Result Bool
unfolding is_uncertain_finish
attempt_was_coordination_uncertain item_id lease [] = ok false
attempt_was_coordination_uncertain item_id lease (event ∷ events) =
    elim (is_uncertain_finish item_id lease event.payload) [
      | none ↦ attempt_was_coordination_uncertain item_id lease events
      | some ident ↦
          raise_if (not (same_identity ident (identity_of lease)))
            (corrupt_at "coordination-uncertain finish identity is inconsistent: " item_id)
          >> ok true
    ]
