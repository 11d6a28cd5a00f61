-- ===== src/Recovery/Propose.antt =====
-- `propose` of `recover_run` in v2_run.py: the event that a recovery becomes. An expired write lease is
-- dealt with first and alone; else all leases that have ended are given up together, and a local attempt
-- that may have had effects is resumed.
use paperread.Prelude.{
  is_empty, nat_eq, ℕ, ◌+◌, ◌-◌, ◌*◌, ◌^◌, Bool, true, false, not, ◌&&◌, Option, none, some, List,
  [], ◌∷◌, Result, ok, err, ◌>>=◌, ◌>>◌, or_raise, raise_if, leb, is_none, ◌==◌, string_eq,
  if◌then◌else◌,
}
use paperread.Contracts.Scalars.{ItemId, UuidString, Sha256, Rfc3339Utc, timestamp}
use paperread.Contracts.Status.{WriteStatus}
use paperread.Contracts.State.{LeaseState, WriteLeaseState, StateItem, BatchState}
use paperread.Contracts.Events.{
  LeaseIdentity, WriteIdentity, RecoveredLease, ResumedLocalPrepareLease, RecoveredUncertainWrite,
  WriteLeaseMutationData, WriteUncertainData, lease_expired, lease_expired_uncertain, EventData,
  BatchEvent,
}
use paperread.Reducer.Base.{corrupt_at}
use paperread.Recovery.Attempts.{
  identity_of, blocked_uncertain_identity, attempt_was_coordination_uncertain,
}

-- `parse_timestamp(expires_at) <= current`
abbrev pub has_ended : Rfc3339Utc → Rfc3339Utc → Bool
has_ended now expires = leb (timestamp expires) (timestamp now)

-- The first item whose write lease has ended, with that lease.
unfoldable pub first_expired_write :
    Rfc3339Utc → List StateItem → Option (StateItem × WriteLeaseState)
first_expired_write now [] = none
first_expired_write now (item ∷ items) = elim item.write_lease [
  | none ↦ first_expired_write now items
  | some lease ↦
      if has_ended now lease.expires_at then some (item, lease) else first_expired_write now items
]

abbrev pub write_identity_of : WriteLeaseState → WriteIdentity
write_identity_of lease = record {
  writer_id = lease.writer_id;
  claim_id = lease.claim_id;
  write_attempt_id = lease.write_attempt_id;
  attempt_number = lease.attempt_number;
  lease_token_sha256 = lease.lease_token_sha256;
  candidate_sha256 = lease.candidate_sha256;
}

-- A lease that was only claimed is given up,
abbrev pub claimed_expiry : StateItem → WriteLeaseState → WriteLeaseMutationData
claimed_expiry item lease = record {
  kind = lease_expired;
  item_id = item.item_id;
  identity = write_identity_of lease;
  issued_at = none;
  expires_at = none;
}

-- and a write that had started is in doubt.
abbrev pub started_expiry : StateItem → WriteLeaseState → Sha256 → WriteUncertainData
started_expiry item lease authorization = record {
  kind = lease_expired_uncertain;
  item_id = item.item_id;
  identity = write_identity_of lease;
  authorization_sha256 = authorization;
  reason = "started write lease expired before a verified outcome was committed";
}

unfoldable pub write_expiry_at : WriteStatus → StateItem → WriteLeaseState → Result EventData
write_expiry_at WriteStatus.claimed item lease =
    ok (EventData.write_lease_mutation (claimed_expiry item lease))
write_expiry_at WriteStatus.started item lease =
    or_raise item.authorization_sha256
      (corrupt_at "started write lacks authorization identity: " item.item_id)
    >>= λ authorization. ok (EventData.write_uncertain (started_expiry item lease authorization))
write_expiry_at _ item lease =
    err (corrupt_at "write lease is attached to an invalid state: " item.item_id)

unfoldable pub write_expiry : StateItem → WriteLeaseState → Result EventData
unfolding write_expiry_at
write_expiry item lease = write_expiry_at item.write_status item lease

abbrev pub recovered : LeaseState → ItemId → RecoveredLease
recovered lease item_id = record {
  item_id = item_id;
  lane = lease.lane;
  identity = identity_of lease;
  expires_at = lease.expires_at;
}

unfoldable pub expired_workers : Rfc3339Utc → List StateItem → List RecoveredLease
expired_workers now [] = []
expired_workers now (item ∷ items) =
    let rest = expired_workers now items in
    elim item.worker_lease [
      | none ↦ rest
      | some lease ↦
          if has_ended now lease.expires_at then recovered lease item.item_id ∷ rest else rest
    ]

abbrev recovered_local_prepare_lease_seconds : ℕ
recovered_local_prepare_lease_seconds = 900

-- The end of a resumed lease, written with six digits.
abbrev pub resumed_expiry : Rfc3339Utc → Rfc3339Utc
resumed_expiry now = record {
  seconds = now.seconds + recovered_local_prepare_lease_seconds;
  digits = 6;
  fraction = now.fraction * 10 ^ (6 - now.digits);
}

abbrev pub resumed : ItemId → LeaseIdentity → Rfc3339Utc → Rfc3339Utc → ResumedLocalPrepareLease
resumed item_id ident previous now = record {
  item_id = item_id;
  identity = ident;
  previous_expires_at = previous;
  issued_at = now;
  expires_at = resumed_expiry now;
}

-- `==` on uncertain writes, of which there may be none
same_target : Option RecoveredUncertainWrite → Option RecoveredUncertainWrite → Bool
same_target none none = true
same_target (some a) (some b) =
    a.item_id == b.item_id
    && a.writer_id == b.writer_id
    && a.claim_id == b.claim_id
    && a.write_attempt_id == b.write_attempt_id
    && a.attempt_number == b.attempt_number
    && a.lease_token_sha256 == b.lease_token_sha256
    && a.candidate_sha256 == b.candidate_sha256
    && a.authorization_id == b.authorization_id
    && a.authorization_path == b.authorization_path
    && a.authorization_sha256 == b.authorization_sha256
    && a.authorization_nonce_sha256 == b.authorization_nonce_sha256
    && a.external_claim_id == b.external_claim_id
    && a.write_started_event_sha256 == b.write_started_event_sha256
same_target _ _ = false

-- The local leases that are given up, and those that are resumed.
pub record LocalRecovery : Type 0 where
  pub local : List RecoveredLease
  pub resumed_local : List ResumedLocalPrepareLease

abbrev pub give_up : RecoveredLease → LocalRecovery → LocalRecovery
give_up r found = record found { local = r ∷ found.local }

abbrev pub resume : ResumedLocalPrepareLease → LocalRecovery → LocalRecovery
resume r found = record found { resumed_local = r ∷ found.resumed_local }

-- The argument is `local_prepare_attempt_has_execution_side_effects` at the view.
module _ (has_side_effects : ItemId → UuidString → UuidString → Result Bool) where
  -- `a or b`, where the second test is made only if the first fails
  pub may_have_effects : List BatchEvent → ItemId → LeaseState → Result Bool
  may_have_effects events item_id lease = do
    executed ← has_side_effects item_id lease.claim_id lease.attempt_id
    if executed then ok true else attempt_was_coordination_uncertain item_id lease events

  unfoldable pub recover_leased :
      List BatchEvent → Rfc3339Utc → ItemId → LeaseState → Result (LocalRecovery → LocalRecovery)
  unfolding may_have_effects
  recover_leased events now item_id lease =
      if has_ended now lease.expires_at
      then (may_have_effects events item_id lease >>= λ effects.
          if effects
          then ok (resume (resumed item_id (identity_of lease) lease.expires_at now))
          else ok (give_up (recovered lease item_id)))
      else ok (λ found. found)

  unfoldable pub recover_unleased :
      Rfc3339Utc → ItemId → Option (LeaseIdentity × Rfc3339Utc) → LocalRecovery → LocalRecovery
  recover_unleased now item_id none found = found
  recover_unleased now item_id (some uncertain) found =
      if has_ended now uncertain.1
      then resume (resumed item_id uncertain.0 uncertain.1 now) found
      else found

  -- One round of the loop over the local leases.
  unfoldable pub recover_local :
      List BatchEvent → Rfc3339Utc → StateItem → Result (LocalRecovery → LocalRecovery)
  unfolding recover_leased recover_unleased
  recover_local events now item = elim item.local_prepare_lease [
    | none ↦ blocked_uncertain_identity has_side_effects events item >>= λ uncertain.
        ok (recover_unleased now item.item_id uncertain)
    | some lease ↦ recover_leased events now item.item_id lease
  ]

  unfoldable pub local_recovery :
      List BatchEvent → Rfc3339Utc → List StateItem → Result LocalRecovery
  unfolding recover_local
  local_recovery events now [] = ok (record { local = []; resumed_local = [] })
  local_recovery events now (item ∷ items) = do
    add ← recover_local events now item
    rest ← local_recovery events now items
    ok (add rest)

  -- The rest of `propose`, where no write lease has ended. `reconciliation` is the uncertain write
  -- that is to be reconciled afterwards, `is_current` tells that the snapshot needs no repair.
  unfoldable pub recover_leases :
      Option RecoveredUncertainWrite
      → Bool
      → List BatchEvent
      → BatchState
      → Rfc3339Utc
      → Result EventData
  recover_leases reconciliation is_current events state now = do
    found ← local_recovery events now state.items
    let workers = expired_workers now state.items
    raise_if
        (is_empty workers
          && is_empty found.local
          && is_empty found.resumed_local
          && is_current
          && is_none reconciliation)
        (record {
          code = "nothing_to_recover";
          message = "run has no expired lease or stale snapshot";
        })
    ok (
        EventData.run_recovered (record {
          expired_worker_leases = workers;
          expired_local_prepare_leases = found.local;
          resumed_local_prepare_leases = found.resumed_local;
          snapshot_repaired = not is_current;
          reconciliation_write = reconciliation;
        }))

  -- `bound` tells that a paper-reader root is given, without which nothing is reconciled. `preflight`
  -- is the uncertain write before the lock was taken, `uncertain` the one that is found under it.
  unfoldable pub propose_recovery :
      Bool
      → Option RecoveredUncertainWrite
      → Result (Option RecoveredUncertainWrite)
      → Bool
      → List BatchEvent
      → BatchState
      → Rfc3339Utc
      → Result EventData
  unfolding same_target
  propose_recovery bound preflight uncertain is_current events state now = do
    current ← if bound then uncertain else ok none
    raise_if (not (same_target current preflight)) (record {
      code = "recovery_target_drift";
      message = "uncertain write target changed between recover preflight and transaction lock";
    })
    elim (first_expired_write now state.items) [
      | some found ↦ write_expiry found.0 found.1
      | none ↦ recover_leases current is_current events state now
    ]
