-- ===== src/Recovery/Tests.antt =====
-- What is shown of the recoveries, at the sample batch.
use mathlib.Core.List.{map}
use paperread.Prelude.{any, all, [], ◌≡◌, refl, none, some, Option, ok, err, Bool, true, Result}
use paperread.Contracts.Scalars.{ItemId, UuidString}
use paperread.Contracts.State.{WriteLeaseState, StateItem}
use paperread.Contracts.Events.{EventData, BatchEvent, RunRecoveredData}
use paperread.Contracts.Lanes.{
  validate_lane_state, valid_leases, valid_local_identity, valid_write_identity,
  valid_authorization, valid_artifacts, valid_outcomes,
}
use paperread.Contracts.Snapshot.{
  model_validate, validate_cross_item_write_identities, present, distinct,
}
use paperread.Reducer.Base.{
  initial_state, initial_items, initial_item, status, with_items, update_item, update_at,
  state_item_index, manifest_item,
}
use paperread.Reducer.Leases.{same_lease, same_write_lease}
use paperread.Reducer.Claim.{
  apply_claim, claim_all, claim_assignment, claim_item, pdf_assignment_count,
}
use paperread.Reducer.Finish.{apply_finished, finish_item, finish_lane, check_outcome}
use paperread.Reducer.WriteClaim.{apply_write_claimed, claim_write_item}
use paperread.Reducer.WriteRun.{apply_write_started, start_item}
use paperread.Reducer.Recover.{apply_recovered}
use paperread.Reducer.Apply.{apply_event, apply_all, dispatch, replay}
use paperread.Batch.Sample.{derive, manifest, at_second}
use paperread.Batch.Sample.Runs.{after, read_events, started_events, expire_at, first_item, runs}
use paperread.Recovery.Attempts.{blocked_uncertain_identity}
use paperread.Recovery.Propose.{
  first_expired_write, expired_workers, write_expiry, local_recovery, recover_leases,
  propose_recovery,
}
use paperread.Recovery.Quiet.{leases_run, nothing_to_recover-LeasesRun}
use paperread.Recovery.Workers.{is_overdue, requeue_overdue}
use paperread.Recovery.Accepted.{expired_workers_accepted}
use paperread.Recovery.Writes.{write_change, after_expiry, write_expiry_accepted}

abbrev lease_of : Option WriteLeaseState → WriteLeaseState
lease_of (some lease) = lease
lease_of none = record {
  writer_id = "";
  claim_id = 0;
  write_attempt_id = 0;
  attempt_number = 0;
  lease_token_sha256 = 0;
  issued_at = at_second 0;
  expires_at = at_second 0;
  candidate_sha256 = 0;
}

abbrev writing : StateItem
writing = first_item (after started_events)

abbrev no_effects : ItemId → UuidString → UuidString → Result Bool
no_effects item claim attempt = ok Bool.false

-- A minute after nothing has happened yet, at the end of the write's lease, and a minute after with
-- the local attempts alone.
recoveries :
    (propose_recovery no_effects Bool.false none
        (ok none)
        true
        started_events
        (after started_events)
        (at_second 60)
      ≡ err (record {
        code = "nothing_to_recover";
        message = "run has no expired lease or stale snapshot";
      }))
    × (first_expired_write (at_second 304) (after started_events).items
        ≡ some (writing, lease_of writing.write_lease))
    × (local_recovery no_effects started_events (at_second 60) (after started_events).items
        ≡ ok (record { local = []; resumed_local = [] }))
    × (first_expired_write (at_second 3602) (after read_events).items ≡ none)
    × (local_recovery no_effects read_events (at_second 3602) (after read_events).items
        ≡ ok (record { local = []; resumed_local = [] }))
    × (any (is_overdue (at_second 3602)) (after read_events).items ≡ true)
unfolding replay apply_all apply_event dispatch initial_state initial_items initial_item status
    with_items update_item update_at state_item_index manifest_item same_lease same_write_lease
    apply_claim claim_all claim_assignment claim_item pdf_assignment_count apply_finished
    finish_item finish_lane check_outcome apply_write_claimed claim_write_item apply_write_started
    start_item model_validate validate_cross_item_write_identities present distinct
    validate_lane_state valid_leases valid_local_identity valid_write_identity valid_authorization
    valid_artifacts valid_outcomes first_expired_write expired_workers local_recovery recover_leases
    propose_recovery blocked_uncertain_identity
recoveries = (refl, refl, refl, refl, refl, refl)

-- The worker of the first item has its lease until the second 3602.
abbrev recovery_event : BatchEvent
recovery_event = expire_at 3602

expired_workers_accepted_example :
    (d : RunRecoveredData) × (propose_recovery no_effects Bool.false none
        (ok none)
        true
        read_events
        (after read_events)
        (at_second 3602)
      ≡ ok (EventData.run_recovered d))
    × (apply_recovered (after read_events) recovery_event d
        ≡ with_items
            (after read_events)
            (map (requeue_overdue (at_second 3602)) (after read_events).items)
            recovery_event)
expired_workers_accepted_example =
    expired_workers_accepted no_effects derive manifest read_events (after read_events)
      recovery_event (ok none) true runs.4 runs.17 recoveries.3 recoveries.4 recoveries.5

write_expiry_accepted_example :
    (d : EventData) × (s' : StateItem) × (write_expiry writing (lease_of writing.write_lease)
      ≡ ok d)
    × (write_change (expire_at 304) d writing ≡ ok s')
    × (s'.write_lease ≡ none)
    × (s'.write_status ≡ after_expiry writing.write_status)
write_expiry_accepted_example =
    write_expiry_accepted derive manifest started_events (after started_events) (expire_at 304)
      runs.6 recoveries.1

nothing_to_recover-LeasesRun_example :
    (all (leases_run (at_second 60)) (after started_events).items ≡ true) × (true ≡ true)
nothing_to_recover-LeasesRun_example =
    nothing_to_recover-LeasesRun no_effects (ok none) true started_events (after started_events)
      (at_second 60) recoveries.2 recoveries.0
