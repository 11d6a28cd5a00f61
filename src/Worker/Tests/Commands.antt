-- ===== src/Worker/Tests/Commands.antt =====
-- What is shown of the worker's other commands, at the sample batch.
use paperread.Prelude.{
  ℕ, ◌+◌, ◌≤◌, ◌<◌, true, false, ◌≡◌, refl, none, some, List, [], ◌∷◌, Result, ok, err, ◌⊎◌, arith,
  string_eq, ◌==◌, nat_eq, option_eq, length,
}
use paperread.Contracts.Scalars.{UuidString, Sha256, timestamp, timedelta}
use paperread.Contracts.Manifest.{ManifestItem}
use paperread.Contracts.Status.{WorkerStatus, worker}
use paperread.Contracts.State.{LeaseState, StateItem, BatchState}
use paperread.Contracts.Events.{
  BatchEvent, EventData, LeaseMutationData, RetriedData, ClaimedData, worker_claimed, FinishedData,
  failed,
}
use paperread.Contracts.Lanes.{
  validate_lane_state, valid_leases, valid_local_identity, valid_write_identity,
  valid_authorization, valid_artifacts, valid_outcomes,
}
use paperread.Contracts.Snapshot.{
  model_validate, validate_cross_item_write_identities, present, distinct,
}
use paperread.Reducer.Base.{
  initial_state, initial_items, initial_item, status, with_items, update_item, update_at,
  state_item_index, manifest_item,
}
use paperread.Reducer.Leases.{same_lease, mutate_item}
use paperread.Reducer.Claim.{
  apply_claim, claim_all, claim_assignment, claim_item, pdf_assignment_count,
}
use paperread.Reducer.Finish.{apply_finished, finish_item, finish_lane, check_outcome, retry_item}
use paperread.Reducer.Apply.{replay, apply_all, apply_event, dispatch}
use paperread.Batch.Sample.{
  derive, manifest, zotero, opening, claim, numbered, worker_identity, at_second,
}
use paperread.Batch.Sample.Runs.{after, read_events, first_item, runs}
use paperread.Next.{first_runtime_worker_claim_id, next_id, state_by_id}
use paperread.Worker.{find_item, active_worker_lease}
use paperread.Worker.Tests.{any_token, leased}
use paperread.Worker.Mutations.{
  propose_renew, propose_release, propose_retry, check_lease_seconds, next_entry, check_source,
  after_seconds,
}
use paperread.Worker.Claims.{
  propose_claim, select_items, manifest_by_id, check_sources, assign, claimable_worker_items, min,
  capacity, check_claim_input,
}
use paperread.Worker.Extended.{proposed_renew_accepted}
use paperread.Worker.Requeued.{proposed_release_accepted, proposed_retry_accepted}
use paperread.Worker.Taken.{Taken, select_items-Taken}
use paperread.Worker.Offered.{claimable_worker_items_offered, first_id}
use paperread.Worker.Claimed.{proposed_claim_accepted}
use paperread.Worker.Inputs.{Fails, IsOutside, check_claim_input_lem}

-- Stand-ins for the test of a PDF's file, for the digests of tokens, and for the ids of `uuid4`.
abbrev any_source : ManifestItem → Result (Unit {0})
any_source m = ok tt

abbrev token_sha256 : UuidString → UuidString → Sha256
token_sha256 claim attempt = claim + attempt

abbrev uuid : ℕ → UuidString
uuid k = 3000 + k

abbrev opened : BatchState
opened = after (opening ∷ [])

abbrev reading : BatchState
reading = after read_events

-- The worker fails instead.
abbrev failing : BatchEvent
failing = numbered 3 (
    EventData.finished (record {
      lane = worker;
      item_id = "z";
      identity = worker_identity 2;
      status = failed;
      result_sha256 = 500;
      resolved_zotero_item_key = none;
      candidate_sha256 = none;
      failure_code = some "timeout";
      failure_message = some "no answer";
    }))

abbrev failed_state : BatchState
failed_state = after (opening ∷ claim 2 zotero "z" ∷ failing ∷ [])

abbrev third : BatchEvent
third = numbered 3 (
    EventData.run_initialized
      (record { manifest_id = 1; initialized_at = at_second 1; lease_secret_sha256 = 6 }))

abbrev lease_of : StateItem → LeaseState
lease_of s = elim s.worker_lease [
  | some lease ↦ lease
  | none ↦ record {
    lane = worker;
    actor_id = "";
    claim_id = 0;
    attempt_id = 0;
    attempt_number = 0;
    lease_token_sha256 = 0;
    issued_at = at_second 0;
    expires_at = at_second 0;
  }
]

abbrev renewal : LeaseMutationData
renewal = record {
  lane = worker;
  kind = paperread.Contracts.Events.renewed;
  item_id = "z";
  identity = worker_identity 2;
  issued_at = some (at_second 3);
  expires_at = some (after_seconds (at_second 3) 3600);
}

abbrev release : LeaseMutationData
release = record renewal {
  kind = paperread.Contracts.Events.released;
  issued_at = none;
  expires_at = none;
}

abbrev retry : RetriedData
retry = record {
  item_id = "z";
  previous_actor_id = "reader";
  previous_claim_id = 202;
  previous_attempt_id = 302;
  previous_attempt_number = 1;
  previous_lease_token_sha256 = 402;
  next_attempt_id = 303;
  next_attempt_number = 2;
}

abbrev claim_data : ClaimedData
claim_data = record {
  kind = worker_claimed;
  assignments = made (
      assign token_sha256 uuid manifest.items "reader" (at_second 3)
        (after_seconds (at_second 3) 3600) 0 (first_item opened ∷ []));
}
  where
    made : {A : Type 0} → Result (List A) → List A
    made (ok xs) = xs
    made (err e) = []

proposals :
    (propose_renew any_token any_source manifest reading leased 3600 third.occurred_at ≡ ok renewal)
    × (propose_release any_token reading leased third.occurred_at ≡ ok release)
    × (propose_retry 303 failed_state "z" ≡ ok retry)
    × (propose_claim token_sha256 uuid any_source manifest opened "reader" 1 3600 third.occurred_at
        ≡ ok claim_data)
    × (find_item reading.items "z" ≡ ok (first_item reading))
    × (find_item failed_state.items "z" ≡ ok (first_item failed_state))
    × ((first_item reading).worker_lease ≡ some (lease_of (first_item reading)))
    × (select_items manifest.items 1 false opened.items ≡ ok (first_item opened ∷ []))
    × (replay derive manifest (opening ∷ []) ≡ ok opened)
    × (first_runtime_worker_claim_id manifest opened ≡ ok (some "z"))
    × (check_lease_seconds false 3600 ≡ ok tt)
    × (timestamp (lease_of (first_item reading)).issued_at ≡ 2000000)
    × (((first_item failed_state).worker_last_attempt_id == some 303) ≡ false)
unfolding replay apply_all apply_event dispatch initial_state initial_items initial_item status
    with_items update_item update_at state_item_index manifest_item same_lease apply_claim claim_all
    claim_assignment claim_item pdf_assignment_count apply_finished finish_item finish_lane
    check_outcome model_validate validate_cross_item_write_identities present distinct
    validate_lane_state valid_leases valid_local_identity valid_write_identity valid_authorization
    valid_artifacts valid_outcomes find_item active_worker_lease propose_renew propose_release
    propose_retry check_lease_seconds next_entry check_source propose_claim select_items
    manifest_by_id check_sources assign first_runtime_worker_claim_id next_id state_by_id
proposals = (refl, refl, refl, refl, refl, refl, refl, refl, refl, refl, refl, refl, refl)

proposed_renew_accepted_example :
    (s' : StateItem) × (lease' : LeaseState) × (mutate_item third renewal (first_item reading)
      ≡ ok s')
    × (s'.worker_lease ≡ some lease')
    × (timestamp (lease_of (first_item reading)).expires_at < timestamp lease'.expires_at)
    × (timestamp lease'.expires_at ≡ timestamp third.occurred_at + timedelta 3600)
proposed_renew_accepted_example =
    proposed_renew_accepted any_token any_source manifest reading leased 3600 third
      (first_item reading) proposals.10 proposals.0 proposals.4 proposals.6
      (omega (arith, proposals.11))

proposed_release_accepted_example :
    (s' : StateItem) × (mutate_item third release (first_item reading) ≡ ok s')
    × (s'.worker_status ≡ WorkerStatus.queued)
    × (s'.worker_lease ≡ none)
proposed_release_accepted_example =
    proposed_release_accepted any_token reading leased third (first_item reading) proposals.1
      proposals.4

proposed_retry_accepted_example :
    (s' : StateItem) × (retry_item retry (first_item failed_state) ≡ ok s')
    × (s'.worker_status ≡ WorkerStatus.queued)
    × (s'.worker_pending_attempt_id ≡ some 303)
proposed_retry_accepted_example =
    proposed_retry_accepted 303 failed_state "z" (first_item failed_state) proposals.2 proposals.5
      proposals.12

select_items-Taken_example : Taken manifest.items 1 0 opened.items (first_item opened ∷ [])
select_items-Taken_example = select_items-Taken manifest.items 1 false opened.items proposals.7

claimable_worker_items_offered_example :
    (out : List StateItem) × (claimable_worker_items manifest opened
        (min 1 (capacity manifest opened))
      ≡ ok out)
    × (first_id out ≡ some "z")
claimable_worker_items_offered_example =
    claimable_worker_items_offered derive manifest (opening ∷ []) opened 1 proposals.8 runs.17
      (omega arith) proposals.9

proposed_claim_accepted_example :
    (items' : List StateItem) × (apply_claim opened manifest third claim_data
      ≡ with_items opened items' third)
    × (1 ≤ length claim_data.assignments)
    × (length claim_data.assignments ≤ 1)
proposed_claim_accepted_example =
    proposed_claim_accepted derive token_sha256 uuid any_source manifest (opening ∷ []) opened third
      "reader" 1 3600 proposals.8 runs.17 proposals.10 proposals.3

check_claim_input_lem_example :
    ((false ≡ true) × Fails false "invalid_worker" (check_claim_input false manifest "w" none 900))
    ⊎ ((false ≡ false)
        × IsOutside 1 1
        × Fails false "invalid_limit" (check_claim_input false manifest "w" none 900))
    ⊎ ((false ≡ false)
        × (1 ≤ 1)
        × (1 ≤ 1)
        × IsOutside 900 3600
        × Fails false "invalid_lease" (check_claim_input false manifest "w" none 900))
    ⊎ ((false ≡ false)
        × (1 ≤ 1)
        × (1 ≤ 1)
        × (1 ≤ 900)
        × (900 ≤ 3600)
        × (check_claim_input false manifest "w" none 900 ≡ ok 1))
check_claim_input_lem_example = check_claim_input_lem false manifest "w" none 900
