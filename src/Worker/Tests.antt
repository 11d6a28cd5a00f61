-- ===== src/Worker/Tests.antt =====
-- What is shown of worker.finish and of reconciliation results, at the sample batch.
pub mod Commands
use paperread.Prelude.{Bool, true, ◌≡◌, refl, none, some, Option, [], ◌∷◌, Result, ok, String}
use paperread.Contracts.Scalars.{UuidString}
use paperread.Contracts.Manifest.{source_of, zotero_write}
use paperread.Contracts.Status.{WorkerStatus, worker}
use paperread.Contracts.State.{StateItem}
use paperread.Contracts.Events.{BatchEvent, FinishedData, verified, succeeded}
use paperread.Contracts.Results.{
  ArtifactRef, WorkerResult, worker_succeeded, validate_outcome, ReconciliationResult,
  validate_match_outcome, distinct_count,
}
use paperread.Contracts.Lanes.{
  validate_lane_state, valid_leases, valid_local_identity, valid_write_identity,
  valid_authorization, valid_artifacts, valid_outcomes,
}
use paperread.Contracts.Snapshot.{
  model_validate, validate_cross_item_write_identities, present, distinct,
}
use paperread.Reducer.Base.{
  initial_state, initial_items, initial_item, status, with_items, update_item, update_at,
  state_item_index, manifest_item,
}
use paperread.Reducer.Claim.{
  apply_claim, claim_all, claim_assignment, claim_item, pdf_assignment_count,
}
use paperread.Reducer.Apply.{replay, apply_all, apply_event, dispatch}
use paperread.Reducer.Finish.{finish_item}
use paperread.Batch.Sample.{manifest, zotero, claim, finish_zotero, worker_identity}
use paperread.Batch.Sample.Runs.{after, read_events, first_item}
use paperread.Worker.{
  FinishRequest, LeaseRequest, propose_finish, find_item, active_worker_lease, check_binding,
  check_unique_key,
}
use paperread.Worker.Accepted.{proposed_finish_accepted}
use paperread.Worker.Reconciled.{Findings, accepted-Findings}

abbrev artifact : String → ArtifactRef
artifact schema = record {
  path = "/run/artifact.json";
  size_bytes = 20;
  sha256 = 501;
  schema_version = schema;
  artifact_id = "artifact";
}

abbrev result : WorkerResult
result = record {
  manifest_sha256 = 5;
  item_id = "z";
  worker_id = "reader";
  claim_id = 202;
  attempt_id = 302;
  attempt_number = 1;
  lease_token_sha256 = 402;
  status = worker_succeeded;
  source = source_of zotero;
  paper_reader_run = some (artifact "run");
  review_package = some (artifact "review");
  candidate = some (artifact "candidate");
  local_publication = none;
  error = none;
}

abbrev pub leased : LeaseRequest
leased = record {
  item_id = "z";
  worker_id = "reader";
  claim_id = 202;
  attempt_id = 302;
  token_hash = 402;
}

abbrev request : FinishRequest
request = record { request = leased; result_sha256 = 500 }

-- Stand-ins for the comparison of tokens and for the check of the artifacts.
abbrev pub any_token : UuidString → UuidString → Bool
any_token claim attempt = true

abbrev resolves : WorkerResult → Result (Option String)
resolves r = ok (some "KEY")

abbrev event : BatchEvent
event = finish_zotero 2

-- The proposal is the event's own data.
abbrev proposed : FinishedData
proposed = record {
  lane = worker;
  item_id = "z";
  identity = worker_identity 2;
  status = succeeded;
  result_sha256 = 500;
  resolved_zotero_item_key = some "KEY";
  candidate_sha256 = some 501;
  failure_code = none;
  failure_message = none;
}

proposal :
    (propose_finish any_token resolves manifest (after read_events) request event.occurred_at result
      ≡ ok proposed)
    × (find_item (after read_events).items "z" ≡ ok (first_item (after read_events)))
    × (validate_outcome result ≡ true)
unfolding replay apply_all apply_event dispatch initial_state initial_items initial_item status
    with_items update_item update_at state_item_index manifest_item apply_claim claim_all
    claim_assignment claim_item pdf_assignment_count model_validate
    validate_cross_item_write_identities present distinct validate_lane_state valid_leases
    valid_local_identity valid_write_identity valid_authorization valid_artifacts valid_outcomes
    propose_finish find_item active_worker_lease check_binding check_unique_key validate_outcome
proposal = (refl, refl, refl)

proposed_finish_accepted_example :
    (s' : StateItem) × (finish_item zotero_write
        (ok zotero)
        event
        proposed
        (first_item (after read_events))
      ≡ ok s')
    × (s'.worker_status ≡ WorkerStatus.succeeded)
    × (s'.worker_lease ≡ none)
proposed_finish_accepted_example =
    proposed_finish_accepted any_token resolves manifest (after read_events) request result zotero
      (first_item (after read_events)) event proposal.0 proposal.1 proposal.2 (refl, tt)

abbrev reconciliation : ReconciliationResult
reconciliation = record {
  manifest_sha256 = 5;
  item_id = "z";
  writer_id = "writer";
  claim_id = 604;
  lease_token_sha256 = 804;
  write_attempt_id = 704;
  candidate_sha256 = 501;
  authorization_sha256 = 904;
  readback_sha256 = 520;
  parent_key = "KEY";
  exact_title = "On lanes";
  canonical_html_sha256 = 512;
  matched_note_keys = "NOTE" ∷ [];
  match_count = 1;
  outcome = verified;
  verification = some (artifact "paper_reader.verification.v2");
  matched_note_key = some "NOTE";
}

reconciliation_fits : validate_match_outcome reconciliation ≡ true
unfolding validate_match_outcome distinct_count
reconciliation_fits = refl

accepted-Findings_example : Findings reconciliation
accepted-Findings_example = accepted-Findings reconciliation reconciliation_fits
