-- ===== src/Next/Tests/Views.antt =====
-- What is shown of the derivation of the next actions, at the sample batch: after its first event, and
-- at its end.
use mathlib.Core.List.{Perm}
use paperread.Prelude.{
  ◌≡◌, refl, true, Option, none, some, List, [], ◌∷◌, ◌++◌, ok, Paired, Result, arith,
}
use paperread.Contracts.State.{BatchState}
use paperread.Contracts.Events.{BatchEvent}
use paperread.Contracts.Lanes.{
  validate_lane_state, valid_leases, valid_local_identity, valid_write_identity,
  valid_authorization, valid_artifacts, valid_outcomes,
}
use paperread.Contracts.Snapshot.{
  model_validate, validate_cross_item_write_identities, present, distinct,
}
use paperread.Reducer.Base.{
  initial_state, initial_items, initial_item, status, with_items, update_item, update_at,
  state_item_index, manifest_item,
}
use paperread.Reducer.Leases.{same_lease, same_write_lease}
use paperread.Reducer.Claim.{
  apply_claim, claim_all, claim_assignment, claim_item, pdf_assignment_count,
}
use paperread.Reducer.Finish.{apply_finished, finish_item, finish_lane, check_outcome}
use paperread.Reducer.WriteClaim.{apply_write_claimed, claim_write_item}
use paperread.Reducer.WriteRun.{
  apply_write_started, start_item, apply_write_written, write_item, apply_write_uncertain,
  uncertain_item,
}
use paperread.Reducer.WriteSettle.{
  apply_write_reconciled, reconcile_item, apply_write_retried, retry_write_item,
}
use paperread.Reducer.Apply.{apply_event, apply_all, dispatch, replay}
use paperread.Batch.Summary.{Settled}
use paperread.Batch.Sample.{derive, manifest, finish_zotero, opening, journal, remaining}
use paperread.Batch.Sample.Runs.{after, read_events, done, runs, value}
use paperread.Next.{
  state_by_id, next_id, first_runtime_worker_claim_id, first_local_prepare_claim_id,
  first_claimable_write_id,
}
use paperread.Next.Action.{NextAction, position}
use paperread.Next.Lanes.{recover_actions, worker_actions_at, local_actions_at, write_actions_at}
use paperread.Next.Derive.{
  RunView, storage_actions, item_actions, all_item_actions, manifest_index, index_key, sort_key,
  keyed, insert_keyed, sort_keyed, candidates, sorted_actions, is_current,
}
use paperread.Next.Pending.{
  derive_next_actions, with_pending, pending_action, is_derived_run_reconciliation,
  reconciliation_target, lane_of_action, inputs_of, first_with_id,
  pending_invalidated_safe_candidates,
}
use paperread.Next.Order.{AllPairs}
use paperread.Next.Placed.{GoesFirst, sorted_actions-Placed}
use paperread.Next.Progress.{no_action-Settled}
use paperread.Next.Total.{derive_next_actions_total}

abbrev view_of : List BatchEvent → BatchState → Option BatchEvent → RunView
view_of events state pending = record {
  manifest = manifest;
  events = events;
  state = state;
  snapshot_status = "current";
  pending_event = pending;
  incomplete_event_writes = [];
  state_pending_write = none;
  incomplete_state_writes = [];
}

abbrev opened_view : RunView
opened_view = view_of (opening ∷ []) (after (opening ∷ [])) none

-- The worker's result of the first item has been asked for, and is not yet in the journal.
abbrev waiting_event : BatchEvent
waiting_event = record (finish_zotero 2) { command = "worker.finish" }

abbrev waiting_view : RunView
waiting_view = view_of read_events (after read_events) (some waiting_event)

abbrev done_view : RunView
done_view = view_of (opening ∷ (journal ++ remaining)) done none

abbrev found : Result (List NextAction) → List NextAction
found r = value [] r

views :
    (replay derive manifest (opening ∷ []) ≡ ok (after (opening ∷ [])))
    × (candidates opened_view ≡ ok (found (candidates opened_view)))
    × (sorted_actions opened_view ≡ ok (found (sorted_actions opened_view)))
    × (derive_next_actions derive waiting_view
        ≡ ok (found (derive_next_actions derive waiting_view)))
    × (derive_next_actions derive done_view ≡ ok [])
unfolding replay apply_all apply_event dispatch initial_state initial_items initial_item status
    with_items update_item update_at state_item_index manifest_item same_lease same_write_lease
    apply_claim claim_all claim_assignment claim_item pdf_assignment_count apply_finished
    finish_item finish_lane check_outcome apply_write_claimed claim_write_item apply_write_started
    start_item apply_write_written write_item apply_write_uncertain uncertain_item
    apply_write_reconciled reconcile_item apply_write_retried retry_write_item model_validate
    validate_cross_item_write_identities present distinct validate_lane_state valid_leases
    valid_local_identity valid_write_identity valid_authorization valid_artifacts valid_outcomes
    state_by_id next_id first_runtime_worker_claim_id first_local_prepare_claim_id
    first_claimable_write_id position recover_actions worker_actions_at local_actions_at
    write_actions_at storage_actions item_actions all_item_actions manifest_index index_key sort_key
    keyed insert_keyed sort_keyed candidates sorted_actions derive_next_actions with_pending
    pending_action is_derived_run_reconciliation reconciliation_target lane_of_action inputs_of
    first_with_id pending_invalidated_safe_candidates
views = (refl, refl, refl, refl, refl)

no_action-Settled_example :
    (done_view.pending_event ≡ none)
    × (is_current done_view ≡ true)
    × Paired (Settled manifest) manifest.items done.items
no_action-Settled_example =
    no_action-Settled derive derive done_view runs.2 runs.17 (omega arith) views.4

derive_next_actions_total_example :
    (actions : List NextAction) × (derive_next_actions derive opened_view ≡ ok actions)
derive_next_actions_total_example = derive_next_actions_total derive derive opened_view views.0

sorted_actions-Placed_example :
    Perm (found (sorted_actions opened_view)) (found (candidates opened_view))
    × AllPairs (GoesFirst manifest.items) (found (sorted_actions opened_view))
sorted_actions-Placed_example = sorted_actions-Placed opened_view views.1 views.2
