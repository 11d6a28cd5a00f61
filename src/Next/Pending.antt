-- ===== src/Next/Pending.antt =====
-- A pending request in v2_next_actions.py: while one is there, its own command is the only way on, and
-- of the other candidates only those that read are left.
use text.Mathlib.Text.{starts_with}
use paperread.Prelude.{
  String, Bool, true, false, not, ◌&&◌, ◌||◌, Option, none, some, List, [], ◌∷◌, ◌++◌, Result, ok,
  ◌>>=◌, any, contains, is_some, ◌==◌, nat_eq, string_eq, option_eq, if◌then◌else◌,
}
use paperread.Contracts.Scalars.{ItemId, UuidString}
use paperread.Contracts.Status.{Lane, worker, local_prepare, LocalPrepareStatus, local_eq}
use paperread.Contracts.State.{StateItem}
use paperread.Contracts.Events.{
  BatchEvent, EventData, UncertainKind, marked_uncertain, lease_expired_uncertain,
  RecoveredUncertainWrite, MutationKind, lease_expired, RecoveredLease,
}
use paperread.Next.Action.{
  NextAction, ActionLane, run_lane, worker_lane, local_prepare_lane, write_lane, user_lane,
  worker_identity_inputs, write_identity_inputs,
}
use paperread.Next.Derive.{RunView, sorted_actions}

abbrev pub safe_while_pending : List String
safe_while_pending = "worker.prompt" ∷ "write.preview" ∷ "user.verify-zotero-write-read-only" ∷ []

abbrev pub pending_required_inputs : List (String × List String)
pending_required_inputs =
    ("run.recover", "request_id" ∷ "paper_reader_root" ∷ "reconciliation_timeout_seconds" ∷ [])
    ∷ ("worker.claim", "worker_id" ∷ "request_id" ∷ "limit" ∷ "lease_seconds" ∷ [])
    ∷ ("worker.renew", worker_identity_inputs ++ ("request_id" ∷ "lease_seconds" ∷ []))
    ∷ ("worker.finish", worker_identity_inputs ++ ("result" ∷ "request_id" ∷ []))
    ∷ (
      "worker.release",
      worker_identity_inputs ++ ("acknowledge_no_side_effects" ∷ "request_id" ∷ []),
    )
    ∷ ("worker.retry", "request_id" ∷ [])
    ∷ ("local-prepare.claim", "worker_id" ∷ "request_id" ∷ "limit" ∷ "lease_seconds" ∷ [])
    ∷ ("local-prepare.renew", worker_identity_inputs ++ ("request_id" ∷ "lease_seconds" ∷ []))
    ∷ ("local-prepare.finish", worker_identity_inputs ++ ("result" ∷ "request_id" ∷ []))
    ∷ (
      "local-prepare.release",
      worker_identity_inputs ++ ("acknowledge_no_side_effects" ∷ "request_id" ∷ []),
    )
    ∷ (
      "local-prepare.run",
      worker_identity_inputs ++ ("paper_reader_root" ∷ "request_id" ∷ "timeout_seconds" ∷ []),
    )
    ∷ ("write.claim", "writer_id" ∷ "request_id" ∷ "lease_seconds" ∷ [])
    ∷ ("write.renew", write_identity_inputs ++ ("request_id" ∷ "lease_seconds" ∷ []))
    ∷ ("write.release", write_identity_inputs ++ ("request_id" ∷ []))
    ∷ ("write.begin", write_identity_inputs ++ ("authorization" ∷ "request_id" ∷ []))
    ∷ ("write.commit", write_identity_inputs ++ ("result" ∷ "request_id" ∷ []))
    ∷ ("write.mark-uncertain", write_identity_inputs ++ ("reason" ∷ "request_id" ∷ []))
    ∷ ("write.reconcile", "readback" ∷ "request_id" ∷ [])
    ∷ ("write.retry", "acknowledge_no_match" ∷ "request_id" ∷ [])
    ∷ []

-- `table.get(key)`
unfoldable pub inputs_of : List (String × List String) → String → Option (List String)
inputs_of [] key = none
inputs_of ((k, v) ∷ table) key = if k == key then some v else inputs_of table key

-- `getattr(data, "item_id", None)`
abbrev pub item_id_of_data : EventData → Option ItemId
item_id_of_data (EventData.run_initialized d) = none
item_id_of_data (EventData.claimed d) = none
item_id_of_data (EventData.coordination_reserved d) = some d.item_id
item_id_of_data (EventData.lease_mutation d) = some d.item_id
item_id_of_data (EventData.finished d) = some d.item_id
item_id_of_data (EventData.retried d) = some d.item_id
item_id_of_data (EventData.run_recovered d) = none
item_id_of_data (EventData.request_aborted d) = none
item_id_of_data (EventData.write_claimed d) = some d.item_id
item_id_of_data (EventData.write_lease_mutation d) = some d.item_id
item_id_of_data (EventData.write_started d) = some d.item_id
item_id_of_data (EventData.write_written d) = some d.item_id
item_id_of_data (EventData.write_uncertain d) = some d.item_id
item_id_of_data (EventData.write_reconciled d) = some d.item_id
item_id_of_data (EventData.write_retried d) = some d.item_id

uncertain_target : UncertainKind → ItemId → Option ItemId
uncertain_target lease_expired_uncertain id = some id
uncertain_target marked_uncertain id = none

recovered_target : Option RecoveredUncertainWrite → Option ItemId
recovered_target none = none
recovered_target (some w) = some w.item_id

-- the item whose write a recovery may go on to reconcile
unfoldable pub reconciliation_target : EventData → Option ItemId
unfolding uncertain_target recovered_target
reconciliation_target (EventData.write_uncertain d) = uncertain_target d.kind d.item_id
reconciliation_target (EventData.run_recovered d) = recovered_target d.reconciliation_write
reconciliation_target _ = none

abbrev attention : String → NextAction
attention reason = record {
  item_id = none;
  lane = user_lane;
  action = "user.resolve-run-storage-attention";
  reason_code = reason;
  requires_user_intent = true;
  required_inputs = "maintainer_decision" ∷ [];
}

-- `_PENDING_PUBLIC_ACTION.get(command, command)`
abbrev pub public_action : String → String
public_action command =
    if command == "local-prepare.run.reserve" then "local-prepare.run" else command

-- the action's part before the first dot, in the table of lanes
abbrev in_group : String → String → String → Bool
in_group action name dotted = starts_with action dotted || action == name

unfoldable pub lane_of_action : String → Option ActionLane
lane_of_action action =
    if in_group action "run" "run."
    then some run_lane
    else if in_group action "worker" "worker."
    then some worker_lane
    else if in_group action "local-prepare" "local-prepare."
    then some local_prepare_lane
    else if in_group action "write" "write."
    then some write_lane
    else none

abbrev intent_actions : List String
intent_actions =
    "worker.release" ∷ "worker.retry" ∷ "local-prepare.release" ∷ "write.begin" ∷ "write.retry" ∷ []

-- `[item.item_id for item in items if item.local_prepare_status == "claimed"]`
abbrev claimed_ids : List StateItem → List ItemId
claimed_ids [] = []
claimed_ids (s ∷ items) =
    if s.local_prepare_status == LocalPrepareStatus.claimed
    then s.item_id ∷ claimed_ids items
    else claimed_ids items

abbrev only : List ItemId → Option ItemId
only [] = none
only (x ∷ []) = some x
only (x ∷ y ∷ xs) = none

-- `next((item for item in items if item.item_id == item_id), None)`
unfoldable pub first_with_id : List StateItem → ItemId → Option StateItem
first_with_id [] id = none
first_with_id (s ∷ items) id = if s.item_id == id then some s else first_with_id items id

has_request : Option StateItem → UuidString → Bool
has_request none request = false
has_request (some s) request = s.local_prepare_coordination_request_id == some request

-- A pending finish of a coordinated local run is replayed by the run's own command.
unfoldable pub coordinated : List StateItem → BatchEvent → Option ItemId → Bool
unfolding has_request
coordinated items event none = false
coordinated items event (some id) =
    event.command == "local-prepare.finish" && has_request (first_with_id items id) event.request_id

pub reserved_item : String → List StateItem → Option ItemId → Option ItemId
reserved_item command items (some id) = some id
reserved_item command items none =
    if command == "local-prepare.run.reserve" then only (claimed_ids items) else none

unfoldable pub public_pending :
    Option (List String) → Option ActionLane → String → Option ItemId → NextAction
public_pending none lane action item_id = attention "pending_internal_request_manual_attention"
public_pending (some inputs) none action item_id =
    attention "pending_internal_request_manual_attention"
public_pending (some inputs) (some lane) action item_id = record {
  item_id = item_id;
  lane = lane;
  action = action;
  reason_code = "pending_event_originating_request_replay_required";
  requires_user_intent = contains intent_actions action;
  required_inputs = inputs;
}

-- The two actions that end a worker's claim.
abbrev pub ends_claim : List String
ends_claim = "worker.finish" ∷ "worker.release" ∷ []

unfoldable pub lease_pairs : List RecoveredLease → List (String × Option ItemId)
lease_pairs [] = []
lease_pairs (r ∷ rs) = ("worker.prompt", some r.item_id) ∷ lease_pairs rs

unfoldable pub expired_pair : MutationKind → String → ItemId → List (String × Option ItemId)
expired_pair lease_expired action id = (action, some id) ∷ []
expired_pair _ action id = []

unfoldable pub worker_only : Lane → List (String × Option ItemId) → List (String × Option ItemId)
worker_only worker pairs = pairs
worker_only local_prepare pairs = []

-- What the pending event will have made pointless.
unfoldable pub invalidated_by_data : EventData → List (String × Option ItemId)
unfolding lease_pairs expired_pair worker_only
invalidated_by_data (EventData.run_recovered d) = lease_pairs d.expired_worker_leases
invalidated_by_data (EventData.lease_mutation d) =
    worker_only d.lane (expired_pair d.kind "worker.prompt" d.item_id)
invalidated_by_data (EventData.write_lease_mutation d) =
    expired_pair d.kind "write.preview" d.item_id
invalidated_by_data _ = []

abbrev pub ended_prompt : NextAction → List (String × Option ItemId)
ended_prompt pending =
    if is_some pending.item_id && contains ends_claim pending.action
    then ("worker.prompt", pending.item_id) ∷ []
    else []

unfoldable pub pending_invalidated_safe_candidates :
    EventData → NextAction → List (String × Option ItemId)
unfolding invalidated_by_data
pending_invalidated_safe_candidates payload pending =
    ended_prompt pending ++ invalidated_by_data payload

abbrev pub is_invalidated : List (String × Option ItemId) → NextAction → Bool
is_invalidated pairs a = any (λ p. p.0 == a.action && p.1 == a.item_id) pairs

abbrev pub is_safe : List (String × Option ItemId) → NextAction → Bool
is_safe pairs a = contains safe_while_pending a.action && not (is_invalidated pairs a)

abbrev pub select : (NextAction → Bool) → List NextAction → List NextAction
select p [] = []
select p (a ∷ actions) = if p a then a ∷ select p actions else select p actions

-- The argument `reconcile_id` is `derived_reconciliation_request_id`, the `uuid5` of a request id and
-- a fixed name.
module _ (reconcile_id : UuidString → UuidString) where
  unfoldable pub is_derived_run_reconciliation : RunView → BatchEvent → Option ItemId → Bool
  is_derived_run_reconciliation view pending none = false
  is_derived_run_reconciliation view pending (some id) =
      pending.command == "write.reconcile"
      && any
          (λ outer.
            outer.command == "run.recover"
            && reconciliation_target outer.payload == some id
            && reconcile_id outer.request_id == pending.request_id)
          view.events

  unfoldable pub pending_action : RunView → BatchEvent → NextAction
  unfolding coordinated reserved_item public_pending
  pending_action view pending =
      let item_id = item_id_of_data pending.payload in
      let action =
        if coordinated view.state.items pending item_id
        then "local-prepare.run"
        else public_action pending.command in
      if is_derived_run_reconciliation view pending item_id
      then record (attention "pending_run_recovery_reconciliation_manual_attention") {
        item_id = item_id;
      }
      else public_pending (inputs_of pending_required_inputs action) (lane_of_action action) action
          (reserved_item pending.command view.state.items item_id)

  unfoldable pub with_pending : RunView → Option BatchEvent → List NextAction → List NextAction
  with_pending view none actions = actions
  with_pending view (some event) actions =
      let pending = pending_action view event in
      pending ∷ select (is_safe (pending_invalidated_safe_candidates event.payload pending)) actions

  unfoldable pub derive_next_actions : RunView → Result (List NextAction)
  unfolding with_pending
  derive_next_actions view = do
    actions ← sorted_actions view
    ok (with_pending view view.pending_event actions)
