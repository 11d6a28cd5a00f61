-- ===== src/Next/Lanes.antt =====
-- What v2_next_actions.py offers for one item: `_append_worker_actions`,
-- `_append_local_prepare_actions`, `_append_write_actions`, and the recoveries. An append to the
-- caller's list is here the list that is appended.
use paperread.Prelude.{
  String, Bool, true, false, not, ◌&&◌, ◌||◌, Option, some, List, [], ◌∷◌, ◌++◌, ◌==◌, ◌!=◌,
  string_eq, option_eq, if◌then◌else◌,
}
use paperread.Contracts.Scalars.{ItemId}
use paperread.Contracts.Manifest.{WritePolicy, is_zotero_write}
use paperread.Contracts.Status.{
  WorkerStatus, LocalPrepareStatus, WriteStatus, worker_eq, local_eq, write_eq,
}
use paperread.Contracts.State.{StateItem}
use paperread.Next.{is_pdf_input}
use paperread.Next.Action.{
  NextAction, ActionLane, run_lane, worker_lane, local_prepare_lane, write_lane, user_lane,
  worker_identity_inputs, write_identity_inputs,
}

-- A candidate for an item that asks for no intent of the user,
abbrev pub offer : StateItem → ActionLane → String → String → List String → NextAction
offer item lane action reason inputs = record {
  item_id = some item.item_id;
  lane = lane;
  action = action;
  reason_code = reason;
  requires_user_intent = false;
  required_inputs = inputs;
}

-- and one that does.
abbrev pub ask : StateItem → ActionLane → String → String → List String → NextAction
ask item lane action reason inputs = record (offer item lane action reason inputs) {
  requires_user_intent = true;
}

worker_claimed_actions : StateItem → List NextAction
worker_claimed_actions item =
    offer item worker_lane "worker.prompt" "worker_claimed" worker_identity_inputs
    ∷ offer item worker_lane "worker.renew" "worker_claimed"
        (worker_identity_inputs ++ ("request_id" ∷ []))
    ∷ offer item worker_lane "worker.finish" "worker_claimed"
        (worker_identity_inputs ++ ("result" ∷ "request_id" ∷ []))
    ∷ ask item worker_lane "worker.release" "worker_claimed_no_side_effects_only"
        (worker_identity_inputs ++ ("acknowledge_no_side_effects" ∷ "request_id" ∷ []))
    ∷ []

worker_retry_actions : StateItem → String → List NextAction
worker_retry_actions item reason =
    ask item worker_lane "worker.retry" reason ("request_id" ∷ []) ∷ []

unfoldable pub worker_actions_at : WorkerStatus → StateItem → Option ItemId → Bool → List NextAction
unfolding worker_claimed_actions worker_retry_actions
worker_actions_at WorkerStatus.queued item claimable uncertain =
    if some item.item_id == claimable
      && item.local_prepare_status != LocalPrepareStatus.claimed
      && not uncertain
    then offer item worker_lane "worker.claim" "worker_queued" ("worker_id" ∷ "request_id" ∷ [])
      ∷ []
    else []
worker_actions_at WorkerStatus.claimed item claimable uncertain = worker_claimed_actions item
worker_actions_at WorkerStatus.succeeded item claimable uncertain = []
worker_actions_at WorkerStatus.failed item claimable uncertain =
    worker_retry_actions item "worker_failed"
worker_actions_at WorkerStatus.blocked item claimable uncertain =
    worker_retry_actions item "worker_blocked"

abbrev pub append_worker_actions : StateItem → Option ItemId → Bool → List NextAction
append_worker_actions item claimable uncertain =
    worker_actions_at item.worker_status item claimable uncertain

local_claimed_actions : StateItem → List NextAction
local_claimed_actions item =
    offer item local_prepare_lane "local-prepare.run" "local_prepare_claimed"
      (worker_identity_inputs ++ ("paper_reader_root" ∷ "request_id" ∷ []))
    ∷ offer item local_prepare_lane "local-prepare.renew" "local_prepare_claimed"
        (worker_identity_inputs ++ ("request_id" ∷ []))
    ∷ offer item local_prepare_lane "local-prepare.finish" "local_prepare_claimed"
        (worker_identity_inputs ++ ("result" ∷ "request_id" ∷ []))
    ∷ ask item local_prepare_lane "local-prepare.release"
        "local_prepare_claimed_no_side_effects_only"
        (worker_identity_inputs ++ ("acknowledge_no_side_effects" ∷ "request_id" ∷ []))
    ∷ []

local_claim_actions : StateItem → Option ItemId → Bool → String → List NextAction
local_claim_actions item claimable uncertain reason =
    if some item.item_id == claimable && item.worker_status != WorkerStatus.claimed && not uncertain
    then offer item local_prepare_lane "local-prepare.claim" reason
        ("worker_id" ∷ "request_id" ∷ [])
      ∷ []
    else []

unfoldable pub local_actions_at :
    LocalPrepareStatus → StateItem → Option ItemId → Bool → List NextAction
unfolding local_claimed_actions local_claim_actions
local_actions_at LocalPrepareStatus.claimed item claimable uncertain = local_claimed_actions item
local_actions_at LocalPrepareStatus.queued item claimable uncertain =
    local_claim_actions item claimable uncertain "local_prepare_queued"
local_actions_at LocalPrepareStatus.failed item claimable uncertain =
    local_claim_actions item claimable uncertain "local_prepare_failed"
local_actions_at LocalPrepareStatus.blocked item claimable uncertain =
    local_claim_actions item claimable uncertain "local_prepare_blocked"
local_actions_at LocalPrepareStatus.prepared item claimable uncertain = []
local_actions_at LocalPrepareStatus.not_applicable item claimable uncertain = []

abbrev pub append_local_prepare_actions : StateItem → Option ItemId → Bool → List NextAction
append_local_prepare_actions item claimable uncertain =
    if is_pdf_input item.input_type
    then local_actions_at item.local_prepare_status item claimable uncertain
    else []

unfoldable pub write_actions_at : WriteStatus → StateItem → Option ItemId → List NextAction
write_actions_at WriteStatus.queued item claimable =
    if some item.item_id == claimable
    then offer item write_lane "write.claim" "write_queued" ("writer_id" ∷ "request_id" ∷ []) ∷ []
    else []
write_actions_at WriteStatus.claimed item claimable =
    offer item write_lane "write.preview" "write_claimed_preview_required" write_identity_inputs
    ∷ offer item write_lane "write.renew" "write_claimed"
        (write_identity_inputs ++ ("request_id" ∷ []))
    ∷ offer item write_lane "write.release" "write_claimed_before_begin_only"
        (write_identity_inputs ++ ("request_id" ∷ []))
    ∷ ask item user_lane "user.confirm-zotero-write-intent" "explicit_real_write_intent_required"
        ("candidate_preview" ∷ "explicit_real_write_intent" ∷ [])
    ∷ []
write_actions_at WriteStatus.started item claimable =
    offer item write_lane "write.renew" "write_started_never_resend"
      (write_identity_inputs ++ ("request_id" ∷ []))
    ∷ offer item write_lane "write.commit" "exact_external_write_result_available"
        (write_identity_inputs ++ ("result" ∷ "request_id" ∷ []))
    ∷ offer item write_lane "write.mark-uncertain" "external_write_result_unknown"
        (write_identity_inputs ++ ("reason" ∷ "request_id" ∷ []))
    ∷ offer item user_lane "user.verify-zotero-write-read-only" "write_started_never_resend"
        ("authorization" ∷ "note_key" ∷ [])
    ∷ []
write_actions_at WriteStatus.uncertain item claimable =
    offer item write_lane "write.reconcile" "write_uncertain_read_only_reconciliation"
      ("readback" ∷ "request_id" ∷ [])
    ∷ []
write_actions_at WriteStatus.retry_confirmation_required item claimable =
    ask item write_lane "write.retry" "write_retry_confirmation_required"
      ("acknowledge_no_match" ∷ "request_id" ∷ [])
    ∷ []
write_actions_at WriteStatus.blocked item claimable =
    ask item user_lane "user.resolve-write-blocker" "write_blocked" ("maintainer_decision" ∷ [])
    ∷ []
write_actions_at WriteStatus.not_applicable item claimable = []
write_actions_at WriteStatus.awaiting_candidate item claimable = []
write_actions_at WriteStatus.prepared_only item claimable = []
write_actions_at WriteStatus.written item claimable = []

abbrev pub append_write_actions : StateItem → WritePolicy → Option ItemId → List NextAction
append_write_actions item policy claimable =
    if is_pdf_input item.input_type || not (is_zotero_write policy)
    then []
    else write_actions_at item.write_status item claimable

abbrev recover_action : StateItem → String → NextAction
recover_action item reason = offer item run_lane "run.recover" reason ("request_id" ∷ [])

abbrev when : Bool → NextAction → List NextAction
when test action = if test then action ∷ [] else []

-- The recoveries that the loop of `derive_next_actions` offers for an item.
unfoldable pub recover_actions : StateItem → Bool → List NextAction
recover_actions item uncertain =
    when uncertain (recover_action item "local_prepare_coordination_uncertain_recovery_if_expired")
    ++ when (item.worker_status == WorkerStatus.claimed)
        (recover_action item "worker_lease_expiry_recovery_if_expired")
    ++ when (item.local_prepare_status == LocalPrepareStatus.claimed)
        (recover_action item "local_prepare_lease_expiry_recovery_if_expired")
    ++ when (item.write_status == WriteStatus.claimed)
        (recover_action item "write_claim_lease_expiry_recovery_if_expired")
    ++ when (item.write_status == WriteStatus.started)
        (recover_action item "write_started_lease_expiry_uncertain_if_expired")
    ++ when (item.write_status == WriteStatus.uncertain) (
        offer item run_lane "run.recover" "write_uncertain_read_only_recovery"
          ("paper_reader_root" ∷ "request_id" ∷ []))
