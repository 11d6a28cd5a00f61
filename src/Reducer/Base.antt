-- ===== src/Reducer/Base.antt =====
-- The shared helpers of v2_reducer.py: lookups by item id, the first items, the batch's status, and
-- `_with_items`, through which every event ends.
use paperread.Prelude.{
  ℕ, suc, ◌+◌, String, ◌+s◌, Bool, ◌||◌, none, List, [], ◌∷◌, map, any, get_elem?, set, Result,
  RuntimeError, ok, err, ◌>>=◌, or_raise, raise_if, ◌>>◌, ◌==◌, ◌!=◌, nat_eq, string_eq,
  if◌then◌else◌,
}
use paperread.Contracts.Scalars.{ItemId}
use paperread.Contracts.Manifest.{
  ManifestItem, BatchManifest, is_pdf, item_id_of, input_type_of, expected_output_of,
}
use paperread.Contracts.Status.{
  WorkerStatus, LocalPrepareStatus, WriteStatus, BatchStatus, worker_eq, local_eq, write_eq,
}
use paperread.Contracts.State.{StateItem, BatchState}
use paperread.Contracts.Lanes.{is_failed, is_local_failed, is_write_active}
use paperread.Contracts.Snapshot.{model_validate}
use paperread.Contracts.Events.{BatchEvent, EventData}

abbrev pub max_task_lease_seconds : ℕ
max_task_lease_seconds = 3600

abbrev pub max_write_lease_seconds : ℕ
max_write_lease_seconds = 300

-- `_corrupt`
abbrev pub corrupt : String → RuntimeError
corrupt message = record { code = "journal_corrupt"; message = message }

abbrev pub corrupt_at : String → ItemId → RuntimeError
corrupt_at message item_id = corrupt (◌+s◌ message item_id)

unfoldable pub manifest_item : List ManifestItem → ItemId → Result ManifestItem
manifest_item [] item_id = err (corrupt_at "event references unknown item: " item_id)
manifest_item (item ∷ items) item_id =
    if item_id_of item == item_id then ok item else manifest_item items item_id

shifted : Result ℕ → Result ℕ
shifted (ok i) = ok (suc i)
shifted (err e) = err e

unfoldable pub state_item_index : List StateItem → ItemId → Result ℕ
unfolding shifted
state_item_index [] item_id = err (corrupt_at "state is missing manifest item: " item_id)
state_item_index (item ∷ items) item_id =
    if item.item_id == item_id then ok 0 else shifted (state_item_index items item_id)

unfoldable pub initial_item : ManifestItem → StateItem
initial_item item = record {
  item_id = item_id_of item;
  input_type = input_type_of item;
  expected_output = expected_output_of item;
  worker_status = WorkerStatus.queued;
  worker_attempt_count = 0;
  worker_lease = none;
  worker_result_sha256 = none;
  worker_last_actor_id = none;
  worker_last_claim_id = none;
  worker_last_attempt_id = none;
  worker_last_lease_token_sha256 = none;
  worker_pending_attempt_id = none;
  worker_failure_code = none;
  worker_failure_message = none;
  local_prepare_status =
      if is_pdf item then LocalPrepareStatus.queued else LocalPrepareStatus.not_applicable;
  local_prepare_attempt_count = 0;
  local_prepare_lease = none;
  local_prepare_result_sha256 = none;
  local_prepare_last_actor_id = none;
  local_prepare_last_claim_id = none;
  local_prepare_last_attempt_id = none;
  local_prepare_last_lease_token_sha256 = none;
  local_prepare_last_expires_at = none;
  local_prepare_coordination_request_id = none;
  local_prepare_coordination_fingerprint = none;
  local_prepare_coordination_device = none;
  local_prepare_coordination_inode = none;
  local_prepare_failure_code = none;
  local_prepare_failure_message = none;
  resolved_zotero_item_key = none;
  write_status = if is_pdf item then WriteStatus.not_applicable else WriteStatus.awaiting_candidate;
  write_attempt_count = 0;
  write_lease = none;
  write_last_writer_id = none;
  write_last_claim_id = none;
  write_last_attempt_id = none;
  write_last_lease_token_sha256 = none;
  write_pending_attempt_id = none;
  candidate_sha256 = none;
  write_started_event_sha256 = none;
  authorization_sha256 = none;
  authorization_nonce_sha256 = none;
  external_claim_id = none;
  write_last_authorization_sha256 = none;
  write_last_authorization_nonce_sha256 = none;
  write_last_external_claim_id = none;
  write_result_sha256 = none;
  reconciliation_sha256 = none;
  write_failure_code = none;
  write_failure_message = none;
}

unfoldable pub initial_items : BatchManifest → List StateItem
unfolding initial_item
initial_items manifest = map initial_item manifest.items

-- The tests of `_status`, in its order.
abbrev pub is_uncertain : StateItem → Bool
is_uncertain item = item.write_status == WriteStatus.uncertain

abbrev pub is_running : StateItem → Bool
is_running item =
    item.worker_status == WorkerStatus.claimed
    || item.local_prepare_status == LocalPrepareStatus.claimed
    || is_write_active item.write_status

abbrev pub wants_attention : StateItem → Bool
wants_attention item =
    is_failed item.worker_status
    || is_local_failed item.local_prepare_status
    || item.write_status == WriteStatus.blocked
    || item.write_status == WriteStatus.retry_confirmation_required

abbrev pub awaits_write : StateItem → Bool
awaits_write item = item.write_status == WriteStatus.queued

abbrev pub is_ready : StateItem → Bool
is_ready item =
    item.worker_status == WorkerStatus.queued
    || item.local_prepare_status == LocalPrepareStatus.queued

unfoldable pub status : List StateItem → BatchStatus
status items =
    if any is_uncertain items
    then BatchStatus.write_uncertain
    else if any is_running items
    then BatchStatus.running
    else if any wants_attention items
    then BatchStatus.needs_attention
    else if any awaits_write items
    then BatchStatus.awaiting_write
    else if any is_ready items
    then BatchStatus.ready
    else BatchStatus.succeeded

-- the snapshot that `_with_items` has validated
abbrev pub successor : BatchState → List StateItem → BatchEvent → BatchState
successor state items event = record state {
  items = items;
  updated_at = event.occurred_at;
  next_sequence = event.sequence + 1;
  latest_event_sha256 = event.event_sha256;
  batch_status = status items;
}

unfoldable pub with_items : BatchState → List StateItem → BatchEvent → Result BatchState
with_items state items event =
    let candidate = successor state items event in
    if model_validate candidate
    then ok candidate
    else err (corrupt "reducer produced state that violates the strict state contract")

-- A model's constructor runs its validators.
constructed : BatchState → Result BatchState
constructed state =
    if model_validate state
    then ok state
    else err (record { code = "ValidationError"; message = "BatchState" })

initial_from : BatchManifest → BatchEvent → EventData → Result BatchState
unfolding initial_items constructed
initial_from manifest event (EventData.run_initialized init) = do
  raise_if (event.sequence != 1) (corrupt "journal must begin with run.initialized at sequence 1")
  raise_if (init.manifest_id != manifest.manifest_id)
      (corrupt "run.initialized manifest id does not match manifest")
  constructed (record {
    manifest_id = manifest.manifest_id;
    manifest_sha256 = event.manifest_sha256;
    lease_secret_sha256 = init.lease_secret_sha256;
    initialized_at = init.initialized_at;
    updated_at = event.occurred_at;
    next_sequence = 2;
    latest_event_sha256 = event.event_sha256;
    batch_status = status (initial_items manifest);
    items = initial_items manifest;
  })
initial_from manifest event _ =
    err (corrupt "journal must begin with run.initialized at sequence 1")

unfoldable pub initial_state : BatchManifest → BatchEvent → Result BatchState
unfolding initial_from
initial_state manifest event = initial_from manifest event event.payload

-- `items[index]`
abbrev pub items_at : List StateItem → ℕ → Result StateItem
items_at items index =
    or_raise (get_elem? items index)
      (record { code = "IndexError"; message = "list index out of range" })

-- The frame of every change: `index = _state_item_index(state, item_id)`, `item = items[index]`, then
-- `items[index] = change(item)`. The index is looked up in the state, the item in the working copy.
unfoldable pub update_at :
    List StateItem
    → ItemId
    → (StateItem → Result StateItem)
    → List StateItem
    → Result (List StateItem)
update_at state_items item_id change items = do
  index ← state_item_index state_items item_id
  item ← items_at items index
  item' ← change item
  ok (set items index item')

-- The frame of an event about one item: the change, then `_with_items`.
unfoldable pub update_item :
    BatchState → BatchEvent → ItemId → (StateItem → Result StateItem) → Result BatchState
unfolding update_at
update_item state event item_id change = do
  items ← update_at state.items item_id change state.items
  with_items state items event
