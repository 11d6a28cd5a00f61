-- ===== src/Next.antt =====
-- Which claims v2_next_actions.py offers: the first item, in the manifest's order, that a worker, a
-- local preparation or a writer may claim next.
pub mod Action
pub mod Lanes
pub mod Derive
pub mod Pending
pub mod Found
pub mod Quiet
pub mod Finished
pub mod Order
pub mod Placed
pub mod Progress
pub mod Ranked
pub mod Total
pub mod Ended
pub mod Waiting
pub mod Claims
pub mod Tests
use paperread.Prelude.{
  ℕ, Bool, true, false, not, ◌&&◌, ◌||◌, Option, none, some, List, [], ◌∷◌, Result, RuntimeError,
  ok, err, ◌>>=◌, any, ltb, ◌==◌, ◌!=◌, string_eq, option_eq, if◌then◌else◌, is_some,
}
use paperread.Contracts.Scalars.{ItemId}
use paperread.Contracts.Manifest.{
  BatchManifest, ManifestItem, InputType, pdf_path, zotero_item, zotero_title, item_id_of,
  is_zotero_write,
}
use paperread.Contracts.Status.{
  WorkerStatus, LocalPrepareStatus, WriteStatus, worker_eq, local_eq, write_eq,
}
use paperread.Contracts.Lanes.{is_local_failed}
use paperread.Contracts.State.{StateItem, BatchState}
use paperread.Reducer.Claim.{active_claims, coordination_uncertain}
use paperread.Reducer.WriteClaim.{holds_write_lane}

-- `state_by_id[item_id]`, of a dict in which a later item of one id replaces an earlier one
unfoldable pub state_by_id : List StateItem → ItemId → Option StateItem
state_by_id [] item_id = none
state_by_id (item ∷ items) item_id = elim (state_by_id items item_id) [
  | some later ↦ some later
  | none ↦ if item.item_id == item_id then some item else none
]

-- `next((m.item_id for m in manifest.items if test(state_by_id[m.item_id])), None)`
unfoldable pub next_id :
    (StateItem → Bool) → List StateItem → List ManifestItem → Result (Option ItemId)
next_id test items [] = ok none
next_id test items (m ∷ ms) = elim (state_by_id items (item_id_of m)) [
  | none ↦ err (record { code = "KeyError"; message = item_id_of m })
  | some item ↦ if test item then ok (some (item_id_of m)) else next_id test items ms
]

abbrev pub is_pdf_input : InputType → Bool
is_pdf_input pdf_path = true
is_pdf_input zotero_item = false
is_pdf_input zotero_title = false

abbrev pub worker_claimable : StateItem → Bool
worker_claimable item =
    item.worker_status == WorkerStatus.queued
    && item.local_prepare_status != LocalPrepareStatus.claimed
    && not (coordination_uncertain item)

abbrev pub local_claimable : StateItem → Bool
local_claimable item =
    is_pdf_input item.input_type
    && (item.local_prepare_status == LocalPrepareStatus.queued
        || is_local_failed item.local_prepare_status)
    && item.worker_status != WorkerStatus.claimed
    && not (coordination_uncertain item)

abbrev pub capacity_available : BatchManifest → BatchState → Bool
capacity_available manifest state = ltb (active_claims state.items) manifest.default_concurrency

unfoldable pub first_runtime_worker_claim_id : BatchManifest → BatchState → Result (Option ItemId)
first_runtime_worker_claim_id manifest state =
    if capacity_available manifest state
    then next_id worker_claimable state.items manifest.items
    else ok none

unfoldable pub first_local_prepare_claim_id : BatchManifest → BatchState → Result (Option ItemId)
first_local_prepare_claim_id manifest state =
    if capacity_available manifest state
    then next_id local_claimable state.items manifest.items
    else ok none

unfoldable pub first_claimable_write_id : BatchManifest → BatchState → Result (Option ItemId)
first_claimable_write_id manifest state =
    if is_zotero_write manifest.write_policy && not (any holds_write_lane state.items)
    then next_id (λ item. item.write_status == WriteStatus.queued) state.items manifest.items
    else ok none
