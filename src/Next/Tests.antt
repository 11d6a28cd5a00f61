-- ===== src/Next/Tests.antt =====
-- What is shown of the offered claims, at the sample batch, just after its first event.
pub mod Views
use paperread.Prelude.{◌<◌, ◌≡◌, refl, some, [], ◌∷◌, ok, String}
use paperread.Contracts.Manifest.{ManifestItem, source_of}
use paperread.Contracts.Status.{WriteStatus, Lane, worker, local_prepare}
use paperread.Contracts.State.{StateItem, BatchState}
use paperread.Contracts.Events.{
  WriteClaimedData, ClaimAssignment, worker_claimed, local_prepare_claimed,
}
use paperread.Contracts.Lanes.{
  validate_lane_state, valid_leases, valid_local_identity, valid_write_identity,
  valid_authorization, valid_artifacts, valid_outcomes,
}
use paperread.Contracts.Snapshot.{
  model_validate, validate_cross_item_write_identities, present, distinct,
}
use paperread.Reducer.Base.{
  initial_state, initial_items, initial_item, status, with_items, update_item, update_at,
  state_item_index, manifest_item,
}
use paperread.Reducer.Leases.{same_lease}
use paperread.Reducer.Finish.{apply_finished, finish_item, finish_lane, check_outcome}
use paperread.Reducer.WriteClaim.{apply_write_claimed, claim_write_item}
use paperread.Reducer.Claim.{
  claim_item, active_claims, apply_claim, claim_all, claim_assignment, pdf_assignment_count,
}
use paperread.Reducer.Apply.{replay, apply_all, apply_event, dispatch}
use paperread.Batch.Sample.{
  manifest, zotero, paper, opening, at_second, worker_identity, claim, finish_zotero,
  write_identity, claim_write,
}
use paperread.Batch.Sample.Runs.{after, first_item}
use paperread.Next.{
  state_by_id, next_id, first_runtime_worker_claim_id, first_local_prepare_claim_id,
  first_claimable_write_id,
}
use paperread.Next.Claims.{offered_worker_claim, offered_local_claim, offered_write_claim}

abbrev opened : BatchState
opened = after (opening ∷ [])

abbrev assign : Lane → ManifestItem → String → ClaimAssignment
assign lane m id = record {
  item_id = id;
  lane = lane;
  identity = worker_identity 2;
  issued_at = at_second 2;
  expires_at = at_second 3602;
  source = source_of m;
}

offers :
    (first_runtime_worker_claim_id manifest opened ≡ ok (some "z"))
    × (state_by_id opened.items "z" ≡ some (initial_item zotero))
    × (first_local_prepare_claim_id manifest opened ≡ ok (some "p"))
    × (state_by_id opened.items "p" ≡ some (initial_item paper))
    × ((initial_item zotero).worker_attempt_count ≡ 0)
unfolding replay apply_all initial_state initial_items initial_item status model_validate
    validate_cross_item_write_identities present distinct validate_lane_state valid_leases
    valid_local_identity valid_write_identity valid_authorization valid_artifacts valid_outcomes
    state_by_id next_id first_runtime_worker_claim_id first_local_prepare_claim_id
offers = (refl, refl, refl, refl, refl)

offered_worker_claim_example :
    (active_claims opened.items < 1)
    × ((s' : StateItem) × (claim_item worker_claimed zotero
            (assign worker zotero "z")
            (initial_item zotero)
          ≡ ok s'))
unfolding initial_item
offered_worker_claim_example =
    offered_worker_claim manifest opened zotero (assign worker zotero "z") offers.0 offers.1 refl
      refl refl

offered_local_claim_example :
    (active_claims opened.items < 1)
    × ((s' : StateItem) × (claim_item local_prepare_claimed paper
            (assign local_prepare paper "p")
            (initial_item paper)
          ≡ ok s'))
unfolding initial_item
offered_local_claim_example =
    offered_local_claim manifest opened paper (assign local_prepare paper "p") offers.2 offers.3
      refl refl refl

abbrev finished : BatchState
finished = after (opening ∷ claim 2 zotero "z" ∷ finish_zotero 2 ∷ [])

abbrev claim_data : WriteClaimedData
claim_data = record {
  item_id = "z";
  identity = write_identity 4 1;
  issued_at = at_second 4;
  expires_at = at_second 304;
}

write_offer :
    (first_claimable_write_id manifest finished ≡ ok (some "z"))
    × (state_by_id finished.items "z" ≡ some (first_item finished))
    × (manifest_item manifest.items "z" ≡ ok zotero)
unfolding replay apply_all apply_event dispatch initial_state initial_items initial_item status
    with_items update_item update_at state_item_index manifest_item same_lease apply_claim claim_all
    claim_assignment claim_item pdf_assignment_count apply_finished finish_item finish_lane
    check_outcome model_validate validate_cross_item_write_identities present distinct
    validate_lane_state valid_leases valid_local_identity valid_write_identity valid_authorization
    valid_artifacts valid_outcomes state_by_id next_id first_claimable_write_id
write_offer = (refl, refl, refl)

offered_write_claim_example :
    ((first_item finished).write_status ≡ WriteStatus.queued)
    × (apply_write_claimed finished manifest (claim_write 4 1) claim_data
        ≡ update_item finished
            (claim_write 4 1)
            "z"
            (claim_write_item finished zotero (claim_write 4 1) claim_data))
offered_write_claim_example =
    offered_write_claim manifest finished zotero (claim_write 4 1) claim_data write_offer.0
      write_offer.1 write_offer.2 refl
