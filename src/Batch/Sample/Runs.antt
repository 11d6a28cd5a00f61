-- ===== src/Batch/Sample/Runs.antt =====
-- What v2_reducer.py makes of the sample journal: its snapshots, and single changes of them.
use paperread.Prelude.{
  ℕ, true, ◌≡◌, refl, none, some, List, [], ◌∷◌, ◌++◌, get_elem?, Result, ok, err,
}
use paperread.Contracts.Manifest.{reject_duplicate_identities}
use paperread.Contracts.Status.{worker, WriteStatus, BatchStatus}
use paperread.Contracts.State.{StateItem, BatchState}
use paperread.Contracts.Events.{
  BatchEvent, marked_uncertain, lease_expired_uncertain, MutationKind, released, lease_expired,
  LeaseMutationData,
}
use paperread.Contracts.Lanes.{
  validate_lane_state, valid_leases, valid_local_identity, valid_write_identity,
  valid_authorization, valid_artifacts, valid_outcomes,
}
use paperread.Contracts.Snapshot.{
  model_validate, validate_cross_item_write_identities, present, distinct,
}
use paperread.Reducer.Base.{
  initial_state, initial_items, initial_item, status, with_items, update_item, update_at,
  state_item_index, manifest_item,
}
use paperread.Reducer.Leases.{same_lease, same_write_lease, mutate_item, mutate_lease, end_lease}
use paperread.Reducer.Claim.{
  apply_claim, claim_all, claim_assignment, claim_item, pdf_assignment_count,
}
use paperread.Reducer.Finish.{apply_finished, finish_item, finish_lane, check_outcome}
use paperread.Reducer.WriteClaim.{apply_write_claimed, claim_write_item}
use paperread.Reducer.WriteRun.{
  apply_write_started, start_item, apply_write_written, write_item, apply_write_uncertain,
  uncertain_item,
}
use paperread.Reducer.WriteSettle.{
  apply_write_reconciled, reconcile_item, apply_write_retried, retry_write_item,
}
use paperread.Reducer.Apply.{apply_event, apply_all, dispatch, replay}
use paperread.Batch.Sample.{
  at_second, claim, claim_write, derive, doubt, finish_zotero, journal, manifest, opening, paper,
  remaining, start_data, start_write, worker_identity, zotero,
}

abbrev pub value : {A : Type 0} → A → Result A → A
value fallback (ok a) = a
value fallback (err e) = fallback

abbrev pub nowhere : BatchState
nowhere = record {
  manifest_id = 0;
  manifest_sha256 = 0;
  lease_secret_sha256 = 0;
  initialized_at = at_second 0;
  updated_at = at_second 0;
  next_sequence = 0;
  latest_event_sha256 = 0;
  batch_status = BatchStatus.ready;
  items = [];
}

abbrev pub after : List BatchEvent → BatchState
after events = value nowhere (replay derive manifest events)

-- The Zotero item of a state.
abbrev pub first_item : BatchState → StateItem
first_item state = head state.items
  where
    head : List StateItem → StateItem
    head [] = initial_item zotero
    head (s ∷ items) = s

-- The Zotero item while its worker, its write claim, and its started write are active.
abbrev pub read_events : List BatchEvent
read_events = opening ∷ claim 2 zotero "z" ∷ []

abbrev pub claimed_events : List BatchEvent
claimed_events = opening ∷ claim 2 zotero "z" ∷ finish_zotero 2 ∷ claim_write 4 1 ∷ []

abbrev pub started_events : List BatchEvent
started_events = claimed_events ++ (start_write 4 1 ∷ [])

abbrev pub written : BatchState
written = after (opening ∷ journal)

abbrev pub next : BatchState
next = value nowhere (apply_event derive written manifest (claim 12 paper "p"))

abbrev pub done : BatchState
done = value nowhere (apply_all derive written manifest remaining)

abbrev pub claimed_state : BatchState
claimed_state = after claimed_events

abbrev pub outcome : Result StateItem → StateItem
outcome r = value (initial_item zotero) r

-- An event at a second, and changes of the worker's lease that ends at second 3602.
abbrev pub expire_at : ℕ → BatchEvent
expire_at n = record opening { occurred_at = at_second n }

abbrev pub mutation : MutationKind → LeaseMutationData
mutation kind = record {
  lane = worker;
  kind = kind;
  item_id = "z";
  identity = worker_identity 2;
  issued_at = none;
  expires_at = none;
}

-- The reducer's runs on this batch.
pub runs :
    (replay derive manifest (opening ∷ journal) ≡ ok written)
    × (apply_all derive written manifest remaining ≡ ok done)
    × (replay derive manifest (opening ∷ (journal ++ remaining)) ≡ ok done)
    × (apply_event derive written manifest (claim 12 paper "p") ≡ ok next)
    × (replay derive manifest read_events ≡ ok (after read_events))
    × (replay derive manifest claimed_events ≡ ok (after claimed_events))
    × (replay derive manifest started_events ≡ ok (after started_events))
    × (done.batch_status ≡ BatchStatus.succeeded)
    × (get_elem? written.items 0 ≡ some (first_item written))
    × ((first_item written).write_status ≡ WriteStatus.written)
    × (get_elem? claimed_state.items 0 ≡ some (first_item claimed_state))
    × (start_item claimed_state (start_write 4 1) start_data (first_item claimed_state)
        ≡ ok (first_item (after started_events)))
    × (mutate_item (expire_at 3602) (mutation lease_expired) (first_item (after read_events))
        ≡ ok (
            outcome (
              mutate_item
                (expire_at 3602)
                (mutation lease_expired)
                (first_item (after read_events)))))
    × (mutate_item (expire_at 3601) (mutation released) (first_item (after read_events))
        ≡ ok (
            outcome
              (mutate_item (expire_at 3601) (mutation released) (first_item (after read_events)))))
    × (uncertain_item
          (expire_at 304)
          (doubt lease_expired_uncertain)
          (first_item (after started_events))
        ≡ ok (
            outcome (
              uncertain_item
                (expire_at 304)
                (doubt lease_expired_uncertain)
                (first_item (after started_events)))))
    × (uncertain_item (expire_at 303) (doubt marked_uncertain) (first_item (after started_events))
        ≡ ok (
            outcome (
              uncertain_item
                (expire_at 303)
                (doubt marked_uncertain)
                (first_item (after started_events)))))
    × (manifest_item manifest.items "z" ≡ ok zotero)
    × (reject_duplicate_identities manifest ≡ true)
    × ((first_item written).authorization_sha256 ≡ some 909)
unfolding replay apply_all apply_event dispatch mutate_item mutate_lease end_lease
    reject_duplicate_identities initial_state initial_items initial_item status with_items
    update_item update_at state_item_index manifest_item same_lease same_write_lease apply_claim
    claim_all claim_assignment claim_item pdf_assignment_count apply_finished finish_item
    finish_lane check_outcome apply_write_claimed claim_write_item apply_write_started start_item
    apply_write_written write_item apply_write_uncertain uncertain_item apply_write_reconciled
    reconcile_item apply_write_retried retry_write_item model_validate
    validate_cross_item_write_identities present distinct validate_lane_state valid_leases
    valid_local_identity valid_write_identity valid_authorization valid_artifacts valid_outcomes
runs = (
  refl, refl, refl, refl, refl, refl, refl, refl, refl, refl, refl, refl, refl, refl, refl, refl,
  refl, refl, refl,
)
