-- ===== src/Batch/Tests.antt =====
-- What is shown of v2_reducer.py and v2_contracts.py, at the sample batch.
use paperread.Prelude.{◌+◌, ◌≤◌, ◌≡◌, refl, some, [], ◌∷◌, ◌++◌, get_elem?, ok, Paired, arith}
use paperread.Contracts.Manifest.{zotero_write}
use paperread.Contracts.Status.{BatchStatus}
use paperread.Contracts.State.{StateItem, BatchState}
use paperread.Contracts.Events.{
  EventData, marked_uncertain, lease_expired_uncertain, released, lease_expired,
}
use paperread.Reducer.Base.{initial_state, initial_item}
use paperread.Reducer.Apply.{apply_all, replay}
use paperread.Prelude.{◌<◌, map, inl, inr}
use paperread.Batch.Frame.{SameId, Paired-get_elem?}
use paperread.Batch.Steps.{ItemStep}
use paperread.Batch.Accepted.{Continues}
use paperread.Batch.Refines.{Ends, apply_event-Run}
use paperread.Batch.Items.{Sound}
use paperread.Batch.Replayed.{Good, replay-Good}
use paperread.Batch.WriteLane.{WriteMove, write_view}
use paperread.Batch.WriteLane.Moves.{ItemStep-WriteMove}
use paperread.Batch.Serial.{write_holders, replay-write_holders}
use paperread.Batch.Chain.{Chained, Follows, replay-Chained}
use paperread.Batch.Summary.{Settled, succeeded-Settled}
use paperread.Batch.Concurrency.{active_claims-replay}
use paperread.Reducer.Claim.{active_claims}
use paperread.Batch.Starts.{authorizations, write_starts, write_retries, write_starts-replay}
use paperread.Batch.Written.{written_is_final, write_attempts_grow}
use paperread.Batch.Durations.{Timed, replay-Timed}
use paperread.Batch.Clock.{expiry_is_last, write_expiry_is_last}
use paperread.Batch.Apart.{write_identities_apart}
use paperread.Batch.Opening.{initial_state-accepts}
use paperread.Batch.Identities.{accepted_ids_distinct}
use paperread.Batch.Sample.{
  at_zotero, claim, derive, doubt, journal, manifest, opening, opening_data, paper, remaining,
  start_data, start_write, zotero,
}
use paperread.Batch.Sample.Runs.{
  after, claimed_events, claimed_state, done, expire_at, first_item, mutation, next, read_events,
  started_events, written, runs,
}

-- The run that reaches `written`, the one that reaches `done` from there, and the one from the start.
written_run : replay derive manifest (opening ∷ journal) ≡ ok written
written_run = runs.0

done_run : apply_all derive written manifest remaining ≡ ok done
done_run = runs.1

whole_run : replay derive manifest (opening ∷ (journal ++ remaining)) ≡ ok done
whole_run = runs.2

written_same : Paired SameId manifest.items written.items
written_same = (replay-Good derive manifest (opening ∷ journal) written_run).same

zotero-Sound : Sound manifest zotero (first_item claimed_state)
zotero-Sound =
    Paired-get_elem? (Sound manifest) manifest.items claimed_state.items 0
      (replay-Good derive manifest claimed_events runs.5).sound refl runs.10

replay-write_holders_example : write_holders written.items ≤ 1
replay-write_holders_example = replay-write_holders derive manifest (opening ∷ journal) written_run

apply_event-Run_example :
    Continues derive written manifest (claim 12 paper "p")
    × Ends derive written manifest (claim 12 paper "p") written_same next
apply_event-Run_example =
    apply_event-Run derive written manifest (claim 12 paper "p") written_same runs.3

write_starts-replay_example :
    write_starts journal ≡ write_retries journal + authorizations written.items
write_starts-replay_example = write_starts-replay derive manifest opening journal written_run

written_is_final_example :
    (s' : StateItem) × (get_elem? done.items 0 ≡ some s')
    × (write_view s' ≡ write_view (first_item written))
written_is_final_example =
    written_is_final derive manifest (opening ∷ journal) remaining 0 written_run done_run runs.8
      runs.9

write_attempts_grow_example :
    (s' : StateItem) × (get_elem? done.items 0 ≡ some s')
    × ((first_item written).write_attempt_count ≤ s'.write_attempt_count)
write_attempts_grow_example =
    write_attempts_grow derive manifest (opening ∷ journal) remaining 0 written_run done_run runs.8

active_claims-replay_example : active_claims written.items ≤ 1
active_claims-replay_example =
    active_claims-replay derive manifest opening journal (ground arith) written_run

replay-Good_example : Good manifest written
replay-Good_example = replay-Good derive manifest (opening ∷ journal) written_run

ItemStep-WriteMove_example :
    WriteMove
      (EventData.write_started start_data)
      (write_view (first_item claimed_state))
      (write_view (first_item (after started_events)))
ItemStep-WriteMove_example =
    ItemStep-WriteMove derive manifest claimed_state (start_write 4 1) zotero
      (first_item claimed_state) (first_item (after started_events))
      (ItemStep.starts start_data refl refl runs.11) zotero-Sound

succeeded-Settled_example : Paired (Settled manifest) manifest.items done.items
succeeded-Settled_example =
    succeeded-Settled derive manifest opening (journal ++ remaining) whole_run runs.7

replay-Chained_example :
    (opening.sequence ≡ 1) × Chained 2 101 1000000 journal × Follows opening journal written
replay-Chained_example = replay-Chained derive manifest opening journal written_run

replay-Timed_example : Paired Timed manifest.items (after read_events).items
replay-Timed_example = replay-Timed derive manifest read_events runs.4

write_identities_apart_example : at_zotero ≡ at_zotero
write_identities_apart_example =
    write_identities_apart derive manifest (opening ∷ journal) at_zotero at_zotero written_run
      runs.8 runs.8 (909, inl (runs.18, runs.18))

expiry_is_last_example : 3601000000 < 3602000000
expiry_is_last_example =
    expiry_is_last zotero_write (ok zotero) (expire_at 3602) (expire_at 3601)
      (mutation lease_expired) (first_item (after read_events)) runs.12 refl
      (inr (mutation released, refl, refl, runs.13))

write_expiry_is_last_example : 303000000 < 304000000
write_expiry_is_last_example =
    write_expiry_is_last (ok zotero) (expire_at 304) (expire_at 303) (doubt lease_expired_uncertain)
      (first_item (after started_events)) runs.14 refl (inr (doubt marked_uncertain, refl, runs.15))

initial_state-accepts_example :
    (state : BatchState) × (initial_state manifest opening ≡ ok state)
    × (state.items ≡ map initial_item (zotero ∷ paper ∷ []))
    × (state.batch_status ≡ BatchStatus.ready)
    × (state.next_sequence ≡ 2)
initial_state-accepts_example =
    initial_state-accepts manifest opening opening_data zotero (paper ∷ []) refl refl refl refl

accepted_ids_distinct_example : at_zotero ≡ at_zotero
accepted_ids_distinct_example =
    accepted_ids_distinct manifest at_zotero at_zotero runs.17 refl refl refl
