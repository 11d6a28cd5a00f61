-- ===== src/Reducer/Apply.antt =====
-- `apply_event` and `replay` of v2_reducer.py. The argument `derive` is
-- `uuid5(UUID(·), LOCAL_PREPARE_COORDINATION_UUID_NAME)`.
use paperread.Prelude.{
  ◌||◌, some, List, [], ◌∷◌, Result, ok, err, ◌>>=◌, ◌>>◌, raise_if, ltb, ◌!=◌, nat_eq, string_eq,
  option_eq,
}
use paperread.Contracts.Scalars.{UuidString, timestamp}
use paperread.Contracts.Manifest.{BatchManifest}
use paperread.Contracts.State.{BatchState}
use paperread.Contracts.Events.{BatchEvent, EventData}
use paperread.Reducer.Base.{corrupt, with_items, initial_state}
use paperread.Reducer.Leases.{apply_coordination_reserved, apply_lease_mutation}
use paperread.Reducer.Claim.{apply_claim}
use paperread.Reducer.Finish.{apply_finished, apply_retried}
use paperread.Reducer.WriteClaim.{apply_write_claimed, apply_write_lease_mutation}
use paperread.Reducer.WriteRun.{apply_write_started, apply_write_written, apply_write_uncertain}
use paperread.Reducer.WriteSettle.{apply_write_reconciled, apply_write_retried}
use paperread.Reducer.Recover.{apply_recovered}

-- The `RequestAbortedData` branch: a marker that changes no item.
unfoldable pub apply_aborted : BatchState → BatchEvent → Result BatchState
apply_aborted state event = do
  raise_if (event.command != "journal.abort")
      (corrupt "request-aborted marker uses a non-internal command")
  with_items state state.items event

module _ (derive : UuidString → UuidString) where
  -- The `isinstance` ladder of `apply_event`.
  unfoldable pub dispatch : BatchState → BatchManifest → BatchEvent → EventData → Result BatchState
  dispatch s m e (EventData.run_initialized d) =
      err (corrupt "event type is not accepted by the Task 5 reducer: run.initialized")
  dispatch s m e (EventData.claimed d) = apply_claim s m e d
  dispatch s m e (EventData.coordination_reserved d) = apply_coordination_reserved derive s e d
  dispatch s m e (EventData.lease_mutation d) = apply_lease_mutation s e d
  dispatch s m e (EventData.finished d) = apply_finished s m e d
  dispatch s m e (EventData.retried d) = apply_retried s e d
  dispatch s m e (EventData.run_recovered d) = apply_recovered s e d
  dispatch s m e (EventData.request_aborted d) = apply_aborted s e
  dispatch s m e (EventData.write_claimed d) = apply_write_claimed s m e d
  dispatch s m e (EventData.write_lease_mutation d) = apply_write_lease_mutation s e d
  dispatch s m e (EventData.write_started d) = apply_write_started s e d
  dispatch s m e (EventData.write_written d) = apply_write_written s m e d
  dispatch s m e (EventData.write_uncertain d) = apply_write_uncertain s e d
  dispatch s m e (EventData.write_reconciled d) = apply_write_reconciled s e d
  dispatch s m e (EventData.write_retried d) = apply_write_retried s e d

  unfoldable pub apply_event : BatchState → BatchManifest → BatchEvent → Result BatchState
  apply_event state manifest event = do
    raise_if
        (event.sequence != state.next_sequence
          || event.previous_event_sha256 != some state.latest_event_sha256)
        (corrupt "event sequence or previous hash does not match reducer state")
    raise_if (ltb (timestamp event.occurred_at) (timestamp state.updated_at))
        (corrupt "event timestamp precedes the latest authoritative state")
    dispatch state manifest event event.payload

  unfoldable pub apply_all : BatchState → BatchManifest → List BatchEvent → Result BatchState
  apply_all state manifest [] = ok state
  apply_all state manifest (event ∷ events) = do
    state' ← apply_event state manifest event
    apply_all state' manifest events

  unfoldable pub replay : BatchManifest → List BatchEvent → Result BatchState
  replay manifest [] = err (corrupt "journal is empty")
  replay manifest (first ∷ rest) = do
    state ← initial_state manifest first
    apply_all state manifest rest
