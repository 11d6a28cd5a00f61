-- ===== src/Lib.antt =====
-- A verification library of the batch runtime of Paperread: the event-sourced core of
-- paper_reader_batch, which decides from a manifest and a journal of events what state every paper of
-- a batch is in, and which event may come next.
--
-- A batch is a manifest of items (PDF files, Zotero items, Zotero titles) and a hash-linked journal of
-- events. The snapshot of a batch is never edited: `replay` computes it from the first event and
-- `apply_event` takes it to the next one. Each item has three lanes: a worker that reads the paper, a
-- local preparation for PDFs, and a write lane that puts a note into Zotero. A lane is held by a lease
-- that ends; the write lane is serial over the batch, and a started write must never be sent twice by
-- accident: when its outcome is not known it is uncertain, until a read-only search reconciles it, and
-- it is tried again only after an acknowledgement that no note was found.
--
-- Parts, and the code that each is about (paths under paper_reader_batch/src/paper_reader_batch/):
--   Prelude    Boolean tests, lists, equality as an interface, results (`BatchRuntimeError` of
--              v2_errors.py is RuntimeError)
--   Contracts  v2_contracts.py: scalars, manifest, leases, state, events, and the validators that
--              run whenever a model is built; Contracts.Lanes is `StateItem.validate_lane_state`,
--              Contracts.Snapshot is `BatchState`
--   Reducer    v2_reducer.py, whole: one handler for each event, each split into the change of one
--              item and the frame that looks the item up and builds the next snapshot
--              (`update_at`, `with_items`); Reducer.Apply has `apply_event` and `replay`
--   Batch      the reducer's properties: Steps is an abstract step relation on items, Refines takes
--              every accepted event to a run of it, WriteLane is the write lane as a state machine;
--              Sample is a small batch with its journal, Tests applies the properties to it
--   Next       v2_next_actions.py, whole: which actions are offered for a run. Next itself and Claims
--              are about the items that are first in line, Lanes about what is offered for one item,
--              Derive about the sort, Placed about its order, Pending and Waiting about a request
--              that is pending, with Ended about what it makes pointless
--   Worker     v2_worker.py: the events that the worker's commands propose. Worker itself is
--              `worker.finish`, Claims `worker.claim`, Mutations the renewal, the release and the
--              retry. The other modules hold them against the reducer and against Next
--   Recovery   v2_run.py, `recover_run`: Attempts is what it reads from the journal about a local
--              attempt whose effects are not known, Propose the event that a recovery becomes. Workers,
--              Accepted and Writes hold the event against the reducer, Quiet is about the refusal
--
-- Correspondence. A pydantic model is a record, a discriminated union a data type. The fields that
-- name a lease, which the source repeats in each event, are one record that the event opens. An event
-- kind that is a string with a lane and a verb is two fields. A validator is a Boolean function that
-- is false where the source raises. A handler returns a Result: a snapshot, or the error that the
-- source raises, with its message. A loop over a list is a function by recursion on the list, so
-- nothing here runs on fuel. Python's `list.sort`, which is stable, is an insertion sort.
--
-- Read as numbers: digests and UUIDs are the numbers that their texts spell, and a time is the seconds
-- of its calendar part with its fraction, in microseconds where times are compared. Numbers are
-- unbounded, as in Python. The patterns and the bounds of single fields (an item id's characters, a
-- positive attempt number, a non-empty text), which pydantic checks before the reducer sees a value,
-- are not modelled, nor are the schema versions and the stored command result of an event, the title
-- and the summary of a manifest, which the reducer never reads. `uuid5` is an argument, `derive`; the
-- check of a result's artifacts, the comparison and the digests of lease tokens, the test of a PDF's
-- file, the ids of `uuid4`, the test for side effects of a local attempt and the uncertain write that a
-- recovery is to reconcile are arguments of the commands that use them. The end of the calendar is not
-- modelled. A limit or a duration that is asked for is a natural number; the negative ones, which the
-- source refuses as it does 0, are not represented.
--
-- Not modelled: files, locks and descriptors (v2_json.py, v2_journal.py but for the view of a run), the
-- artifacts of a paper (v2_artifacts.py), processes and clocks (v2_local_prepare.py, v2_write.py), of
-- v2_run.py all but the proposal of a recovery, of v2_worker.py the prompt and the loading of results,
-- reports and the command line, and the single-paper program paper_reader/.
pub mod Prelude
pub mod Contracts
pub mod Reducer
pub mod Batch
pub mod Worker
pub mod Next
pub mod Recovery
