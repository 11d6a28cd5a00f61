-- ===== src/Batch/Sample.antt =====
-- A small batch, one Zotero item and one PDF, and the events of a journal about it: the note's first
-- write is uncertain, is not found, and is tried again.
pub mod Runs
use paperread.Prelude.{ℕ, ◌+◌, true, none, some, List, [], ◌∷◌, ◌++◌, String}
use paperread.Contracts.Scalars.{UuidString, Rfc3339Utc}
use paperread.Contracts.Manifest.{
  BatchManifest, ManifestItem, pdf_item, zotero_item_item, source_of, zotero_write,
}
use paperread.Contracts.Status.{worker}
use paperread.Contracts.Events.{
  BatchEvent, EventData, LeaseIdentity, WriteIdentity, worker_claimed, succeeded, marked_uncertain,
  WriteUncertainData, UncertainKind, not_found, WriteStartedData, RunInitializedData,
}

-- A stand-in for the derivation of request ids.
abbrev pub derive : UuidString → UuidString
derive request = request + 1000

abbrev pub at_second : ℕ → Rfc3339Utc
at_second n = record { seconds = n; digits = 0; fraction = 0 }

abbrev pub zotero : ManifestItem
zotero =
    zotero_item_item "z"
      (record { item_key = "KEY"; title = "On lanes"; inventory_sha256 = 7; collection_key = none })

abbrev pub paper : ManifestItem
paper = pdf_item "p" (record {
  path = "/p.pdf";
  size_bytes = 10;
  sha256 = 8;
  file_identity = record { device = 1; inode = 2 };
})

abbrev pub manifest : BatchManifest
manifest = record {
  manifest_id = 1;
  created_at = at_second 0;
  default_concurrency = 1;
  write_policy = zotero_write;
  items = zotero ∷ paper ∷ [];
}

-- the position of the Zotero item
abbrev pub at_zotero : ℕ
at_zotero = 0

-- The n-th event, at second n, whose digest is 100 + n.
abbrev pub numbered : ℕ → EventData → BatchEvent
numbered n payload = record {
  sequence = n;
  event_id = n;
  occurred_at = at_second n;
  request_id = n;
  command = "command";
  request_fingerprint = n;
  manifest_sha256 = 5;
  previous_event_sha256 = some (99 + n);
  payload = payload;
  event_sha256 = 100 + n;
}

abbrev pub opening_data : RunInitializedData
opening_data = record { manifest_id = 1; initialized_at = at_second 1; lease_secret_sha256 = 6 }

abbrev pub opening : BatchEvent
opening = numbered 1 (EventData.run_initialized opening_data)

abbrev pub worker_identity : ℕ → LeaseIdentity
worker_identity n = record {
  actor_id = "reader";
  claim_id = 200 + n;
  attempt_id = 300 + n;
  attempt_number = 1;
  lease_token_sha256 = 400 + n;
}

-- The n-th event: a worker claims the item for an hour.
abbrev pub claim : ℕ → ManifestItem → String → BatchEvent
claim n m id = numbered n (
    EventData.claimed (record {
      kind = worker_claimed;
      assignments =
          record {
            item_id = id;
            lane = worker;
            identity = worker_identity n;
            issued_at = at_second n;
            expires_at = at_second (n + 3600);
            source = source_of m;
          }
          ∷ [];
    }))

-- The event after it: the worker succeeds.
abbrev pub finish_zotero : ℕ → BatchEvent
finish_zotero n = numbered (n + 1) (
    EventData.finished (record {
      lane = worker;
      item_id = "z";
      identity = worker_identity n;
      status = succeeded;
      result_sha256 = 500;
      resolved_zotero_item_key = some "KEY";
      candidate_sha256 = some 501;
      failure_code = none;
      failure_message = none;
    }))

abbrev pub finish_paper : ℕ → BatchEvent
finish_paper n = numbered (n + 1) (
    EventData.finished (record {
      lane = worker;
      item_id = "p";
      identity = worker_identity n;
      status = succeeded;
      result_sha256 = 502;
      resolved_zotero_item_key = none;
      candidate_sha256 = some 503;
      failure_code = none;
      failure_message = none;
    }))

abbrev pub write_identity : ℕ → ℕ → WriteIdentity
write_identity n number = record {
  writer_id = "writer";
  claim_id = 600 + n;
  write_attempt_id = 700 + n;
  attempt_number = number;
  lease_token_sha256 = 800 + n;
  candidate_sha256 = 501;
}

-- The n-th event claims the write for five minutes, the next one starts it.
abbrev pub claim_write : ℕ → ℕ → BatchEvent
claim_write n number = numbered n (
    EventData.write_claimed (record {
      item_id = "z";
      identity = write_identity n number;
      issued_at = at_second n;
      expires_at = at_second (n + 300);
    }))

abbrev pub start_data_of : ℕ → ℕ → WriteStartedData
start_data_of n number = record {
  item_id = "z";
  identity = write_identity n number;
  authorization_sha256 = 900 + n;
  authorization_nonce_sha256 = 1000 + n;
  external_claim_id = 600 + n;
  started_at = at_second (n + 1);
}

abbrev pub start_data : WriteStartedData
start_data = start_data_of 4 1

abbrev pub start_write : ℕ → ℕ → BatchEvent
start_write n number = numbered (n + 1) (EventData.write_started (start_data_of n number))

abbrev pub doubt : UncertainKind → WriteUncertainData
doubt kind = record {
  kind = kind;
  item_id = "z";
  identity = write_identity 4 1;
  authorization_sha256 = 904;
  reason = "timeout";
}

-- The writer cannot tell what happened; no note is found; the write is tried again.
abbrev pub doubtful : List BatchEvent
doubtful =
    claim 2 zotero "z"
    ∷ finish_zotero 2
    ∷ claim_write 4 1
    ∷ start_write 4 1
    ∷ numbered 6 (EventData.write_uncertain (doubt marked_uncertain))
    ∷ []

abbrev pub retried : List BatchEvent
retried =
    numbered 7 (
      EventData.write_reconciled (record {
        item_id = "z";
        identity = write_identity 4 1;
        authorization_sha256 = 904;
        reconciliation_sha256 = 510;
        outcome = not_found;
      }))
    ∷ numbered 8 (
        EventData.write_retried (record {
          item_id = "z";
          previous_writer_id = "writer";
          previous_claim_id = 604;
          previous_write_attempt_id = 704;
          previous_attempt_number = 1;
          previous_lease_token_sha256 = 804;
          candidate_sha256 = 501;
          authorization_sha256 = 904;
          previous_authorization_nonce_sha256 = 1004;
          previous_external_claim_id = 604;
          reconciliation_sha256 = 510;
          acknowledged_no_match = true;
          next_write_attempt_id = 709;
          next_attempt_number = 2;
        }))
    ∷ []

-- The second attempt writes the note.
abbrev pub committed : List BatchEvent
committed =
    claim_write 9 2
    ∷ start_write 9 2
    ∷ numbered 11 (
        EventData.write_written (record {
          item_id = "z";
          identity = write_identity 9 2;
          authorization_sha256 = 909;
          result_sha256 = 511;
          note_key = "NOTE";
          parent_key = "KEY";
          canonical_html_sha256 = 512;
        }))
    ∷ []

-- Then the PDF is read.
abbrev pub remaining : List BatchEvent
remaining = claim 12 paper "p" ∷ finish_paper 12 ∷ []

abbrev pub journal : List BatchEvent
journal = doubtful ++ (retried ++ committed)
