-- ===== src/Worker/Mutations.antt =====
-- `worker.renew`, `worker.release` and `worker.retry` of v2_worker.py: the events they propose.
use paperread.Prelude.{
  ℕ, ◌+◌, ◌-◌, ◌*◌, ◌^◌, Bool, not, ◌||◌, none, some, Result, RuntimeError, ok, err, ◌>>=◌, ◌>>◌,
  or_raise, raise_if, leb, ltb, is_some, if◌then◌else◌, List, [], ◌∷◌, ◌==◌, string_eq, String,
}
use paperread.Contracts.Scalars.{UuidString, ItemId, Rfc3339Utc, timestamp}
use paperread.Contracts.Manifest.{BatchManifest, ManifestItem, is_pdf, item_id_of}
use paperread.Contracts.Status.{worker}
use paperread.Contracts.State.{BatchState}
use paperread.Contracts.Lanes.{is_failed}
use paperread.Contracts.Events.{LeaseMutationData, renewed, released, RetriedData}
use paperread.Worker.{LeaseRequest, named_lease, active_worker_lease, find_item}

-- `_format_utc(_parse_utc(time) + timedelta(seconds=n))`: the fraction is written with six digits.
-- The end of the calendar is not modelled.
abbrev pub after_seconds : Rfc3339Utc → ℕ → Rfc3339Utc
after_seconds time n = record {
  seconds = time.seconds + n;
  digits = 6;
  fraction = time.fraction * 10 ^ (6 - time.digits);
}

-- `next(entry for entry in items if entry.item_id == item_id)`
unfoldable pub next_entry : List ManifestItem → ItemId → Result ManifestItem
next_entry [] item_id = err (record { code = "StopIteration"; message = item_id })
next_entry (m ∷ ms) item_id = if item_id_of m == item_id then ok m else next_entry ms item_id

-- `_raise_input_error`: a request that is bound already conflicts, whatever is wrong with its input.
abbrev pub input_error : Bool → String → String → RuntimeError
input_error bound code message =
    if bound
    then record {
      code = "idempotency_conflict";
      message = "request id is already bound to different command input";
    }
    else record { code = code; message = message }

abbrev pub max_lease_seconds : ℕ
max_lease_seconds = 3600

abbrev pub invalid_lease : Bool → RuntimeError
invalid_lease bound = input_error bound "invalid_lease" "lease seconds must be between 1 and 3600"

unfoldable pub check_lease_seconds : Bool → ℕ → Result (Unit {0})
check_lease_seconds bound n = raise_if (ltb n 1 || ltb max_lease_seconds n) (invalid_lease bound)

unfoldable pub check_acknowledgement : Bool → Bool → Result (Unit {0})
check_acknowledgement bound acknowledged = raise_if (not acknowledged) (
    input_error bound "acknowledgement_required"
      "worker release requires --acknowledge-no-side-effects")

-- The test of the file of a PDF item, which reads the file, is the argument `validate_pdf_source`.
unfoldable pub check_source : (ManifestItem → Result (Unit {0})) → ManifestItem → Result (Unit {0})
check_source validate_pdf_source m = if is_pdf m then validate_pdf_source m else ok tt

-- The argument `token_fits` is the comparison of the request's token.
module _ (token_fits : UuidString → UuidString → Bool) where
  -- `propose` of `renew_worker`
  unfoldable pub propose_renew :
      (ManifestItem → Result (Unit {0}))
      → BatchManifest
      → BatchState
      → LeaseRequest
      → ℕ
      → Rfc3339Utc
      → Result LeaseMutationData
  propose_renew validate_pdf_source manifest state q lease_seconds now = do
    item ← find_item state.items q.item_id
    lease ← active_worker_lease token_fits q now item
    m ← next_entry manifest.items q.item_id
    check_source validate_pdf_source m
    raise_if (leb (timestamp (after_seconds now lease_seconds)) (timestamp lease.expires_at))
        (record {
          code = "lease_not_extended";
          message = "renewal must extend the existing lease expiry";
        })
    ok (record {
      lane = worker;
      kind = renewed;
      item_id = q.item_id;
      identity = named_lease q lease;
      issued_at = some now;
      expires_at = some (after_seconds now lease_seconds);
    })

  -- `propose` of `release_worker`
  unfoldable pub propose_release : BatchState → LeaseRequest → Rfc3339Utc → Result LeaseMutationData
  propose_release state q now = do
    item ← find_item state.items q.item_id
    lease ← active_worker_lease token_fits q now item
    ok (record {
      lane = worker;
      kind = released;
      item_id = q.item_id;
      identity = named_lease q lease;
      issued_at = none;
      expires_at = none;
    })

missing_identity : RuntimeError
missing_identity = record {
  code = "journal_corrupt";
  message = "failed worker state is missing last attempt identity";
}

-- `propose` of `retry_worker`; the argument is the id that `uuid4` gives for the next attempt.
unfoldable pub propose_retry : UuidString → BatchState → ItemId → Result RetriedData
unfolding missing_identity
propose_retry next_attempt_id state item_id = do
  item ← find_item state.items item_id
  raise_if (not (is_failed item.worker_status) || is_some item.worker_lease) (record {
    code = "retry_not_allowed";
    message = "worker retry requires a failed/blocked inactive attempt";
  })
  actor ← or_raise item.worker_last_actor_id missing_identity
  claim ← or_raise item.worker_last_claim_id missing_identity
  attempt ← or_raise item.worker_last_attempt_id missing_identity
  token ← or_raise item.worker_last_lease_token_sha256 missing_identity
  ok (record {
    item_id = item_id;
    previous_actor_id = actor;
    previous_claim_id = claim;
    previous_attempt_id = attempt;
    previous_attempt_number = item.worker_attempt_count;
    previous_lease_token_sha256 = token;
    next_attempt_id = next_attempt_id;
    next_attempt_number = item.worker_attempt_count + 1;
  })
