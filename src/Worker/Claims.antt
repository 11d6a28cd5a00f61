-- ===== src/Worker/Claims.antt =====
-- `worker.claim` of v2_worker.py: which items are taken, and the event that is proposed.
use Prim.Native.Char.{code}
use paperread.Prelude.{
  is_empty, ℕ, zero, suc, ◌+◌, ◌-◌, String, Bool, true, false, not, ◌&&◌, ◌||◌, Option, none, some,
  List, [], ◌∷◌, Result, RuntimeError, ok, err, ◌>>=◌, ◌>>◌, or_raise, raise_if, ltb, contains,
  nat_eq, ◌==◌, ◌!=◌, string_eq, option_eq, if◌then◌else◌,
}
use paperread.Contracts.Scalars.{UuidString, Sha256, NonEmptyString, ItemId, Rfc3339Utc}
use paperread.Contracts.Manifest.{BatchManifest, ManifestItem, item_id_of, source_of, is_pdf}
use paperread.Contracts.Status.{worker, WorkerStatus, LocalPrepareStatus, worker_eq, local_eq}
use paperread.Contracts.State.{StateItem, BatchState}
use paperread.Contracts.Events.{ClaimAssignment, ClaimedData, worker_claimed}
use paperread.Reducer.Claim.{active_claims, coordination_uncertain}
use paperread.Worker.Mutations.{input_error, check_lease_seconds, check_source, after_seconds}

-- The code points that `str.strip` removes.
abbrev pub whitespace : List ℕ
whitespace =
    9 ∷ 10 ∷ 11 ∷ 12 ∷ 13 ∷ 28 ∷ 29 ∷ 30 ∷ 31 ∷ 32 ∷ 133 ∷ 160 ∷ 5760 ∷ 8192 ∷ 8193 ∷ 8194 ∷ 8195
    ∷ 8196 ∷ 8197 ∷ 8198 ∷ 8199 ∷ 8200 ∷ 8201 ∷ 8202 ∷ 8232 ∷ 8233 ∷ 8239 ∷ 8287 ∷ 12288 ∷ []

-- `not text.strip()`
abbrev pub is_blank : String → Bool
is_blank String.[] = true
is_blank (String.◌∷◌ c text) = contains whitespace (code c) && is_blank text

abbrev pub limit_or : Option ℕ → ℕ → ℕ
limit_or none concurrency = concurrency
limit_or (some limit) concurrency = limit

abbrev pub invalid_worker : Bool → RuntimeError
invalid_worker bound = input_error bound "invalid_worker" "worker id must not be empty"

abbrev pub invalid_limit : Bool → RuntimeError
invalid_limit bound =
    input_error bound "invalid_limit"
      "worker claim limit must be positive and no greater than manifest default concurrency"

-- The tests of the input, whose limit is the manifest's concurrency when none is given. The argument
-- `bound` tells that the request's id has an event already.
unfoldable pub check_claim_input : Bool → BatchManifest → String → Option ℕ → ℕ → Result ℕ
check_claim_input bound manifest worker_id limit lease_seconds = do
  raise_if (is_blank worker_id) (invalid_worker bound)
  let requested = limit_or limit manifest.default_concurrency
  raise_if (ltb requested 1 || ltb manifest.default_concurrency requested) (invalid_limit bound)
  check_lease_seconds bound lease_seconds
  ok requested

-- `manifest_by_id[item_id]`, of a dict in which a later item of one id replaces an earlier one
unfoldable pub manifest_by_id : List ManifestItem → ItemId → Option ManifestItem
manifest_by_id [] item_id = none
manifest_by_id (m ∷ ms) item_id = elim (manifest_by_id ms item_id) [
  | some later ↦ some later
  | none ↦ if item_id_of m == item_id then some m else none
]

-- The first tests of the loop in `_claimable_worker_items`.
abbrev pub is_waiting : StateItem → Bool
is_waiting item =
    not (
      item.worker_status != WorkerStatus.queued
      || item.local_prepare_status == LocalPrepareStatus.claimed)
    && not (coordination_uncertain item)

abbrev pub key_error : ItemId → RuntimeError
key_error item_id = record { code = "KeyError"; message = item_id }

-- The loop of `_claimable_worker_items`: `count` more items are wanted, and `selected_pdf` tells
-- that one of those taken is a PDF.
unfoldable pub select_items :
    List ManifestItem → ℕ → Bool → List StateItem → Result (List StateItem)
select_items ms zero selected_pdf items = ok []
select_items ms (suc count) selected_pdf [] = ok []
select_items ms (suc count) selected_pdf (item ∷ items) = elim (is_waiting item) [
  | false ↦ select_items ms (suc count) selected_pdf items
  | true ↦ elim (manifest_by_id ms item.item_id) [
    | none ↦ err (key_error item.item_id)
    | some m ↦ elim (is_pdf m && selected_pdf) [
      | true ↦ select_items ms (suc count) selected_pdf items
      | false ↦ select_items ms count (is_pdf m || selected_pdf) items >>= λ rest. ok (item ∷ rest)
    ]
  ]
]

-- `min(a, b)`
abbrev pub min : ℕ → ℕ → ℕ
min a b = if ltb b a then b else a

-- The capacity that is left is 0 where the source has a negative number; both take nothing.
abbrev pub capacity : BatchManifest → BatchState → ℕ
capacity manifest state = manifest.default_concurrency - active_claims state.items

abbrev pub claimable_worker_items : BatchManifest → BatchState → ℕ → Result (List StateItem)
claimable_worker_items manifest state max_items =
    select_items manifest.items max_items false state.items

unfoldable pub check_sources :
    (ManifestItem → Result (Unit {0})) → List ManifestItem → List StateItem → Result (Unit {0})
check_sources validate_pdf_source ms [] = ok tt
check_sources validate_pdf_source ms (item ∷ items) = do
  m ← or_raise (manifest_by_id ms item.item_id) (key_error item.item_id)
  check_source validate_pdf_source m
  check_sources validate_pdf_source ms items

-- `pending or str(uuid4())`
abbrev pub attempt_of : Option UuidString → UuidString → UuidString
attempt_of none fresh = fresh
attempt_of (some pending) fresh = pending

abbrev pub draws_of : Option UuidString → ℕ
draws_of none = 2
draws_of (some pending) = 1

-- The arguments: `token_sha256`, the digest of the token that is derived for a claim and an attempt;
-- `uuid`, what the calls of `uuid4` give, by their number.
module _ (token_sha256 : UuidString → UuidString → Sha256) (uuid : ℕ → UuidString) where
  abbrev pub assignment_of :
      ManifestItem → NonEmptyString → Rfc3339Utc → Rfc3339Utc → ℕ → StateItem → ClaimAssignment
  assignment_of m worker_id issued expires drawn item =
      let attempt_id = attempt_of item.worker_pending_attempt_id (uuid (suc drawn)) in
      record {
        item_id = item.item_id;
        lane = worker;
        identity = record {
          actor_id = worker_id;
          claim_id = uuid drawn;
          attempt_id = attempt_id;
          attempt_number = item.worker_attempt_count + 1;
          lease_token_sha256 = token_sha256 (uuid drawn) attempt_id;
        };
        issued_at = issued;
        expires_at = expires;
        source = source_of m;
      }

  unfoldable pub assign :
      List ManifestItem
      → NonEmptyString
      → Rfc3339Utc
      → Rfc3339Utc
      → ℕ
      → List StateItem
      → Result (List ClaimAssignment)
  assign ms worker_id issued expires drawn [] = ok []
  assign ms worker_id issued expires drawn (item ∷ items) = do
    m ← or_raise (manifest_by_id ms item.item_id) (key_error item.item_id)
    rest ←
        assign ms worker_id issued expires (drawn + draws_of item.worker_pending_attempt_id) items
    ok (assignment_of m worker_id issued expires drawn item ∷ rest)

  -- `propose` of `claim_worker`
  unfoldable pub propose_claim :
      (ManifestItem → Result (Unit {0}))
      → BatchManifest
      → BatchState
      → NonEmptyString
      → ℕ
      → ℕ
      → Rfc3339Utc
      → Result ClaimedData
  propose_claim validate_pdf_source manifest state worker_id requested_limit lease_seconds now = do
    eligible ← claimable_worker_items manifest state (min requested_limit (capacity manifest state))
    raise_if (is_empty eligible)
        (record { code = "no_available_work"; message = "no worker item is currently claimable" })
    check_sources validate_pdf_source manifest.items eligible
    assignments ← assign manifest.items worker_id now (after_seconds now lease_seconds) 0 eligible
    ok (record { kind = worker_claimed; assignments = assignments })
