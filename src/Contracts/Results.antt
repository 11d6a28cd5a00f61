-- ===== src/Contracts/Results.antt =====
-- The results that workers, local preparations and writers hand in, of v2_contracts.py, with their
-- validators, which are `true` where the source goes on and `false` where it raises.
use paperread.Prelude.{
  ℕ, String, Bool, true, false, not, ◌&&◌, ◌||◌, Option, none, some, List, [], ◌∷◌, suc, length,
  is_some, is_none, any, contains, leb, ◌==◌, ◌!=◌, nat_eq, string_eq, option_eq, if◌then◌else◌,
}
use paperread.Contracts.Scalars.{Sha256, UuidString, NonEmptyString, ItemId}
use paperread.Contracts.Manifest.{FileIdentity, PdfSource, SourceIdentity}
use paperread.Contracts.Events.{ReconciliationOutcome, verified, not_found, ambiguous, blocked}

pub record ArtifactRef : Type 0 where
  pub path : String
  pub size_bytes : ℕ
  pub sha256 : Sha256
  pub schema_version : NonEmptyString
  pub artifact_id : NonEmptyString

pub record SkillRootIdentity : Type 0 where
  pub path : String
  pub skill_md_sha256 : Sha256
  pub pyproject_sha256 : Sha256
  pub uv_lock_sha256 : Sha256
  pub runtime_sha256 : Sha256
  pub schemas_sha256 : Sha256

pub record ResultError : Type 0 where
  pub code : NonEmptyString
  pub message : NonEmptyString

-- The statuses of a worker's result are those of a finish but `prepared`.
pub data WorkerOutcome : Type 0 where
  worker_succeeded worker_failed worker_blocked : WorkerOutcome

pub record WorkerResult : Type 0 where
  pub manifest_sha256 : Sha256
  pub item_id : ItemId
  pub worker_id : NonEmptyString
  pub claim_id : UuidString
  pub attempt_id : UuidString
  pub attempt_number : ℕ
  pub lease_token_sha256 : Sha256
  pub status : WorkerOutcome
  pub source : SourceIdentity
  pub paper_reader_run : Option ArtifactRef
  pub review_package : Option ArtifactRef
  pub candidate : Option ArtifactRef
  pub local_publication : Option ArtifactRef
  pub error : Option ResultError

-- `isinstance(self.source, PdfSource)`
abbrev pub is_pdf_source : SourceIdentity → Bool
is_pdf_source (SourceIdentity.pdf s) = true
is_pdf_source (SourceIdentity.zotero_item s) = false
is_pdf_source (SourceIdentity.zotero_title s) = false

abbrev success_fits : WorkerResult → Bool
success_fits r =
    not (
      is_some r.error
      || is_none r.paper_reader_run
      || is_none r.review_package
      || is_none r.candidate)
    && not (is_pdf_source r.source && is_none r.local_publication)
    && not (not (is_pdf_source r.source) && is_some r.local_publication)

abbrev failure_fits : WorkerResult → Bool
failure_fits r =
    not (is_none r.error)
    && not (
        any (λ b. b)
          (is_some r.paper_reader_run
            ∷ is_some r.review_package
            ∷ is_some r.candidate
            ∷ is_some r.local_publication
            ∷ []))

outcome_at : WorkerOutcome → WorkerResult → Bool
outcome_at worker_succeeded r = success_fits r
outcome_at worker_failed r = failure_fits r
outcome_at worker_blocked r = failure_fits r

-- `WorkerResult.validate_outcome`
unfoldable pub validate_outcome : WorkerResult → Bool
unfolding outcome_at
validate_outcome r = outcome_at r.status r

pub data LocalOutcome : Type 0 where
  local_prepared local_failed local_blocked : LocalOutcome

pub record LocalPrepareResult : Type 0 where
  pub manifest_sha256 : Sha256
  pub item_id : ItemId
  pub worker_id : NonEmptyString
  pub claim_id : UuidString
  pub attempt_id : UuidString
  pub attempt_number : ℕ
  pub lease_token_sha256 : Sha256
  pub status : LocalOutcome
  pub source : PdfSource
  pub paper_reader_root : SkillRootIdentity
  pub paper_reader_run_directory : Option FileIdentity
  pub paper_reader_run : Option ArtifactRef
  pub evidence : Option ArtifactRef
  pub error : Option ResultError

abbrev local_failure_fits : LocalPrepareResult → Bool
local_failure_fits r =
    not (is_none r.error)
    && not
        (is_some r.paper_reader_run_directory || is_some r.paper_reader_run || is_some r.evidence)

local_outcome_at : LocalOutcome → LocalPrepareResult → Bool
local_outcome_at local_prepared r = not (
    is_some r.error
    || is_none r.paper_reader_run_directory
    || is_none r.paper_reader_run
    || is_none r.evidence)
local_outcome_at local_failed r = local_failure_fits r
local_outcome_at local_blocked r = local_failure_fits r

-- `LocalPrepareResult.validate_outcome`
unfoldable pub validate_local_outcome : LocalPrepareResult → Bool
unfolding local_outcome_at
validate_local_outcome r = local_outcome_at r.status r

-- Its status is always `written`.
pub record WriteResult : Type 0 where
  pub manifest_sha256 : Sha256
  pub item_id : ItemId
  pub writer_id : NonEmptyString
  pub claim_id : UuidString
  pub write_attempt_id : UuidString
  pub lease_token_sha256 : Sha256
  pub started_event_sha256 : Sha256
  pub candidate_sha256 : Sha256
  pub authorization_sha256 : Sha256
  pub authorization_nonce_sha256 : Sha256
  pub external_claim_id : UuidString
  pub note_key : NonEmptyString
  pub parent_key : NonEmptyString
  pub canonical_html_sha256 : Sha256
  pub verification : ArtifactRef

-- `WriteResult.validate_write_closure`
unfoldable pub validate_write_closure : WriteResult → Bool
validate_write_closure r =
    not (r.external_claim_id != r.claim_id)
    && not (r.verification.schema_version != "paper_reader.verification.v2")

pub record ReconciliationResult : Type 0 where
  pub manifest_sha256 : Sha256
  pub item_id : ItemId
  pub writer_id : NonEmptyString
  pub claim_id : UuidString
  pub lease_token_sha256 : Sha256
  pub write_attempt_id : UuidString
  pub candidate_sha256 : Sha256
  pub authorization_sha256 : Sha256
  pub readback_sha256 : Sha256
  pub parent_key : NonEmptyString
  pub exact_title : NonEmptyString
  pub canonical_html_sha256 : Sha256
  pub matched_note_keys : List NonEmptyString
  pub match_count : ℕ
  pub outcome : ReconciliationOutcome
  pub verification : Option ArtifactRef
  pub matched_note_key : Option NonEmptyString

-- `len(set(keys))`
unfoldable pub distinct_count : List NonEmptyString → ℕ
distinct_count [] = 0
distinct_count (k ∷ ks) = let rest = distinct_count ks in if contains ks k then rest else suc rest

abbrev pub first_key : List NonEmptyString → Option NonEmptyString
first_key [] = none
first_key (k ∷ ks) = some k

is_verification : Option ArtifactRef → Bool
is_verification none = false
is_verification (some a) = a.schema_version == "paper_reader.verification.v2"

abbrev selected : ReconciliationResult → Bool
selected r = is_some r.matched_note_key || is_some r.verification

one_match : ReconciliationResult → Bool
unfolding is_verification
one_match r =
    r.match_count == 1
    && r.matched_note_key == first_key r.matched_note_keys
    && is_verification r.verification

match_fits : ReconciliationOutcome → ReconciliationResult → Bool
unfolding one_match
match_fits not_found r = r.match_count == 0 && not (selected r)
match_fits ambiguous r = not (leb r.match_count 1) && not (selected r)
match_fits verified r = one_match r
match_fits blocked r = one_match r

-- `ReconciliationResult.validate_match_outcome`
unfoldable pub validate_match_outcome : ReconciliationResult → Bool
unfolding match_fits
validate_match_outcome r =
    r.match_count == length r.matched_note_keys
    && distinct_count r.matched_note_keys == r.match_count
    && match_fits r.outcome r
