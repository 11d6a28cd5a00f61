-- ===== src/Contracts/Manifest.antt =====
-- The manifest of v2_contracts.py: sources, items, and the validator that keeps them apart.
use paperread.Prelude.{
  ℕ, String, Bool, true, false, ◌&&◌, ◌||◌, Option, none, some, List, [], ◌∷◌, nat_beq, ◌==◌,
  nat_eq, string_eq, option_eq, contains, any, if◌then◌else◌,
}
use paperread.Contracts.Scalars.{Sha256, UuidString, NonEmptyString, ItemId, Rfc3339Utc}

pub record FileIdentity : Type 0 where
  pub device : ℕ
  pub inode : ℕ

pub record PdfSource : Type 0 where
  pub path : String
  pub size_bytes : ℕ
  pub sha256 : Sha256
  pub file_identity : FileIdentity

pub record ZoteroItemSource : Type 0 where
  pub item_key : NonEmptyString
  pub title : NonEmptyString
  pub inventory_sha256 : Sha256
  pub collection_key : Option NonEmptyString

pub record ZoteroTitleSource : Type 0 where
  pub title : NonEmptyString
  pub resolved_item_key : Option NonEmptyString
  pub inventory_sha256 : Option Sha256

pub data SourceIdentity : Type 0 where
  pdf : PdfSource → SourceIdentity
  zotero_item : ZoteroItemSource → SourceIdentity
  zotero_title : ZoteroTitleSource → SourceIdentity

-- `==` on frozen models compares all fields.
abbrev pub source_beq : SourceIdentity → SourceIdentity → Bool
source_beq (SourceIdentity.pdf a) (SourceIdentity.pdf b) =
    a.path == b.path
    && nat_beq a.size_bytes b.size_bytes
    && nat_beq a.sha256 b.sha256
    && nat_beq a.file_identity.device b.file_identity.device
    && nat_beq a.file_identity.inode b.file_identity.inode
source_beq (SourceIdentity.zotero_item a) (SourceIdentity.zotero_item b) =
    a.item_key == b.item_key
    && a.title == b.title
    && nat_beq a.inventory_sha256 b.inventory_sha256
    && a.collection_key == b.collection_key
source_beq (SourceIdentity.zotero_title a) (SourceIdentity.zotero_title b) =
    a.title == b.title
    && a.resolved_item_key == b.resolved_item_key
    && a.inventory_sha256 == b.inventory_sha256
source_beq _ _ = false

pub data InputType : Type 0 where
  pdf_path zotero_item zotero_title : InputType

pub data ExpectedOutput : Type 0 where
  local_note zotero_note_candidate : ExpectedOutput

-- The three models of a manifest item; `input_type` and `expected_output` are fixed by the model.
pub data ManifestItem : Type 0 where
  pdf_item : ItemId → PdfSource → ManifestItem
  zotero_item_item : ItemId → ZoteroItemSource → ManifestItem
  zotero_title_item : ItemId → ZoteroTitleSource → ManifestItem

abbrev pub item_id_of : ManifestItem → ItemId
item_id_of (pdf_item i s) = i
item_id_of (zotero_item_item i s) = i
item_id_of (zotero_title_item i s) = i

abbrev pub source_of : ManifestItem → SourceIdentity
source_of (pdf_item i s) = SourceIdentity.pdf s
source_of (zotero_item_item i s) = SourceIdentity.zotero_item s
source_of (zotero_title_item i s) = SourceIdentity.zotero_title s

abbrev pub input_type_of : ManifestItem → InputType
input_type_of (pdf_item i s) = pdf_path
input_type_of (zotero_item_item i s) = zotero_item
input_type_of (zotero_title_item i s) = zotero_title

abbrev pub expected_output_of : ManifestItem → ExpectedOutput
expected_output_of (pdf_item i s) = local_note
expected_output_of (zotero_item_item i s) = zotero_note_candidate
expected_output_of (zotero_title_item i s) = zotero_note_candidate

-- `isinstance(item, PdfManifestItem)`
abbrev pub is_pdf : ManifestItem → Bool
is_pdf (pdf_item i s) = true
is_pdf (zotero_item_item i s) = false
is_pdf (zotero_title_item i s) = false

pub data WritePolicy : Type 0 where
  zotero_write prepare_only : WritePolicy

abbrev pub is_zotero_write : WritePolicy → Bool
is_zotero_write zotero_write = true
is_zotero_write prepare_only = false

-- `batch_title` and `source_summary` are descriptions that nothing modelled here reads.
pub record BatchManifest : Type 0 where
  pub manifest_id : UuidString
  pub created_at : Rfc3339Utc
  pub default_concurrency : ℕ
  pub write_policy : WritePolicy
  pub items : List ManifestItem

-- what `reject_duplicate_identities` has collected so far
pub record Seen : Type 0 where
  pub item_ids : List String
  pub pdf_paths : List String
  pub file_ids : List (ℕ × ℕ)
  pub zotero_keys : List String

abbrev pub contains_file : List (ℕ × ℕ) → FileIdentity → Bool
contains_file ids f = any (λ p. nat_beq p.0 f.device && nat_beq p.1 f.inode) ids

abbrev add_key : Seen → String → Seen
add_key seen key = record seen { zotero_keys = key ∷ seen.zotero_keys }

-- One round of the loop; `none` where it raises.
see_key : Seen → String → Option Seen
see_key seen key = if contains seen.zotero_keys key then none else some (add_key seen key)

see_title : Seen → Option String → Option Seen
unfolding see_key
see_title seen none = some seen
see_title seen (some key) = see_key seen key

see_source : Seen → SourceIdentity → Option Seen
unfolding see_title
see_source seen (SourceIdentity.pdf s) =
    if contains seen.pdf_paths s.path || contains_file seen.file_ids s.file_identity
    then none
    else some (record seen {
      pdf_paths = s.path ∷ seen.pdf_paths;
      file_ids = (s.file_identity.device, s.file_identity.inode) ∷ seen.file_ids;
    })
see_source seen (SourceIdentity.zotero_item s) = see_key seen s.item_key
see_source seen (SourceIdentity.zotero_title s) = see_title seen s.resolved_item_key

unfoldable pub see : Seen → ManifestItem → Option Seen
unfolding see_source see_key see_title
see seen item =
    if contains seen.item_ids (item_id_of item)
    then none
    else see_source (record seen { item_ids = item_id_of item ∷ seen.item_ids }) (source_of item)

unfoldable pub see_all : Seen → List ManifestItem → Bool
unfolding see
see_all seen [] = true
see_all seen (item ∷ items) = elim (see seen item) [
  | none ↦ false
  | some seen' ↦ see_all seen' items
]

-- `reject_duplicate_identities`
unfoldable pub reject_duplicate_identities : BatchManifest → Bool
unfolding see_all
reject_duplicate_identities manifest =
    see_all (record { item_ids = []; pdf_paths = []; file_ids = []; zotero_keys = [] })
      manifest.items
