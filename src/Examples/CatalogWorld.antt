-- ===== src/Examples/CatalogWorld.antt =====
-- A catalog with one page of one video, and a database that refuses nothing.
use vidra_search.Prelude.{
  ℕ, pos, ltb, String, true, false, none, some, List, [], ◌∷◌, str_eq, if◌then◌else◌, Option,
}
use vidra_search.Store.Rows.{Document}
use vidra_search.Store.Stmt.{placeholder}
use vidra_search.Event.Types.{Envelope}
use vidra_search.Catalog.Decimal.{Bytes}
use vidra_search.Catalog.Generation.{JsonText}
use vidra_search.Catalog.Digests.{Codec, Identity, Manifest, PageDigest, good, empty_sha256}
use vidra_search.Catalog.Tables.{ScopeRow, SnapshotRow, PageRow, CatalogDb, Host}
use vidra_search.Catalog.Intake.{Parsers}

abbrev unquote : Bytes → Option Bytes
unquote [] = none
unquote (c ∷ s) = some s

abbrev pub json : JsonText
json = record { quote = λ s. 34 ∷ s; unquote = unquote }

-- A hash of one value, and one known page.
abbrev pub codec : Codec
codec = record {
  sha256_hex = λ bytes. empty_sha256;
  canonical = λ raw. if str_eq raw "page" then some (1 ∷ []) else none;
  members = λ bytes. some (3 ∷ []);
  uuid_bytes = λ u. u ∷ [];
  uuid_less = ltb;
}

abbrev pub video : Document
video = placeholder 3 none 10

abbrev pub host : Host
host = record {
  codec = codec;
  jsonb = λ bytes. "page";
  incoming = λ text. video ∷ [];
  incoming_is_valid = λ text. true;
  fails = λ st db. none;
  now = 100;
  is_fresh = λ created now. true;
}

abbrev pub identity : Identity
identity = record { scope = "local"; epoch = 7; generation = 5 }

abbrev pub first_page : PageDigest
first_page = record { page_index = pos 0; content_sha256 = empty_sha256 }

abbrev pub manifest : Manifest
manifest = record {
  page_count = pos 1;
  document_count = pos 1;
  membership_sha256 = empty_sha256;
  pages_sha256 = empty_sha256;
}

abbrev pub parsers : Parsers
parsers = record {
  page = λ raw. good (record { identity = identity; digest = first_page; documents = "page" });
  end = λ raw. good (record { identity = identity; manifest = manifest });
  uuid_string = λ u. "id";
  error_text = λ e. "error";
}

abbrev message : ℕ → String → Envelope
message id type = record {
  event_id = id;
  type = type;
  occurred_at = 90;
  schema_version = pos 2;
  payload = "payload";
}

-- The page, and the end that completes it.
abbrev pub delivery : List Envelope
delivery = message 1 "catalog.snapshot.page" ∷ message 2 "catalog.snapshot.end" ∷ []

abbrev pub orphan : Document
orphan = record (placeholder 4 none 10) { eligible = true }

abbrev pub remote : Document
remote = record (placeholder 9 none 10) { kind = "remote"; eligible = true }

abbrev pub fresh : CatalogDb
fresh = record { epochs = []; scope = none; snapshot = none; documents = orphan ∷ remote ∷ [] }

abbrev pub scope_at_start : ScopeRow
scope_at_start = record {
  epoch = 7;
  highest = 0;
  completed = 0;
  completed_at = none;
  manifest = none;
}

abbrev pub opened : CatalogDb
opened = record fresh {
  epochs = record { epoch = 7; predecessor = none } ∷ [];
  scope = some scope_at_start;
}

abbrev pub stored_page : PageRow
stored_page = record {
  page_index = 0;
  documents = "page";
  document_count = 1;
  content_sha256 = empty_sha256;
}

abbrev pub slot : SnapshotRow
slot = record {
  epoch = 7;
  generation = 5;
  created_at = 100;
  declared = some manifest;
  canonical_bytes = 1;
  pages = stored_page ∷ [];
}

-- The page and the end are staged, and nothing is published.
abbrev pub staged : CatalogDb
staged = record opened {
  scope = some (record scope_at_start { highest = 5 });
  snapshot = some slot;
}

abbrev pub published : CatalogDb
published = record opened {
  scope = some (record {
    epoch = 7;
    highest = 5;
    completed = 5;
    completed_at = some 100;
    manifest = some manifest;
  });
  documents =
      record orphan {
        eligible = false;
        suppressed_reason = some "catalog_orphan";
        indexed_at = 100;
      }
      ∷ remote
      ∷ record video { eligible = true; indexed_at = 100 }
      ∷ [];
}
