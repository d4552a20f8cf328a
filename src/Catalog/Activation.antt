-- ===== src/Catalog/Activation.antt =====
-- internal/store: catalog_verified.go and catalog_activation.go.
use vidra_search.Prelude.{
  ltb, ◌==◌, pos, ltb_ℤ, Bool, true, false, not, ◌&&◌, ◌||◌, Option, none, some, List, [], ◌∷◌,
  ◌++◌, any, length, map, str_eq, if◌then◌else◌,
}
use vidra_search.Prelude.Sort.{stable_sort}
use vidra_search.Store.Rows.{Uuid, Document}
use vidra_search.Store.Tables.{upsert, update_where}
use vidra_search.Catalog.Digests.{Identity, Manifest, conflict, validate_identity, eq_ℤ, same_test}
use vidra_search.Catalog.Tables.{
  PageRow, ScopeRow, SnapshotRow, CatalogDb, Host, lock_catalog, select_scope, select_snapshot,
  select_pages, select_invalid, upsert_incoming, suppress_orphans, set_completed, delete_snapshots,
}
use vidra_search.Catalog.Tx.{Tx, pure, lift, raise, read, write, call, ◌>>=◌, ◌>>◌}
use vidra_search.Catalog.Authority.{is_pending, drop_snapshot}
use vidra_search.Catalog.Staging.{recast, staged_pages, member}
use vidra_search.Catalog.Snapshot.{SnapshotPage, verify_snapshot}

abbrev pub page_less : PageRow → PageRow → Bool
page_less p q = ltb p.page_index q.page_index

abbrev pub snapshot_page : PageRow → SnapshotPage
snapshot_page p = record {
  digest = record { page_index = pos p.page_index; content_sha256 = p.content_sha256 };
  documents = p.documents;
  document_count = p.document_count;
}

module _ (h : Host) (id : Identity) where
  -- The pages in order, verified against the manifest; fewer than it names are not yet complete.
  abbrev pub verified_pages : Manifest → SnapshotRow → List SnapshotPage → Tx (Option Manifest)
  verified_pages m s pages = if ltb_ℤ (pos (length pages)) m.page_count then pure none else do
    lift (
        recast (conflict "snapshot verification")
          (verify_snapshot h.codec m pages s.canonical_bytes))
    pure (some m)

  unfoldable pub verify_declared : Manifest → SnapshotRow → Tx (Option Manifest)
  verify_declared m s = do
    pages ← read h select_pages (λ db. map snapshot_page (stable_sort page_less (staged_pages db)))
    verified_pages m s pages

  -- Without its end a snapshot is not complete.
  abbrev pub load_declared : SnapshotRow → Option Manifest → Tx (Option Manifest)
  load_declared s none = pure none
  load_declared s (some m) = verify_declared m s

  abbrev pub load_pending : Option SnapshotRow → Tx (Option Manifest)
  load_pending none = raise (conflict "expired pending observation")
  load_pending (some s) =
      if is_pending h id.epoch id.generation (some s)
      then load_declared s s.declared
      else raise (conflict "expired pending observation")

  unfoldable pub load_current : Tx (Option Manifest)
  load_current = do s ← read h select_snapshot (λ db. db.snapshot); load_pending s

  abbrev pub load_against : Option ScopeRow → Tx (Option Manifest)
  load_against none = raise (conflict "uninitialized scope")
  load_against (some s) =
      if not (s.epoch == id.epoch)
      then raise (conflict "epoch mismatch")
      else if id.generation == s.completed
      then pure none
      else if not (id.generation == s.highest)
      then raise (conflict "observation is not current")
      else load_current

  -- LoadVerifiedCatalogSnapshot
  unfoldable pub load_verified : Tx (Option Manifest)
  load_verified = do
    lift (recast (conflict "invalid identity") (validate_identity id))
    call h lock_catalog
    row ← read h select_scope (λ db. db.scope)
    load_against row

-- The rows that the pages of the snapshot hold: the table `incoming`.
abbrev pub incoming_of : Host → List PageRow → List Document
incoming_of h [] = []
incoming_of h (p ∷ ps) = h.incoming p.documents ++ incoming_of h ps

abbrev pub incoming_rows : Host → CatalogDb → List Document
incoming_rows h db = incoming_of h (staged_pages db)

abbrev pub is_local : Document → Bool
is_local d = str_eq d.kind "local"

abbrev pub document_ids : List Document → List Uuid
document_ids ds = map (λ d. d.video_id) ds

-- Some element is not an eligible local video, or its id belongs to a document that is not local. The
-- test of the elements' JSON fields is the parameter `incoming_is_valid`.
unfoldable pub is_invalid : Host → CatalogDb → Bool
is_invalid h db =
    any (λ p. not (h.incoming_is_valid p.documents)) (staged_pages db)
    || any (λ d. not (is_local d) && member d.video_id (document_ids (incoming_rows h db)))
        db.documents

-- The row that an incoming document makes of a local one: the counters stay.
abbrev pub refreshed : Host → Document → Document → Document
refreshed h new live = record new {
  kind = live.kind;
  eligible = true;
  suppressed_reason = none;
  views = live.views;
  likes = live.likes;
  indexed_at = h.now;
  reconcile_run_id = live.reconcile_run_id;
}

abbrev pub refresh_live : Host → Document → Document → Document
refresh_live h new live = if is_local live then refreshed h new live else live

-- IS NOT DISTINCT FROM, on the columns that a full observation sets.
module _ {A : Type 0} (same : A → A → Bool) where
  abbrev pub eq_option : Option A → Option A → Bool
  eq_option none none = true
  eq_option none (some b) = false
  eq_option (some a) none = false
  eq_option (some a) (some b) = same a b

  abbrev pub eq_list : List A → List A → Bool
  eq_list [] [] = true
  eq_list [] (b ∷ bs) = false
  eq_list (a ∷ xs) [] = false
  eq_list (a ∷ xs) (b ∷ bs) = same a b && eq_list xs bs

abbrev pub same_columns : Document → Document → Bool
same_columns d e =
    eq_option (λ x y. x == y) d.channel_id e.channel_id
    && eq_option str_eq d.channel_handle e.channel_handle
    && eq_option str_eq d.channel_name e.channel_name
    && eq_option (λ x y. x == y) d.owner_id e.owner_id
    && str_eq d.title e.title
    && str_eq d.description e.description
    && eq_list str_eq d.tags e.tags
    && eq_option str_eq d.category e.category
    && eq_option str_eq d.language e.language
    && eq_option str_eq d.license e.license
    && eq_option eq_ℤ d.duration_seconds e.duration_seconds
    && same_test d.is_sensitive e.is_sensitive
    && same_test d.eligible e.eligible
    && eq_option str_eq d.suppressed_reason e.suppressed_reason
    && eq_option (λ x y. x == y) d.published_at e.published_at
    && d.source_updated_at == e.source_updated_at

-- The row that an incoming document is inserted as.
abbrev pub seed_row : Host → Document → Document
seed_row h d = record d {
  kind = "local";
  eligible = true;
  suppressed_reason = none;
  indexed_at = h.now;
  reconcile_run_id = none;
}

-- A row that would not change is not rewritten.
abbrev pub merge_live : Host → Document → Document → Document
merge_live h new live = if same_columns (seed_row h new) live then live else refresh_live h new live

abbrev pub has_id : Uuid → Document → Bool
has_id u d = d.video_id == u

abbrev pub project_one : Host → Document → List Document → List Document
project_one h d ds = upsert (has_id d.video_id) (merge_live h d) (seed_row h d) ds

-- The INSERT with its ON CONFLICT, one row after the other; the database refuses an id that stands
-- twice among the rows, and the ids of a verified snapshot are distinct.
unfoldable pub project_all : Host → List Document → List Document → List Document
project_all h [] ds = ds
project_all h (d ∷ rest) ds = project_all h rest (project_one h d ds)

abbrev pub project : Host → CatalogDb → CatalogDb
project h db = record db { documents = project_all h (incoming_rows h db) db.documents }

-- Local eligible documents that the observation does not have.
abbrev pub is_orphan : List Uuid → Document → Bool
is_orphan ids d = is_local d && d.eligible && not (member d.video_id ids)

abbrev pub hide_orphan : Host → Document → Document
hide_orphan h d = record d {
  eligible = false;
  suppressed_reason = some "catalog_orphan";
  indexed_at = h.now;
}

abbrev pub suppress : Host → CatalogDb → CatalogDb
suppress h db = record db {
  documents =
      update_where (is_orphan (document_ids (incoming_rows h db))) (hide_orphan h) db.documents;
}

module _ (h : Host) (id : Identity) where
  -- The fence of the completing statement.
  abbrev pub may_complete : Option ScopeRow → Bool
  may_complete none = false
  may_complete (some s) =
      s.epoch == id.epoch && s.highest == id.generation && ltb s.completed id.generation

  abbrev pub complete_scope : Manifest → Option ScopeRow → Option ScopeRow
  complete_scope m none = none
  complete_scope m (some s) =
      some (record s { completed = id.generation; completed_at = some h.now; manifest = some m })

  abbrev pub publish : Manifest → CatalogDb → CatalogDb
  publish m db = record db {
    scope = if may_complete db.scope then complete_scope m db.scope else db.scope;
  }

  abbrev pub is_own : Option SnapshotRow → Bool
  is_own none = false
  is_own (some s) = s.epoch == id.epoch && s.generation == id.generation

  abbrev pub drop_own : CatalogDb → CatalogDb
  drop_own db = if is_own db.snapshot then drop_snapshot db else db

  unfoldable pub finish : Tx Bool
  finish = do write h delete_snapshots drop_own; pure true

  -- The rows that the completing statement affects, and the statement.
  unfoldable pub publish_manifest : Manifest → Tx Bool
  publish_manifest m = do
    hit ← read h set_completed (λ db. may_complete db.scope)
    write h set_completed (publish m)
    if hit then finish else raise (conflict "completion fence changed")

  unfoldable pub activate : Manifest → Tx Bool
  activate m = do
    write h upsert_incoming (project h)
    write h suppress_orphans (suppress h)
    publish_manifest m

  abbrev pub complete_verified : Option Manifest → Tx Bool
  complete_verified none = pure false
  complete_verified (some m) = do
    wrong ← read h select_invalid (is_invalid h)
    if wrong then raise (conflict "ineligible or foreign projection") else activate m

  -- CompleteCatalogSnapshot
  unfoldable pub complete_snapshot : Tx Bool
  complete_snapshot = do v ← load_verified h id; complete_verified v
