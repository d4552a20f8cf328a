-- ===== src/Catalog/Staging.antt =====
-- internal/store: catalog_pages.go and catalog_end.go.
use vidra_search.Prelude.{
  ℕ, ◌+◌, max, ltb, ◌==◌, pos, leb_ℤ, ltb_ℤ, String, Bool, false, not, ◌&&◌, ◌||◌, Option, none,
  some, List, [], ◌∷◌, ◌++◌, any, length, map, str_eq, if◌then◌else◌, pos_part,
}
use vidra_search.Store.Rows.{Uuid}
use vidra_search.Catalog.Decimal.{Bytes}
use vidra_search.Catalog.Digests.{
  Identity, Manifest, PageDigest, Codec, CatalogError, Checked, good, bad, conflict, quota,
  already_completed, sql, and_then, documents_digest, membership_digest, validate_manifest,
  eq_manifest,
}
use vidra_search.Catalog.Tables.{
  PageRow, ScopeRow, SnapshotRow, CatalogDb, Host, select_page, select_totals, select_collision,
  select_declared, select_page_bounds, select_completed, insert_page, charge_bytes,
  declare_manifest,
}
use vidra_search.Catalog.Tx.{Tx, pure, lift, raise, read, write, ◌>>=◌, ◌>>◌}
use vidra_search.Catalog.Authority.{admit_generation}

-- MaxSnapshotBytes, MaxDocuments and MaxPages
abbrev pub max_snapshot_bytes : ℕ
max_snapshot_bytes = 536870912

abbrev pub max_documents : ℕ
max_documents = 100000

abbrev pub max_pages : ℕ
max_pages = 1024

-- Any failure as one of a kind.
abbrev pub recast : {A : Type 0} → CatalogError → Checked A → Checked A
recast e (good a) = good a
recast e (bad x) = bad e

-- The ids of a page's canonical documents, of which there is at least one.
abbrev pub nonempty_members : Option (List Uuid) → Checked (List Uuid)
nonempty_members none = bad (conflict "empty or invalid membership")
nonempty_members (some []) = bad (conflict "empty or invalid membership")
nonempty_members (some (u ∷ us)) = good (u ∷ us)

-- A page that passed: its canonical bytes, digest and ids.
pub record Staged : Type 0 where
  pub bytes : Bytes
  pub digest : String
  pub ids : List Uuid

abbrev pub with_digest : PageDigest → Bytes × String → Checked (Bytes × String)
with_digest page (bytes, digest) =
    if str_eq digest page.content_sha256
    then good (bytes, digest)
    else bad (conflict "page content digest")

-- The checks on a page before the database is asked.
unfoldable pub check_page : Codec → PageDigest → String → Checked Staged
unfolding documents_digest membership_digest
check_page k page documents =
    if ltb_ℤ page.page_index (pos 0) || leb_ℤ (pos max_pages) page.page_index
    then bad (quota "page index")
    else and_then (recast (conflict "page content digest") (documents_digest k documents)) (λ d.
      and_then (with_digest page d) (λ e. and_then (nonempty_members (k.members e.0)) (λ ids.
        and_then (recast (conflict "membership") (membership_digest k ids))
          (λ m. good (record { bytes = e.0; digest = e.1; ids = ids })))))

-- The pages of the one snapshot of the scope.
abbrev pub staged_pages : CatalogDb → List PageRow
staged_pages db = elim db.snapshot [ none ↦ [] | some s ↦ s.pages ]

abbrev pub find_page : ℕ → List PageRow → Option PageRow
find_page i [] = none
find_page i (p ∷ ps) = if p.page_index == i then some p else find_page i ps

-- The page at that place of the snapshot of that generation.
abbrev pub existing_page : ℕ → ℕ → Option SnapshotRow → Option PageRow
existing_page g i none = none
existing_page g i (some s) = if s.generation == g then find_page i s.pages else none

abbrev pub total_documents : List PageRow → ℕ
total_documents [] = 0
total_documents (p ∷ ps) = p.document_count + total_documents ps

-- One past the greatest index, 0 where there is no page.
abbrev pub index_bound : List PageRow → ℕ
index_bound [] = 0
index_bound (p ∷ ps) = max (p.page_index + 1) (index_bound ps)

-- The ids of a stored page's documents.
abbrev pub row_ids : Host → PageRow → List Uuid
row_ids h p = map (λ d. d.video_id) (h.incoming p.documents)

abbrev pub member : Uuid → List Uuid → Bool
member u us = any (λ v. v == u) us

abbrev pub overlaps : List Uuid → List Uuid → Bool
overlaps us vs = any (λ u. member u vs) us

-- Some id stands in a stored page, or belongs to a document that is not local.
unfoldable pub collides : Host → List Uuid → CatalogDb → Bool
collides h ids db =
    any (λ p. overlaps (row_ids h p) ids) (staged_pages db)
    || any (λ d. not (str_eq d.kind "local") && member d.video_id ids) db.documents

abbrev pub update_snapshot : (SnapshotRow → SnapshotRow) → Option SnapshotRow → Option SnapshotRow
update_snapshot f none = none
update_snapshot f (some s) = some (f s)

abbrev pub page_row : Host → PageDigest → Staged → PageRow
page_row h page st = record {
  page_index = pos_part page.page_index;
  documents = h.jsonb st.bytes;
  document_count = length st.ids;
  content_sha256 = st.digest;
}

abbrev pub add_page : PageRow → CatalogDb → CatalogDb
add_page p db = record db {
  snapshot = update_snapshot (λ s. record s { pages = s.pages ++ p ∷ [] }) db.snapshot;
}

abbrev pub charge : ℕ → CatalogDb → CatalogDb
charge n db = record db {
  snapshot =
      update_snapshot (λ s. record s { canonical_bytes = s.canonical_bytes + n }) db.snapshot;
}

module _ (h : Host) (id : Identity) (page : PageDigest) (st : Staged) where
  abbrev pub exceeds_declared : ℕ → Option Manifest → Bool
  exceeds_declared count none = false
  exceeds_declared count (some m) =
      leb_ℤ m.page_count page.page_index || ltb_ℤ m.document_count (pos (count + length st.ids))

  unfoldable pub insert_staged : Tx (Unit {0})
  insert_staged = do
    write h insert_page (add_page (page_row h page st))
    write h charge_bytes (charge (length st.bytes))
    pure tt

  unfoldable pub stage_apart : Tx (Unit {0})
  stage_apart = do
    collision ← read h select_collision (collides h st.ids)
    if collision
        then raise (conflict "duplicate membership or foreign ownership")
        else insert_staged

  -- The budgets, and the manifest where the end came first.
  abbrev pub stage_within : Option SnapshotRow → Tx (Unit {0})
  stage_within none = raise (sql "no rows in result set")
  stage_within (some s) =
      if ltb max_snapshot_bytes (s.canonical_bytes + length st.bytes)
      then raise (quota "canonical bytes")
      else if ltb max_documents (total_documents s.pages + length st.ids)
      then raise (quota "document count")
      else if ltb max_pages (length s.pages + 1)
      then raise (quota "page count")
      else if exceeds_declared (total_documents s.pages) s.declared
      then raise (conflict "page exceeds declared manifest")
      else stage_apart

  unfoldable pub stage_new : Tx (Unit {0})
  stage_new = do s ← read h select_totals (λ db. db.snapshot); stage_within s

  -- An immutable replay never consumes the budget twice.
  abbrev pub stage_against : Option PageRow → Tx (Unit {0})
  stage_against none = stage_new
  stage_against (some p) =
      if str_eq p.content_sha256 st.digest && str_eq p.documents (h.jsonb st.bytes)
      then pure tt
      else raise (conflict "immutable page mismatch")

  unfoldable pub stage_checked : Tx (Unit {0})
  stage_checked = do
    admit_generation h id
    p ←
        read h select_page
          (λ db. existing_page id.generation (pos_part page.page_index) db.snapshot)
    stage_against p

-- StageCatalogPage
unfoldable pub stage_page : Host → Identity → PageDigest → (documents : String) → Tx (Unit {0})
stage_page h id page documents = do
  st ← lift (check_page h.codec page documents)
  stage_checked h id page st

abbrev pub declare : Manifest → CatalogDb → CatalogDb
declare m db = record db {
  snapshot = update_snapshot (λ s. record s { declared = some m }) db.snapshot;
}

module _ (h : Host) (id : Identity) (m : Manifest) where
  -- The manifest that was published under this epoch and generation.
  abbrev pub published : Option ScopeRow → Option Manifest
  published none = none
  published (some s) =
      if s.epoch == id.epoch && s.completed == id.generation then s.manifest else none

  abbrev pub replay_matches : Option Manifest → Tx (Unit {0})
  replay_matches none = raise (sql "no rows in result set")
  replay_matches (some c) =
      if eq_manifest c m then pure tt else raise (conflict "completed manifest mismatch")

  unfoldable pub replay_end : Tx (Unit {0})
  replay_end = do c ← read h select_completed (λ db. published db.scope); replay_matches c

  -- Whether the stored pages fit the manifest that arrives after them.
  abbrev pub pages_exceed : List PageRow → Bool
  pages_exceed ps =
      ltb_ℤ m.page_count (pos (length ps))
      || ltb_ℤ m.document_count (pos (total_documents ps))
      || ltb_ℤ m.page_count (pos (index_bound ps))

  unfoldable pub declare_new : Tx (Unit {0})
  declare_new = do
    ps ← read h select_page_bounds staged_pages
    if pages_exceed ps
        then raise (conflict "stored pages exceed manifest")
        else do write h declare_manifest (declare m); pure tt

  abbrev pub declare_against : Option SnapshotRow → Tx (Unit {0})
  declare_against none = raise (sql "no rows in result set")
  declare_against (some s) = elim s.declared [
    | none ↦ declare_new
    | some c ↦ if eq_manifest c m then pure tt else raise (conflict "immutable end mismatch")
  ]

  unfoldable pub end_admitted : Tx (Unit {0})
  end_admitted = do s ← read h select_declared (λ db. db.snapshot); declare_against s

  -- What the end does with the answer of its admission.
  abbrev pub end_after : Checked (Unit {0} × CatalogDb) → Tx (Unit {0})
  end_after (good (u, db)) before = end_admitted db
  end_after (bad already_completed) before = replay_end before
  end_after (bad e) before = bad e

  unfoldable pub end_checked : Tx (Unit {0})
  end_checked db = end_after (admit_generation h id db) db

  abbrev pub over_quota : Bool
  over_quota = ltb_ℤ (pos max_pages) m.page_count || ltb_ℤ (pos max_documents) m.document_count

  -- StageCatalogEnd
  unfoldable pub stage_end : Tx (Unit {0})
  stage_end = do
    lift (recast (conflict "invalid manifest") (validate_manifest m))
    if over_quota then raise (quota "manifest counts") else end_checked
