-- ===== src/Catalog/Snapshot.antt =====
-- internal/catalog/snapshot.go: VerifySnapshot.
use vidra_search.Prelude.{
  ℕ, ◌+◌, ltb, ◌==◌, pos, ltb_ℤ, String, not, ◌||◌, Option, none, some, List, [], ◌∷◌, ◌++◌, length,
  str_eq, if◌then◌else◌,
}
use vidra_search.Store.Rows.{Uuid}
use vidra_search.Catalog.Decimal.{Bytes}
use vidra_search.Catalog.Digests.{
  Manifest, PageDigest, Codec, Checked, good, bad, invalid, and_then, documents_digest,
  membership_digest, pages_digest, validate_manifest, eq_ℤ,
}
use vidra_search.Catalog.Staging.{max_snapshot_bytes, max_documents, max_pages}

pub record SnapshotPage : Type 0 where
  pub digest : PageDigest
  pub documents : String
  pub document_count : ℕ

-- What the loop over the pages collects.
pub record Collected : Type 0 where
  pub ids : List Uuid
  pub digests : List PageDigest
  pub charged : ℕ

abbrev pub nothing : Collected
nothing = record { ids = []; digests = []; charged = 0 }

abbrev pub content_of : SnapshotPage → Bytes × String → Checked Bytes
content_of page (bytes, digest) =
    if str_eq digest page.digest.content_sha256
    then good bytes
    else bad (invalid "catalog: persisted page content mismatch")

abbrev pub counted_ids : SnapshotPage → Option (List Uuid) → Checked (List Uuid)
counted_ids page none = bad (invalid "catalog: persisted page count mismatch")
counted_ids page (some us) =
    if length us == 0 || not (length us == page.document_count)
    then bad (invalid "catalog: persisted page count mismatch")
    else good us

abbrev pub within_quota : Collected → Checked Collected
within_quota c =
    if ltb max_snapshot_bytes c.charged || ltb max_documents (length c.ids)
    then bad (invalid "catalog: persisted snapshot exceeds quota")
    else good c

abbrev pub collect_ids : SnapshotPage → Collected → Bytes → List Uuid → Collected
collect_ids page c bytes us = record {
  ids = c.ids ++ us;
  digests = c.digests ++ page.digest ∷ [];
  charged = c.charged + length bytes;
}

module _ (k : Codec) where
  -- One round of the loop.
  unfoldable pub collect_page : SnapshotPage → Collected → Checked Collected
  unfolding documents_digest
  collect_page page c = and_then (documents_digest k page.documents) (λ d.
      and_then (content_of page d) (λ bytes.
        and_then (counted_ids page (k.members bytes))
          (λ us. within_quota (collect_ids page c bytes us))))

  unfoldable pub collect : List SnapshotPage → Collected → Checked Collected
  unfolding collect_page
  collect [] c = good c
  collect (p ∷ ps) c = and_then (collect_page p c) (collect ps)

  abbrev pub equals : String → String → String → Checked (Unit {0})
  equals what a b = if str_eq a b then good tt else bad (invalid what)

  -- The ledgers and digests of all the pages.
  unfoldable pub check_ledgers : Manifest → (canonical_bytes : ℕ) → Collected → Checked (Unit {0})
  unfolding membership_digest pages_digest
  check_ledgers m canonical_bytes c =
      if not (c.charged == canonical_bytes) || not (eq_ℤ (pos (length c.ids)) m.document_count)
      then bad (invalid "catalog: snapshot count or canonical-byte ledger mismatch")
      else and_then (membership_digest k c.ids) (λ membership.
        and_then (equals "catalog: snapshot membership mismatch" membership m.membership_sha256)
          (λ u.
            and_then (pages_digest k c.digests) (λ content.
              equals "catalog: snapshot page sequence mismatch" content m.pages_sha256)))

  -- VerifySnapshot
  unfoldable pub verify_snapshot :
      Manifest → List SnapshotPage → (canonical_bytes : ℕ) → Checked (Unit {0})
  unfolding validate_manifest collect check_ledgers
  verify_snapshot m pages canonical_bytes = and_then (validate_manifest m) (λ u.
      if ltb_ℤ (pos max_pages) m.page_count
        || ltb_ℤ (pos max_documents) m.document_count
        || not (eq_ℤ (pos (length pages)) m.page_count)
        || ltb max_snapshot_bytes canonical_bytes
      then bad (invalid "catalog: incomplete or over-budget snapshot")
      else and_then (collect pages nothing) (check_ledgers m canonical_bytes))
