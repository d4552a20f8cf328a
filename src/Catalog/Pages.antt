-- ===== src/Catalog/Pages.antt =====
-- internal/store/catalog_pages.go under the fences.
use vidra_search.Prelude.{◌+◌, length, str_eq, ltb, String, ◌&&◌, Option, none, some, refl}
use vidra_search.Catalog.Digests.{Identity, PageDigest}
use vidra_search.Catalog.Tables.{SnapshotRow, PageRow, CatalogDb, Host, insert_page, charge_bytes}
use vidra_search.Catalog.Tx.{
  Leads, Leads-pure, Leads-raise, Leads-lift, Leads-read, Leads-write, Leads-bind, Leads-if,
  Leads-weaken,
}
use vidra_search.Catalog.Authority.{admit_generation}
use vidra_search.Catalog.Staging.{
  max_snapshot_bytes, max_documents, max_pages, total_documents, Staged, insert_staged, stage_apart,
  exceeds_declared, stage_within, stage_new, stage_against, stage_checked, stage_page, add_page,
  charge, page_row,
}
use vidra_search.Catalog.Fence.{Fenced, update_snapshot-Fenced}
use vidra_search.Catalog.Admission.{Ending, admit_generation-Fenced}

module _ (start : CatalogDb) (h : Host) (id : Identity) where
  module _ (page : PageDigest) (st : Staged) where
    insert_staged-Fenced : Leads (Fenced start) (insert_staged h id page st) (Ending start)
    unfolding insert_staged
    insert_staged-Fenced =
        Leads-write {R = Fenced start} h insert_page (add_page (page_row h page st)) _
          (λ db. update_snapshot-Fenced start db _ (λ x. (refl, refl)))
          (Leads-write {R = Fenced start} h charge_bytes (charge _) _
            (λ db. update_snapshot-Fenced start db _ (λ x. (refl, refl)))
            (Leads-pure tt (λ db f. f)))

    stage_apart-Fenced : Leads (Fenced start) (stage_apart h id page st) (Ending start)
    unfolding stage_apart
    stage_apart-Fenced = Leads-read h _ _ _ (λ t.
        Leads-if t _ _ (λ e. Leads-raise _)
          (λ e. Leads-weaken (insert_staged h id page st) (λ db f. f.0) insert_staged-Fenced))

    stage_within-Fenced :
        (o : Option SnapshotRow) → Leads (Fenced start) (stage_within h id page st o) (Ending start)
    stage_within-Fenced none = Leads-raise _
    stage_within-Fenced (some s) =
        Leads-if (ltb max_snapshot_bytes (s.canonical_bytes + length st.bytes)) _ _
          (λ e. Leads-raise _)
          (λ e.
            Leads-if (ltb max_documents (total_documents s.pages + length st.ids)) _ _
              (λ e2. Leads-raise _)
              (λ e2.
                Leads-if (ltb max_pages (length s.pages + 1)) _ _ (λ e3. Leads-raise _)
                  (λ e3.
                    Leads-if (exceeds_declared h id page st (total_documents s.pages) s.declared) _
                      _ (λ e4. Leads-raise _) (λ e4. stage_apart-Fenced))))

    stage_against-Fenced :
        (o : Option PageRow) → Leads (Fenced start) (stage_against h id page st o) (Ending start)
    unfolding stage_new
    stage_against-Fenced none =
        Leads-read h _ _ _
          (λ o. Leads-weaken (stage_within h id page st o) (λ db f. f.0) (stage_within-Fenced o))
    stage_against-Fenced (some p) =
        Leads-if (str_eq p.content_sha256 st.digest && str_eq p.documents (h.jsonb st.bytes)) _ _
          (λ e. Leads-pure tt (λ db f. f)) (λ e. Leads-raise _)

    stage_checked-Fenced : Leads (Fenced start) (stage_checked h id page st) (Ending start)
    unfolding stage_checked
    stage_checked-Fenced =
        Leads-bind {R = Ending start} (admit_generation h id) _ (admit_generation-Fenced start h id)
          (λ u. Leads-read h _ _ _ (λ o.
            Leads-weaken (stage_against h id page st o) (λ db f. f.0) (stage_against-Fenced o)))

  pub stage_page-Fenced :
      (page : PageDigest) (documents : String)
      → Leads (Fenced start) (stage_page h id page documents) (Ending start)
  unfolding stage_page
  stage_page-Fenced page documents = Leads-lift _ _ (λ st e. stage_checked-Fenced page st)
