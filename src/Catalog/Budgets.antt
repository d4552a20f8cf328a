-- ===== src/Catalog/Budgets.antt =====
-- internal/store/catalog_pages.go: the quotas of the pending snapshot.
use vidra_search.Prelude.{
  ◌+◌, ◌≤◌, ltb, ◌==◌, String, false, not, ◌&&◌, Option, none, some, List, [], ◌∷◌, ◌++◌, length,
  length-append, str_eq, ◌≡◌, sym, ap, subst, arith,
}
use vidra_search.Catalog.Digests.{Identity, PageDigest, good}
use vidra_search.Catalog.Tables.{
  PageRow, ScopeRow, SnapshotRow, CatalogDb, Host, lock_catalog, delete_snapshots, set_highest,
  insert_snapshot, insert_page, charge_bytes, select_pending,
}
use vidra_search.Catalog.Tx.{
  Ends, Leads, Leads-pure, Leads-raise, Leads-lift, Leads-read, Leads-write, Leads-bind, Leads-if,
  Leads-weaken,
}
use vidra_search.Catalog.Authority.{
  drop_snapshot, raise_highest, open_snapshot, is_pending, admit_again, admit_new, admit_against,
  admit_generation,
}
use vidra_search.Catalog.Staging.{
  max_snapshot_bytes, max_documents, max_pages, Staged, total_documents, update_snapshot, page_row,
  add_page, charge, exceeds_declared, insert_staged, stage_apart, stage_within, stage_new,
  stage_against, stage_checked, stage_page,
}

-- The pending snapshot keeps its three quotas.
abbrev pub IsWithin : Option SnapshotRow → Type 0
IsWithin none = Unit
IsWithin (some s) =
    (s.canonical_bytes ≤ max_snapshot_bytes)
    × (total_documents s.pages ≤ max_documents)
    × (length s.pages ≤ max_pages)

abbrev Budgeted : CatalogDb → Type 0
Budgeted db = IsWithin db.snapshot

abbrev Ending : {A : Type 0} → A → CatalogDb → Type 0
Ending a db = Budgeted db

total_documents-append :
    (ps qs : List PageRow) → total_documents (ps ++ qs) ≡ total_documents ps + total_documents qs
total_documents-append [] qs = omega arith
total_documents-append (p ∷ ps) qs = omega (arith, total_documents-append ps qs)

module _ (h : Host) (id : Identity) where
  admit_new-Budgeted : Leads Budgeted (admit_new h id) Ending
  unfolding admit_new
  admit_new-Budgeted =
      Leads-write {R = Budgeted} h delete_snapshots drop_snapshot _ (λ db b. tt)
        (Leads-write {R = Budgeted} h set_highest (raise_highest id.generation) _ (λ db b. b)
          (Leads-write {R = Budgeted} h insert_snapshot (open_snapshot h id.epoch id.generation) _
            (λ db b. (omega arith, omega arith, omega arith)) (Leads-pure tt (λ db b. b))))

  admit_again-Budgeted : Leads Budgeted (admit_again h id) Ending
  unfolding admit_again
  admit_again-Budgeted =
      Leads-read h select_pending (λ db. is_pending h id.epoch id.generation db.snapshot) _
        (λ t. Leads-if t _ _ (λ e. Leads-pure tt (λ db b. b.0)) (λ e. Leads-raise _))

  admit_against-Budgeted : (o : Option ScopeRow) → Leads Budgeted (admit_against h id o) Ending
  admit_against-Budgeted none = Leads-raise _
  admit_against-Budgeted (some s) =
      Leads-if (not (s.epoch == id.epoch)) _ _ (λ e. Leads-raise _)
        (λ e.
          Leads-if (id.generation == s.completed) _ _ (λ f. Leads-raise _)
            (λ f.
              Leads-if (ltb id.generation s.highest) _ _ (λ g. Leads-raise _)
                (λ g.
                  Leads-if (id.generation == s.highest) _ _ (λ k. admit_again-Budgeted)
                    (λ k. admit_new-Budgeted))))

  admit_generation-Budgeted : Leads Budgeted (admit_generation h id) Ending
  unfolding admit_generation
  admit_generation-Budgeted = Leads-lift _ _ (λ u e.
      Leads-write {R = Budgeted} h lock_catalog (λ db. db) _ (λ db b. b)
        (Leads-read h _ _ _
          (λ o. Leads-weaken (admit_against h id o) (λ db b. b.0) (admit_against-Budgeted o))))

  module _ (page : PageDigest) (st : Staged) where
    -- The snapshot once the page is in it.
    abbrev paged : SnapshotRow → SnapshotRow
    paged s = record s { pages = s.pages ++ page_row h page st ∷ [] }

    paged-IsWithin :
        (s : SnapshotRow)
        → ltb max_snapshot_bytes (s.canonical_bytes + length st.bytes) ≡ false
        → ltb max_documents (total_documents s.pages + length st.ids) ≡ false
        → ltb max_pages (length s.pages + 1) ≡ false
        → IsWithin
            (some (record (paged s) { canonical_bytes = s.canonical_bytes + length st.bytes }))
    paged-IsWithin s a b c =
        let documents = total_documents-append s.pages (page_row h page st ∷ []) in
        let pages = length-append s.pages (page_row h page st ∷ []) in
        (ground (arith, a), ground (arith, b, documents), ground (arith, c, pages))

    insert_staged-Budgeted :
        (s : SnapshotRow)
        → IsWithin
            (some (record (paged s) { canonical_bytes = s.canonical_bytes + length st.bytes }))
        → Leads (λ db. db.snapshot ≡ some s) (insert_staged h id page st) Ending
    unfolding insert_staged
    insert_staged-Budgeted s w =
        Leads-write {R = λ db. db.snapshot ≡ some (paged s)} h insert_page
          (add_page (page_row h page st)) _ (λ db e. ap (update_snapshot paged) e)
          (Leads-write {R = Budgeted} h charge_bytes (charge (length st.bytes)) _
            (λ db e.
              subst IsWithin
                (sym (
                  ap
                    (update_snapshot
                      (λ x. record x { canonical_bytes = x.canonical_bytes + length st.bytes }))
                    e))
                w)
            (Leads-pure tt (λ db b. b)))

    stage_within-Budgeted :
        (o : Option SnapshotRow)
        → Leads (λ db. Budgeted db × (db.snapshot ≡ o)) (stage_within h id page st o) Ending
    unfolding stage_apart
    stage_within-Budgeted none = Leads-raise _
    stage_within-Budgeted (some s) =
        Leads-if (ltb max_snapshot_bytes (s.canonical_bytes + length st.bytes)) _ _
          (λ e. Leads-raise _)
          (λ a.
            Leads-if (ltb max_documents (total_documents s.pages + length st.ids)) _ _
              (λ e. Leads-raise _)
              (λ b.
                Leads-if (ltb max_pages (length s.pages + 1)) _ _ (λ e. Leads-raise _)
                  (λ c.
                    Leads-if (exceeds_declared h id page st (total_documents s.pages) s.declared) _
                      _ (λ e. Leads-raise _)
                      (λ d. Leads-read h _ _ _ (λ t.
                        Leads-if t _ _ (λ e. Leads-raise _)
                          (λ e.
                            Leads-weaken (insert_staged h id page st) (λ db f. f.0.1)
                              (insert_staged-Budgeted s (paged-IsWithin s a b c))))))))

    stage_against-Budgeted :
        (o : Option PageRow) → Leads Budgeted (stage_against h id page st o) Ending
    unfolding stage_new
    stage_against-Budgeted none = Leads-read h _ _ _ stage_within-Budgeted
    stage_against-Budgeted (some p) =
        Leads-if (str_eq p.content_sha256 st.digest && str_eq p.documents (h.jsonb st.bytes)) _ _
          (λ e. Leads-pure tt (λ db b. b)) (λ e. Leads-raise _)

    stage_checked-Budgeted : Leads Budgeted (stage_checked h id page st) Ending
    unfolding stage_checked
    stage_checked-Budgeted =
        Leads-bind {R = Ending} (admit_generation h id) _ admit_generation-Budgeted (λ u.
          Leads-read h _ _ _ (λ o.
            Leads-weaken (stage_against h id page st o) (λ db b. b.0) (stage_against-Budgeted o)))

  stage_page-Budgeted :
      (page : PageDigest) (documents : String)
      → Leads Budgeted (stage_page h id page documents) Ending
  unfolding stage_page
  stage_page-Budgeted page documents = Leads-lift _ _ (λ st e. stage_checked-Budgeted page st)

-- A page that is staged, again or anew, leaves the pending snapshot within its quotas of canonical
-- bytes, documents and pages, where it was within them.
pub stage_page-IsWithin :
    (h : Host) (id : Identity) (page : PageDigest) (documents : String) (before after : CatalogDb)
    → IsWithin before.snapshot
    → stage_page h id page documents before ≡ good (tt, after)
    → IsWithin after.snapshot
stage_page-IsWithin h id page documents before after w e =
    subst (Ends Ending) e ((stage_page-Budgeted h id page documents).from before w)
