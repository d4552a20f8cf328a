-- ===== src/Catalog/Projection.antt =====
-- internal/store/catalog_activation.go: what the two statements on the documents make of the corpus.
use vidra_search.Prelude.{
  ◌==◌, ==_iff, ==_refl, Bool, true, false, not, ◌&&◌, ◌||◌, List, [], ◌∷◌, any, any-keep, keep,
  ◌≡◌, refl, sym, ap, subst, ◌∙◌, arith, Bool-cases, inl, inr, if◌then◌else◌,
}
use vidra_search.Store.Rows.{Uuid, Document}
use vidra_search.Store.Tables.{update_where}
use vidra_search.Catalog.Tables.{Host, CatalogDb}
use vidra_search.Catalog.Staging.{member}
use vidra_search.Catalog.Activation.{
  is_local, document_ids, project_one, project_all, project, suppress, is_orphan, hide_orphan,
  incoming_rows, is_invalid,
}
use vidra_search.Catalog.Merge.{
  is_served, is_foreign, is_taken, project_one-foreign, project_one-served, project_one-new,
}

module _ (h : Host) where
  pub project_all-foreign :
      (new ds : List Document) → keep is_foreign (project_all h new ds) ≡ keep is_foreign ds
  unfolding project_all
  project_all-foreign [] ds = refl
  project_all-foreign (d ∷ new) ds =
      project_all-foreign new (project_one h d ds) ∙ project_one-foreign h d ds

  project_all-served :
      (u : Uuid) (new ds : List Document)
      → any (is_served u) ds ≡ true
      → any (is_served u) (project_all h new ds) ≡ true
  unfolding project_all
  project_all-served u [] ds s = s
  project_all-served u (d ∷ new) ds s =
      project_all-served u new (project_one h d ds) (project_one-served h d u ds s)

  taken-foreign :
      (ids : List Uuid) (ds : List Document)
      → any (is_taken ids) ds ≡ any (λ d. member d.video_id ids) (keep is_foreign ds)
  taken-foreign ids ds = sym (any-keep is_foreign (λ d. member d.video_id ids) ds)

  taken-project_one :
      (ids : List Uuid) (d : Document) (ds : List Document)
      → any (is_taken ids) (project_one h d ds) ≡ any (is_taken ids) ds
  taken-project_one ids d ds =
      taken-foreign ids (project_one h d ds)
      ∙ ap (any (λ d. member d.video_id ids)) (project_one-foreign h d ds)
      ∙ sym (taken-foreign ids ds)

  -- Each row of `new` is served, where no row of another kind has an id of theirs.
  project_all-new :
      (ids : List Uuid) (u : Uuid) (new ds : List Document)
      → ((v : Uuid) → member v (document_ids new) ≡ true → member v ids ≡ true)
      → any (is_taken ids) ds ≡ false
      → member u (document_ids new) ≡ true
      → any (is_served u) (project_all h new ds) ≡ true
  unfolding project_all any
  project_all-new ids u [] ds k n m = absurd (ground (arith, m))
  project_all-new ids u (d ∷ new) ds k n m = elim (Bool-cases (d.video_id == u)) [
    | inl e ↦
        let same : d.video_id ≡ u = (==_iff d.video_id u).0 e in
        project_all-served u new (project_one h d ds) (
          subst (λ v. any (is_served v) (project_one h d ds) ≡ true) same
            (project_one-new h d ids ds (k d.video_id (ground (arith, ==_refl d.video_id))) n))
    | inr e ↦
        project_all-new ids u new (project_one h d ds) (λ v p. k v (ground (arith, p)))
          (taken-project_one ids d ds ∙ n) (ground (arith, m, e))
  ]

  hide-foreign :
      (ids : List Uuid) (ds : List Document)
      → keep is_foreign (update_where (is_orphan ids) (hide_orphan h) ds) ≡ keep is_foreign ds
  unfolding keep update_where
  hide-foreign ids [] = refl
  hide-foreign ids (d ∷ ds) =
      hide_one (is_orphan ids d) d refl (update_where (is_orphan ids) (hide_orphan h) ds)
        (hide-foreign ids ds)
    where
      hide_one :
          (t : Bool) (d : Document)
          → is_orphan ids d ≡ t
          → (done : List Document) → keep is_foreign done ≡ keep is_foreign ds
          → keep is_foreign ((if t then hide_orphan h d else d) ∷ done) ≡ keep is_foreign (d ∷ ds)
      hide_one t d e done k = ground (arith, e, k)

  -- Of the rows that were served, those of the observation still are.
  hide-served :
      (ids : List Uuid) (u : Uuid) (ds : List Document)
      → any (is_served u) (update_where (is_orphan ids) (hide_orphan h) ds)
        ≡ (any (is_served u) ds && member u ids)
  unfolding any update_where
  hide-served ids u [] = refl
  hide-served ids u (d ∷ ds) = join (hide-served ids u ds)
    where
      same_member : (d.video_id == u) ≡ true → member d.video_id ids ≡ member u ids
      same_member e = ap (λ v. member v ids) ((==_iff d.video_id u).0 e)

      weigh :
          (i l e own m rest done : Bool)
          → (i ≡ true → own ≡ m)
          → done ≡ (rest && m)
          → ((i && (l && (if l && e && not own then false else e))) || done)
            ≡ (((i && (l && e)) || rest) && m)
      weigh i true true own m rest done s k = ground (arith, s, k)
      weigh i true false own m rest done s k = ground (arith, s, k)
      weigh i false e own m rest done s k = ground (arith, s, k)

      inside :
          (t : Bool)
          → is_served u (if t then hide_orphan h d else d)
            ≡ (d.video_id == u && (is_local d && (if t then false else d.eligible)))
      inside true = refl
      inside false = refl

      join :
          any (is_served u) (update_where (is_orphan ids) (hide_orphan h) ds)
            ≡ (any (is_served u) ds && member u ids)
          → (is_served u (if is_orphan ids d then hide_orphan h d else d)
              || any (is_served u) (update_where (is_orphan ids) (hide_orphan h) ds))
            ≡ ((is_served u d || any (is_served u) ds) && member u ids)
      join k =
          ap (λ t. t || any (is_served u) (update_where (is_orphan ids) (hide_orphan h) ds))
            (inside (is_orphan ids d))
          ∙ weigh (d.video_id == u) (is_local d) d.eligible (member d.video_id ids) (member u ids)
              (any (is_served u) ds) _ same_member k

  -- The corpus after both statements: of the local videos those of the observation are served, and no
  -- other; rows of another kind are as before.
  pub suppress-project :
      (db : CatalogDb)
      → is_invalid h db ≡ false
      → ((u : Uuid)
          → any (is_served u) (suppress h (project h db)).documents
            ≡ member u (document_ids (incoming_rows h db)))
        × (keep is_foreign (suppress h (project h db)).documents ≡ keep is_foreign db.documents)
  unfolding is_invalid
  suppress-project db v =
      let ids : List Uuid = document_ids (incoming_rows h db) in
      let after : List Document = project_all h (incoming_rows h db) db.documents in
      let clear : any (is_taken ids) db.documents ≡ false = right_false _ _ v in
      (
        λ u.
            hide-served ids u after
            ∙ settle (any (is_served u) after) (member u ids)
                (project_all-new ids u (incoming_rows h db) db.documents (λ v m. m) clear),
        hide-foreign ids after ∙ project_all-foreign (incoming_rows h db) db.documents,
      )
    where
      settle : (a b : Bool) → (b ≡ true → a ≡ true) → (a && b) ≡ b
      settle a b f = ground (arith, f)

      right_false : (a b : Bool) → (a || b) ≡ false → b ≡ false
      right_false a b e = ground (arith, e)
