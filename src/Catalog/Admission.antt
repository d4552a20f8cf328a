-- ===== src/Catalog/Admission.antt =====
-- internal/store: catalog_epoch.go, catalog_admission.go and catalog_retention.go under the fences.
use mathlib.Core.Option
use vidra_search.Prelude.{
  ℕ, ◌≤◌, ◌<◌, ltb, ◌==◌, false, not, Option, none, some, is_some, ◌≡◌, inl, refl, sym, ap, subst,
  ◌∙◌, arith,
}
use vidra_search.Catalog.Digests.{Identity}
use vidra_search.Catalog.Tables.{
  ScopeRow, CatalogDb, Host, lock_catalog, delete_snapshots, set_highest, insert_snapshot,
  select_pending, select_scope,
}
use vidra_search.Catalog.Tx.{
  Leads, Leads-pure, Leads-raise, Leads-lift, Leads-read, Leads-write, Leads-if, Leads-weaken,
}
use vidra_search.Catalog.Authority.{
  drop_snapshot, raise_highest, with_highest, open_snapshot, is_pending, admit_again, admit_new,
  admit_against, admit_generation,
}
use vidra_search.Catalog.Fence.{
  known, IsFenced, HasAuthority, Rises, Later, Later-trans, Fenced, drop_snapshot-Fenced,
}

-- The tables while a newer generation takes the slot.
abbrev AtScope : CatalogDb → ScopeRow → CatalogDb → Type 0
AtScope start s db = (db.scope ≡ some s) × (db.snapshot ≡ none) × HasAuthority db × Later start db

abbrev Reading : CatalogDb → ScopeRow → CatalogDb → Type 0
Reading start s db = Fenced start db × (db.scope ≡ some s)

module _ (start : CatalogDb) (s : ScopeRow) where
  dropped-AtScope : (db : CatalogDb) → Reading start s db → AtScope start s (drop_snapshot db)
  dropped-AtScope db (f, e) = let (a, l) = drop_snapshot-Fenced start db f in (e, refl, a, l)

  -- A scope row in place of another, with no pending snapshot.
  placed-Fenced :
      (t : ScopeRow) (db : CatalogDb)
      → AtScope start s db
      → (t.epoch ≡ s.epoch)
      → (s.highest ≤ t.highest)
      → (t.completed ≡ s.completed)
      → (t.manifest ≡ s.manifest)
      → HasAuthority (record db { scope = some t }) × Later start (record db { scope = some t })
  placed-Fenced t db (e, n, a, l) ep hi co ma =
      let fenced : IsFenced db.epochs (some s) none =
        subst (λ p. IsFenced db.epochs (some s) p) n
          (subst (λ o. IsFenced db.epochs o db.snapshot) e a) in
      let (k, c, m, u) = fenced in
      let risen : Rises db.epochs db.scope (some t) =
        subst (λ o. Rises db.epochs o (some t)) (sym e) (inl (ep, hi, omega (arith, co))) in
      let own : IsFenced db.epochs (some t) none = (
        ap (λ v. known v db.epochs) ep ∙ k,
        omega (arith, c, hi, co),
        ap is_some ma ∙ m ∙ ap (ltb 0) (sym co),
        tt,
      ) in
      (
        subst (λ p. IsFenced db.epochs (some t) p) (sym n) own,
        Later-trans start db (record db { scope = some t }) l
            (record { history = λ v h. h; fences = risen }),
      )

module _ (start : CatalogDb) (h : Host) (id : Identity) (s : ScopeRow) where
  raised-AtScope :
      (db : CatalogDb)
      → s.highest ≤ id.generation
      → AtScope start s db
      → AtScope start (with_highest id.generation s) (raise_highest id.generation db)
  raised-AtScope db hi (e, n, a, l) =
      let moved = ap (Option.map (with_highest id.generation)) e in
      let (b, m) =
        placed-Fenced start s (with_highest id.generation s) db (e, n, a, l) refl hi refl refl in
      let here : record db { scope = some (with_highest id.generation s) }
          ≡ raise_highest id.generation db =
        ap (λ o. record db { scope = o }) (sym moved) in
      (moved, n, subst HasAuthority here b, subst (Later start) here m)

  opened-Fenced :
      (t : ScopeRow) (db : CatalogDb)
      → t.epoch ≡ id.epoch
      → t.highest ≡ id.generation
      → t.completed < t.highest
      → AtScope start t db
      → Fenced start (open_snapshot h id.epoch id.generation db)
  opened-Fenced t db ep hi co (e, n, a, l) =
      let (k, c, m, u) = subst (λ o. IsFenced db.epochs o db.snapshot) e a in
      (
        subst (λ o. IsFenced db.epochs o (open_snapshot h id.epoch id.generation db).snapshot)
            (sym e) (k, c, m, (sym ep, sym hi, co)),
        record { history = l.history; fences = l.fences },
      )

abbrev pub Ending : CatalogDb → {A : Type 0} → A → CatalogDb → Type 0
Ending start a db = Fenced start db

not_less : (a b : ℕ) → ltb a b ≡ false → (a == b) ≡ false → b < a
not_less a b h k = ground arith

module _ (start : CatalogDb) (h : Host) (id : Identity) where
  admit_new-Fenced :
      (s : ScopeRow)
      → s.epoch ≡ id.epoch
      → s.highest < id.generation
      → s.completed < id.generation
      → Leads (Reading start s) (admit_new h id) (Ending start)
  unfolding admit_new
  admit_new-Fenced s ep hi co =
      Leads-write {R = AtScope start s} h delete_snapshots drop_snapshot _ (dropped-AtScope start s)
        (Leads-write {R = AtScope start (with_highest id.generation s)} h set_highest
          (raise_highest id.generation) _ (λ db. raised-AtScope start h id s db (omega (arith, hi)))
          (Leads-write {R = Fenced start} h insert_snapshot (open_snapshot h id.epoch id.generation)
            _ (λ db. opened-Fenced start h id s (with_highest id.generation s) db ep refl co)
            (Leads-pure tt (λ db f. f))))

  admit_again-Fenced : Leads (Fenced start) (admit_again h id) (Ending start)
  unfolding admit_again
  admit_again-Fenced =
      Leads-read h select_pending (λ db. is_pending h id.epoch id.generation db.snapshot) _
        (λ t. Leads-if t _ _ (λ e. Leads-pure tt (λ db f. f.0)) (λ e. Leads-raise _))

  completed_below : (s : ScopeRow) (db : CatalogDb) → Reading start s db → s.completed ≤ s.highest
  completed_below s db (f, e) = (subst (λ o. IsFenced db.epochs o db.snapshot) e f.0).1

  admit_against-Fenced :
      (o : Option ScopeRow)
      → Leads (λ db. Fenced start db × (db.scope ≡ o)) (admit_against h id o) (Ending start)
  admit_against-Fenced none = Leads-raise _
  admit_against-Fenced (some s) =
      Leads-if (not (s.epoch == id.epoch)) _ _ (λ e. Leads-raise _)
        (λ e.
          Leads-if (id.generation == s.completed) _ _ (λ f. Leads-raise _)
            (λ f.
              Leads-if (ltb id.generation s.highest) _ _ (λ g. Leads-raise _)
                (λ g.
                  Leads-if (id.generation == s.highest) _ _
                    (λ k. Leads-weaken (admit_again h id) (λ db p. p.0) admit_again-Fenced)
                    (λ k. newer e g k))))
    where
      newer :
          not (s.epoch == id.epoch) ≡ false
          → ltb id.generation s.highest ≡ false
          → (id.generation == s.highest) ≡ false
          → Leads (λ db. Fenced start db × (db.scope ≡ some s)) (admit_new h id) (Ending start)
      newer e g k = record {
        from = λ db p.
            let above = not_less id.generation s.highest g k in
            let below = completed_below s db p in
            (admit_new-Fenced s (ground (arith, e)) above (omega (arith, above, below))).from db p;
      }

  pub admit_generation-Fenced : Leads (Fenced start) (admit_generation h id) (Ending start)
  unfolding admit_generation
  admit_generation-Fenced = Leads-lift _ _ (λ u e.
      Leads-write {R = Fenced start} h lock_catalog (λ db. db) _ (λ db f. f)
        (Leads-read h select_scope (λ db. db.scope) _ admit_against-Fenced))
