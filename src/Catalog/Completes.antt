-- ===== src/Catalog/Completes.antt =====
-- internal/store: CompleteCatalogSnapshot against what it promises of the tables.
use vidra_search.Prelude.{
  ℕ, ◌<◌, ltb, ◌==◌, pos, ltb_ℤ, length, Bool, true, false, not, ◌&&◌, Option, none, some, any,
  keep, ◌≡◌, refl, sym, ap, subst, ◌∙◌, arith, if◌then◌else◌,
}
use vidra_search.Catalog.Digests.{Identity, Manifest, CatalogError, Checked, good, bad, conflict}
use vidra_search.Catalog.Tables.{
  ScopeRow, SnapshotRow, CatalogDb, Host, lock_catalog, select_scope, set_completed,
  delete_snapshots, upsert_incoming, suppress_orphans,
}
use vidra_search.Catalog.Tx.{
  Ends, raise, write, Leads, Leads-pure, Leads-raise, Leads-lift, Leads-read, Leads-write,
  Leads-bind, Leads-if, ◌>>=◌,
}
use vidra_search.Catalog.Authority.{is_pending}
use vidra_search.Catalog.Staging.{recast}
use vidra_search.Catalog.Snapshot.{verify_snapshot}
use vidra_search.Catalog.Activation.{
  verify_declared, load_declared, load_pending, load_current, load_against, load_verified,
  is_invalid, project, suppress, may_complete, complete_scope, publish, is_own, drop_own, finish,
  publish_manifest, activate, complete_verified, complete_snapshot,
}
use vidra_search.Catalog.Projection.{suppress-project}
use vidra_search.Catalog.Merge.{is_served, is_foreign}
use vidra_search.Catalog.Observed.{
  waits, publishes, ordered_pages, IsObserved, IsPublished, Completes,
}

recast_good :
    {A : Type 0} (e : CatalogError) (x : Checked A) (a : A) → recast e x ≡ good a → x ≡ good a
recast_good e (good b) a p = p
recast_good e (bad c) a p = absurd (cc)

module _ (h : Host) (id : Identity) (before : CatalogDb) where
  abbrev At : CatalogDb → Type 0
  At db = db ≡ before

  -- The answer of the loading: the tables are untouched.
  abbrev Loaded : Option Manifest → Type 0
  Loaded none = Unit
  Loaded (some m) = (s : ScopeRow) × IsObserved h id before s m

  abbrev Loads : Option Manifest → CatalogDb → Type 0
  Loads o db = At db × Loaded o

  module _ (s : ScopeRow) (at : before.scope ≡ some s) (ep : s.epoch ≡ id.epoch)
      (hi : s.highest ≡ id.generation) where
    module _ (p : SnapshotRow) (held : before.snapshot ≡ some p)
        (fresh : is_pending h id.epoch id.generation (some p) ≡ true) where
      verify_declared-Loads :
          (m : Manifest) → p.declared ≡ some m → Leads At (verify_declared h id m p) Loads
      unfolding verify_declared
      verify_declared-Loads m d = Leads-read h _ ordered_pages _ (λ pages.
          Leads-if (ltb_ℤ (pos (length pages)) m.page_count) _ _
            (λ e. Leads-pure none (λ db f. (f.0, tt)))
            (λ e. Leads-lift _ _ (λ u g. Leads-pure (some m) (λ db f. (
              f.0,
              (
                s,
                record {
                  current = at;
                  epoch = ep;
                  highest = hi;
                  pending = p;
                  held = held;
                  fresh = fresh;
                  declared = d;
                  verified =
                      ap (λ x. verify_snapshot h.codec m x p.canonical_bytes)
                        (sym (ap ordered_pages f.0) ∙ f.1)
                      ∙ recast_good _ _ tt g;
                },
              ),
            )))))

      load_declared-Loads :
          (o : Option Manifest) → p.declared ≡ o → Leads At (load_declared h id p o) Loads
      load_declared-Loads none d = Leads-pure none (λ db f. (f, tt))
      load_declared-Loads (some m) d = verify_declared-Loads m d

    load_pending-Loads :
        (o : Option SnapshotRow)
        → Leads (λ db. At db × (db.snapshot ≡ o)) (load_pending h id o) Loads
    load_pending-Loads none = Leads-raise _
    load_pending-Loads (some p) =
        Leads-if (is_pending h id.epoch id.generation (some p)) _ _
          (λ e. record {
            from = λ db f.
                (load_declared-Loads p (ap (λ d. d.snapshot) (sym f.0) ∙ f.1) e p.declared
                    refl).from
                  db f.0;
          })
          (λ e. Leads-raise _)

  load_against-Loads :
      (o : Option ScopeRow) → Leads (λ db. At db × (db.scope ≡ o)) (load_against h id o) Loads
  unfolding load_current
  load_against-Loads none = Leads-raise _
  load_against-Loads (some s) =
      Leads-if (not (s.epoch == id.epoch)) _ _ (λ e. Leads-raise _)
        (λ e.
          Leads-if (id.generation == s.completed) _ _ (λ g. Leads-pure none (λ db f. (f.0, tt)))
            (λ g.
              Leads-if (not (id.generation == s.highest)) _ _ (λ k. Leads-raise _)
                (λ k. record {
                  from = λ db f.
                      (Leads-read {P = At} h _ _ _ (
                          load_pending-Loads s (ap (λ d. d.scope) (sym f.0) ∙ f.1)
                            (ground (arith, e)) (ground (arith, k)))).from
                        db f.0;
                })))

  load_verified-Loads : Leads At (load_verified h id) Loads
  unfolding load_verified
  load_verified-Loads = Leads-lift _ _ (λ u e.
      Leads-write {R = At} h lock_catalog (λ db. db) _ (λ db f. f)
        (Leads-read h select_scope _ _ load_against-Loads))

  abbrev Ended : Bool → CatalogDb → Type 0
  Ended done after = Completes h id before done after

  module _ (s : ScopeRow) (m : Manifest) (o : IsObserved h id before s m)
      (ok : is_invalid h before ≡ false) where
    abbrev corpus : CatalogDb
    corpus = suppress h (project h before)

    is_own-pending :
        (p : SnapshotRow)
        → is_pending h id.epoch id.generation (some p) ≡ true
        → is_own h id (some p) ≡ true
    is_own-pending p e = ground (arith, e)

    own : is_own h id before.snapshot ≡ true
    own = ap (is_own h id) o.held ∙ is_own-pending o.pending o.fresh

    abbrev last : CatalogDb
    last = drop_own h id (publish h id m corpus)

    last-IsPublished : may_complete h id before.scope ≡ true → IsPublished h id before last s m
    last-IsPublished c =
        let scope : last.scope ≡ complete_scope h id m before.scope =
          dropped_scope (is_own h id before.snapshot) (publish h id m corpus)
          ∙ ap (λ t. if t then complete_scope h id m before.scope else before.scope) c in
        let (served, others) = suppress-project h before ok in
        record {
          served = λ u.
              ap (any (is_served u))
                (dropped_documents (is_own h id before.snapshot) (publish h id m corpus))
              ∙ served u;
          others =
              ap (keep is_foreign)
                (dropped_documents (is_own h id before.snapshot) (publish h id m corpus))
              ∙ others;
          rises =
              below (s.epoch == id.epoch) (s.highest == id.generation) s.completed id.generation
                (sym (ap (may_complete h id) o.current) ∙ c);
          published = scope ∙ ap (complete_scope h id m) o.current;
          slot = dropped_slot (is_own h id before.snapshot) own (publish h id m corpus);
          history = dropped_epochs (is_own h id before.snapshot) (publish h id m corpus);
        }
      where
        dropped_scope :
            (t : Bool) (db : CatalogDb)
            → (if t then record db { snapshot = none } else db).scope ≡ db.scope
        dropped_scope true db = refl
        dropped_scope false db = refl

        dropped_documents :
            (t : Bool) (db : CatalogDb)
            → (if t then record db { snapshot = none } else db).documents ≡ db.documents
        dropped_documents true db = refl
        dropped_documents false db = refl

        dropped_epochs :
            (t : Bool) (db : CatalogDb)
            → (if t then record db { snapshot = none } else db).epochs ≡ db.epochs
        dropped_epochs true db = refl
        dropped_epochs false db = refl

        dropped_slot :
            (t : Bool)
            → t ≡ true
            → (db : CatalogDb) → (if t then record db { snapshot = none } else db).snapshot ≡ none
        dropped_slot true e db = refl
        dropped_slot false e db = absurd (ground (arith, e))

        below : (a b : Bool) (x y : ℕ) → (a && b && ltb x y) ≡ true → x < y
        below a b x y e = ground (arith, e)

    finish-Ended :
        may_complete h id before.scope ≡ true
        → Leads (λ db. db ≡ publish h id m corpus) (finish h id) Ended
    unfolding finish
    finish-Ended c =
        Leads-write {R = λ db. db ≡ last} h delete_snapshots (drop_own h id) _
          (λ db f. ap (drop_own h id) f)
          (Leads-pure true
            (λ db f. subst (Ended true) (sym f) (publishes s m o (last-IsPublished c))))

    publish_manifest-Ended : Leads (λ db. db ≡ corpus) (publish_manifest h id m) Ended
    unfolding publish_manifest
    publish_manifest-Ended = Leads-read h set_completed (λ db. may_complete h id db.scope) _ next
      where
        next :
            (t : Bool)
            → Leads
                (λ db. (db ≡ corpus) × (may_complete h id db.scope ≡ t))
                (write h set_completed (publish h id m) >>= λ u.
                  if t then finish h id else raise (conflict "completion fence changed"))
                Ended
        next true = record {
          from = λ db f.
              (Leads-write {P = λ x. x ≡ corpus} {R = λ x. x ≡ publish h id m corpus} h
                  set_completed (publish h id m) _ (λ x g. ap (publish h id m) g)
                  (finish-Ended (ap (λ x. may_complete h id x.scope) (sym f.0) ∙ f.1))).from
                db f.0;
        }
        next false =
            Leads-write {R = λ db. Unit} h set_completed (publish h id m) _ (λ db f. tt)
              (Leads-raise _)

    activate-Ended : Leads At (activate h id m) Ended
    unfolding activate
    activate-Ended =
        Leads-write {R = λ db. db ≡ project h before} h upsert_incoming (project h) _
          (λ db f. ap (project h) f)
          (Leads-write {R = λ db. db ≡ corpus} h suppress_orphans (suppress h) _
            (λ db f. ap (suppress h) f) publish_manifest-Ended)

  complete_snapshot-Ended : Leads At (complete_snapshot h id) Ended
  unfolding complete_snapshot
  complete_snapshot-Ended =
      Leads-bind {R = Loads} (load_verified h id) _ load_verified-Loads verified
    where
      verified : (o : Option Manifest) → Leads (Loads o) (complete_verified h id o) Ended
      verified none = Leads-pure false (λ db f. subst (Ended false) (sym f.0) waits)
      verified (some m) = record {
        from = λ db f.
            (Leads-read {P = At} {Q = Ended} h _ (is_invalid h)
                (λ t.
                  if t
                  then raise (conflict "ineligible or foreign projection")
                  else activate h id m)
                (λ t.
                  Leads-if t _ _ (λ e. Leads-raise _)
                    (λ e. record {
                      from = λ x g.
                          (activate-Ended f.1.0 m f.1.1
                              (ap (is_invalid h) (sym g.0) ∙ g.1 ∙ e)).from
                            x g.0;
                    }))).from
              db f.0;
      }

-- A completion that ends well either changes nothing, or its scope's highest generation was pending,
-- fresh, with an end and pages that verify against its manifest, and was above the completed one.
-- Then the local videos that are eligible afterwards are exactly those of the snapshot's pages, the
-- rows of another kind are as they were, the scope has that generation and manifest as completed,
-- the snapshot is gone and the epochs are as before.
pub complete_snapshot-Completes :
    (h : Host) (id : Identity) (before after : CatalogDb) (done : Bool)
    → complete_snapshot h id before ≡ good (done, after)
    → Completes h id before done after
complete_snapshot-Completes h id before after done e =
    subst (Ends (λ d x. Completes h id before d x)) e
      ((complete_snapshot-Ended h id before).from before refl)
