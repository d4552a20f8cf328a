-- ===== src/Catalog/Completion.antt =====
-- internal/store: catalog_end.go, catalog_verified.go and catalog_activation.go under the fences.
use vidra_search.Prelude.{
  pos, ltb_ℤ, length, ◌==◌, Bool, true, false, not, Option, none, some, List, ◌≡◌, inl, refl, sym,
  ap, subst, arith, if◌then◌else◌,
}
use vidra_search.Store.Rows.{Document}
use vidra_search.Catalog.Digests.{
  Identity, Manifest, Checked, good, bad, already_completed, eq_manifest, invalid, conflict, quota,
  sql,
}
use vidra_search.Catalog.Tables.{
  EpochRow, ScopeRow, SnapshotRow, CatalogDb, Host, declare_manifest, set_completed,
  delete_snapshots, upsert_incoming, suppress_orphans, lock_catalog,
}
use vidra_search.Catalog.Tx.{
  Ends, pure, raise, write, Leads, Leads-pure, Leads-raise, Leads-lift, Leads-read, Leads-write,
  Leads-bind, Leads-if, Leads-weaken, ◌>>=◌,
}
use vidra_search.Catalog.Authority.{admit_generation, drop_snapshot, is_pending}
use vidra_search.Catalog.Staging.{
  replay_matches, replay_end, pages_exceed, declare, declare_new, declare_against, end_admitted,
  end_after, end_checked, over_quota, stage_end,
}
use vidra_search.Catalog.Activation.{
  load_verified, load_against, load_current, load_pending, load_declared, verify_declared,
  verified_pages, project, suppress, may_complete, complete_scope, publish, is_own, drop_own,
  finish, publish_manifest, activate, complete_verified, complete_snapshot,
}
use vidra_search.Catalog.Snapshot.{SnapshotPage}
use vidra_search.Catalog.Fence.{
  IsPendingOf, IsFenced, Rises, Later, Later-trans, Fenced, drop_snapshot-Fenced,
  update_snapshot-Fenced,
}
use vidra_search.Catalog.Admission.{Ending, admit_generation-Fenced}

module _ (start : CatalogDb) (h : Host) (id : Identity) where
  module _ (m : Manifest) where
    replay_matches-Fenced :
        (o : Option Manifest) → Leads (Fenced start) (replay_matches h id m o) (Ending start)
    replay_matches-Fenced none = Leads-raise _
    replay_matches-Fenced (some c) =
        Leads-if (eq_manifest c m) _ _ (λ e. Leads-pure tt (λ db f. f)) (λ e. Leads-raise _)

    replay_end-Fenced : Leads (Fenced start) (replay_end h id m) (Ending start)
    unfolding replay_end
    replay_end-Fenced =
        Leads-read h _ _ _
          (λ o. Leads-weaken (replay_matches h id m o) (λ db f. f.0) (replay_matches-Fenced o))

    declare_new-Fenced : Leads (Fenced start) (declare_new h id m) (Ending start)
    unfolding declare_new
    declare_new-Fenced = Leads-read h _ _ _ (λ ps.
        Leads-if (pages_exceed h id m ps) _ _ (λ e. Leads-raise _)
          (λ e.
            Leads-write {R = Fenced start} h declare_manifest (declare m) _
              (λ db f. update_snapshot-Fenced start db _ (λ x. (refl, refl)) f.0)
              (Leads-pure tt (λ db f. f))))

    declare_known-Fenced :
        (o : Option Manifest)
        → Leads
            (Fenced start)
            (elim o [
              | none ↦ declare_new h id m
              | some c ↦
                  if eq_manifest c m then pure tt else raise (conflict "immutable end mismatch")
            ])
            (Ending start)
    declare_known-Fenced none = declare_new-Fenced
    declare_known-Fenced (some c) =
        Leads-if (eq_manifest c m) _ _ (λ e. Leads-pure tt (λ db f. f)) (λ e. Leads-raise _)

    declare_against-Fenced :
        (o : Option SnapshotRow) → Leads (Fenced start) (declare_against h id m o) (Ending start)
    declare_against-Fenced none = Leads-raise _
    declare_against-Fenced (some s) = declare_known-Fenced s.declared

    end_admitted-Fenced : Leads (Fenced start) (end_admitted h id m) (Ending start)
    unfolding end_admitted
    end_admitted-Fenced =
        Leads-read h _ _ _
          (λ o. Leads-weaken (declare_against h id m o) (λ db f. f.0) (declare_against-Fenced o))

    end_checked-Fenced : Leads (Fenced start) (end_checked h id m) (Ending start)
    unfolding end_checked
    end_checked-Fenced = record {
      from = λ db f.
          after db f (admit_generation h id db) ((admit_generation-Fenced start h id).from db f);
    }
      where
        after :
            (db : CatalogDb)
            → Fenced start db
            → (r : Checked (Unit {0} × CatalogDb)) → Ends (Ending start) r
            → Ends (Ending start) (end_after h id m r db)
        after db f (good (u, mid)) e = end_admitted-Fenced.from mid e
        after db f (bad already_completed) e = replay_end-Fenced.from db f
        after db f (bad (invalid x)) e = tt
        after db f (bad (conflict x)) e = tt
        after db f (bad (quota x)) e = tt
        after db f (bad (sql x)) e = tt

    pub stage_end-Fenced : Leads (Fenced start) (stage_end h id m) (Ending start)
    unfolding stage_end
    stage_end-Fenced =
        Leads-lift _ _
          (λ u e. Leads-if (over_quota h id m) _ _ (λ e2. Leads-raise _) (λ e2. end_checked-Fenced))

  verified_pages-Fenced :
      (m : Manifest) (s : SnapshotRow) (pages : List SnapshotPage)
      → Leads (Fenced start) (verified_pages h id m s pages) (Ending start)
  verified_pages-Fenced m s pages =
      Leads-if (ltb_ℤ (pos (length pages)) m.page_count) _ _ (λ e. Leads-pure none (λ db f. f))
        (λ e. Leads-lift _ _ (λ u e2. Leads-pure (some m) (λ db f. f)))

  load_declared-Fenced :
      (s : SnapshotRow) (o : Option Manifest)
      → Leads (Fenced start) (load_declared h id s o) (Ending start)
  unfolding verify_declared
  load_declared-Fenced s none = Leads-pure none (λ db f. f)
  load_declared-Fenced s (some m) =
      Leads-read h _ _ _ (λ ps.
        Leads-weaken (verified_pages h id m s ps) (λ db f. f.0) (verified_pages-Fenced m s ps))

  load_pending-Fenced :
      (o : Option SnapshotRow) → Leads (Fenced start) (load_pending h id o) (Ending start)
  load_pending-Fenced none = Leads-raise _
  load_pending-Fenced (some s) =
      Leads-if (is_pending h id.epoch id.generation (some s)) _ _
        (λ e. load_declared-Fenced s s.declared) (λ e. Leads-raise _)

  load_against-Fenced :
      (o : Option ScopeRow) → Leads (Fenced start) (load_against h id o) (Ending start)
  unfolding load_current
  load_against-Fenced none = Leads-raise _
  load_against-Fenced (some s) =
      Leads-if (not (s.epoch == id.epoch)) _ _ (λ e. Leads-raise _)
        (λ e.
          Leads-if (id.generation == s.completed) _ _ (λ e2. Leads-pure none (λ db f. f))
            (λ e2.
              Leads-if (not (id.generation == s.highest)) _ _ (λ e3. Leads-raise _)
                (λ e3.
                  Leads-read h _ _ _ (λ o.
                    Leads-weaken (load_pending h id o) (λ db f. f.0) (load_pending-Fenced o)))))

  load_verified-Fenced : Leads (Fenced start) (load_verified h id) (Ending start)
  unfolding load_verified
  load_verified-Fenced = Leads-lift _ _ (λ u e.
      Leads-write {R = Fenced start} h lock_catalog (λ db. db) _ (λ db f. f)
        (Leads-read h _ _ _
          (λ o. Leads-weaken (load_against h id o) (λ db f. f.0) (load_against-Fenced o))))

  -- The tables between the completing statement and the deletion of the snapshot: with the snapshot
  -- gone they would be consistent.
  abbrev Unfinished : CatalogDb → Type 0
  Unfinished db = Fenced start (drop_own h id db)

  drop_other :
      (t : Bool) (db : CatalogDb)
      → Fenced start db
      → Fenced start (if t then drop_snapshot db else db)
  drop_other true db f = drop_snapshot-Fenced start db f
  drop_other false db f = f

  finish-Fenced : Leads Unfinished (finish h id) (Ending start)
  unfolding finish
  finish-Fenced =
      Leads-write {R = Fenced start} h delete_snapshots (drop_own h id) _ (λ db f. f)
        (Leads-pure true (λ db f. f))

  -- The statement that publishes: it takes the scope to the pending generation, which is this one.
  published-Unfinished :
      (m : Manifest) (es : List EpochRow) (o : Option ScopeRow) (p : Option SnapshotRow)
      → IsFenced es o p
      → may_complete h id o ≡ true
      → IsFenced es (complete_scope h id m o) (if is_own h id p then none else p)
        × Rises es o (complete_scope h id m o)
  published-Unfinished m es none p f c = absurd (ground (arith, c))
  published-Unfinished m es (some s) none (k, l, n, q) c =
      ((k, ground (arith, c), ground (arith, c), tt), inl (refl, ground arith, ground (arith, c)))
  published-Unfinished m es (some s) (some p) (k, l, n, (e, g, q)) c =
      let own : is_own h id (some p) ≡ true = ground (arith, c, e, g) in
      let gone : IsPendingOf s none = tt in
      (
        (
          k,
          ground (arith, c),
          ground (arith, c),
          subst
              (λ t.
                IsPendingOf
                  (record s {
                    completed = id.generation;
                    completed_at = some h.now;
                    manifest = some m;
                  })
                  (if t then none else some p))
              (sym own) gone,
        ),
        inl (refl, ground arith, ground (arith, c)),
      )

  either_Fenced :
      (t : Bool) (db : CatalogDb)
      → IsFenced db.epochs db.scope (if t then none else db.snapshot)
      → Later start db
      → Fenced start (if t then drop_snapshot db else db)
  either_Fenced true db f l = (f, record { history = l.history; fences = l.fences })
  either_Fenced false db f l = (f, l)

  publish-Unfinished :
      (m : Manifest) (db : CatalogDb)
      → Fenced start db
      → may_complete h id db.scope ≡ true
      → Unfinished (publish h id m db)
  publish-Unfinished m db (a, l) c =
      let (f, r) = published-Unfinished m db.epochs db.scope db.snapshot a c in
      let after : CatalogDb = record db { scope = complete_scope h id m db.scope } in
      let later : Later start after =
        Later-trans start db after l (record { history = λ u k. k; fences = r }) in
      let same : after ≡ publish h id m db =
        ap (λ t. record db { scope = if t then complete_scope h id m db.scope else db.scope })
          (sym c) in
      subst Unfinished same (either_Fenced (is_own h id db.snapshot) after f later)

  publish_manifest-Fenced :
      (m : Manifest) → Leads (Fenced start) (publish_manifest h id m) (Ending start)
  unfolding publish_manifest
  publish_manifest-Fenced m = Leads-read h set_completed (λ db. may_complete h id db.scope) _ next
    where
      next :
          (t : Bool)
          → Leads
              (λ db. Fenced start db × (may_complete h id db.scope ≡ t))
              (write h set_completed (publish h id m) >>= λ u.
                if t then finish h id else raise (conflict "completion fence changed"))
              (Ending start)
      next true =
          Leads-write {R = Unfinished} h set_completed (publish h id m) _
            (λ db f. publish-Unfinished m db f.0 f.1) finish-Fenced
      next false =
          Leads-write {R = λ db. Unit} h set_completed (publish h id m) _ (λ db f. tt)
            (Leads-raise _)

  pub activate-Fenced : (m : Manifest) → Leads (Fenced start) (activate h id m) (Ending start)
  unfolding activate
  activate-Fenced m =
      Leads-write {R = Fenced start} h upsert_incoming (project h) _
        (λ db. documents_only (project h db).documents db)
        (Leads-write {R = Fenced start} h suppress_orphans (suppress h) _
          (λ db. documents_only (suppress h db).documents db) (publish_manifest-Fenced m))
    where
      documents_only :
          (ds : List Document) (db : CatalogDb)
          → Fenced start db
          → Fenced start (record db { documents = ds })
      documents_only ds db (a, l) = (a, record { history = l.history; fences = l.fences })

  pub complete_snapshot-Fenced : Leads (Fenced start) (complete_snapshot h id) (Ending start)
  unfolding complete_snapshot
  complete_snapshot-Fenced =
      Leads-bind {R = Ending start} (load_verified h id) _ load_verified-Fenced verified
    where
      verified :
          (o : Option Manifest) → Leads (Fenced start) (complete_verified h id o) (Ending start)
      verified none = Leads-pure false (λ db f. f)
      verified (some m) = Leads-read h _ _ _ (λ t.
          Leads-if t _ _ (λ e. Leads-raise _)
            (λ e. Leads-weaken (activate h id m) (λ db f. f.0) (activate-Fenced m)))
