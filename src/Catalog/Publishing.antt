-- ===== src/Catalog/Publishing.antt =====
-- internal/store/catalog_activation.go: when a completion publishes.
use vidra_search.Prelude.{
  ℕ, ◌<◌, ltb, ◌==◌, pos, ltb_ℤ, length, Bool, true, false, not, ◌&&◌, Option, none, some, ◌≡◌,
  refl, ap, ◌∙◌, arith, if◌then◌else◌,
}
use vidra_search.Catalog.Digests.{Identity, Manifest, good, conflict, validate_identity}
use vidra_search.Catalog.Tables.{
  ScopeRow, CatalogDb, Host, Statement, lock_catalog, select_scope, set_completed, delete_snapshots,
  upsert_incoming, suppress_orphans, select_snapshot, select_pages, select_invalid,
}
use vidra_search.Catalog.Tx.{Tx, pure, raise, write_runs, read_runs, lift_runs, continue, ◌>>=◌}
use vidra_search.Catalog.Authority.{is_pending}
use vidra_search.Catalog.Staging.{recast}
use vidra_search.Catalog.Activation.{
  verify_declared, load_declared, load_pending, load_current, load_against, load_verified,
  is_invalid, project, suppress, may_complete, publish, drop_own, finish, publish_manifest,
  activate, complete_verified, complete_snapshot,
}
use vidra_search.Catalog.Observed.{IsObserved, ordered_pages}
use vidra_search.Catalog.Verified.{verify_snapshot-IsWhole}

if_false : {A : Type 0} (t : Bool) (x y : A) → t ≡ false → (if t then x else y) ≡ y
if_false true x y e = absurd (ground (arith, e))
if_false false x y e = refl

if_true : {A : Type 0} (t : Bool) (x y : A) → t ≡ true → (if t then x else y) ≡ x
if_true true x y e = refl
if_true false x y e = absurd (ground (arith, e))

module _ (h : Host) (fine : (st : Statement) (db : CatalogDb) → h.fails st db ≡ none)
    (id : Identity) where
  publish_manifest-runs :
      (m : Manifest) (db : CatalogDb)
      → may_complete h id db.scope ≡ true
      → publish_manifest h id m db ≡ good (true, drop_own h id (publish h id m db))
  unfolding publish_manifest finish pure
  publish_manifest-runs m db c =
      read_runs h fine set_completed _ _ db
      ∙ write_runs h fine set_completed (publish h id m) _ db
      ∙ ap
          (λ t.
            (if t then finish h id else raise (conflict "completion fence changed"))
              (publish h id m db))
          c
      ∙ write_runs h fine delete_snapshots (drop_own h id) _ (publish h id m db)

  activate-runs :
      (m : Manifest) (db : CatalogDb)
      → may_complete h id db.scope ≡ true
      → activate h id m db ≡ good (true, drop_own h id (publish h id m (suppress h (project h db))))
  unfolding activate
  activate-runs m db c =
      write_runs h fine upsert_incoming (project h) _ db
      ∙ write_runs h fine suppress_orphans (suppress h) _ (project h db)
      ∙ publish_manifest-runs m (suppress h (project h db)) c

  module _ (db : CatalogDb) (s : ScopeRow) (m : Manifest) (o : IsObserved h id db s m) where
    verify_declared-runs :
        ltb_ℤ (pos (length (ordered_pages db))) m.page_count ≡ false
        → verify_declared h id m o.pending db ≡ good (some m, db)
    unfolding verify_declared pure
    verify_declared-runs l =
        read_runs h fine select_pages _ _ db
        ∙ ap (λ (x : Tx (Option Manifest)). x db)
            (if_false (ltb_ℤ (pos (length (ordered_pages db))) m.page_count) _ _ l)
        ∙ lift_runs _ tt _ db (ap (recast (conflict "snapshot verification")) o.verified)

    load_verified-runs :
        validate_identity id ≡ good tt
        → s.completed < id.generation
        → ltb_ℤ (pos (length (ordered_pages db))) m.page_count ≡ false
        → load_verified h id db ≡ good (some m, db)
    unfolding load_verified load_current
    load_verified-runs v c l =
        lift_runs _ tt _ db (ap (recast (conflict "invalid identity")) v)
        ∙ write_runs h fine lock_catalog (λ x. x) _ db
        ∙ read_runs h fine select_scope _ _ db
        ∙ ap (λ r. load_against h id r db) o.current
        ∙ ap (λ (x : Tx (Option Manifest)). x db)
            (if_false (not (s.epoch == id.epoch)) _ _ (ground (arith, o.epoch)))
        ∙ ap (λ (x : Tx (Option Manifest)). x db)
            (if_false (id.generation == s.completed) _ _ (ground (arith, c)))
        ∙ ap (λ (x : Tx (Option Manifest)). x db)
            (if_false (not (id.generation == s.highest)) _ _ (ground (arith, o.highest)))
        ∙ read_runs h fine select_snapshot _ _ db
        ∙ ap (λ r. load_pending h id r db) o.held
        ∙ ap (λ (x : Tx (Option Manifest)). x db)
            (if_true (is_pending h id.epoch id.generation (some o.pending)) _ _ o.fresh)
        ∙ ap (λ r. load_declared h id o.pending r db) o.declared
        ∙ verify_declared-runs l

-- Where the database refuses no statement, an observation that is pending and verifies against its
-- end is published: the completion says so, and its tables have the corpus, the scope and the slot
-- that the statements make. The generation is to be above the completed one, and no page may hold
-- an ineligible document or an id of a row of another kind.
pub complete_snapshot-runs :
    (h : Host) (id : Identity) (db : CatalogDb) (s : ScopeRow) (m : Manifest)
    → ((st : Statement) (x : CatalogDb) → h.fails st x ≡ none)
    → validate_identity id ≡ good tt
    → IsObserved h id db s m
    → s.completed < id.generation
    → is_invalid h db ≡ false
    → complete_snapshot h id db
      ≡ good (true, drop_own h id (publish h id m (suppress h (project h db))))
unfolding complete_snapshot ◌>>=◌
complete_snapshot-runs h id db s m fine v o c n =
    let whole =
      verify_snapshot-IsWhole h.codec m (ordered_pages db) o.pending.canonical_bytes o.verified in
    let enough =
      ap (ltb_ℤ (pos (length (ordered_pages db)))) whole.page_count
      ∙ not_below (length (ordered_pages db)) in
    ap (λ r. continue r (complete_verified h id)) (load_verified-runs h fine id db s m o v c enough)
    ∙ read_runs h fine select_invalid _ _ db
    ∙ ap
        (λ t.
          (if t then raise (conflict "ineligible or foreign projection") else activate h id m) db)
        n
    ∙ activate-runs h fine id m db (
        ap (may_complete h id) o.current
        ∙ all3 s.epoch id.epoch s.highest s.completed id.generation o.epoch o.highest c)
  where
    not_below : (n : ℕ) → ltb_ℤ (pos n) (pos n) ≡ false
    not_below n = ground arith

    all3 : (a b x y g : ℕ) → a ≡ b → x ≡ g → y < g → (a == b && x == g && ltb y g) ≡ true
    all3 a b x y g p q r = ground (arith, p, q, r)
