-- ===== src/Catalog/Authority.antt =====
-- internal/store: catalog_epoch.go, catalog_admission.go and catalog_retention.go.
use mathlib.Core.Option
use vidra_search.Prelude.{
  ℕ, ltb, ◌==◌, String, Bool, true, false, not, ◌&&◌, ◌||◌, Option, none, some, List, [], ◌∷◌, any,
  str_eq, if◌then◌else◌,
}
use vidra_search.Store.Rows.{Uuid}
use vidra_search.Catalog.Digests.{
  Identity, Checked, good, bad, invalid, conflict, already_completed, sql, validate_identity,
}
use vidra_search.Catalog.Tables.{
  EpochRow, ScopeRow, SnapshotRow, CatalogDb, Host, begin, commit, lock_catalog, select_scope,
  select_epoch_used, select_predecessor, select_pending, insert_epoch, insert_snapshot, set_epoch,
  set_highest, delete_snapshots, delete_expired,
}
use vidra_search.Catalog.Tx.{Tx, pure, lift, raise, read, write, call, ◌>>=◌, ◌>>◌}

abbrev pub eq_opt : Option Uuid → Option Uuid → Bool
eq_opt none none = true
eq_opt none (some v) = false
eq_opt (some u) none = false
eq_opt (some u) (some v) = u == v

-- The predecessor of an epoch's row, where there is one.
abbrev pub predecessor_of : Uuid → List EpochRow → Option (Option Uuid)
predecessor_of u [] = none
predecessor_of u (r ∷ rs) = if r.epoch == u then some r.predecessor else predecessor_of u rs

-- INSERT … ON CONFLICT (scope) DO UPDATE: a scope at its start.
abbrev pub reset_scope : Uuid → CatalogDb → CatalogDb
reset_scope u db = record db {
  scope =
      some (record { epoch = u; highest = 0; completed = 0; completed_at = none; manifest = none });
}

abbrev pub add_epoch : Uuid → Option Uuid → CatalogDb → CatalogDb
add_epoch u p db = record db { epochs = record { epoch = u; predecessor = p } ∷ db.epochs }

abbrev pub drop_snapshot : CatalogDb → CatalogDb
drop_snapshot db = record db { snapshot = none }

abbrev pub epoch_used : Uuid → CatalogDb → Bool
epoch_used u db = any (λ r. r.epoch == u) db.epochs

module _ (h : Host) (u : Uuid) (expected : Option Uuid) where
  -- An exact retry with the original predecessor is idempotent.
  abbrev pub retry_matches : Option (Option Uuid) → Tx (Unit {0})
  retry_matches none = raise (sql "no rows in result set")
  retry_matches (some p) =
      if eq_opt p expected then call h commit else raise (conflict "catalog authority conflict")

  unfoldable pub retry_epoch : Tx (Unit {0})
  retry_epoch = do p ← read h select_predecessor (λ db. predecessor_of u db.epochs); retry_matches p

  unfoldable pub move_epoch : Tx (Unit {0})
  move_epoch = do
    write h insert_epoch (add_epoch u expected)
    write h delete_snapshots drop_snapshot
    write h set_epoch (reset_scope u)
    call h commit

  unfoldable pub new_epoch : Tx (Unit {0})
  new_epoch = do
    used ← read h select_epoch_used (epoch_used u)
    if used then raise (conflict "catalog authority conflict") else move_epoch

  -- What follows from the epoch that is current, if there is one.
  abbrev pub epoch_from : Option Uuid → Tx (Unit {0})
  epoch_from none =
      if eq_opt expected none then new_epoch else raise (conflict "catalog authority conflict")
  epoch_from (some current) =
      if current == u
      then retry_epoch
      else if eq_opt expected (some current)
      then new_epoch
      else raise (conflict "catalog authority conflict")

  abbrev pub bad_epoch_request : String → Bool
  bad_epoch_request scope = not (str_eq scope "local") || u == 0 || eq_opt expected (some 0)

  -- SetCatalogEpoch
  unfoldable pub set_catalog_epoch : (scope : String) → Tx (Unit {0})
  set_catalog_epoch scope =
      if bad_epoch_request scope
      then raise (invalid "catalog epoch requires local scope and nonzero identities")
      else do
        call h begin
        call h lock_catalog
        current ← read h select_scope (λ db. Option.map (λ s. s.epoch) db.scope)
        epoch_from current

-- A pending snapshot of this epoch and generation that has not expired.
abbrev pub is_pending : Host → Uuid → ℕ → Option SnapshotRow → Bool
is_pending h u g none = false
is_pending h u g (some s) = s.epoch == u && s.generation == g && h.is_fresh s.created_at h.now

abbrev pub with_highest : ℕ → ScopeRow → ScopeRow
with_highest g s = record s { highest = g }

abbrev pub raise_highest : ℕ → CatalogDb → CatalogDb
raise_highest g db = record db { scope = Option.map (with_highest g) db.scope }

abbrev pub open_snapshot : Host → Uuid → ℕ → CatalogDb → CatalogDb
open_snapshot h u g db = record db {
  snapshot = some (record {
    epoch = u;
    generation = g;
    created_at = h.now;
    declared = none;
    canonical_bytes = 0;
    pages = [];
  });
}

module _ (h : Host) (id : Identity) where
  unfoldable pub admit_again : Tx (Unit {0})
  admit_again = do
    pending ← read h select_pending (λ db. is_pending h id.epoch id.generation db.snapshot)
    if pending then pure tt else raise (conflict "expired generation requires a fresh observation")

  -- A newer generation takes the one pending slot.
  unfoldable pub admit_new : Tx (Unit {0})
  admit_new = do
    write h delete_snapshots drop_snapshot
    write h set_highest (raise_highest id.generation)
    write h insert_snapshot (open_snapshot h id.epoch id.generation)
    pure tt

  abbrev pub admit_against : Option ScopeRow → Tx (Unit {0})
  admit_against none = raise (conflict "uninitialized scope")
  admit_against (some s) =
      if not (s.epoch == id.epoch)
      then raise (conflict "epoch mismatch")
      else if id.generation == s.completed
      then raise already_completed
      else if ltb id.generation s.highest
      then raise (conflict "superseded generation")
      else if id.generation == s.highest
      then admit_again
      else admit_new

  -- AdmitCatalogGeneration
  unfoldable pub admit_generation : Tx (Unit {0})
  admit_generation = do
    lift (as_conflict (validate_identity id))
    call h lock_catalog
    row ← read h select_scope (λ db. db.scope)
    admit_against row
    where
      as_conflict : Checked (Unit {0}) → Checked (Unit {0})
      as_conflict (good u) = good u
      as_conflict (bad e) = bad (conflict "catalog: invalid identity")

-- PruneCatalogSnapshots: how many snapshots went.
abbrev pub expired : Host → Option SnapshotRow → ℕ
expired h none = 0
expired h (some s) = if h.is_fresh s.created_at h.now then 0 else 1

abbrev pub drop_expired : Host → CatalogDb → CatalogDb
drop_expired h db = if expired h db.snapshot == 0 then db else drop_snapshot db

unfoldable pub prune_snapshots : Host → Tx ℕ
prune_snapshots h = do
  call h begin
  call h lock_catalog
  -- the count is that of the rows which the deletion affects
  n ← read h delete_expired (λ db. expired h db.snapshot)
  write h delete_expired (drop_expired h)
  call h commit
  pure n
