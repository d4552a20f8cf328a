-- ===== src/Catalog/Fence.antt =====
-- The fences of the catalog's authority: what holds of the tables between two statements, and how
-- they may move.
use vidra_search.Prelude.{
  ◌≤◌, ◌<◌, ltb, ◌==◌, Bool, true, false, Option, none, some, List, any, is_some, ◌≡◌, ◌⊎◌, inl,
  inr, refl, ap, ◌∙◌, arith,
}
use vidra_search.Store.Rows.{Uuid}
use vidra_search.Catalog.Tables.{EpochRow, ScopeRow, SnapshotRow, CatalogDb}
use vidra_search.Catalog.Authority.{drop_snapshot}
use vidra_search.Catalog.Staging.{update_snapshot}

abbrev pub known : Uuid → List EpochRow → Bool
known u es = any (λ r. r.epoch == u) es

-- A pending snapshot is of the scope's epoch and of the highest generation, which is not completed.
abbrev pub IsPendingOf : ScopeRow → Option SnapshotRow → Type 0
IsPendingOf s none = Unit
IsPendingOf s (some p) =
    (p.epoch ≡ s.epoch) × (p.generation ≡ s.highest) × (s.completed < s.highest)

abbrev pub IsFenced : List EpochRow → Option ScopeRow → Option SnapshotRow → Type 0
IsFenced es none none = Unit
IsFenced es none (some p) = ⊥
IsFenced es (some s) p =
    (known s.epoch es ≡ true)
    × (s.completed ≤ s.highest)
    × (is_some s.manifest ≡ ltb 0 s.completed)
    × IsPendingOf s p

-- The tables' authority is consistent.
abbrev pub HasAuthority : CatalogDb → Type 0
HasAuthority db = IsFenced db.epochs db.scope db.snapshot

-- Within an epoch the fences only rise; another epoch is one that was never used.
abbrev pub Rises : List EpochRow → Option ScopeRow → Option ScopeRow → Type 0
Rises es none t = Unit
Rises es (some s) none = ⊥
Rises es (some s) (some t) =
    ((t.epoch ≡ s.epoch) × (s.highest ≤ t.highest) × (s.completed ≤ t.completed))
    ⊎ (known t.epoch es ≡ false)

pub record Later (before after : CatalogDb) : Type 0 where
  pub history : (u : Uuid) → known u before.epochs ≡ true → known u after.epochs ≡ true
  pub fences : Rises before.epochs before.scope after.scope

Rises-refl : (es : List EpochRow) (s : Option ScopeRow) → Rises es s s
Rises-refl es none = tt
Rises-refl es (some s) = inl (refl, omega arith, omega arith)

pub Later-refl : (db : CatalogDb) → Later db db
Later-refl db = record { history = λ u h. h; fences = Rises-refl db.epochs db.scope }

pub unknown : (a b : Bool) → (a ≡ true → b ≡ true) → b ≡ false → a ≡ false
unknown true b f h = absurd (ground (arith, f refl, h))
unknown false b f h = refl

Rises-trans :
    (es fs : List EpochRow) (r s t : Option ScopeRow)
    → ((u : Uuid) → known u es ≡ true → known u fs ≡ true)
    → Rises es r s
    → Rises fs s t
    → Rises es r t
Rises-trans es fs none s t k p q = tt
Rises-trans es fs (some r) none t k p q = absurd p
Rises-trans es fs (some r) (some s) none k p q = absurd q
Rises-trans es fs (some r) (some s) (some t) k p (inr n) =
    inr (unknown (known t.epoch es) (known t.epoch fs) (k t.epoch) n)
Rises-trans es fs (some r) (some s) (some t) k (inl (e, h, c)) (inl (e2, h2, c2)) =
    inl (e2 ∙ e, omega (arith, h, h2), omega (arith, c, c2))
Rises-trans es fs (some r) (some s) (some t) k (inr n) (inl (e2, h2, c2)) =
    inr (ap (λ u. known u es) e2 ∙ n)

pub Later-trans : (a b c : CatalogDb) → Later a b → Later b c → Later a c
Later-trans a b c p q = record {
  history = λ u h. q.history u (p.history u h);
  fences = Rises-trans a.epochs b.epochs a.scope b.scope c.scope p.history p.fences q.fences;
}

-- Consistent, and later than the tables that a run started from.
abbrev pub Fenced : CatalogDb → CatalogDb → Type 0
Fenced start db = HasAuthority db × Later start db

-- Dropping the pending snapshot.
IsFenced-none :
    (es : List EpochRow) (s : Option ScopeRow) (p : Option SnapshotRow)
    → IsFenced es s p
    → IsFenced es s none
IsFenced-none es none none h = tt
IsFenced-none es none (some p) h = absurd h
IsFenced-none es (some s) p (k, c, m, q) = (k, c, m, tt)

pub drop_snapshot-Fenced :
    (start db : CatalogDb) → Fenced start db → Fenced start (drop_snapshot db)
drop_snapshot-Fenced start db (a, l) = (
  IsFenced-none db.epochs db.scope db.snapshot a,
  record { history = l.history; fences = l.fences },
)

-- A change of the pending snapshot that keeps whose it is.
IsFenced-update :
    (es : List EpochRow) (s : Option ScopeRow) (p : Option SnapshotRow)
    (f : SnapshotRow → SnapshotRow)
    → ((x : SnapshotRow) → ((f x).epoch ≡ x.epoch) × ((f x).generation ≡ x.generation))
    → IsFenced es s p
    → IsFenced es s (update_snapshot f p)
IsFenced-update es none none f k h = tt
IsFenced-update es none (some p) f k h = absurd h
IsFenced-update es (some s) none f k h = h
IsFenced-update es (some s) (some p) f k (a, c, m, (e, g, l)) =
    (a, c, m, ((k p).0 ∙ e, (k p).1 ∙ g, l))

pub update_snapshot-Fenced :
    (start db : CatalogDb) (f : SnapshotRow → SnapshotRow)
    → ((x : SnapshotRow) → ((f x).epoch ≡ x.epoch) × ((f x).generation ≡ x.generation))
    → Fenced start db
    → Fenced start (record db { snapshot = update_snapshot f db.snapshot })
update_snapshot-Fenced start db f k (a, l) = (
  IsFenced-update db.epochs db.scope db.snapshot f k a,
  record { history = l.history; fences = l.fences },
)
