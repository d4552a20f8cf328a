-- ===== src/Store/Trace.antt =====
-- Which statements a computation runs, as a relation between the tables before and after.
use vidra_search.Prelude.{◌≡◌, refl, sym, Bool, true, false, Option, none, some, if◌then◌else◌}
use vidra_search.Store.Tables.{Db}
use vidra_search.Store.Stmt.{Sql, Stmt, apply}
use vidra_search.Store.Query.{
  Server, Query, Error, Outcome, Returns, ok, err, unless_refused, continue, exec, pure, lift, when,
  ◌>>=◌,
}

-- The tables `db` became the tables of the index by statements that `S` allows.
pub data Steps (sql : Sql) (S : Stmt → Type 0) (db : Db) : Db → Type 0 where
  done : Steps sql S db db
  ran : {db' : Db} (st : Stmt) → Steps sql S db db' → S st → Steps sql S db (apply sql st db')

module _ {sql : Sql} {S : Stmt → Type 0} where
  pub Steps-trans : {a b c : Db} → Steps sql S a b → Steps sql S b c → Steps sql S a c
  Steps-trans p done = p
  Steps-trans p (ran st q h) = ran st (Steps-trans p q) h

  -- What every allowed statement keeps, the whole run keeps.
  pub Steps-keep :
      (P : Db → Type 0) {a b : Db}
      → ((st : Stmt) (db : Db) → S st → P db → P (apply sql st db))
      → P a
      → Steps sql S a b
      → P b
  Steps-keep P keep h done = h
  Steps-keep P keep h (ran {db'} st q s) = keep st db' s (Steps-keep P keep h q)

-- A computation that returns has run only statements that `S` allows.
pub record Issues {A : Type 0} (srv : Server) (S : Stmt → Type 0) (m : Query A) : Type 0 where
  pub at : (a : A) (db db' : Db) → m db ≡ ok (a, db') → Steps srv.sql S db db'

pub Returns-ok : {A : Type 0} {a b : A} {c d : Db} → Returns (ok (a, c)) b d → (a ≡ b) × (c ≡ d)
Returns-ok h = (cc, cc)

-- What a `>>=` that returns went through.
pub Returns-continue :
    {A B : Type 0} (r : Outcome (A × Db)) (f : A → Query B) (b : B) (db : Db)
    → Returns (continue r f) b db
    → (a : A) × (mid : Db) × Returns r a mid × Returns (f a mid) b db
Returns-continue (ok (a, mid)) f b db h = (a, mid, refl, h)
Returns-continue (err e) f b db h = absurd (cc)

to : {sql : Sql} {S : Stmt → Type 0} {a b c : Db} → b ≡ c → Steps sql S a b → Steps sql S a c
to e p = rw (← e) p

exec-Steps :
    (sql : Sql) {S : Stmt → Type 0} (st : Stmt) (db db' : Db) (u : Unit {0}) (r : Option Error)
    → S st
    → Returns (unless_refused (apply sql st db) r) u db'
    → Steps sql S db db'
exec-Steps sql st db db' u none s h = to ((Returns-ok h).1) (ran st done s)
exec-Steps sql st db db' u (some e) s h = absurd (cc)

unless_refused-Returns :
    (after db : Db) (u : Unit {0}) (r : Option Error)
    → Returns (unless_refused after r) u db
    → db ≡ after
unless_refused-Returns after db u none h = sym ((Returns-ok h).1)
unless_refused-Returns after db u (some e) h = absurd (cc)

-- A statement that is not refused leaves what it computes.
pub exec-Returns :
    (srv : Server) (st : Stmt) (db db' : Db) (u : Unit {0})
    → Returns (exec srv st db) u db'
    → db' ≡ apply srv.sql st db
unfolding exec
exec-Returns srv st db db' u h =
    unless_refused-Returns (apply srv.sql st db) db' u (srv.refuses st db) h

module _ {srv : Server} {S : Stmt → Type 0} where
  pub Issues-pure : {A : Type 0} (a : A) → Issues srv S (pure a)
  unfolding pure
  Issues-pure a = record { at = λ b db db' h. to ((Returns-ok h).1) done }

  pub Issues-lift : {A : Type 0} (r : Outcome A) → Issues srv S (lift r)
  unfolding lift
  Issues-lift (ok a) = record { at = λ b db db' h. to ((Returns-ok h).1) done }
  Issues-lift (err e) = record { at = λ b db db' h. absurd (cc) }

  pub Issues-exec : (st : Stmt) → S st → Issues srv S (exec srv st)
  unfolding exec
  Issues-exec st s = record {
    at = λ u db db' h. exec-Steps srv.sql st db db' u (srv.refuses st db) s h;
  }

  pub Issues-bind :
      {A B : Type 0} (m : Query A) (f : A → Query B)
      → Issues srv S m
      → ((a : A) → Issues srv S (f a))
      → Issues srv S (m >>= f)
  unfolding ◌>>=◌
  Issues-bind m f p q = record {
    at = λ b db db' h.
        let (a, mid, first, second) = Returns-continue (m db) f b db' h in
        Steps-trans (p.at a db mid first) ((q a).at b mid db' second);
  }

  -- the rest of the block may use that `r` did not fail
  pub Issues-bind-lift :
      {A B : Type 0} (r : Outcome A) (f : A → Query B)
      → ((a : A) → r ≡ ok a → Issues srv S (f a))
      → Issues srv S (lift r >>= f)
  unfolding lift ◌>>=◌
  Issues-bind-lift (ok a) f q = q a refl
  Issues-bind-lift (err e) f q = record { at = λ b db db' h. absurd (cc) }

  pub Issues-if :
      {A : Type 0} (b : Bool) (m n : Query A)
      → (b ≡ true → Issues srv S m)
      → (b ≡ false → Issues srv S n)
      → Issues srv S (if b then m else n)
  Issues-if true m n p q = p refl
  Issues-if false m n p q = q refl

  pub Issues-when :
      (b : Bool) (m : Query (Unit {0})) → (b ≡ true → Issues srv S m) → Issues srv S (when b m)
  unfolding when
  Issues-when true m p = p refl
  Issues-when false m p = Issues-pure tt

pub ruleset issue_rules =
    (Issues-pure, Issues-lift, Issues-exec, Issues-bind-lift, Issues-bind, Issues-if, Issues-when)

module _ {B : Type 0} (srv : Server) (f : Unit {0} → Query B) (db db' : Db) (b : B) where
  -- a block that returned, past its first statement
  pub exec-bind :
      (st : Stmt)
      → Returns ((exec srv st >>= f) db) b db'
      → Returns (f tt (apply srv.sql st db)) b db'
  unfolding ◌>>=◌
  exec-bind st h =
      let (u, mid, first, rest) = Returns-continue (exec srv st db) f b db' h in
      rw (exec-Returns srv st db mid u first) at rest

  pub when-bind :
      (c : Bool) (st : Stmt)
      → Returns ((when c (exec srv st) >>= f) db) b db'
      → Returns (f tt (if c then apply srv.sql st db else db)) b db'
  unfolding when pure ◌>>=◌
  when-bind true st h = exec-bind st h
  when-bind false st h = h
