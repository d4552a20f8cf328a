-- ===== src/Store/Query.antt =====
-- Running statements: a statement may be refused by the database, and then leaves the tables alone.
use vidra_search.Prelude.{String, Option, none, some, Bool, true, false, ◌≡◌}
use vidra_search.Store.Tables.{Db}
use vidra_search.Store.Stmt.{Sql, Stmt, apply}

-- A Go `error`, as its text.
abbrev pub Error : Type 0
Error = String

pub data Outcome {ℓ} (A : Type ℓ) : Type ℓ where
  ok : A → Outcome A
  err : Error → Outcome A

pub ok_path : {A : Type 0} (a b : A) → Outcome.ok a ≡ ok b → a ≡ b
ok_path a b e = cc

-- The database: what it computes, and which statements it refuses in which state.
pub record Server : Type 0 where
  pub sql : Sql
  pub refuses : Stmt → Db → Option Error

-- A function over the transaction's handle that returns a Go `(A, error)`.
abbrev pub Query : Type 0 → Type 0
Query A = Db → Outcome (A × Db)

abbrev pub unless_refused : Db → Option Error → Outcome (Unit {0} × Db)
unless_refused after none = ok (tt, after)
unless_refused after (some e) = err e

unfoldable pub exec : Server → Stmt → Query (Unit {0})
exec srv st db = unless_refused (apply srv.sql st db) (srv.refuses st db)

unfoldable pub pure : {A : Type 0} → A → Query A
pure a db = ok (a, db)

unfoldable pub lift : {A : Type 0} → Outcome A → Query A
lift (ok a) db = ok (a, db)
lift (err e) db = err e

abbrev pub continue : {A B : Type 0} → Outcome (A × Db) → (A → Query B) → Outcome (B × Db)
continue (ok (a, db)) f = f a db
continue (err e) f = err e

-- The computation returned `a` and left `db`.
abbrev pub Returns : {A : Type 0} → Outcome (A × Db) → A → Db → Type 0
Returns r a db = r ≡ ok (a, db)

infixl 5 ◌>>=◌ ◌>>◌
unfoldable pub ◌>>=◌ : {A B : Type 0} → Query A → (A → Query B) → Query B
◌>>=◌ m f db = continue (m db) f

abbrev pub ◌>>◌ : {A B : Type 0} → Query A → Query B → Query B
m >> k = m >>= λ _. k

-- A statement that a condition guards.
unfoldable pub when : Bool → Query (Unit {0}) → Query (Unit {0})
unfolding pure
when true m = m
when false m = pure tt
