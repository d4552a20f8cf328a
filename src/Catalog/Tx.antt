-- ===== src/Catalog/Tx.antt =====
-- Code inside a transaction on the catalog's tables, and what it guarantees of the tables it leaves.
use vidra_search.Prelude.{
  String, Bool, true, false, Option, none, some, ◌≡◌, refl, ap, if◌then◌else◌,
}
use vidra_search.Catalog.Digests.{Checked, good, bad, CatalogError, sql}
use vidra_search.Catalog.Tables.{CatalogDb, Statement, Host}

abbrev pub Tx : Type 0 → Type 0
Tx A = CatalogDb → Checked (A × CatalogDb)

unfoldable pub pure : {A : Type 0} → A → Tx A
pure a db = good (a, db)

unfoldable pub lift : {A : Type 0} → Checked A → Tx A
lift (good a) db = good (a, db)
lift (bad e) db = bad e

unfoldable pub raise : {A : Type 0} → CatalogError → Tx A
raise e db = bad e

abbrev pub unless_failed : {A : Type 0} → Option String → A → CatalogDb → Checked (A × CatalogDb)
unless_failed none a db = good (a, db)
unless_failed (some e) a db = bad (sql e)

-- A statement that reads.
unfoldable pub read : {A : Type 0} → Host → Statement → (CatalogDb → A) → Tx A
read h st f db = unless_failed (h.fails st db) (f db) db

-- A statement that writes.
unfoldable pub write : Host → Statement → (CatalogDb → CatalogDb) → Tx (Unit {0})
write h st f db = unless_failed (h.fails st db) tt (f db)

abbrev pub continue :
    {A B : Type 0} → Checked (A × CatalogDb) → (A → Tx B) → Checked (B × CatalogDb)
continue (good (a, db)) f = f a db
continue (bad e) f = bad e

infixl 5 ◌>>=◌ ◌>>◌
unfoldable pub ◌>>=◌ : {A B : Type 0} → Tx A → (A → Tx B) → Tx B
◌>>=◌ m f db = continue (m db) f

abbrev pub ◌>>◌ : {A B : Type 0} → Tx A → Tx B → Tx B
m >> k = m >>= λ _. k

-- Every good outcome satisfies `Q`.
abbrev pub Ends : {A : Type 0} → (A → CatalogDb → Type 0) → Checked (A × CatalogDb) → Type 0
Ends Q (good (a, db)) = Q a db
Ends Q (bad e) = Unit

-- From tables that satisfy `P` the code ends, unless it fails, with a result and tables that satisfy
-- `Q`.
pub record Leads {A : Type 0} (P : CatalogDb → Type 0) (m : Tx A) (Q : A → CatalogDb → Type 0)
    : Type 0 where
  pub from : (db : CatalogDb) → P db → Ends Q (m db)

module _ {P : CatalogDb → Type 0} where
  pub Leads-pure :
      {A : Type 0} {Q : A → CatalogDb → Type 0} (a : A)
      → ((db : CatalogDb) → P db → Q a db)
      → Leads P (pure a) Q
  unfolding pure
  Leads-pure a h = record { from = h }

  pub Leads-raise :
      {A : Type 0} {Q : A → CatalogDb → Type 0} (e : CatalogError) → Leads P (raise e) Q
  unfolding raise
  Leads-raise e = record { from = λ db p. tt }

  pub Leads-lift :
      {A B : Type 0} {Q : B → CatalogDb → Type 0} (m : Checked A) (f : A → Tx B)
      → ((a : A) → m ≡ good a → Leads P (f a) Q)
      → Leads P (lift m >>= f) Q
  unfolding lift ◌>>=◌
  Leads-lift (good a) f h = record { from = (h a refl).from }
  Leads-lift (bad e) f h = record { from = λ db p. tt }

  -- What is read is known of the tables from then on.
  pub Leads-read :
      {A B : Type 0} {Q : B → CatalogDb → Type 0} (host : Host) (st : Statement) (g : CatalogDb → A)
      (f : A → Tx B)
      → ((a : A) → Leads (λ db. P db × (g db ≡ a)) (f a) Q)
      → Leads P (read host st g >>= f) Q
  unfolding read ◌>>=◌
  Leads-read {Q = Q} host st g f h = record { from = λ db p. go db p (host.fails st db) }
    where
      go :
          (db : CatalogDb)
          → P db
          → (o : Option String) → Ends Q (continue (unless_failed o (g db) db) f)
      go db p none = (h (g db)).from db (p, refl)
      go db p (some e) = tt

  -- A write takes the tables to what the rest may assume.
  pub Leads-write :
      {B : Type 0} {Q : B → CatalogDb → Type 0} {R : CatalogDb → Type 0} (host : Host)
      (st : Statement) (g : CatalogDb → CatalogDb) (f : Unit {0} → Tx B)
      → ((db : CatalogDb) → P db → R (g db))
      → Leads R (f tt) Q
      → Leads P (write host st g >>= f) Q
  unfolding write ◌>>=◌
  Leads-write {Q = Q} host st g f k h = record { from = λ db p. go db p (host.fails st db) }
    where
      go :
          (db : CatalogDb)
          → P db
          → (o : Option String) → Ends Q (continue (unless_failed o tt (g db)) f)
      go db p none = h.from (g db) (k db p)
      go db p (some e) = tt

  pub Leads-bind :
      {A B : Type 0} {R : A → CatalogDb → Type 0} {Q : B → CatalogDb → Type 0} (m : Tx A)
      (f : A → Tx B)
      → Leads P m R
      → ((a : A) → Leads (R a) (f a) Q)
      → Leads P (m >>= f) Q
  unfolding ◌>>=◌
  Leads-bind {A = A} {R = R} {Q = Q} m f h k = record { from = λ db p. go (m db) (h.from db p) }
    where
      go : (r : Checked (A × CatalogDb)) → Ends R r → Ends Q (continue r f)
      go (good (a, db)) e = (k a).from db e
      go (bad e) u = tt

  pub Leads-if :
      {A : Type 0} {Q : A → CatalogDb → Type 0} (t : Bool) (m n : Tx A)
      → (t ≡ true → Leads P m Q)
      → (t ≡ false → Leads P n Q)
      → Leads P (if t then m else n) Q
  Leads-if true m n h k = h refl
  Leads-if false m n h k = k refl

-- More may be assumed, and less concluded.
pub Leads-weaken :
    {A : Type 0} {P P2 : CatalogDb → Type 0} {Q : A → CatalogDb → Type 0} (m : Tx A)
    → ((db : CatalogDb) → P2 db → P db)
    → Leads P m Q
    → Leads P2 m Q
Leads-weaken m h l = record { from = λ db p. l.from db (h db p) }

-- A statement that changes none of these tables: begin, commit, a lock.
abbrev pub call : Host → Statement → Tx (Unit {0})
call host st = write host st (λ db. db)

-- A database that refuses nothing runs each statement.
module _ (host : Host) (fine : (st : Statement) (db : CatalogDb) → host.fails st db ≡ none) where
  pub write_runs :
      {B : Type 0} (st : Statement) (g : CatalogDb → CatalogDb) (f : Unit {0} → Tx B)
      (db : CatalogDb)
      → (write host st g >>= f) db ≡ f tt (g db)
  unfolding write ◌>>=◌
  write_runs st g f db = ap (λ o. continue (unless_failed o tt (g db)) f) (fine st db)

  pub read_runs :
      {A B : Type 0} (st : Statement) (g : CatalogDb → A) (f : A → Tx B) (db : CatalogDb)
      → (read host st g >>= f) db ≡ f (g db) db
  unfolding read ◌>>=◌
  read_runs st g f db = ap (λ o. continue (unless_failed o (g db) db) f) (fine st db)

pub lift_runs :
    {A B : Type 0} (m : Checked A) (a : A) (f : A → Tx B) (db : CatalogDb)
    → m ≡ good a
    → (lift m >>= f) db ≡ f a db
unfolding lift ◌>>=◌
lift_runs m a f db e = ap (λ x. continue (lift x db) f) e
