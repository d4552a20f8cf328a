-- ===== src/Event/Consent.antt =====
-- The consent rules of history_rule.go, held against all that event intake writes.
use vidra_search.Prelude.{
  String, Bool, true, false, not, ◌&&◌, ◌≡◌, List, [], ◌∷◌, any, All, arith, sym, ◌∙◌,
}
use vidra_search.Store.Tables.{Db, delete_where}
use vidra_search.Store.Stmt.{
  Stmt, apply, upsert_user_search_history, upsert_watch_projection, purge_user_watch_projection,
  delete_user_search_history, delete_user_search_history_entry,
}
use vidra_search.Store.Laws.{any-delete_where}
use vidra_search.Event.Types.{Envelope, EventType, event_type}
use vidra_search.Event.Env.{Env}
use vidra_search.Event.HistoryRule.{
  search_history_rule, watch_projection_rule, collects_search_history, feeds_watch_projection,
}
use vidra_search.Event.Allowed.{Allowed}
use vidra_search.Event.Keep.{KeepsUnless}
use vidra_search.Event.Fence.{ingest-keep}
use vidra_search.Event.Ingest.{ingest}

-- Every row of the first table is a row of the second, whatever one may ask of a row.
abbrev pub NoNewRows {ℓ} : {A : Type ℓ} → List A → List A → Type ℓ
NoNewRows {A} after before = (q : A → Bool) → any q after ≡ true → any q before ≡ true

any-imp {ℓ} :
    {A : Type ℓ} (p q : A → Bool) (rows : List A)
    → any (λ r. p r && q r) rows ≡ true
    → any q rows ≡ true
unfolding any
any-imp p q [] h = h
any-imp p q (r ∷ rows) h = ground (arith, any-imp p q rows)

NoNewRows-delete {ℓ} :
    {A : Type ℓ} (hit : A → Bool) (rows : List A) → NoNewRows (delete_where hit rows) rows
NoNewRows-delete hit rows q h =
    any-imp (λ r. not (hit r)) q rows (sym (any-delete_where hit q rows) ∙ h)

apply-history :
    (env : Env) (type : EventType) (payload : String) (st : Stmt) (db : Db)
    → search_history_rule env.decode type payload ≡ false
    → Allowed env type payload st
    → NoNewRows (apply env.server.sql st db).search_history db.search_history
unfolding apply
apply-history env type payload (upsert_user_search_history u q display at) db e s = absurd (cc)
apply-history env type payload (delete_user_search_history u) db e s =
    NoNewRows-delete _ db.search_history
apply-history env type payload (delete_user_search_history_entry u q) db e s = absurd s
apply-history env type payload _ db e s = λ q h. h

apply-projection :
    (env : Env) (type : EventType) (payload : String) (st : Stmt) (db : Db)
    → watch_projection_rule env.decode type payload ≡ false
    → Allowed env type payload st
    → NoNewRows (apply env.server.sql st db).watch_projection db.watch_projection
unfolding apply
apply-projection env type payload (upsert_watch_projection u v d h) db e s = absurd (cc)
apply-projection env type payload (purge_user_watch_projection u) db e s =
    NoNewRows-delete _ db.watch_projection
apply-projection env type payload _ db e s = λ q h. h

module _ (env : Env) (before : Db) where
  Keeps-history :
      (blocked : Bool) (events : List Envelope)
      → All (λ ev. collects_search_history env.decode ev.type ev.payload ≡ false) events
      → All
          (KeepsUnless env (λ db. NoNewRows db.search_history before.search_history) blocked)
          events
  unfolding collects_search_history
  Keeps-history blocked [] c = tt
  Keeps-history blocked (ev ∷ events) c = (
    λ e st db s h q k. h q (apply-history env (event_type ev.type) ev.payload st db c.0 s q k),
    Keeps-history blocked events c.1,
  )

  Keeps-projection :
      (blocked : Bool) (events : List Envelope)
      → All (λ ev. feeds_watch_projection env.decode ev.type ev.payload ≡ false) events
      → All
          (KeepsUnless env (λ db. NoNewRows db.watch_projection before.watch_projection) blocked)
          events
  unfolding feeds_watch_projection
  Keeps-projection blocked [] c = tt
  Keeps-projection blocked (ev ∷ events) c = (
    λ e st db s h q k. h q (apply-projection env (event_type ev.type) ev.payload st db c.0 s q k),
    Keeps-projection blocked events c.1,
  )

-- A batch in which no event may write search history writes none: every history row after the call
-- was there before it.
pub ingest-search_history :
    (env : Env) (events : List Envelope) (db : Db)
    → All (λ ev. collects_search_history env.decode ev.type ev.payload ≡ false) events
    → NoNewRows (ingest env events db).db.search_history db.search_history
ingest-search_history env events db c =
    ingest-keep env (λ d. NoNewRows d.search_history db.search_history) events db
      (Keeps-history env db _ events c) (λ q h. h)

-- A batch in which no event may feed the watch projection adds no row to it and alters none: every
-- row after the call was there before it, with its weight and time. Rows may be deleted.
pub ingest-watch_projection :
    (env : Env) (events : List Envelope) (db : Db)
    → All (λ ev. feeds_watch_projection env.decode ev.type ev.payload ≡ false) events
    → NoNewRows (ingest env events db).db.watch_projection db.watch_projection
ingest-watch_projection env events db c =
    ingest-keep env (λ d. NoNewRows d.watch_projection db.watch_projection) events db
      (Keeps-projection env db _ events c) (λ q h. h)
