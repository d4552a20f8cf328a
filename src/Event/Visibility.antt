-- ===== src/Event/Visibility.antt =====
-- The visibility of documents through event intake: `eligible` and `suppressed_reason`.
use vidra_search.Prelude.{
  ℕ, String, Bool, true, false, ◌&&◌, ◌≡◌, refl, ◌∙◌, Option, some, List, [], ◌∷◌, map, All, arith,
  any, is_some,
}
use vidra_search.Store.Rows.{Uuid, Document}
use vidra_search.Store.Tables.{Db}
use vidra_search.Store.Stmt.{
  Stmt, apply, hide, show, set_stats, set_channel, placeholder, upsert_document, suppress_document,
  update_document_stats, update_channel_documents, suppress_channel_documents,
  suppress_owner_documents, restore_owner_documents,
}
use vidra_search.Store.Laws.{All-upsert, All-update_where, map-update_where}
use vidra_search.Event.Types.{Envelope, EventType, event_type, is_legacy_catalog_type}
use vidra_search.Event.Env.{Env}
use vidra_search.Event.Allowed.{Allowed, IsConsistent}
use vidra_search.Event.Keep.{Keeps}
use vidra_search.Event.Fence.{has_legacy, ingest-keep}
use vidra_search.Event.Ingest.{initialized, ingest}

abbrev pub AllConsistent : Db → Type 0
AllConsistent db = All IsConsistent db.documents

hide-IsConsistent :
    (reason : Option String) (now : ℕ) (r : Document)
    → is_some reason ≡ true
    → IsConsistent (hide reason now r)
hide-IsConsistent reason now r h = rw h

apply-AllConsistent :
    (env : Env) (type : EventType) (payload : String) (st : Stmt) (db : Db)
    → Allowed env type payload st
    → AllConsistent db
    → AllConsistent (apply env.server.sql st db)
unfolding apply
apply-AllConsistent env type payload (upsert_document d) db s h =
    All-upsert IsConsistent _ _ _ db.documents (λ r e c. s.1) s.1 h
apply-AllConsistent env type payload (suppress_document v reason) db s h =
    All-upsert IsConsistent _ _ _ db.documents
      (λ r e c. hide-IsConsistent reason env.server.sql.now r s.1)
      (hide-IsConsistent reason env.server.sql.now (placeholder v reason env.server.sql.now) s.1) h
apply-AllConsistent env type payload (update_document_stats v views likes) db s h =
    All-update_where IsConsistent _ (set_stats views likes env.server.sql.now) db.documents
      (λ r e c. c) h
apply-AllConsistent env type payload (update_channel_documents c x y o) db s h =
    All-update_where IsConsistent _ (set_channel x y o env.server.sql.now) db.documents (λ r e c. c)
      h
apply-AllConsistent env type payload (suppress_channel_documents c reason) db s h =
    All-update_where IsConsistent _ _ db.documents
      (λ r e c. hide-IsConsistent reason env.server.sql.now r s.1) h
apply-AllConsistent env type payload (suppress_owner_documents o reason) db s h =
    All-update_where IsConsistent _ (hide (some reason) env.server.sql.now) db.documents
      (λ r e c. refl) h
apply-AllConsistent env type payload (restore_owner_documents o reason) db s h =
    All-update_where IsConsistent _ (show env.server.sql.now) db.documents (λ r e c. refl) h
apply-AllConsistent env type payload _ db s h = h

pub Keeps-All :
    (env : Env) (P : Db → Type 0) (blocked : Bool) (events : List Envelope)
    → ((ev : Envelope) → Keeps env P ev)
    → All
        (λ ev. (blocked && is_legacy_catalog_type (event_type ev.type)) ≡ false → Keeps env P ev)
        events
Keeps-All env P blocked [] k = tt
Keeps-All env P blocked (ev ∷ events) k = (λ e. k ev, Keeps-All env P blocked events k)

-- Whatever the batch, if every document is hidden exactly when it has a suppression reason, then
-- so it is after the call.
pub ingest-AllConsistent :
    (env : Env) (events : List Envelope) (db : Db)
    → AllConsistent db
    → AllConsistent (ingest env events db).db
ingest-AllConsistent env events db h =
    ingest-keep env AllConsistent events db
      (Keeps-All env AllConsistent _ events
        λ ev st db. apply-AllConsistent env (event_type ev.type) ev.payload st db)
      h

-- Which documents there are, and which of them are visible.
abbrev pub visible : Document → Uuid × Bool
visible d = (d.video_id, d.eligible)

abbrev pub visibility : Db → List (Uuid × Bool)
visibility db = map visible db.documents

-- A statement of an event that is no legacy catalog event leaves the visibility alone.
apply-visibility :
    (env : Env) (type : EventType) (payload : String) (st : Stmt) (db : Db)
    → is_legacy_catalog_type type ≡ false
    → Allowed env type payload st
    → visibility (apply env.server.sql st db) ≡ visibility db
unfolding apply
apply-visibility env type payload (upsert_document d) db e s = absurd (cc (s.0))
apply-visibility env type payload (suppress_document v reason) db e s = absurd (cc (s.0))
apply-visibility env type payload (update_document_stats v views likes) db e s =
    map-update_where _ visible (set_stats views likes env.server.sql.now) db.documents (λ r. refl)
apply-visibility env type payload (update_channel_documents c x y o) db e s = absurd (cc)
apply-visibility env type payload (suppress_channel_documents c reason) db e s = absurd (cc (s.0))
apply-visibility env type payload (suppress_owner_documents o reason) db e s = absurd (cc)
apply-visibility env type payload (restore_owner_documents o reason) db e s = absurd (cc)
apply-visibility env type payload _ db e s = refl

Keeps-fenced :
    (env : Env) (before db : Db) (events : List Envelope)
    → initialized db ≡ true
    → (legacy : Bool) → ((any_legacy : has_legacy events ≡ true) → legacy ≡ true)
    → All
        (λ ev.
          (legacy && is_legacy_catalog_type (event_type ev.type)) ≡ false
          → Keeps env (λ d. visibility d ≡ visibility before) ev)
        events
unfolding any
Keeps-fenced env before db [] i legacy l = tt
Keeps-fenced env before db (ev ∷ events) i legacy l = (
  λ e st d s h. apply-visibility env (event_type ev.type) ev.payload st d (ground (arith, l)) s ∙ h,
  Keeps-fenced env before db events i legacy (λ a. l (ground arith)),
)

-- Once the catalog scope is initialized, no batch adds or removes a document, or hides or shows
-- one: the ids and their eligibility, in order, are what they were.
pub visibility-ingest_of_initialized :
    (env : Env) (events : List Envelope) (db : Db)
    → initialized db ≡ true
    → visibility (ingest env events db).db ≡ visibility db
visibility-ingest_of_initialized env events db i =
    ingest-keep env (λ d. visibility d ≡ visibility db) events db
      (Keeps-fenced env db db events i _ (λ a. ground arith)) refl
