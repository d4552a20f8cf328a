-- ===== src/Examples/Event.antt =====
-- Event intake at concrete inputs.
use vidra_search.Prelude.{true, ◌≡◌, refl, none, [], ◌∷◌, any}
use vidra_search.Store.Tables.{insert_new}
use vidra_search.Store.Stmt.{apply}
use vidra_search.Store.Query.{exec, pure, lift, when, ◌>>=◌}
use vidra_search.Event.Types.{event_type, is_behavioral, is_legacy_catalog_type}
use vidra_search.Event.HistoryRule.{collects_search_history, feeds_watch_projection}
use vidra_search.Event.Behavior.{for_user}
use vidra_search.Event.Dispatch.{dispatch}
use vidra_search.Event.Ingest.{apply_one, attempt, ingest}
use vidra_search.Event.Visibility.{
  AllConsistent, visibility, ingest-AllConsistent, visibility-ingest_of_initialized,
}
use vidra_search.Event.Consent.{NoNewRows, ingest-search_history, ingest-watch_projection}
use vidra_search.Event.Calls.{Concluded, ingest_atomic}
use vidra_search.Event.Twice.{IsNoOp, ingest_twice}
use vidra_search.Examples.Worlds.{env, empty, fenced, arrivals}

no_error : (ingest env arrivals empty).error ≡ none
unfolding ingest apply_one attempt dispatch event_type exec pure lift ◌>>=◌ when apply
    is_legacy_catalog_type
no_error = refl

no_failure : (ingest env arrivals empty).res.failed ≡ []
unfolding ingest apply_one attempt dispatch event_type exec pure lift ◌>>=◌ when apply
    is_legacy_catalog_type any is_behavioral for_user insert_new
no_failure = refl

ingest_twice_example :
    IsNoOp 4 (ingest env arrivals empty).db (ingest env arrivals (ingest env arrivals empty).db)
ingest_twice_example = ingest_twice env env arrivals empty no_error no_failure (λ st. refl)

ingest_atomic_example : Concluded env arrivals empty (ingest env arrivals empty)
ingest_atomic_example = ingest_atomic env arrivals empty

-- The suppression of the batch is refused, and the statistics are written.
visibility-ingest_example : visibility (ingest env arrivals fenced).db ≡ (3, true) ∷ []
unfolding any
visibility-ingest_example = visibility-ingest_of_initialized env arrivals fenced refl

ingest-AllConsistent_example : AllConsistent (ingest env arrivals fenced).db
ingest-AllConsistent_example = ingest-AllConsistent env arrivals fenced (refl, tt)

ingest-search_history_example :
    NoNewRows (ingest env arrivals empty).db.search_history empty.search_history
unfolding collects_search_history event_type
ingest-search_history_example =
    ingest-search_history env arrivals empty (refl, (refl, (refl, (refl, tt))))

ingest-watch_projection_example :
    NoNewRows (ingest env arrivals empty).db.watch_projection empty.watch_projection
unfolding feeds_watch_projection event_type
ingest-watch_projection_example =
    ingest-watch_projection env arrivals empty (refl, (refl, (refl, (refl, tt))))
