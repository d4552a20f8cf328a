-- ===== src/Store/Tables.antt =====
-- The state of the database, and the three forms of write that the statements use.
use vidra_search.Prelude.{String, Bool, List, [], ◌∷◌, map, if◌then◌else◌}
use vidra_search.Store.Rows.{
  Document, InboxRow, BehaviorEvent, QueryLog, SearchHistory, WatchProjection, ServiceConfig,
}

pub record Db : Type 0 where
  pub inbox : List InboxRow
  pub documents : List Document
  pub config : List ServiceConfig
  pub behavior_events : List BehaviorEvent
  pub query_log : List QueryLog
  pub search_history : List SearchHistory
  pub watch_projection : List WatchProjection
  -- the scopes of search.catalog_scopes
  pub catalog_scopes : List String

module _ {ℓ} {A : Type ℓ} where
  -- INSERT … ON CONFLICT (key) DO UPDATE: `same` holds of a row with the new row's key.
  unfoldable pub upsert : (same : A → Bool) (change : A → A) (new : A) → List A → List A
  upsert same change new [] = new ∷ []
  upsert same change new (r ∷ rs) = if same r then change r ∷ rs else r ∷ upsert same change new rs

  -- INSERT … ON CONFLICT (key) DO NOTHING
  unfoldable pub insert_new : (same : A → Bool) (new : A) → List A → List A
  insert_new same new [] = new ∷ []
  insert_new same new (r ∷ rs) = if same r then r ∷ rs else r ∷ insert_new same new rs

  -- UPDATE … WHERE
  unfoldable pub update_where : (hit : A → Bool) (change : A → A) → List A → List A
  update_where hit change = map λ r. if hit r then change r else r

  -- DELETE … WHERE
  unfoldable pub delete_where : (hit : A → Bool) → List A → List A
  delete_where hit [] = []
  delete_where hit (r ∷ rs) = let rest = delete_where hit rs in if hit r then rest else r ∷ rest
