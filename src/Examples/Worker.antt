-- ===== src/Examples/Worker.antt =====
-- The sessionizer on three queries of two sessions and one click.
use vidra_search.Prelude.{pos, String, none, List, [], ◌∷◌, keep, map, ◌≡◌, ℕ}
use mathlib.Core.List.{Perm}
use vidra_search.Worker.Sessionize.{QueryEvent, Signal, SessionizeConfig, sessionize}
use vidra_search.Worker.Order.{InOrder}
use vidra_search.Worker.Derivations.{
  is_abandoned, is_reformulated, abandonment_of, reformulation_of, is_left, is_changed, pairs,
  sessionize-abandoned, sessionize-reformulated,
}

abbrev asked : ℕ → String → String → ℕ → QueryEvent
asked id text session at = record {
  id = pos id;
  normalized_query = text;
  user_id = none;
  session_id = session;
  submitted_at = at;
}

abbrev queries : List QueryEvent
queries = asked 2 "gopher" "a" 15 ∷ asked 1 "go" "a" 10 ∷ asked 3 "cats" "b" 12 ∷ []

abbrev clicks : List Signal
clicks = record { session_id = "a"; normalized_query = "gopher"; occurred_at = 20 } ∷ []

abbrev cfg : SessionizeConfig
cfg = record { reformulation_gap = 10; abandon_window = 30 }

sessionize-abandoned_example :
    (qs : List QueryEvent) × Perm qs queries
    × InOrder qs
    × (keep is_abandoned (sessionize clicks cfg queries)
        ≡ map abandonment_of (keep (is_left clicks cfg) qs))
sessionize-abandoned_example = sessionize-abandoned clicks cfg queries

sessionize-reformulated_example :
    (qs : List QueryEvent) × Perm qs queries
    × InOrder qs
    × (keep is_reformulated (sessionize clicks cfg queries)
        ≡ map reformulation_of (keep (is_changed cfg) (pairs qs)))
sessionize-reformulated_example = sessionize-reformulated clicks cfg queries
