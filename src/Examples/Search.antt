-- ===== src/Examples/Search.antt =====
-- A search service over three matches.
use vidra_search.Prelude.{
  ◌+◌, min, ltb, pos, pos_part, true, false, none, some, List, [], ◌∷◌, map, take, drop, length,
  length-map, ◌≡◌, refl, arith,
}
use vidra_search.Paging.{limit, offset}
use vidra_search.Index.{opt_str}
use vidra_search.Store.Query.{ok}
use vidra_search.Search.Service.{
  Request, Response, SimpleRow, SimpleQuerier, int32, hit, simple_version, limit_of, offset_of,
  search_simple,
}
use vidra_search.Search.Advanced.{
  max_recall_limit, int_sum, recall_window, personalize, search_advanced,
}
use vidra_search.Search.Features.{Service, RecallRow}
use vidra_search.Search.Pages.{search_simple-pages}
use vidra_search.Search.Forward.{search_advanced-pages}

abbrev matches : List SimpleRow
matches =
    record { video_id = 1; score = 9 }
    ∷ record { video_id = 2; score = 7 }
    ∷ record { video_id = 3; score = 4 }
    ∷ []

abbrev simple : SimpleQuerier
simple = record {
  search = λ f off lim. ok (take (pos_part lim) (drop (pos_part off) matches));
  count = λ f. ok (pos (length matches));
}

abbrev request : Request
request = record {
  query = "go";
  limit = pos 1;
  offset = pos 1;
  tag = "";
  category = "";
  language = "";
  license = "";
  hide_sensitive = false;
  mode = "advanced";
  user_id = "";
  session_id = "";
  personalized = true;
  skip_count = false;
}

search_simple-pages_example :
    search_simple simple (λ u. "id") "go" request
    ≡ ok (record {
      query = "go";
      ids =
          map (hit simple (λ u. "id")) (take (limit_of request) (drop (offset_of request) matches));
      model_version = simple_version;
      experiment = none;
      total = some (pos (length matches));
      total_is_lower_bound = false;
      has_more = ltb (offset_of request + limit_of request) (length matches);
    })
unfolding limit offset
search_simple-pages_example =
    search_simple-pages simple (λ u. "id") "go" request matches (λ off lim. refl) refl (omega arith)

abbrev recalled : RecallRow
recalled = record {
  video_id = 1;
  channel_id = none;
  views = pos 3;
  published_at = none;
  source_updated_at = 10;
  ts_rank = 1;
  trgm_sim = 1;
  exact_flags = 0;
  impressions = pos 0;
  clicks = pos 0;
  meaningful_watches = pos 0;
}

abbrev candidates : List RecallRow
candidates = recalled ∷ record recalled { video_id = 2 } ∷ record recalled { video_id = 3 } ∷ []

abbrev service : Service
service = record {
  q = record {
    simple = simple;
    recall = λ f lim. ok (take (pos_part lim) candidates);
    neighbor_affinity = λ u ids. ok [];
    user_channel_affinity = λ u. ok [];
    neighbor_scores = λ seeds ids. ok [];
  };
  normalize = λ s. s;
  ranker = none;
  heuristic =
      λ docs. map (λ d. record { video_id = d.video_id; score = d.features.text_rank }) docs;
  exp = none;
  session = none;
  parse_uuid = λ t. none;
  uuid_string = λ u. "id";
  age_days = λ published updated. 0;
  to_float = λ n. 0;
  f0 = 0;
}

abbrev answer : Response
answer = record {
  query = "go";
  ids = record { video_id = "id"; score = 1 } ∷ [];
  model_version = "heuristic-v1";
  experiment = none;
  total = some (pos 3);
  total_is_lower_bound = false;
  has_more = true;
}

answers : search_advanced service "go" request ≡ ok answer
unfolding search_advanced recall_window int_sum int32 personalize limit offset opt_str
answers = refl

search_advanced-pages_example :
    (true ≡ ltb (offset_of request + limit_of request) (min (length candidates) max_recall_limit))
    × (some (pos 3)
        ≡ some
            (pos (min (recall_window (offset_of request) (limit_of request)) (length candidates))))
    × (false ≡ ltb (recall_window (offset_of request) (limit_of request)) (length candidates))
unfolding limit offset
search_advanced-pages_example =
    search_advanced-pages service "go" request candidates answer (λ lim. refl)
      (λ version docs. length-map _ docs) (omega arith) answers
