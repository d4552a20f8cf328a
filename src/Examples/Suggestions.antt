-- ===== src/Examples/Suggestions.antt =====
-- The suggestion service at concrete inputs.
use vidra_search.Prelude.{
  pos, ◌≤ℤ◌, true, false, none, some, List, [], ◌∷◌, any, keep, length, str_eq, ◌≡◌, refl,
  if◌then◌else◌,
}
use vidra_search.Paging.{limit}
use vidra_search.Store.Query.{ok}
use vidra_search.Suggest.Blend.{Candidate, kind_query}
use vidra_search.Suggest.Prefix.{has_prefix, like_prefix, like, like-like_prefix}
use vidra_search.Suggest.Service.{
  default_limit, max_limit, of_doc, of_history, aggregate, history_stream, session_stream,
  with_fuzzy, gather, candidates, suggest,
}
use vidra_search.Suggest.Requests.{Querier, Service, Request}
use vidra_search.Suggest.Sharing.{
  anonymous, uncached, suggest-anonymous, suggest-bypass, length-suggest,
}
use vidra_search.Suggest.Streams.{is_unnamed, is_misattributed, candidates-named}
use vidra_search.Examples.Suggest.{whole, weights}

-- One title, one query of the account's history, and no other row.
abbrev querier : Querier
querier = record {
  title_prefix =
      λ hide prefix lim. ok (record { title = "go home"; views = pos 4; video_id = 5 } ∷ []);
  channel_prefix = λ hide prefix lim. ok [];
  tag_prefix = λ hide prefix lim. ok [];
  title_fuzzy = λ q hide lim. ok [];
  user_history_prefix = λ u prefix lim.
      ok (record { normalized_query = "go"; display_query = "Go"; use_count = pos 2 } ∷ []);
  aggregate_prefix = λ prefix lim. ok [];
}

abbrev service : Service
service = record {
  q = querier;
  cache = some (record { get = λ key. none });
  session = some (λ id. "gone" ∷ []);
  trend = some ("go" ∷ []);
  unmarshal = λ raw. none;
  marshal = λ suggestions. some "json";
  parse_uuid = λ text. if str_eq text "7" then some 7 else none;
  uuid_string = λ u. "id";
  to_float = λ n. 1;
  numbers = whole;
  weights = weights;
  order = λ entries. entries;
}

abbrev of_nobody : Request
of_nobody = record {
  catalog_fence = "f";
  query = "go";
  limit = pos 5;
  hide_sensitive = false;
  include_history = true;
  user_id = "";
  session_id = "";
  mode = "";
}

abbrev of_viewer : Request
of_viewer = record of_nobody { user_id = "7"; session_id = "s1" }

suggest-anonymous_example : suggest service (anonymous of_nobody) ≡ suggest service of_nobody
suggest-anonymous_example = suggest-anonymous service of_nobody refl

suggest-bypass_example :
    (suggest service of_viewer ≡ suggest (uncached service) of_viewer)
    × ((suggest service of_viewer).stored ≡ none)
suggest-bypass_example = suggest-bypass service of_viewer refl

length-suggest_example :
    (pos (length (suggest service of_nobody).response.suggestions)
      ≤ℤ limit (pos 5) default_limit max_limit)
    × (limit (pos 5) default_limit max_limit ≤ℤ max_limit)
length-suggest_example = length-suggest service of_nobody refl

abbrev gathered : List Candidate
gathered =
    of_doc "go home" "id" kind_query 1
    ∷ record (of_history "Go" 1) { trending = false }
    ∷ of_history "gone" 1
    ∷ []

gathers : candidates service "go" of_viewer (pos 5) ≡ ok gathered
unfolding candidates gather with_fuzzy aggregate history_stream session_stream has_prefix keep any
gathers = refl

candidates-named_example :
    (any is_unnamed gathered ≡ false) × (any is_misattributed gathered ≡ false)
candidates-named_example =
    candidates-named service "go" of_viewer (pos 5) gathered (λ u. refl) gathers

like-like_prefix_example :
    like false (like_prefix (37 ∷ 97 ∷ [])) (37 ∷ 97 ∷ 98 ∷ [])
    ≡ has_prefix (37 ∷ 97 ∷ 98 ∷ []) (37 ∷ 97 ∷ [])
like-like_prefix_example = like-like_prefix (37 ∷ 97 ∷ []) (37 ∷ 97 ∷ 98 ∷ [])
