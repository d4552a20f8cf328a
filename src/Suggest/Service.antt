-- ===== src/Suggest/Service.antt =====
-- internal/suggest/service.go: Suggest and the streams of its candidates. The logger is left out.
use Prim.Native.String.{◌++◌ as text_append}
use vidra_search.Prelude.{
  codes, ℕ, leb, ℤ, pos, ltb_ℤ, String, Bool, true, false, not, ◌&&◌, ◌||◌, is_some, Option, none,
  some, List, [], ◌++◌, map, any, keep, length, str_eq, if◌then◌else◌,
}
use vidra_search.Paging.{limit}
use vidra_search.Store.Rows.{Uuid, Float}
use vidra_search.Store.Query.{Outcome, ok, err}
use vidra_search.Suggest.Blend.{
  Candidate, Suggestion, Kind, kind_query, kind_channel, kind_tag, kind_history, source_query,
  source_doc, source_history,
}
use vidra_search.Suggest.Slots.{blend}
use vidra_search.Suggest.Prefix.{runes, has_prefix, like_prefix}
use vidra_search.Suggest.Requests.{
  TitleRow, ChannelRow, TagRow, AggregateRow, HistoryRow, Cache, Service, Request, Served,
}

abbrev pub default_limit : ℤ
default_limit = pos 10

abbrev pub max_limit : ℤ
max_limit = pos 20

abbrev pub stream_limit : ℕ
stream_limit = 15

abbrev pub cache_prefix_max : ℕ
cache_prefix_max = 3

abbrev pub of_doc : (text video_id : String) → Kind → Float → Candidate
of_doc text video_id kind popularity = record {
  text = text;
  kind = kind;
  source = source_doc;
  video_id = video_id;
  channel_handle = "";
  is_personal = false;
  exact_prefix = true;
  trending = false;
  popularity = popularity;
}

-- The zero of `float64`
abbrev pub of_history : (text : String) → Float → Candidate
of_history text popularity = record {
  text = text;
  kind = kind_history;
  source = source_history;
  video_id = "";
  channel_handle = "";
  is_personal = true;
  exact_prefix = true;
  trending = false;
  popularity = popularity;
}

abbrev pub display : (shown normalized : String) → String
display shown normalized = if str_eq shown "" then normalized else shown

abbrev pub deref : Option String → String
deref none = ""
deref (some s) = s

abbrev pub then_do : {A B : Type 0} → Outcome A → (A → Outcome B) → Outcome B
then_do (ok a) f = f a
then_do (err e) f = err e

module _ (s : Service) where
  abbrev pub title_candidate : TitleRow → Candidate
  title_candidate r = of_doc r.title (s.uuid_string r.video_id) kind_query (s.to_float r.views)

  abbrev pub channel_candidate : ChannelRow → Candidate
  channel_candidate r =
      record (of_doc (deref r.channel_name) (s.uuid_string r.video_id) kind_channel
        (s.to_float r.views)) { channel_handle = r.channel_handle }

  abbrev pub tag_candidate : TagRow → Candidate
  tag_candidate r = of_doc r.tag (s.uuid_string r.video_id) kind_tag (s.to_float r.cnt)

  abbrev pub aggregate_candidate : AggregateRow → Candidate
  aggregate_candidate r = record {
    text = display r.display_query r.normalized_query;
    kind = kind_query;
    source = source_query;
    video_id = "";
    channel_handle = "";
    is_personal = false;
    exact_prefix = true;
    trending = false;
    popularity = r.decayed_freq;
  }

  abbrev pub history_candidate : HistoryRow → Candidate
  history_candidate r =
      of_history (display r.display_query r.normalized_query) (s.to_float r.use_count)

  abbrev pub fuzzy_candidate : TitleRow → Candidate
  fuzzy_candidate r = record (title_candidate r) { exact_prefix = false }

  -- StoreAggregate.Suggest
  unfoldable pub aggregate : String → ℕ → Outcome (List Candidate)
  aggregate normalized lim =
      then_do (s.q.aggregate_prefix (like_prefix (codes normalized)) lim)
        (λ rows. ok (map aggregate_candidate rows))

  -- The personal history, of a user id that parses.
  abbrev pub history_of : String → Option Uuid → Outcome (List Candidate)
  history_of normalized none = ok []
  history_of normalized (some u) =
      then_do (s.q.user_history_prefix u (like_prefix (codes normalized)) stream_limit)
        (λ rows. ok (map history_candidate rows))

  unfoldable pub history_stream : String → Request → Outcome (List Candidate)
  history_stream normalized req =
      if req.include_history && not (str_eq req.user_id "")
      then history_of normalized (s.parse_uuid req.user_id)
      else ok []

  abbrev pub session_of : String → Request → Option (String → List String) → List Candidate
  session_of normalized req none = []
  session_of normalized req (some queries) =
      map (λ rq. of_history rq (s.to_float (pos 0)))
        (keep (λ rq. has_prefix (codes rq) (codes normalized)) (queries req.session_id))

  unfoldable pub session_stream : String → Request → List Candidate
  session_stream normalized req =
      if req.include_history && not (str_eq req.session_id "")
      then session_of normalized req s.session
      else []

  -- Candidates whose normalized form is trending are marked.
  abbrev pub mark : List String → Candidate → Candidate
  mark set c =
      if any (λ t. str_eq t (s.numbers.normalize c.text)) set
      then record c { trending = true }
      else c

  abbrev pub boost : Option (List String) → List Candidate → List Candidate
  boost none cands = cands
  boost (some set) cands = map (mark set) cands

  abbrev pub exact_count : List Candidate → ℕ
  exact_count cands = length (keep (λ c. c.exact_prefix) cands)

  -- The typo fallback, only when exact-prefix candidates are short of the limit.
  unfoldable pub with_fuzzy :
      String → (hide_sensitive : Bool) → ℤ → List Candidate → Outcome (List Candidate)
  with_fuzzy normalized hide_sensitive lim cands =
      if ltb_ℤ (pos (exact_count cands)) lim
      then then_do (s.q.title_fuzzy normalized hide_sensitive stream_limit)
          (λ rows. ok (cands ++ map fuzzy_candidate rows))
      else ok cands

  -- The streams in their order, the personal ones given.
  unfoldable pub gather :
      String
      → (hide_sensitive : Bool) → ℤ
      → (history : Outcome (List Candidate)) → (session : List Candidate) → Outcome (List Candidate)
  gather normalized hide_sensitive lim history session =
      let prefix = like_prefix (codes normalized) in
      then_do (s.q.title_prefix hide_sensitive prefix stream_limit) (λ titles.
        then_do (s.q.channel_prefix hide_sensitive prefix stream_limit) (λ channels.
          then_do (s.q.tag_prefix hide_sensitive prefix stream_limit) (λ tags.
            then_do (aggregate normalized stream_limit) (λ agg. then_do history (λ hist.
              with_fuzzy normalized hide_sensitive lim (
                boost s.trend (
                  map title_candidate titles
                  ++ (map channel_candidate channels
                      ++ (map tag_candidate tags ++ (agg ++ (hist ++ session)))))))))))

  -- candidates
  unfoldable pub candidates : String → Request → ℤ → Outcome (List Candidate)
  candidates normalized req lim =
      gather normalized req.hide_sensitive lim (history_stream normalized req)
        (session_stream normalized req)

  abbrev pub is_personalized : Request → Bool
  is_personalized req =
      req.include_history && (not (str_eq req.user_id "") || not (str_eq req.session_id ""))

  abbrev pub is_cacheable : String → Request → Bool
  is_cacheable normalized req =
      is_some s.cache
      && not (is_personalized req)
      && leb (runes (codes normalized)) cache_prefix_max

  abbrev pub mode_of : Request → String
  mode_of req = if str_eq req.mode "" then "simple" else req.mode

  unfoldable pub cache_key : String → Request → String
  cache_key normalized req = text_append "sugg:" (
      text_append req.catalog_fence (
        text_append ":" (
          text_append (mode_of req) (
            text_append ":" (
              text_append (if req.hide_sensitive then "true" else "false")
                (text_append ":" normalized))))))

  abbrev pub respond : String → Request → List Suggestion → Option (String × String) → Served
  respond normalized req suggestions stored = record {
    response = record {
      query = req.query;
      normalized_query = normalized;
      suggestions = suggestions;
    };
    stored = stored;
  }

  abbrev pub entry : String → Option String → Option (String × String)
  entry key none = none
  entry key (some raw) = some (key, raw)

  abbrev pub to_store :
      (cacheable : Bool) → (key : String) → List Suggestion → Option (String × String)
  to_store cacheable key suggestions = if cacheable then entry key (s.marshal suggestions) else none

  abbrev pub answer :
      (cacheable : Bool) → (key normalized : String) → Request → Outcome (List Candidate) → Served
  answer cacheable key normalized req (err e) = respond normalized req [] none
  answer cacheable key normalized req (ok cands) =
      let suggestions =
        blend s.numbers s.order cands (limit req.limit default_limit max_limit) s.weights in
      respond normalized req suggestions (to_store cacheable key suggestions)

  -- A text of the cache that decodes is served.
  abbrev pub decoded : Option String → Option (List Suggestion)
  decoded none = none
  decoded (some raw) = s.unmarshal raw

  abbrev pub look_up : String → Option Cache → Option (List Suggestion)
  look_up key none = none
  look_up key (some c) = decoded (c.get key)

  abbrev pub serve :
      (cacheable : Bool)
      → (key normalized : String) → Request
      → Outcome (List Candidate)
      → Option (List Suggestion)
      → Served
  serve cacheable key normalized req found (some cached) = respond normalized req cached none
  serve cacheable key normalized req found none = answer cacheable key normalized req found

  -- Past the empty query.
  abbrev pub suggest_from :
      (cacheable : Bool) → (key normalized : String) → Request → Outcome (List Candidate) → Served
  suggest_from cacheable key normalized req found =
      if str_eq normalized ""
      then respond normalized req [] none
      else serve cacheable key normalized req found
          (if cacheable then look_up key s.cache else none)

  -- Suggest
  unfoldable pub suggest : Request → Served
  suggest req =
      let normalized = s.numbers.normalize req.query in
      suggest_from (is_cacheable normalized req) (cache_key normalized req) normalized req
        (candidates normalized req (limit req.limit default_limit max_limit))
