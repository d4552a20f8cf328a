-- ===== src/Recommendation/Scoring.antt =====
-- internal/recommendation/advanced.go: what the advanced feeds read, and the first half of
-- composeAdvanced with fillAffinity and tokensOf. Floating-point arithmetic is a parameter.
use Prim.Native.String.{◌++◌ as text_append}
use vidra_search.Prelude.{
  ℕ, ℤ, String, Bool, true, ◌&&◌, Option, none, some, List, [], ◌∷◌, ◌++◌, map, any, ◌==◌, str_eq,
  if◌then◌else◌,
}
use vidra_search.Store.Rows.{Uuid, Float, Time}
use vidra_search.Store.Query.{Outcome, ok}
use vidra_search.Experiment.Assign.{Assignment}
use vidra_search.Search.Features.{ScoreRow, ChannelRow}
use vidra_search.Explore.Mmr.{Reals, MmrDoc}
use vidra_search.Explore.Slot.{Draw}
use vidra_search.Recommendation.Composer.{Prints}
use vidra_search.Recommendation.Feeds.{Reads, FeedRow, ◌>>=◌}
use vidra_search.Recommendation.Candidates.{AdvCand, ById, put}

-- sqlcgen.ListDocFeaturesByIDsRow, as far as it is read.
pub record FeatureRow : Type 0 where
  pub video_id : Uuid
  pub channel_id : Option Uuid
  pub category : Option String
  pub tags : List String
  pub views : ℤ
  pub published_at : Option Time
  pub source_updated_at : Time

pub record ConfigRow : Type 0 where
  pub key : String
  pub value : String

-- Querier: the queries of the simple feeds, and those of the advanced ones.
pub record Querier : Type 0 where
  pub reads : Reads
  pub neighbors_for_video : Uuid → (lim : ℤ) → Outcome (List ScoreRow)
  pub neighbors_for_seeds : List Uuid → (lim : ℤ) → Outcome (List ScoreRow)
  pub neighbors_for_user_watches : Uuid → (lim : ℤ) → Outcome (List ScoreRow)
  pub neighbor_affinity : Uuid → (candidates : List Uuid) → Outcome (List ScoreRow)
  pub user_channel_affinity : Uuid → Outcome (List ChannelRow)
  pub list_doc_features : (hide_sensitive : Bool) → List Uuid → Outcome (List FeatureRow)
  pub recently_watched : Uuid → (lim : ℕ) → Outcome (List Uuid)
  pub fresh_low_view :
      (hide_sensitive : Bool)
      → (max_views : ℕ) → (language : Option String) → (lim : ℤ) → Outcome (List FeedRow)
  pub list_service_config : Outcome (List ConfigRow)

-- The service, with what it takes of Go: `float64` arithmetic, `rankutil.AgeDays` at the time of the
-- call, and the bytes and comparisons of the exploration draw.
pub record Service : Type 0 where
  pub q : Querier
  pub exp : Option (String → String → Option Assignment)
  pub session : Option (String → List String)
  pub prints : Prints
  pub reals : Reals
  pub draw : Draw
  pub plus : Float → Float → Float
  pub divide : Float → Float → Float
  pub maximum : Float → Float → Float
  pub at_least : Float → Float → Bool
  pub exp_of : Float → Float
  pub minus_ln2 : Float
  pub to_float : ℤ → Float
  pub age_days : Option Time → Time → Float

abbrev pub add_token : String → List String → List String
add_token t ts = if any (λ u. str_eq u t) ts then ts else ts ++ t ∷ []

abbrev pub tag_tokens : List String → List String → List String
tag_tokens [] ts = ts
tag_tokens (t ∷ tags) ts = tag_tokens tags (add_token (text_append "tag:" t) ts)

-- tokensOf
unfoldable pub tokens_of : List String → Option String → List String
tokens_of tags none = tag_tokens tags []
tokens_of tags (some c) =
    if str_eq c ""
    then tag_tokens tags []
    else add_token (text_append "cat:" c) (tag_tokens tags [])

abbrev pub present : Option AdvCand → List AdvCand → List AdvCand
present none cs = cs
present (some c) cs = c ∷ cs

-- The candidates that the pointers of a slice lead to.
unfoldable pub deref : ById → List Uuid → List AdvCand
deref m [] = []
deref m (u ∷ us) = present (m u) (deref m us)

abbrev pub modify_cand : (AdvCand → AdvCand) → Option AdvCand → Option AdvCand
modify_cand f none = none
modify_cand f (some c) = some (f c)

abbrev pub modify : (AdvCand → AdvCand) → Uuid → ById → ById
modify f u m x = if x == u then modify_cand f (m x) else m x

unfoldable pub modify_all : (AdvCand → AdvCand) → List Uuid → ById → ById
modify_all f [] m = m
modify_all f (u ∷ us) m = modify_all f us (modify f u m)

-- Lookups in the maps made of rows, where a later row replaces an earlier one.
abbrev pub score_of : Float → Uuid → List ScoreRow → Float
score_of found u [] = found
score_of found u (r ∷ rows) = score_of (if r.video_id == u then r.score else found) u rows

abbrev pub channel_weight : Uuid → Option Uuid → Float → Float → Float
channel_weight c none weight found = found
channel_weight c (some d) weight found = if d == c then weight else found

abbrev pub weight_of : Float → Uuid → List ChannelRow → Float
weight_of found c [] = found
weight_of found c (r ∷ rows) = weight_of (channel_weight c r.channel_id r.weight found) c rows

-- A map of candidates, and the ids of those that are eligible.
abbrev pub Found : Type 0
Found = ById × List Uuid

-- The maxima that the scores are normalized by.
pub record Maxima : Type 0 where
  pub top_base : Float
  pub top_affinity : Float
  pub top_channel : Float

module _ (s : Service) where
  abbrev pub fill : FeatureRow → AdvCand → AdvCand
  fill f c = record c {
    eligible = true;
    channel = f.channel_id;
    views = s.to_float f.views;
    age_days = s.age_days f.published_at f.source_updated_at;
    tokens = tokens_of f.tags f.category;
  }

  abbrev pub mark_row : FeatureRow → Option AdvCand → Found → Found
  mark_row f none r = r
  mark_row f (some c) (m, us) = (put f.video_id (fill f c) m, us ++ f.video_id ∷ [])

  unfoldable pub mark_rows : List FeatureRow → Found → Found
  mark_rows [] r = r
  mark_rows (f ∷ fs) r = mark_rows fs (mark_row f (r.0 f.video_id) r)

  abbrev pub affinity_of_channel : List ChannelRow → Option Uuid → Float → Float
  affinity_of_channel rows none before = before
  affinity_of_channel rows (some c) before = weight_of s.reals.f0 c rows

  abbrev pub with_affinity : List ScoreRow → List ChannelRow → AdvCand → AdvCand
  with_affinity scores channels c = record c {
    affinity = score_of s.reals.f0 c.id scores;
    channel_aff = affinity_of_channel channels c.channel c.channel_aff;
  }

  -- fillAffinity
  unfoldable pub fill_affinity : Uuid → List Uuid → ById → Outcome ById
  fill_affinity uid us m = do
    scores ← s.q.neighbor_affinity uid (map (λ c. c.id) (deref m us))
    channels ← s.q.user_channel_affinity uid
    ok (modify_all (with_affinity scores channels) us m)

  abbrev pub affinity_for : Option Uuid → List Uuid → ById → Outcome ById
  affinity_for none us m = ok m
  affinity_for (some uid) us m = fill_affinity uid us m

  unfoldable pub personalize : Bool → (user_id : String) → List Uuid → ById → Outcome ById
  personalize personalized user us m =
      if personalized then affinity_for (s.q.reads.parse_uuid user) us m else ok m

  unfoldable pub max_of : (AdvCand → Float) → Float → List AdvCand → Float
  max_of field top [] = top
  max_of field top (c ∷ cs) = max_of field (s.maximum top (field c)) cs

  abbrev pub norm : Float → Float → Float
  norm v m = if s.reals.less s.reals.f0 m then s.divide v m else s.reals.f0

  -- recWBase to recWFresh, recMMRLambda, recExploreEpsilon and recSubscribedThreshold, as quotients.
  abbrev pub weight_base : Float
  weight_base = s.reals.ratio 1 1

  abbrev pub weight_affinity : Float
  weight_affinity = s.reals.ratio 6 10

  abbrev pub weight_channel : Float
  weight_channel = s.reals.ratio 4 10

  abbrev pub weight_fresh : Float
  weight_fresh = s.reals.ratio 3 10

  abbrev pub mmr_lambda : Float
  mmr_lambda = s.reals.ratio 7 10

  abbrev pub explore_epsilon : Float
  explore_epsilon = s.reals.ratio 1 10

  abbrev pub subscribed_threshold : Float
  subscribed_threshold = s.reals.ratio 8 10

  abbrev pub half_life_days : Float
  half_life_days = s.reals.ratio 30 1

  unfoldable pub maxima : List AdvCand → Maxima
  maxima cs = record {
    top_base = max_of (λ c. c.base_score) s.reals.f0 cs;
    top_affinity = max_of (λ c. c.affinity) s.reals.f0 cs;
    top_channel = max_of (λ c. c.channel_aff) s.reals.f0 cs;
  }

  unfoldable pub relevance : Maxima → AdvCand → Float
  relevance m c =
      let fresh = s.exp_of (s.divide (s.reals.times s.minus_ln2 c.age_days) half_life_days) in
      s.plus
        (s.plus
          (s.plus (s.reals.times weight_base (norm c.base_score m.top_base))
            (s.reals.times weight_affinity (norm c.affinity m.top_affinity)))
          (s.reals.times weight_channel (norm c.channel_aff m.top_channel)))
        (s.reals.times weight_fresh fresh)

  abbrev pub subscribe : Bool → Maxima → AdvCand → AdvCand
  subscribe personalized m c =
      if personalized && s.at_least (norm c.channel_aff m.top_channel) subscribed_threshold
      then record c { reason = "subscribed" }
      else c

  abbrev pub mmr_doc : Maxima → AdvCand → MmrDoc
  mmr_doc m c = record {
    video_id = s.prints.uuid_string c.id;
    relevance = relevance m c;
    tokens = c.tokens;
  }
