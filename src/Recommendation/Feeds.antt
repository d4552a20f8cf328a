-- ===== src/Recommendation/Feeds.antt =====
-- internal/recommendation/service.go: Querier, Response and relatedSimple.
use vidra_search.Prelude.{
  ℕ, suc, ◌-◌, ◌*◌, ℤ, pos, negsuc, String, Bool, true, false, Option, none, some, List, map,
}
use vidra_search.Store.Rows.{Uuid}
use vidra_search.Store.Query.{Outcome, ok, err}
use vidra_search.Paging.{limit}
use vidra_search.Experiment.Assign.{Assignment}
use vidra_search.Recommendation.Composer.{
  Candidate, Item, Composer, Prints, new_composer, exclude, excluded, full, add_all, items,
}

-- The columns that the feeds read of a document.
pub record Seed : Type 0 where
  pub channel_id : Option Uuid
  pub category : Option String
  pub language : Option String
  pub tags : List String

pub record FeedRow : Type 0 where
  pub video_id : Uuid
  pub channel_id : Option Uuid

pub record OverlapRow : Type 0 where
  pub video_id : Uuid
  pub channel_id : Option Uuid
  pub overlap : ℤ

-- The store's queries. `pgx.ErrNoRows` of `GetDocument` is `none`.
pub record Reads : Type 0 where
  pub get_document : Uuid → Outcome (Option Seed)
  pub related_same_channel :
      (hide_sensitive : Bool)
      → (channel : Uuid) → (video : Uuid) → (lim : ℕ) → Outcome (List FeedRow)
  pub related_by_overlap :
      Option String
      → Option String
      → List String
      → (hide_sensitive : Bool) → (video : Uuid) → (lim : ℤ) → Outcome (List OverlapRow)
  pub popular_eligible :
      (hide_sensitive : Bool) → (excluded : List Uuid) → (lim : ℤ) → Outcome (List FeedRow)
  pub home_trending :
      (hide_sensitive : Bool) → (language : Option String) → (lim : ℤ) → Outcome (List FeedRow)
  pub home_recent :
      (hide_sensitive : Bool) → (language : Option String) → (lim : ℤ) → Outcome (List FeedRow)
  pub list_eligible_by_ids : (hide_sensitive : Bool) → List Uuid → Outcome (List FeedRow)
  -- the trending reader, where there is one, and `uuid.Parse`
  pub trending_videos : Option (List String)
  pub parse_uuid : String → Option Uuid

pub record Response : Type 0 where
  pub items : List Item
  pub model_version : String
  pub experiment : Option Assignment

-- A multiple of a limit; at most 3 * 50 and 2 * 100, so that `int32` does not cut it.
abbrev pub times : ℕ → ℤ → ℤ
times k (pos n) = pos (k * n)
times k (negsuc n) = negsuc (k * suc n - 1)

infixl 5 ◌>>=◌
abbrev pub ◌>>=◌ : {A B : Type 0} → Outcome A → (A → Outcome B) → Outcome B
(ok a) >>= f = f a
(err e) >>= f = err e

abbrev pub candidates : String → List FeedRow → List Candidate
candidates reason rows =
    map (λ r. record { video_id = r.video_id; channel_id = r.channel_id; reason = reason }) rows

abbrev pub add_rows : Composer → String → List FeedRow → Composer
add_rows c reason rows = add_all (candidates reason rows) c

abbrev pub feed_row : OverlapRow → FeedRow
feed_row r = record { video_id = r.video_id; channel_id = r.channel_id }

abbrev pub same_channel_cap : ℕ
same_channel_cap = 2

-- 1. Same-channel recent.
unfoldable pub same_channel : Reads → Bool → Uuid → Option Uuid → Composer → Outcome Composer
same_channel q hide video none c = ok c
same_channel q hide video (some ch) c = do
  rows ← q.related_same_channel hide ch video same_channel_cap
  ok (add_rows c "similar" rows)

-- A step that is skipped once the feed is full.
abbrev pub unless_full : Bool → Composer → Outcome Composer → Outcome Composer
unless_full true c m = ok c
unless_full false c m = m

-- 2. Tag/category/language overlap.
unfoldable pub overlap : Reads → Bool → Uuid → Seed → Composer → Outcome Composer
overlap q hide video seed c = unless_full (full c) c (do
  rows ← q.related_by_overlap seed.category seed.language seed.tags hide video (times 3 c.limit)
  ok (add_rows c "similar" (map feed_row rows)))

-- 3. Popular fill.
unfoldable pub popular_fill : Reads → Bool → Composer → Outcome Composer
popular_fill q hide c =
    unless_full (full c) c
      (do rows ← q.popular_eligible hide (excluded c) c.limit; ok (add_rows c "popular" rows))

-- The feed of a seed that is there; without one it is empty.
unfoldable pub related_composer : Reads → Bool → Uuid → (limit : ℤ) → Option Seed → Outcome Composer
related_composer q hide video lim none = ok (new_composer lim)
related_composer q hide video lim (some seed) = do
  c ← same_channel q hide video seed.channel_id (exclude video (new_composer lim))
  d ← overlap q hide video seed c
  popular_fill q hide d

-- defaultLimit, maxRelatedLimit and maxHomeLimit
abbrev pub default_limit : ℤ
default_limit = pos 20

abbrev pub max_related_limit : ℤ
max_related_limit = pos 50

abbrev pub max_home_limit : ℤ
max_home_limit = pos 100

abbrev pub simple_response : Prints → Composer → Response
simple_response out c = record {
  items = items out c;
  model_version = "simple-v1";
  experiment = none;
}

-- relatedSimple up to its composer, and whole.
unfoldable pub related_picks : Reads → Uuid → (asked : ℤ) → Bool → Outcome Composer
related_picks q video asked hide = do
  seed ← q.get_document video
  related_composer q hide video (limit asked default_limit max_related_limit) seed

unfoldable pub related_simple : Prints → Reads → Uuid → (asked : ℤ) → Bool → Outcome Response
related_simple out q video asked hide = do
  c ← related_picks q video asked hide
  ok (simple_response out c)
