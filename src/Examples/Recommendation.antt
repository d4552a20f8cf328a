-- ===== src/Examples/Recommendation.antt =====
-- The feeds and the clamp at concrete inputs.
use vidra_search.Prelude.{ℕ, pos, none, some, [], ◌∷◌, false, ◌≡◌, refl, any}
use vidra_search.Store.Query.{ok}
use vidra_search.Index.{opt_str}
use vidra_search.Paging.{limit}
use vidra_search.Recommendation.Composer.{
  Candidate, Composer, has, picked_ids, new_composer, exclude, excluded, full, add_all, add,
  add_capped,
}
use vidra_search.Recommendation.Feeds.{
  Reads, Seed, FeedRow, OverlapRow, related_picks, related_composer, same_channel, overlap,
  popular_fill, max_related_limit, max_home_limit, default_limit,
}
use vidra_search.Recommendation.Rounds.{Streams, home_streams, home_picks, redis_trending}
use vidra_search.Recommendation.Fairness.{interleaved}
use vidra_search.Recommendation.Promises.{IsFeed, related_picks-IsFeed, home_picks_lem}

abbrev video : ℕ → ℕ → FeedRow
video v ch = record { video_id = v; channel_id = some ch }

abbrev overlaps : ℕ → ℕ → ℕ → OverlapRow
overlaps v ch n = record { video_id = v; channel_id = some ch; overlap = pos n }

abbrev seed : Seed
seed = record { channel_id = some 9; category = none; language = none; tags = [] }

-- Videos 1 to 4 of channel 9, and 5 of channel 8; the store repeats itself.
abbrev reads : Reads
reads = record {
  get_document = λ v. ok (some seed);
  related_same_channel = λ hide ch v lim. ok (video 1 9 ∷ video 2 9 ∷ []);
  related_by_overlap =
      λ cat lang tags hide v lim. ok (overlaps 2 9 3 ∷ overlaps 3 9 2 ∷ overlaps 7 8 1 ∷ []);
  popular_eligible = λ hide ex lim. ok (video 4 9 ∷ video 5 8 ∷ []);
  home_trending = λ hide lang lim. ok (video 1 9 ∷ video 2 9 ∷ video 3 9 ∷ []);
  home_recent = λ hide lang lim. ok (video 1 9 ∷ []);
  list_eligible_by_ids = λ hide us. ok [];
  trending_videos = none;
  parse_uuid = λ s. none;
}

abbrev pick : ℕ → ℕ → Candidate
pick v ch = record { video_id = v; channel_id = some ch; reason = "similar" }

-- Related to video 7, of which nothing is asked but three picks.
abbrev related : Composer
related =
    add_all
      (pick 1 9
        ∷ pick 2 9
        ∷ pick 2 9
        ∷ pick 3 9
        ∷ pick 7 8
        ∷ record (pick 4 9) { reason = "popular" }
        ∷ record (pick 5 8) { reason = "popular" }
        ∷ [])
      (exclude 7 (new_composer (pos 3)))

related_picks_example :
    IsFeed max_related_limit related.picks × (has 7 (picked_ids related.picks) ≡ false)
unfolding related_picks related_composer same_channel overlap popular_fill limit full add_all add
    add_capped exclude excluded any
related_picks_example = related_picks-IsFeed reads 7 (pos 3) false related refl

abbrev streams : Streams
streams =
    (record (pick 1 9) { reason = "trending" }
      ∷ record (pick 2 9) { reason = "trending" }
      ∷ record (pick 3 9) { reason = "trending" }
      ∷ [])
    ∷ (record (pick 1 9) { reason = "fresh" } ∷ [])
    ∷ (record (pick 4 9) { reason = "popular" } ∷ record (pick 5 8) { reason = "popular" } ∷ [])
    ∷ []

home_picks_example :
    (c : Composer) × (home_picks reads (pos 3) false "" ≡ ok (some c))
    × (c
        ≡ add_all
            (interleaved 4 0 streams)
            (new_composer (limit (pos 3) default_limit max_home_limit)))
    × IsFeed max_home_limit c.picks
unfolding home_streams redis_trending opt_str limit
home_picks_example = home_picks_lem reads (pos 3) false "" streams refl
