-- ===== src/Recommendation/Promises.antt =====
-- internal/recommendation/service.go: what the simple feeds promise, whatever the store answers.
use vidra_search.Prelude.{
  suc, ◌≤◌, ℤ, pos, ◌≤ℤ◌, Bool, true, false, Option, none, some, String, List, map, length, ◌≡◌,
  refl, ap, subst, ◌∙◌, arith, any, ==_refl,
}
use vidra_search.Store.Rows.{Uuid}
use vidra_search.Store.Query.{Outcome, ok, err}
use vidra_search.Paging.{limit, limit_bounds}
use vidra_search.Recommendation.Composer.{
  Candidate, Composer, has, picked_ids, per_channel_cap, new_composer, exclude, full, add_all,
}
use vidra_search.Recommendation.Bounds.{
  add_all-Frames, AllDistinct, channel_picks, IsBounded, add_all-IsBounded, new_composer-IsBounded,
  exclude-IsBounded,
}
use vidra_search.Recommendation.Feeds.{
  Seed, FeedRow, feed_row, Reads, ◌>>=◌, candidates, unless_full, same_channel, overlap,
  popular_fill, related_composer, related_picks, default_limit, max_related_limit, max_home_limit,
}
use vidra_search.Recommendation.Rounds.{Streams, home_streams, home_picks, rounds, longest}
use vidra_search.Recommendation.Fairness.{interleaved, rounds_lem}

-- At most `max` picks, no video twice, and at most two of one channel.
abbrev pub IsFeed : (max : ℤ) → List Candidate → Type 0
IsFeed max ps =
    (pos (length ps) ≤ℤ max)
    × AllDistinct (picked_ids ps)
    × ((ch : Uuid) → channel_picks ch ps ≤ per_channel_cap)

-- What a feed's composer keeps from the first step on.
record Kept (lim : ℤ) (video : Uuid) (c : Composer) : Type 0 where
  pub kept_bounds : IsBounded c
  pub kept_limit : c.limit ≡ lim
  pub kept_seed : has video c.excludes ≡ true

-- Every outcome without an error satisfies `P`.
abbrev pub Succeeds : {A : Type 0} → (A → Type 0) → Outcome A → Type 0
Succeeds P (ok a) = P a
Succeeds P (err e) = Unit

pub bind-Succeeds :
    {A B : Type 0} (P : A → Type 0) (Q : B → Type 0) (m : Outcome A) (f : A → Outcome B)
    → Succeeds P m
    → ((a : A) → P a → Succeeds Q (f a))
    → Succeeds Q (m >>= f)
bind-Succeeds P Q (ok a) f h k = k a h
bind-Succeeds P Q (err e) f h k = tt

pub any-Succeeds : {A : Type 0} (m : Outcome A) → Succeeds (λ a. Unit) m
any-Succeeds (ok a) = tt
any-Succeeds (err e) = tt

-- The limits that the feeds work with.
pub related_limit :
    (asked : ℤ)
    → (pos 0 ≤ℤ limit asked default_limit max_related_limit)
      × (limit asked default_limit max_related_limit ≤ℤ max_related_limit)
related_limit asked =
    let (low, high) =
      limit_bounds asked default_limit max_related_limit (omega arith) (omega arith) in
    (omega (arith, low), high)

pub home_limit :
    (asked : ℤ)
    → (pos 0 ≤ℤ limit asked default_limit max_home_limit)
      × (limit asked default_limit max_home_limit ≤ℤ max_home_limit)
home_limit asked =
    let (low, high) = limit_bounds asked default_limit max_home_limit (omega arith) (omega arith) in
    (omega (arith, low), high)

module _ (lim : ℤ) (video : Uuid) where
  add_all-Kept :
      (cs : List Candidate) (c : Composer) → Kept lim video c → Kept lim video (add_all cs c)
  add_all-Kept cs c k =
      let (l, e) = add_all-Frames cs c in
      record {
        kept_bounds = add_all-IsBounded cs c k.kept_bounds;
        kept_limit = l ∙ k.kept_limit;
        kept_seed = ap (has video) e ∙ k.kept_seed;
      }

  rows-Kept :
      {A : Type 0} (m : Outcome A) (rows_of : A → List FeedRow) (reason : String) (c : Composer)
      → Kept lim video c
      → Succeeds (Kept lim video) (m >>= λ rows. ok (add_all (candidates reason (rows_of rows)) c))
  rows-Kept (ok rows) rows_of reason c k = add_all-Kept (candidates reason (rows_of rows)) c k
  rows-Kept (err e) rows_of reason c k = tt

  unless_full-Kept :
      (t : Bool) (c : Composer) (m : Outcome Composer)
      → Kept lim video c
      → Succeeds (Kept lim video) m
      → Succeeds (Kept lim video) (unless_full t c m)
  unless_full-Kept true c m k l = k
  unless_full-Kept false c m k l = l

  same_channel-Kept :
      (q : Reads) (hide : Bool) (o : Option Uuid) (c : Composer)
      → Kept lim video c
      → Succeeds (Kept lim video) (same_channel q hide video o c)
  unfolding same_channel
  same_channel-Kept q hide none c k = k
  same_channel-Kept q hide (some ch) c k =
      rows-Kept (q.related_same_channel hide ch video 2) (λ rows. rows) "similar" c k

  overlap-Kept :
      (q : Reads) (hide : Bool) (seed : Seed) (c : Composer)
      → Kept lim video c
      → Succeeds (Kept lim video) (overlap q hide video seed c)
  unfolding overlap
  overlap-Kept q hide seed c k =
      unless_full-Kept (full c) c _ k (rows-Kept _ (map feed_row) "similar" c k)

  popular_fill-Kept :
      (q : Reads) (hide : Bool) (c : Composer)
      → Kept lim video c
      → Succeeds (Kept lim video) (popular_fill q hide c)
  unfolding popular_fill
  popular_fill-Kept q hide c k =
      unless_full-Kept (full c) c _ k (rows-Kept _ (λ rows. rows) "popular" c k)

-- What a feed has in the end, with the seed `video` left out.
abbrev IsLeftOut : (lim : ℤ) → Uuid → Composer → Type 0
IsLeftOut lim video c = IsBounded c × (c.limit ≡ lim) × (has video (picked_ids c.picks) ≡ false)

Kept-IsLeftOut : (lim : ℤ) (video : Uuid) (c : Composer) → Kept lim video c → IsLeftOut lim video c
Kept-IsLeftOut lim video c k =
    (k.kept_bounds, k.kept_limit, k.kept_bounds.bounded_apart video k.kept_seed)

weaken-Succeeds :
    (lim : ℤ) (video : Uuid) (m : Outcome Composer)
    → Succeeds (Kept lim video) m
    → Succeeds (IsLeftOut lim video) m
weaken-Succeeds lim video (ok c) k = Kept-IsLeftOut lim video c k
weaken-Succeeds lim video (err e) k = tt

excluded-Kept :
    (lim : ℤ) (video : Uuid) → pos 0 ≤ℤ lim → Kept lim video (exclude video (new_composer lim))
unfolding exclude any
excluded-Kept lim video h = record {
  kept_bounds = exclude-IsBounded video lim h;
  kept_limit = refl;
  kept_seed = ground (arith, ==_refl video);
}

related_composer-IsLeftOut :
    (q : Reads) (hide : Bool) (video : Uuid) (lim : ℤ) (o : Option Seed)
    → pos 0 ≤ℤ lim
    → Succeeds (IsLeftOut lim video) (related_composer q hide video lim o)
unfolding related_composer any
related_composer-IsLeftOut q hide video lim none h = (new_composer-IsBounded lim h, refl, refl)
related_composer-IsLeftOut q hide video lim (some seed) h =
    let start : Kept lim video (exclude video (new_composer lim)) = excluded-Kept lim video h in
    weaken-Succeeds lim video _ (
      bind-Succeeds (Kept lim video) (Kept lim video) _ _
        (same_channel-Kept lim video q hide seed.channel_id (exclude video (new_composer lim))
          start)
        (λ c k.
          bind-Succeeds (Kept lim video) (Kept lim video) _ _
            (overlap-Kept lim video q hide seed c k)
            (λ d l. popular_fill-Kept lim video q hide d l)))

IsLeftOut-IsFeed :
    (max lim : ℤ) (video : Uuid) (c : Composer)
    → lim ≤ℤ max
    → IsLeftOut lim video c
    → IsFeed max c.picks × (has video (picked_ids c.picks) ≡ false)
IsLeftOut-IsFeed max lim video c h (b, e, f) =
    let short : pos (length c.picks) ≤ℤ lim =
      subst (λ l. pos (length c.picks) ≤ℤ l) e b.bounded_limit in
    (((omega (arith, short, h)), b.bounded_distinct, b.bounded_channels), f)

-- When the related feed of a video succeeds, whatever rows the store answered with, it has at most
-- 50 picks, names no video twice and no channel more than twice, and leaves the video itself out.
pub related_picks-IsFeed :
    (q : Reads) (video : Uuid) (asked : ℤ) (hide : Bool) (c : Composer)
    → related_picks q video asked hide ≡ ok c
    → IsFeed max_related_limit c.picks × (has video (picked_ids c.picks) ≡ false)
unfolding related_picks
related_picks-IsFeed q video asked hide c e =
    let lim = limit asked default_limit max_related_limit in
    let (low, high) = related_limit asked in
    let out =
      bind-Succeeds (λ o. Unit) (IsLeftOut lim video) (q.get_document video)
        (related_composer q hide video lim) (any-Succeeds (q.get_document video))
        (λ o u. related_composer-IsLeftOut q hide video lim o low) in
    IsLeftOut-IsFeed max_related_limit lim video c high
      (subst (Succeeds (IsLeftOut lim video)) e out)

-- When the three sources of the home feed answer, its loop ends: the feed is the streams'
-- candidates, added in turn while there is room. It has at most 100 picks, names no video twice and
-- no channel more than twice.
pub home_picks_lem :
    (q : Reads) (asked : ℤ) (hide : Bool) (lang : String) (ss : Streams)
    → home_streams q (limit asked default_limit max_home_limit) hide lang ≡ ok ss
    → (c : Composer) × (home_picks q asked hide lang ≡ ok (some c))
      × (c
          ≡ add_all
              (interleaved (suc (longest ss)) 0 ss)
              (new_composer (limit asked default_limit max_home_limit)))
      × IsFeed max_home_limit c.picks
unfolding home_picks
home_picks_lem q asked hide lang ss e =
    let lim = limit asked default_limit max_home_limit in
    let (low, high) = home_limit asked in
    let cands = interleaved (suc (longest ss)) 0 ss in
    let c = add_all cands (new_composer lim) in
    let b = add_all-IsBounded cands (new_composer lim) (new_composer-IsBounded lim low) in
    let (l, x) = add_all-Frames cands (new_composer lim) in
    let short : pos (length c.picks) ≤ℤ lim =
      subst (λ n. pos (length c.picks) ≤ℤ n) l b.bounded_limit in
    let loop : rounds (suc (longest ss)) 0 ss (new_composer lim) ≡ some c =
      rounds_lem (longest ss) 0 ss (new_composer lim) (omega arith) in
    (
      c,
      ap (λ m. m >>= λ ts. ok (rounds (suc (longest ts)) 0 ts (new_composer lim))) e ∙ ap ok loop,
      refl,
      (omega (arith, short, high), b.bounded_distinct, b.bounded_channels),
    )
