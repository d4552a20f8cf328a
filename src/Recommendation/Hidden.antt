-- ===== src/Recommendation/Hidden.antt =====
-- internal/recommendation/advanced.go: what the advanced feeds promise, whatever the store answers.
use vidra_search.Prelude.{
  ℤ, pos, ◌≤ℤ◌, String, Bool, true, false, Option, none, some, List, [], ◌∷◌, All, any, length, ◌≡◌,
  refl, sym, ap, subst, ◌∙◌, ◌⊎◌, inl, inr, arith,
}
use vidra_search.Store.Rows.{Uuid}
use vidra_search.Store.Query.{ok_path, Outcome, ok, err}
use vidra_search.Paging.{limit}
use vidra_search.Recommendation.Composer.{Candidate, Composer, has, new_composer}
use vidra_search.Recommendation.Feeds.{
  FeedRow, Seed, times, ◌>>=◌, default_limit, max_related_limit, max_home_limit,
}
use vidra_search.Recommendation.Bounds.{new_composer-IsBounded}
use vidra_search.Recommendation.Promises.{IsFeed, Succeeds, related_limit, home_limit}
use vidra_search.Recommendation.Candidates.{CandidateSet, Offer, new_candidate_set, skip_all}
use vidra_search.Recommendation.OfferRuns.{
  skipped-IsCandidateSet, offer_all-IsCandidateSet, offer_all-exclude, skip_all-has,
}
use vidra_search.Recommendation.Scoring.{FeatureRow, Service}
use vidra_search.Recommendation.Compose.{Viewer, fresh_max_views, compose_advanced}
use vidra_search.Recommendation.Sources.{
  RelatedRequest, HomeRequest, related_offers, co_watch, watched_of, user_of, home_offers,
}
use vidra_search.Recommendation.Fits.{Fits}
use vidra_search.Recommendation.Sound.{has_row, has_fresh, IsListed, IsServed}
use vidra_search.Recommendation.Served.{compose_advanced-Fits}
use vidra_search.Recommendation.Advanced.{
  set_of, related_viewer, related_of_seed, related_advanced_picks, home_viewer, home_advanced_picks,
}

bind_ok :
    {A B : Type 0} (m : Outcome A) (f : A → Outcome B) (b : B)
    → (m >>= f) ≡ ok b
    → (a : A) × (m ≡ ok a) × (f a ≡ ok b)
bind_ok (ok a) f b e = (a, refl, e)
bind_ok (err x) f b e = absurd (cc)

-- The store has named the video in answer to a query for eligible documents, of candidates or of
-- fresh ones that few have seen, asked with the viewer's choice about sensitive videos.
abbrev pub IsEligible : Service → (hide_sensitive : Bool) → Uuid → Type 0
IsEligible s hide u =
    ((ids : List Uuid) × (rows : List FeatureRow) × (s.q.list_doc_features hide ids ≡ ok rows)
      × (has_row u rows ≡ true))
    ⊎ ((language : Option String) × (lim : ℤ) × (pool : List FeedRow) × (s.q.fresh_low_view hide
            fresh_max_views language lim
          ≡ ok pool)
        × (has_fresh u pool ≡ true))

-- Each pick is eligible, and none of the hidden videos.
abbrev pub AllShown :
    Service → (hide_sensitive : Bool) → (hidden : List Uuid) → List Candidate → Type 0
AllShown s hide hidden ps =
    All (λ p. (has p.video_id hidden ≡ false) × IsEligible s hide p.video_id) ps

module _ (s : Service) (v : Viewer) (hidden : List Uuid) where
  IsListed-IsEligible :
      (cs : CandidateSet) (u : Uuid) → IsListed s v cs u → IsEligible s v.hide_sensitive u
  IsListed-IsEligible cs u (inl (rows, e, h)) = inl (cs.order, rows, e, h)
  IsListed-IsEligible cs u (inr (pool, e, h)) = inr (_, _, pool, e, h)

  IsServed-shown :
      (cs : CandidateSet) (ps : List Candidate)
      → ((u : Uuid) → has u cs.exclude ≡ has u hidden)
      → All (IsServed s v cs) ps
      → AllShown s v.hide_sensitive hidden ps
  IsServed-shown cs [] e h = tt
  IsServed-shown cs (p ∷ ps) e ((out, l), h) =
      ((sym (e p.video_id) ∙ out, IsListed-IsEligible cs p.video_id l), IsServed-shown cs ps e h)

  set_of-exclude : (os : List Offer) (u : Uuid) → has u (set_of s hidden os).exclude ≡ has u hidden
  unfolding any
  set_of-exclude os u =
      ap (has u) (offer_all-exclude s.reals os (skip_all hidden new_candidate_set))
      ∙ skip_all-has hidden new_candidate_set u
      ∙ ground arith

  -- A feed that is composed of offers, with some videos hidden.
  compose-shown :
      (max : ℤ) (os : List Offer) (c : Composer)
      → pos 0 ≤ℤ v.limit
      → v.limit ≤ℤ max
      → compose_advanced s v (set_of s hidden os) ≡ ok c
      → IsFeed max c.picks × AllShown s v.hide_sensitive hidden c.picks
  compose-shown max os c low high e =
      let cs = set_of s hidden os in
      let whole =
        offer_all-IsCandidateSet s.reals os (skip_all hidden new_candidate_set)
          (skipped-IsCandidateSet hidden) in
      let (b, l, a) =
        subst (Succeeds (Fits v.limit (IsServed s v cs))) e
          (compose_advanced-Fits s v cs low whole) in
      let short : pos (length c.picks) ≤ℤ v.limit =
        subst (λ n. pos (length c.picks) ≤ℤ n) l b.bounded_limit in
      (
        (omega (arith, short, high), b.bounded_distinct, b.bounded_channels),
        IsServed-shown cs c.picks (set_of-exclude os) a,
      )

-- When the advanced related feed of a video succeeds, whatever the store's queries and the other
-- sources answered, it has at most 50 picks, names no video twice and no channel more than twice,
-- leaves the video itself out, and every pick was named by the store in answer to a query for
-- eligible documents with the request's choice about sensitive videos.
pub related_advanced_picks-shown :
    (s : Service) (req : RelatedRequest) (c : Composer)
    → related_advanced_picks s req ≡ ok c
    → IsFeed max_related_limit c.picks × AllShown s req.hide_sensitive (req.video_id ∷ []) c.picks
unfolding related_advanced_picks
related_advanced_picks-shown s req c e =
    let (seed, got, f) = bind_ok (s.q.reads.get_document req.video_id) _ c e in of_seed seed f
  where
    of_seed :
        (o : Option Seed)
        → related_of_seed s req (limit req.limit default_limit max_related_limit) o ≡ ok c
        → IsFeed max_related_limit c.picks
          × AllShown s req.hide_sensitive (req.video_id ∷ []) c.picks
    of_seed none f =
        let (low, high) = related_limit req.limit in
        let lim = limit req.limit default_limit max_related_limit in
        let b = new_composer-IsBounded lim low in
        subst
          (λ d.
            IsFeed max_related_limit d.picks
            × AllShown s req.hide_sensitive (req.video_id ∷ []) d.picks)
          (ok_path (new_composer lim) c f) ((omega arith, tt, b.bounded_channels), tt)
    of_seed (some seed) f =
        let (low, high) = related_limit req.limit in
        let (os, got, g) = bind_ok (related_offers s req _ seed) _ c f in
        compose-shown s (related_viewer s req (limit req.limit default_limit max_related_limit))
          (req.video_id ∷ []) max_related_limit os c low high g

-- The videos that a home feed hides: the user's watched ones, where the request is personalized and
-- names a user.
abbrev pub watched_by : Service → Option Uuid → Outcome (List Uuid)
watched_by s none = ok []
watched_by s (some uid) = s.q.recently_watched uid 200

watched_of-hidden :
    (s : Service) (fetch : ℤ) (o : Option Uuid) (watched : List Uuid) (r : List Uuid × List Offer)
    → watched_by s o ≡ ok watched
    → watched_of s fetch o ≡ ok r
    → r.0 ≡ watched
watched_of-hidden s fetch none watched r h e =
    ap (λ (x : List Uuid × List Offer). x.0) (sym (ok_path ([], []) r e)) ∙ ok_path [] watched h
watched_of-hidden s fetch (some uid) watched r h e =
    let (seen, got, f) = bind_ok (s.q.recently_watched uid 200) _ r e in
    let (rows, answered, g) = bind_ok (s.q.neighbors_for_user_watches uid fetch) _ r f in
    ap (λ (x : List Uuid × List Offer). x.0) (sym (ok_path (seen, co_watch s rows) r g))
    ∙ ok_path seen watched (sym got ∙ h)

home_offers-hidden :
    (s : Service) (req : HomeRequest) (lim : ℤ) (watched : List Uuid) (r : List Uuid × List Offer)
    → watched_by s (user_of s req.personalized req.user_id) ≡ ok watched
    → home_offers s req lim ≡ ok r
    → r.0 ≡ watched
unfolding home_offers
home_offers-hidden s req lim watched r h e =
    let user = user_of s req.personalized req.user_id in
    let (w, got, f) = bind_ok (watched_of s (times 2 lim) user) _ r e in
    let (recent, got2, g) =
      bind_ok (s.q.reads.home_recent req.hide_sensitive _ (times 2 lim)) _ r f in
    let (popular, got3, k) =
      bind_ok (s.q.reads.popular_eligible req.hide_sensitive [] (times 2 lim)) _ r g in
    ap (λ (x : List Uuid × List Offer). x.0) (sym (ok_path _ r k))
    ∙ watched_of-hidden s (times 2 lim) user watched w h got

-- When the advanced home feed succeeds, whatever the store's queries and the other sources answered,
-- it has at most 100 picks, names no video twice and no channel more than twice, every pick was named
-- by the store in answer to a query for eligible documents with the request's choice about sensitive
-- videos, and no pick is one of the user's watched videos that the store answered with, where the
-- request is personalized and its user's id parses.
pub home_advanced_picks-shown :
    (s : Service) (req : HomeRequest) (watched : List Uuid) (c : Composer)
    → watched_by s (user_of s req.personalized req.user_id) ≡ ok watched
    → home_advanced_picks s req ≡ ok c
    → IsFeed max_home_limit c.picks × AllShown s req.hide_sensitive watched c.picks
unfolding home_advanced_picks
home_advanced_picks-shown s req watched c h e =
    let lim = limit req.limit default_limit max_home_limit in
    let (low, high) = home_limit req.limit in
    let (os, got, f) = bind_ok (home_offers s req lim) _ c e in
    let shown = compose-shown s (home_viewer s req lim) os.0 max_home_limit os.1 c low high f in
    subst (λ us. IsFeed max_home_limit c.picks × AllShown s req.hide_sensitive us c.picks)
      (home_offers-hidden s req lim watched os h got) shown
