-- ===== src/Recommendation/Served.antt =====
-- internal/recommendation/advanced.go: which videos composeAdvanced can serve.
use vidra_search.Prelude.{
  ℕ, zero, suc, ◌==◌, ==_iff, ==_refl, pos, ◌≤ℤ◌, String, Bool, true, false, ◌&&◌, Option, none,
  some, List, [], ◌∷◌, any, keep, get_elem?, is_some, str_eq, if◌then◌else◌, ◌≡◌, refl, sym, ap,
  subst, ◌∙◌, inl, inr, arith, Bool-cases,
}
use vidra_search.Store.Rows.{Uuid}
use vidra_search.Store.Query.{Outcome, ok, err}
use vidra_search.Index.{opt_str}
use vidra_search.Recommendation.Composer.{has, new_composer}
use vidra_search.Recommendation.Feeds.{FeedRow, times, ◌>>=◌}
use vidra_search.Recommendation.Promises.{Succeeds, bind-Succeeds}
use vidra_search.Recommendation.Candidates.{AdvCand, ById, CandidateSet}
use vidra_search.Recommendation.Merge.{IsCandidateSet}
use vidra_search.Recommendation.Scoring.{
  FeatureRow, Service, Maxima, maxima, deref, mark_rows, subscribe, Found,
}
use vidra_search.Recommendation.Compose.{
  Viewer, fresh_max_views, novel, serve, candidate_of_id, explored, insert_pick, slot_pick,
  explore_pool, insert_exploration, compose_ranked, compose_found, compose_order, compose_advanced,
}
use vidra_search.Recommendation.Fits.{Fits, Offers, new_composer-Fits, compose_ids-Fits}
use vidra_search.Recommendation.Sound.{
  has_fresh, IsListed, IsServed, Sound, IsSound, put-IsSound, modify_all-IsSound,
  personalize-IsSound, start-IsSound, mark_rows-IsSound,
}

abbrev id_of : Option FeedRow → Uuid
id_of none = 0
id_of (some p) = p.video_id

has_fresh-at :
    (rows : List FeedRow) (i : ℕ) (p : FeedRow)
    → get_elem? rows i ≡ some p
    → has_fresh p.video_id rows ≡ true
unfolding any
has_fresh-at [] i p e = absurd (ground (arith, ap is_some e))
has_fresh-at (q ∷ rows) zero p e =
    let same : q.video_id ≡ p.video_id = ap id_of e in ground (arith, same, ==_refl p.video_id)
has_fresh-at (q ∷ rows) (suc i) p e = ground (arith, has_fresh-at rows i p e)

-- A row that is novel is of the pool, and not excluded.
novel-at :
    (excluded : List Uuid) (m : ById) (pool : List FeedRow) (u : Uuid)
    → has_fresh u (novel excluded m pool) ≡ true
    → (has u excluded ≡ false) × (has_fresh u pool ≡ true)
unfolding novel keep any
novel-at excluded m [] u h = absurd (ground (arith, h))
novel-at excluded m (p ∷ pool) u h = elim (Bool-cases (p.video_id == u)) [
  | inr e ↦
      let (out, listed) = novel-at excluded m pool u (ground (arith, h, e)) in
      (out, ground (arith, listed))
  | inl e ↦
      let same : has p.video_id excluded ≡ has u excluded =
        ap (λ x. has x excluded) ((==_iff p.video_id u).0 e) in
      (
        elim (Bool-cases (has_fresh u (novel excluded m pool))) [
          | inl k ↦ (novel-at excluded m pool u k).0
          | inr k ↦ ground (arith, h, k, same)
        ],
        ground (arith, e),
      )
]

module _ (s : Service) (v : Viewer) (cs : CandidateSet) where
  -- The pick of the exploration is of the pool, and not excluded.
  abbrev Explored : Option FeedRow → Type 0
  Explored none = Unit
  Explored (some p) = (has p.video_id cs.exclude ≡ false) × IsListed s v cs p.video_id

  slot_pick-Explored :
      (pool : List FeedRow) (m : ById) (d : Bool × ℕ)
      → s.q.fresh_low_view v.hide_sensitive fresh_max_views (opt_str v.lang) (times 2 v.limit)
        ≡ ok pool
      → Explored (slot_pick s (novel cs.exclude m pool) d)
  slot_pick-Explored pool m (false, i) e = tt
  slot_pick-Explored pool m (true, i) e = at (get_elem? (novel cs.exclude m pool) i) refl
    where
      at : (o : Option FeedRow) → get_elem? (novel cs.exclude m pool) i ≡ o → Explored o
      at none f = tt
      at (some p) f =
          let (out, listed) =
            novel-at cs.exclude m pool p.video_id (has_fresh-at (novel cs.exclude m pool) i p f) in
          (out, inr (pool, e, listed))

  explore_pool-Explored :
      (m : ById) (o : Outcome (List FeedRow))
      → s.q.fresh_low_view v.hide_sensitive fresh_max_views (opt_str v.lang) (times 2 v.limit) ≡ o
      → Explored (explore_pool s v cs.exclude m o)
  explore_pool-Explored m (err e) h = tt
  explore_pool-Explored m (ok pool) h = slot_pick-Explored pool m _ h

  insert_pick-IsSound :
      (ordered : List String) (m : ById) (o : Option FeedRow)
      → Explored o
      → IsSound s v cs m
      → IsSound s v cs (insert_pick s ordered m o).1
  insert_pick-IsSound ordered m none x h = h
  insert_pick-IsSound ordered m (some p) (out, l) h =
      (put-IsSound s v cs) p.video_id (explored s p) m refl out l h

  insert_exploration-IsSound :
      (ordered : List String) (m : ById)
      → IsSound s v cs m
      → IsSound s v cs (insert_exploration s v cs.exclude ordered m).1
  unfolding insert_exploration
  insert_exploration-IsSound ordered m h = elim (Bool-cases (str_eq v.subject "")) [
    | inl e ↦ rw e h
    | inr e ↦ rw e (insert_pick-IsSound ordered m _ (explore_pool-Explored m _ refl) h)
  ]

  IsServed-Offers :
      (u : Uuid) (o : Option AdvCand) → Sound s v cs u o → Offers (IsServed s v cs) (serve o)
  IsServed-Offers u none h = tt
  IsServed-Offers u (some c) (e, apart, l) = elim (Bool-cases c.eligible) [
    | inl t ↦ rw t (
        subst (λ x. (has x cs.exclude ≡ false) × IsListed s v cs x) (sym e)
          (ground (arith, apart), l t))
    | inr t ↦ rw t tt
  ]

  candidate_of_id-Offers :
      (m : ById) (id : String)
      → IsSound s v cs m
      → Offers (IsServed s v cs) (candidate_of_id s.q.reads.parse_uuid m id)
  candidate_of_id-Offers m id h = parsed-Offers (s.q.reads.parse_uuid id)
    where
      parsed-Offers :
          (o : Option Uuid)
          → Offers (IsServed s v cs) (elim o [ none ↦ none | some u ↦ serve (m u) ])
      parsed-Offers none = tt
      parsed-Offers (some u) = IsServed-Offers u (m u) (h u)

  compose_ranked-Fits :
      (us : List Uuid) (m : ById)
      → pos 0 ≤ℤ v.limit
      → IsSound s v cs m
      → Fits v.limit (IsServed s v cs) (compose_ranked s v cs.exclude us m)
  unfolding compose_ranked
  compose_ranked-Fits us m low h =
      let top = maxima s (deref m us) in
      compose_ids-Fits v.limit (IsServed s v cs) s.q.reads.parse_uuid _
        (λ id. candidate_of_id-Offers _ id (
          insert_exploration-IsSound _ _ (
            modify_all-IsSound s v cs (subscribe s v.personalized top) us m (λ c. subscribed top c)
              h)))
        _ (new_composer v.limit) (new_composer-Fits v.limit (IsServed s v cs) low)
    where
      subscribed :
          (top : Maxima) (c : AdvCand)
          → ((subscribe s v.personalized top c).id ≡ c.id)
            × ((subscribe s v.personalized top c).eligible ≡ c.eligible)
      subscribed top c =
          either (v.personalized && _) (record c { reason = "subscribed" }) c (refl, refl)
            (refl, refl)
        where
          either :
              (t : Bool) (a b : AdvCand)
              → (a.id ≡ c.id) × (a.eligible ≡ c.eligible)
              → (b.id ≡ c.id) × (b.eligible ≡ c.eligible)
              → ((if t then a else b).id ≡ c.id) × ((if t then a else b).eligible ≡ c.eligible)
          either true a b h k = h
          either false a b h k = k

  compose_found-Fits :
      (r : Found)
      → pos 0 ≤ℤ v.limit
      → IsSound s v cs r.0
      → Succeeds (Fits v.limit (IsServed s v cs)) (compose_found s v cs.exclude r)
  compose_found-Fits (m, []) low h = new_composer-Fits v.limit (IsServed s v cs) low
  compose_found-Fits (m, u ∷ us) low h =
      bind-Succeeds (IsSound s v cs) (Fits v.limit (IsServed s v cs)) _ _
        (personalize-IsSound s v cs v.personalized v.user_id (u ∷ us) m h)
        (λ filled k. compose_ranked-Fits (u ∷ us) filled low k)

  compose_order-Fits :
      (us : List Uuid)
      → cs.order ≡ us
      → pos 0 ≤ℤ v.limit
      → IsCandidateSet cs
      → Succeeds (Fits v.limit (IsServed s v cs)) (compose_order s v cs us)
  compose_order-Fits [] e low h = new_composer-Fits v.limit (IsServed s v cs) low
  compose_order-Fits (u ∷ us) e low h =
      answered (s.q.list_doc_features v.hide_sensitive (u ∷ us)) refl
    where
      answered :
          (o : Outcome (List FeatureRow))
          → s.q.list_doc_features v.hide_sensitive (u ∷ us) ≡ o
          → Succeeds
              (Fits v.limit (IsServed s v cs))
              (o >>= λ feats. compose_found s v cs.exclude (mark_rows s feats (cs.by_id, [])))
      answered (err x) f = tt
      answered (ok rows) f =
          let asked : s.q.list_doc_features v.hide_sensitive cs.order ≡ ok rows =
            ap (s.q.list_doc_features v.hide_sensitive) e ∙ f in
          compose_found-Fits (mark_rows s rows (cs.by_id, [])) low (
            mark_rows-IsSound s v cs rows (cs.by_id, []) (λ x k. inl (rows, asked, k))
              (start-IsSound s v cs h))

  -- When composeAdvanced succeeds, its composer is bounded as every feed is, and each pick is a video
  -- that is not excluded and that the store has listed.
  pub compose_advanced-Fits :
      pos 0 ≤ℤ v.limit
      → IsCandidateSet cs
      → Succeeds (Fits v.limit (IsServed s v cs)) (compose_advanced s v cs)
  unfolding compose_advanced
  compose_advanced-Fits low h = compose_order-Fits cs.order refl low h
