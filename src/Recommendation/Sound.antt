-- ===== src/Recommendation/Sound.antt =====
-- internal/recommendation/advanced.go, composeAdvanced: the map of candidates up to the scores.
use vidra_search.Prelude.{
  ◌==◌, ==_iff, ==_refl, String, Bool, true, false, ◌&&◌, Option, none, some, List, [], ◌∷◌, any,
  is_some, ◌≡◌, refl, sym, ap, subst, ◌∙◌, ◌⊎◌, inl, inr, arith, Bool-cases,
}
use vidra_search.Store.Rows.{Uuid}
use vidra_search.Store.Query.{ok}
use vidra_search.Index.{opt_str}
use vidra_search.Recommendation.Composer.{Candidate, has}
use vidra_search.Recommendation.Feeds.{FeedRow, times}
use vidra_search.Recommendation.Promises.{Succeeds, bind-Succeeds, any-Succeeds}
use vidra_search.Recommendation.Candidates.{AdvCand, is_eligible, ById, CandidateSet, put}
use vidra_search.Recommendation.Merge.{IdAt, IsCandidateSet}
use vidra_search.Recommendation.Scoring.{
  FeatureRow, Service, fill, mark_row, mark_rows, modify_cand, modify, modify_all, with_affinity,
  personalize, affinity_for, fill_affinity, Found,
}
use vidra_search.Recommendation.Compose.{Viewer, fresh_max_views}

abbrev pub has_row : Uuid → List FeatureRow → Bool
has_row u rows = any (λ f. f.video_id == u) rows

abbrev pub has_fresh : Uuid → List FeedRow → Bool
has_fresh u rows = any (λ p. p.video_id == u) rows

module _ (s : Service) (v : Viewer) (cs : CandidateSet) where
  -- The store has named the video in answer to one of the two queries for eligible documents, asked
  -- with the viewer's own filter.
  abbrev pub IsListed : Uuid → Type 0
  IsListed u =
      ((rows : List FeatureRow) × (s.q.list_doc_features v.hide_sensitive cs.order ≡ ok rows)
        × (has_row u rows ≡ true))
      ⊎ ((pool : List FeedRow) × (s.q.fresh_low_view v.hide_sensitive fresh_max_views
              (opt_str v.lang) (times 2 v.limit)
            ≡ ok pool)
          × (has_fresh u pool ≡ true))

  abbrev pub IsServed : Candidate → Type 0
  IsServed p = (has p.video_id cs.exclude ≡ false) × IsListed p.video_id

  -- The map at one video: its own id, none where it is excluded, and listed where it is eligible.
  abbrev pub Sound : Uuid → Option AdvCand → Type 0
  Sound u o =
      IdAt u o × ((has u cs.exclude && is_some o) ≡ false) × (is_eligible o ≡ true → IsListed u)

  abbrev pub IsSound : ById → Type 0
  IsSound m = (u : Uuid) → Sound u (m u)

  pub start-IsSound : IsCandidateSet cs → IsSound cs.by_id
  start-IsSound (ids, ordered, distinct, apart, plain) u =
      (ids u, apart u, λ e. absurd (ground (arith, e, plain u)))

  pub put-IsSound :
      (w : Uuid) (c : AdvCand) (m : ById)
      → c.id ≡ w
      → has w cs.exclude ≡ false
      → IsListed w
      → IsSound m
      → IsSound (put w c m)
  put-IsSound w c m e out l h u = elim (Bool-cases (u == w)) [
    | inr f ↦ rw f (h u)
    | inl f ↦
        let same : w ≡ u = sym ((==_iff u w).0 f) in
        rw f (
          e ∙ same,
          ap (λ t. t && true) (subst (λ x. has x cs.exclude ≡ false) same out),
          λ k. subst IsListed same l,
        )
  ]

  mark_row-IsSound :
      (f : FeatureRow) (o : Option AdvCand) (r : Found)
      → IsListed f.video_id
      → Sound f.video_id o
      → IsSound r.0
      → IsSound (mark_row s f o r).0
  mark_row-IsSound f none r l k h = h
  mark_row-IsSound f (some c) (m, us) l (e, apart, k) h =
      put-IsSound f.video_id (fill s f c) m e (ground (arith, apart)) l h

  pub mark_rows-IsSound :
      (fs : List FeatureRow) (r : Found)
      → ((u : Uuid) → has_row u fs ≡ true → IsListed u)
      → IsSound r.0
      → IsSound (mark_rows s fs r).0
  unfolding mark_rows any
  mark_rows-IsSound [] r l h = h
  mark_rows-IsSound (f ∷ fs) r l h =
      mark_rows-IsSound fs (mark_row s f (r.0 f.video_id) r) (λ u e. l u (ground (arith, e)))
        (mark_row-IsSound f (r.0 f.video_id) r (l f.video_id (ground (arith, ==_refl f.video_id)))
          (h f.video_id) h)

  pub modify_all-IsSound :
      (f : AdvCand → AdvCand) (us : List Uuid) (m : ById)
      → ((c : AdvCand) → ((f c).id ≡ c.id) × ((f c).eligible ≡ c.eligible))
      → IsSound m
      → IsSound (modify_all f us m)
  unfolding modify_all
  modify_all-IsSound f [] m e h = h
  modify_all-IsSound f (w ∷ us) m e h = modify_all-IsSound f us (modify f w m) e (λ u.
      elim (Bool-cases (u == w)) [ inl k ↦ rw k (changed u (m u) (h u)) | inr k ↦ rw k (h u) ])
    where
      changed : (u : Uuid) (o : Option AdvCand) → Sound u o → Sound u (modify_cand f o)
      changed u none k = k
      changed u (some c) (i, apart, l) = ((e c).0 ∙ i, apart, λ t. l (sym (e c).1 ∙ t))

  fill_affinity-IsSound :
      (uid : Uuid) (us : List Uuid) (m : ById)
      → IsSound m
      → Succeeds IsSound (fill_affinity s uid us m)
  unfolding fill_affinity
  fill_affinity-IsSound uid us m h =
      bind-Succeeds (λ scores. Unit) IsSound (s.q.neighbor_affinity uid _) _ (any-Succeeds _)
        (λ scores u.
          bind-Succeeds (λ channels. Unit) IsSound (s.q.user_channel_affinity uid) _
            (any-Succeeds _)
            (λ channels w.
              modify_all-IsSound (with_affinity s scores channels) us m (λ c. (refl, refl)) h))

  pub personalize-IsSound :
      (t : Bool) (user : String) (us : List Uuid) (m : ById)
      → IsSound m
      → Succeeds IsSound (personalize s t user us m)
  unfolding personalize
  personalize-IsSound false user us m h = h
  personalize-IsSound true user us m h = affinity_for-IsSound (s.q.reads.parse_uuid user)
    where
      affinity_for-IsSound : (o : Option Uuid) → Succeeds IsSound (affinity_for s o us m)
      affinity_for-IsSound none = h
      affinity_for-IsSound (some uid) = fill_affinity-IsSound uid us m h
