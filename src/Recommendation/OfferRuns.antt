-- ===== src/Recommendation/OfferRuns.antt =====
-- internal/recommendation/advanced.go, candidateSet: what the set is after a run of offers.
use vidra_search.Prelude.{
  ℕ, max, ◌==◌, ==_iff, Bool, true, false, not, ◌&&◌, ◌||◌, Option, none, some, List, [], ◌∷◌, any,
  is_some, if◌then◌else◌, ◌≡◌, refl, ap, subst, ◌∙◌, arith, Bool-cases, ◌⊎◌, inl, inr,
}
use vidra_search.Store.Rows.{Uuid}
use vidra_search.Explore.Mmr.{Reals}
use vidra_search.Recommendation.Composer.{has}
use vidra_search.Recommendation.Bounds.{AllDistinct}
use vidra_search.Recommendation.Candidates.{
  AdvCand, ById, CandidateSet, Offer, put, new_candidate_set, skip, skip_all, add_to, add,
  offer_all,
}
use vidra_search.Recommendation.Merge.{
  IsCandidateSet, priority_at, landed, landed-priority, add_to-Lands, Lands-IsCandidateSet,
  put-some, put-priority,
}

-- The ids that are offered, and the highest priority that a video is offered with.
unfoldable pub is_offered : Uuid → List Offer → Bool
is_offered u os = any (λ o. o.video_id == u) os

unfoldable pub top_priority : Uuid → List Offer → ℕ
top_priority u [] = 0
top_priority u (o ∷ os) = max (if o.video_id == u then o.priority else 0) (top_priority u os)

module _ (r : Reals) where
  pub add-IsCandidateSet :
      (o : Offer) (cs : CandidateSet) → IsCandidateSet cs → IsCandidateSet (add r o cs)
  unfolding add
  add-IsCandidateSet o cs h = elim (Bool-cases (has o.video_id cs.exclude)) [
    | inl e ↦ rw e h
    | inr e ↦ rw e (
        Lands-IsCandidateSet r o cs (add_to r o cs (cs.by_id o.video_id)) e
          (add_to-Lands r o cs (cs.by_id o.video_id)) h)
  ]

  pub offer_all-IsCandidateSet :
      (os : List Offer) (cs : CandidateSet) → IsCandidateSet cs → IsCandidateSet (offer_all r os cs)
  unfolding offer_all
  offer_all-IsCandidateSet [] cs h = h
  offer_all-IsCandidateSet (o ∷ os) cs h =
      offer_all-IsCandidateSet os (add r o cs) (add-IsCandidateSet o cs h)

  add-exclude : (o : Offer) (cs : CandidateSet) → (add r o cs).exclude ≡ cs.exclude
  unfolding add
  add-exclude o cs = elim (Bool-cases (has o.video_id cs.exclude)) [
    | inl e ↦ rw e refl
    | inr e ↦ rw e ((add_to-Lands r o cs (cs.by_id o.video_id)).1)
  ]

  pub offer_all-exclude :
      (os : List Offer) (cs : CandidateSet) → (offer_all r os cs).exclude ≡ cs.exclude
  unfolding offer_all
  offer_all-exclude [] cs = refl
  offer_all-exclude (o ∷ os) cs = offer_all-exclude os (add r o cs) ∙ add-exclude o cs

  -- Membership and priority after one offer.
  add-at :
      (o : Offer) (cs : CandidateSet) (u : Uuid)
      → has u cs.exclude ≡ false
      → (is_some ((add r o cs).by_id u) ≡ (o.video_id == u || is_some (cs.by_id u)))
        × (priority_at ((add r o cs).by_id u)
            ≡ max (priority_at (cs.by_id u)) (if o.video_id == u then o.priority else 0))
  unfolding add
  add-at o cs u out = elim (Bool-cases (has o.video_id cs.exclude)) [
    | inl e ↦
        let apart : (o.video_id == u) ≡ false = elsewhere (o.video_id) e in
        rw e (ground (arith, apart), ground (arith, apart))
    | inr e ↦
        let v = o.video_id in
        let c = landed r o (cs.by_id v) in
        let m : (add_to r o cs (cs.by_id v)).by_id ≡ put v c cs.by_id =
          (add_to-Lands r o cs (cs.by_id v)).0 in
        rw e (
          ap (λ (f : ById). is_some (f u)) m ∙ put-some r v c cs.by_id u,
          ap (λ (f : ById). priority_at (f u)) m
              ∙ put-priority r v c cs.by_id u
              ∙ merged v (Bool-cases (v == u)) (landed-priority r o (cs.by_id v)),
        )
  ]
    where
      elsewhere : (v : Uuid) → has v cs.exclude ≡ true → (v == u) ≡ false
      elsewhere v h = elim (Bool-cases (v == u)) [
        | inr f ↦ f
        | inl f ↦
            let same : has u cs.exclude ≡ true =
              subst (λ y. has y cs.exclude ≡ true) ((==_iff v u).0 f) h in
            ground (arith, same, out)
      ]

      merged :
          (v : Uuid)
          → ((v == u) ≡ true) ⊎ ((v == u) ≡ false)
          → (landed r o (cs.by_id v)).priority ≡ max (priority_at (cs.by_id v)) o.priority
          → (if v == u then (landed r o (cs.by_id v)).priority else priority_at (cs.by_id u))
            ≡ max (priority_at (cs.by_id u)) (if v == u then o.priority else 0)
      merged v (inl f) h =
          let same : priority_at (cs.by_id v) ≡ priority_at (cs.by_id u) =
            ap (λ x. priority_at (cs.by_id x)) ((==_iff v u).0 f) in
          rw f (h ∙ ap (λ n. max n o.priority) same)
      merged v (inr f) h = rw f (omega arith)

  offer_all-at :
      (os : List Offer) (cs : CandidateSet) (u : Uuid)
      → has u cs.exclude ≡ false
      → (is_some ((offer_all r os cs).by_id u) ≡ (is_some (cs.by_id u) || is_offered u os))
        × (priority_at ((offer_all r os cs).by_id u)
            ≡ max (priority_at (cs.by_id u)) (top_priority u os))
  unfolding offer_all is_offered top_priority any
  offer_all-at [] cs u out = (ground arith, omega arith)
  offer_all-at (o ∷ os) cs u out =
      let (s, p) = offer_all-at os (add r o cs) u (ap (has u) (add-exclude o cs) ∙ out) in
      let (t, q) = add-at o cs u out in
      (
        ground (arith, s, t),
        s_max (priority_at ((offer_all r os (add r o cs)).by_id u))
            (priority_at ((add r o cs).by_id u)) (priority_at (cs.by_id u))
            (if o.video_id == u then o.priority else 0) (top_priority u os) p q,
      )
    where
      s_max : (a b c d e : ℕ) → a ≡ max b e → b ≡ max c d → a ≡ max c (max d e)
      s_max a b c d e h k = omega (arith, h, k)

pub skip_all-IsCandidateSet :
    (us : List Uuid) (cs : CandidateSet)
    → ((u : Uuid) → is_some (cs.by_id u) ≡ false)
    → IsCandidateSet cs
    → IsCandidateSet (skip_all us cs)
unfolding skip_all skip any
skip_all-IsCandidateSet [] cs n h = h
skip_all-IsCandidateSet (u ∷ us) cs n (i, l, d, x, p) =
    skip_all-IsCandidateSet us (skip u cs) n (i, l, d, λ v. ground (arith, n v), p)

pub skip_all-has :
    (us : List Uuid) (cs : CandidateSet) (u : Uuid)
    → has u (skip_all us cs).exclude ≡ (has u us || has u cs.exclude)
unfolding skip_all skip any
skip_all-has [] cs u = refl
skip_all-has (v ∷ us) cs u = ground (arith, skip_all-has us (skip v cs) u)

skip_all-by_id : (us : List Uuid) (cs : CandidateSet) → (skip_all us cs).by_id ≡ cs.by_id
unfolding skip_all skip
skip_all-by_id [] cs = refl
skip_all-by_id (v ∷ us) cs = skip_all-by_id us (skip v cs)

pub skipped-IsCandidateSet : (us : List Uuid) → IsCandidateSet (skip_all us new_candidate_set)
unfolding any
skipped-IsCandidateSet us =
    skip_all-IsCandidateSet us new_candidate_set (λ u. refl)
      (λ u. tt, λ u. refl, tt, λ u. refl, λ u. refl)

-- The candidate set after any run of offers, with some videos skipped first: a video is in it exactly
-- when it was offered and is not skipped, it keeps the highest priority that it was offered with, and
-- the order in which candidates are listed names each of them, and none twice.
pub offer_all_iff :
    (r : Reals) (skips : List Uuid) (os : List Offer) (u : Uuid)
    → (is_some ((offer_all r os (skip_all skips new_candidate_set)).by_id u)
        ≡ (not (has u skips) && is_offered u os))
      × (priority_at ((offer_all r os (skip_all skips new_candidate_set)).by_id u)
          ≡ (if has u skips then 0 else top_priority u os))
      × (has u (offer_all r os (skip_all skips new_candidate_set)).order
          ≡ is_some ((offer_all r os (skip_all skips new_candidate_set)).by_id u))
      × AllDistinct (offer_all r os (skip_all skips new_candidate_set)).order
unfolding any
offer_all_iff r skips os u =
    let cs = skip_all skips new_candidate_set in
    let ds = offer_all r os cs in
    let (ids, ordered, distinct, apart, plain) =
      offer_all-IsCandidateSet r os cs (skipped-IsCandidateSet skips) in
    let out : has u cs.exclude ≡ has u skips =
      skip_all-has skips new_candidate_set u ∙ ground arith in
    let kept : has u ds.exclude ≡ has u skips = ap (has u) (offer_all-exclude r os cs) ∙ out in
    let empty : cs.by_id u ≡ none =
      ap (λ (f : ById). f u) (skip_all-by_id skips new_candidate_set) in
    elim (Bool-cases (has u skips)) [
      | inl e ↦
          let gone : is_some (ds.by_id u) ≡ false = ground (arith, apart u, kept, e) in
          (
            gone ∙ ground (arith, e),
            no_priority (ds.by_id u) gone ∙ ground (arith, e),
            ordered u,
            distinct,
          )
      | inr e ↦
          let (s, p) = offer_all-at r os cs u (out ∙ e) in
          (
            s ∙ ap (λ o. is_some o || is_offered u os) empty ∙ ground (arith, e),
            p ∙ ap (λ o. max (priority_at o) (top_priority u os)) empty ∙ ground (arith, e),
            ordered u,
            distinct,
          )
    ]
  where
    no_priority : (o : Option AdvCand) → is_some o ≡ false → priority_at o ≡ 0
    no_priority none h = refl
    no_priority (some c) h = ground (arith, h)
