-- ===== src/Recommendation/Merge.antt =====
-- internal/recommendation/advanced.go, candidateSet: what one offer does to the set.
use vidra_search.Prelude.{
  ℕ, max, ◌==◌, ==_iff, Bool, true, false, ◌&&◌, ◌||◌, Option, none, some, List, [], ◌∷◌, ◌++◌, any,
  is_some, if◌then◌else◌, ◌≡◌, refl, sym, ap, subst, ◌∙◌, arith, Bool-cases, inl, inr,
}
use vidra_search.Store.Rows.{Uuid}
use vidra_search.Explore.Mmr.{Reals}
use vidra_search.Recommendation.Composer.{has}
use vidra_search.Recommendation.Bounds.{AllDistinct, AllDistinct-snoc, has-append}
use vidra_search.Recommendation.Candidates.{
  AdvCand, is_eligible, ById, CandidateSet, Offer, put, new_cand, wins, relabel, raise, merge,
  add_to,
}

abbrev pub IdAt : Uuid → Option AdvCand → Type 0
IdAt u none = Unit
IdAt u (some c) = c.id ≡ u

abbrev pub priority_at : Option AdvCand → ℕ
priority_at none = 0
priority_at (some c) = c.priority

abbrev pub IsCandidateSet : CandidateSet → Type 0
IsCandidateSet cs =
    ((u : Uuid) → IdAt u (cs.by_id u))
    × ((u : Uuid) → has u cs.order ≡ is_some (cs.by_id u))
    × AllDistinct cs.order
    × ((u : Uuid) → (has u cs.exclude && is_some (cs.by_id u)) ≡ false)
    × ((u : Uuid) → is_eligible (cs.by_id u) ≡ false)

pub IsCandidateSet-ids : (cs : CandidateSet) → IsCandidateSet cs → (u : Uuid) → IdAt u (cs.by_id u)
IsCandidateSet-ids cs h = h.0

module _ (r : Reals) where
  raise-fields :
      (o : Offer) (c : AdvCand)
      → ((raise r o c).id ≡ c.id)
        × ((raise r o c).priority ≡ c.priority)
        × ((raise r o c).eligible ≡ c.eligible)
  raise-fields o c = elim (Bool-cases (r.less c.base_score o.base)) [
    | inl e ↦ rw e (refl, refl, refl)
    | inr e ↦ rw e (refl, refl, refl)
  ]

  relabel-fields :
      (o : Offer) (c : AdvCand)
      → ((relabel r o c).id ≡ c.id)
        × ((relabel r o c).priority ≡ max c.priority o.priority)
        × ((relabel r o c).eligible ≡ c.eligible)
  relabel-fields o c = elim (Bool-cases (wins r o c)) [
    | inl e ↦ rw e (refl, ground (arith, e), refl)
    | inr e ↦ rw e (refl, ground (arith, e), refl)
  ]

  pub merge-fields :
      (o : Offer) (c : AdvCand)
      → ((merge r o c).id ≡ c.id)
        × ((merge r o c).priority ≡ max c.priority o.priority)
        × ((merge r o c).eligible ≡ c.eligible)
  unfolding merge
  merge-fields o c =
      let (i, p, e) = relabel-fields o c in
      let (j, q, f) = raise-fields o (relabel r o c) in (j ∙ i, q ∙ p, f ∙ e)

  pub landed : Offer → Option AdvCand → AdvCand
  landed o none = new_cand r o
  landed o (some c) = merge r o c

  landed-id :
      (o : Offer) (old : Option AdvCand) → IdAt o.video_id old → (landed o old).id ≡ o.video_id
  unfolding landed
  landed-id o none h = refl
  landed-id o (some c) h = (merge-fields o c).0 ∙ h

  landed-eligible :
      (o : Offer) (old : Option AdvCand) → is_eligible old ≡ false → (landed o old).eligible ≡ false
  unfolding landed
  landed-eligible o none h = refl
  landed-eligible o (some c) h = (merge-fields o c).2 ∙ h

  pub landed-priority :
      (o : Offer) (old : Option AdvCand)
      → (landed o old).priority ≡ max (priority_at old) o.priority
  unfolding landed
  landed-priority o none = omega arith
  landed-priority o (some c) = (merge-fields o c).1

  -- The set that `add` comes to where the video is not excluded.
  abbrev pub Lands : Offer → CandidateSet → Option AdvCand → CandidateSet → Type 0
  Lands o cs old ds =
      (ds.by_id ≡ put o.video_id (landed o old) cs.by_id)
      × (ds.exclude ≡ cs.exclude)
      × (ds.order ≡ (if is_some old then cs.order else cs.order ++ o.video_id ∷ []))

  pub add_to-Lands :
      (o : Offer) (cs : CandidateSet) (old : Option AdvCand) → Lands o cs old (add_to r o cs old)
  unfolding landed
  add_to-Lands o cs none = (refl, refl, refl)
  add_to-Lands o cs (some c) = (refl, refl, refl)

  put-id :
      (v : Uuid) (c : AdvCand) (m : ById) (u : Uuid)
      → c.id ≡ v
      → IdAt u (m u)
      → IdAt u (put v c m u)
  put-id v c m u h k = elim (Bool-cases (u == v)) [
    | inl e ↦ rw e (h ∙ sym ((==_iff u v).0 e))
    | inr e ↦ rw e k
  ]

  pub put-some :
      (v : Uuid) (c : AdvCand) (m : ById) (u : Uuid)
      → is_some (put v c m u) ≡ (v == u || is_some (m u))
  put-some v c m u = elim (Bool-cases (u == v)) [
    | inl e ↦ rw e (ground (arith, e))
    | inr e ↦ rw e (ground (arith, e))
  ]

  put-eligible :
      (v : Uuid) (c : AdvCand) (m : ById) (u : Uuid)
      → c.eligible ≡ false
      → is_eligible (m u) ≡ false
      → is_eligible (put v c m u) ≡ false
  put-eligible v c m u h k = elim (Bool-cases (u == v)) [ inl e ↦ rw e h | inr e ↦ rw e k ]

  pub put-priority :
      (v : Uuid) (c : AdvCand) (m : ById) (u : Uuid)
      → priority_at (put v c m u) ≡ (if v == u then c.priority else priority_at (m u))
  put-priority v c m u = elim (Bool-cases (u == v)) [
    | inl e ↦ rw e (ground (arith, e))
    | inr e ↦ rw e (ground (arith, e))
  ]

  order-distinct :
      (us : List Uuid) (v : Uuid) (t : Bool)
      → has v us ≡ t
      → AllDistinct us
      → AllDistinct (if t then us else us ++ v ∷ [])
  order-distinct us v true h d = d
  order-distinct us v false h d = AllDistinct-snoc us v d h

  order-has :
      (us : List Uuid) (v u : Uuid) (t : Bool)
      → has v us ≡ t
      → has u (if t then us else us ++ v ∷ []) ≡ (v == u || has u us)
  unfolding any
  order-has us v u true h = elim (Bool-cases (v == u)) [
    | inl e ↦
        let same : has u us ≡ true = subst (λ x. has x us ≡ true) ((==_iff v u).0 e) h in
        ground (arith, same, e)
    | inr e ↦ ground (arith, e)
  ]
  order-has us v u false h = ground (arith, has-append u us (v ∷ []))

  pub Lands-IsCandidateSet :
      (o : Offer) (cs ds : CandidateSet)
      → has o.video_id cs.exclude ≡ false
      → Lands o cs (cs.by_id o.video_id) ds
      → IsCandidateSet cs
      → IsCandidateSet ds
  Lands-IsCandidateSet o cs ds out (m, x, l) (ids, ordered, distinct, apart, plain) =
      let v = o.video_id in
      let c = landed o (cs.by_id v) in
      let at : (u : Uuid) → put v c cs.by_id u ≡ ds.by_id u = λ u. ap (λ (f : ById). f u) (sym m) in
      (
        λ u.
            subst (IdAt u) (at u)
              (put-id v c cs.by_id u (landed-id o (cs.by_id v) (ids v)) (ids u)),
        λ u.
            ap (has u) l
            ∙ order-has cs.order v u (is_some (cs.by_id v)) (ordered v)
            ∙ ap (λ b. v == u || b) (ordered u)
            ∙ sym (put-some v c cs.by_id u)
            ∙ ap is_some (at u),
        subst AllDistinct (sym l)
            (order-distinct cs.order v (is_some (cs.by_id v)) (ordered v) distinct),
        λ u.
            ap (λ us. has u us && is_some (ds.by_id u)) x
            ∙ ap (λ w. has u cs.exclude && is_some w) (sym (at u))
            ∙ kept_apart u,
        λ u.
            subst (λ w. is_eligible w ≡ false) (at u)
              (put-eligible v c cs.by_id u (landed-eligible o (cs.by_id v) (plain v)) (plain u)),
      )
    where
      kept_apart :
          (u : Uuid)
          → (has u cs.exclude
              && is_some (put o.video_id (landed o (cs.by_id o.video_id)) cs.by_id u))
            ≡ false
      kept_apart u = elim (Bool-cases (o.video_id == u)) [
        | inl e ↦
            let same : has u cs.exclude ≡ false =
              subst (λ y. has y cs.exclude ≡ false) ((==_iff o.video_id u).0 e) out in
            ground (arith, same)
        | inr e ↦
            ground
              (arith, apart u, e, put-some o.video_id (landed o (cs.by_id o.video_id)) cs.by_id u)
      ]
