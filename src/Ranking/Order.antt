-- ===== src/Ranking/Order.antt =====
-- internal/ranking/advanced.go, RerankWith: the ranking as a whole.
use mathlib.Core.List.{Perm}
use mathlib.Core.List.Perm
use vidra_search.Prelude.{
  String, Bool, true, false, not, ◌&&◌, List, [], ◌∷◌, All, map, if◌then◌else◌, ◌≡◌, refl, sym, ap,
  subst, Bool-cases, inl, inr,
}
use vidra_search.Prelude.Sort.{
  stable_sort-perm, IsOrdered, IsWeakOrder, lexical_asym, lexical_trans, stable_sort-IsOrdered,
  All-of-stable_sort,
}
use vidra_search.Store.Rows.{Float}
use vidra_search.Search.Features.{Features, Doc, Ranked}
use vidra_search.Ranking.Score.{Floats}
use vidra_search.Ranking.Rerank.{
  Scored, scored, less_scored, penalize, sorted, penalized, to_ranked, rerank_with,
}
use vidra_search.Ranking.Repetition.{id_of, penalize-ids}

-- The order of two results: by the score, then by the id.
abbrev pub ranked_less : Floats → Ranked → Ranked → Bool
ranked_less r a b =
    if r.same a.score b.score then r.id_less a.video_id b.video_id else r.less b.score a.score

-- What `<` and `==` of float64 are among numbers that are not NaN, and Go's `<` on the ids.
pub record IsFloatOrder (number : Float → Bool) (r : Floats) : Type 0 where
  pub same_iff :
      (x y : Float)
      → number x ≡ true
      → number y ≡ true
      → r.same x y ≡ (not (r.less x y) && not (r.less y x))
  pub less_asym :
      (x y : Float) → number x ≡ true → number y ≡ true → (r.less x y && r.less y x) ≡ false
  pub less_trans :
      (x y z : Float)
      → number x ≡ true
      → number y ≡ true
      → number z ≡ true
      → (not (r.less x y) && (not (r.less y z) && r.less x z)) ≡ false
  pub id_asym : (s t : String) → (r.id_less s t && r.id_less t s) ≡ false
  pub id_trans :
      (s t u : String) → (not (r.id_less s t) && (not (r.id_less t u) && r.id_less s u)) ≡ false

module _ (r : Floats) (number : Float → Bool) (o : IsFloatOrder number r) where
  scored-order : IsWeakOrder (λ x. number x.score ≡ true) (less_scored r)
  scored-order = record {
    asym = λ x y p q h.
        lexical_asym (r.less x.score y.score) (r.less y.score x.score)
          (r.id_less x.doc.video_id y.doc.video_id) (r.id_less y.doc.video_id x.doc.video_id)
          (r.same x.score y.score) (r.same y.score x.score) (o.same_iff x.score y.score p q)
          (o.same_iff y.score x.score q p) (o.less_asym x.score y.score p q)
          (o.id_asym x.doc.video_id y.doc.video_id) h;
    trans = λ x y z p q w h k.
        lexical_trans (r.less x.score y.score) (r.less y.score x.score) (r.less y.score z.score)
          (r.less z.score y.score) (r.less x.score z.score) (r.less z.score x.score)
          (r.id_less y.doc.video_id x.doc.video_id) (r.id_less z.doc.video_id y.doc.video_id)
          (r.id_less z.doc.video_id x.doc.video_id) (r.same y.score x.score)
          (r.same z.score y.score) (r.same z.score x.score) (o.same_iff y.score x.score q p)
          (o.same_iff z.score y.score w q) (o.same_iff z.score x.score w p)
          (o.less_trans x.score y.score z.score p q w) (o.less_trans y.score z.score x.score q w p)
          (o.less_trans z.score x.score y.score w p q)
          (o.id_trans z.doc.video_id y.doc.video_id x.doc.video_id) h k;
  }

  All-ranked :
      (x : Scored) (ys : List Scored)
      → All (λ y. less_scored r y x ≡ false) ys
      → All (λ y. ranked_less r y (to_ranked x) ≡ false) (map to_ranked ys)
  All-ranked x [] h = tt
  All-ranked x (y ∷ ys) h = (h.0, All-ranked x ys h.1)

  IsOrdered-ranked :
      (xs : List Scored)
      → IsOrdered (less_scored r) xs
      → IsOrdered (ranked_less r) (map to_ranked xs)
  IsOrdered-ranked [] h = tt
  IsOrdered-ranked (x ∷ xs) h = (All-ranked x xs h.0, IsOrdered-ranked xs h.1)

  All-scored :
      (xs : List Scored)
      → All (λ x. number x.score ≡ true) (map to_ranked xs)
      → All (λ x. number x.score ≡ true) xs
  All-scored [] h = tt
  All-scored (x ∷ xs) h = (h.0, All-scored xs h.1)

  sorted-IsOrdered :
      (xs : List Scored)
      → All (λ x. number x.score ≡ true) (sorted r xs)
      → IsOrdered (less_scored r) (sorted r xs)
  sorted-IsOrdered xs h =
      stable_sort-IsOrdered scored-order xs (All-of-stable_sort (less_scored r) _ xs h)

  penalized-IsOrdered :
      (penalty : Float) (items : List Scored)
      → All (λ x. number x.score ≡ true) (penalized r penalty (sorted r items))
      → IsOrdered (less_scored r) (penalized r penalty (sorted r items))
  penalized-IsOrdered penalty items =
      either (r.less r.f0 penalty) (sorted r (penalize r penalty (λ ch. 0) (sorted r items)))
        (sorted r items) (sorted-IsOrdered (penalize r penalty (λ ch. 0) (sorted r items)))
        (sorted-IsOrdered items)
    where
      either :
          (t : Bool) (xs ys : List Scored)
          → (All (λ x. number x.score ≡ true) xs → IsOrdered (less_scored r) xs)
          → (All (λ x. number x.score ≡ true) ys → IsOrdered (less_scored r) ys)
          → All (λ x. number x.score ≡ true) (if t then xs else ys)
          → IsOrdered (less_scored r) (if t then xs else ys)
      either true xs ys f g = f
      either false xs ys f g = g

  -- Where the scores that RerankWith returns are numbers, none of them NaN, which float64 orders as
  -- numbers, and `<` on the ids is a strict order, its results stand by descending score, those of one
  -- score by their ids.
  pub rerank_with-IsOrdered :
      (docs : List Doc) (scorer : Features → Float) (penalty : Float)
      → All (λ x. number x.score ≡ true) (rerank_with r docs scorer penalty)
      → IsOrdered (ranked_less r) (rerank_with r docs scorer penalty)
  unfolding rerank_with
  rerank_with-IsOrdered [] scorer penalty h = tt
  rerank_with-IsOrdered (d ∷ ds) scorer penalty h =
      let items = map (scored r scorer (d ∷ ds)) (d ∷ ds) in
      IsOrdered-ranked (penalized r penalty (sorted r items))
        (penalized-IsOrdered penalty items (All-scored (penalized r penalty (sorted r items)) h))

module _ (r : Floats) where
  sorted-ids : (xs : List Scored) → Perm (map id_of (sorted r xs)) (map id_of xs)
  sorted-ids xs = Perm.map id_of (stable_sort-perm (less_scored r) xs)

  penalized-ids :
      (penalty : Float) (items : List Scored)
      → Perm (map id_of (penalized r penalty items)) (map id_of items)
  penalized-ids penalty items = elim (Bool-cases (r.less r.f0 penalty)) [
    | inr e ↦ rw e (Perm.refl (map id_of items))
    | inl e ↦ rw e (
        subst (λ ids. Perm (map id_of (sorted r (penalize r penalty (λ ch. 0) items))) ids)
          (penalize-ids r penalty (λ ch. 0) items)
          (sorted-ids (penalize r penalty (λ ch. 0) items)))
  ]

  ids-ranked : (xs : List Scored) → map (λ x. x.video_id) (map to_ranked xs) ≡ map id_of xs
  ids-ranked [] = refl
  ids-ranked (x ∷ xs) = ap (λ ids. id_of x ∷ ids) (ids-ranked xs)

  ids-scored :
      (scorer : Features → Float) (docs ds : List Doc)
      → map id_of (map (scored r scorer docs) ds) ≡ map (λ d. d.video_id) ds
  ids-scored scorer docs [] = refl
  ids-scored scorer docs (d ∷ ds) = ap (λ ids. d.video_id ∷ ids) (ids-scored scorer docs ds)

  -- RerankWith returns each document of its input once, whatever the scorer, the penalty and the
  -- arithmetic.
  pub rerank_with-perm :
      (docs : List Doc) (scorer : Features → Float) (penalty : Float)
      → Perm
          (map (λ x. x.video_id) (rerank_with r docs scorer penalty))
          (map (λ d. d.video_id) docs)
  unfolding rerank_with
  rerank_with-perm [] scorer penalty = Perm.refl []
  rerank_with-perm (d ∷ ds) scorer penalty =
      let items = map (scored r scorer (d ∷ ds)) (d ∷ ds) in
      let whole = penalized r penalty (sorted r items) in
      subst (λ ids. Perm ids (map (λ x. x.video_id) (d ∷ ds))) (sym (ids-ranked whole))
        (subst (Perm (map id_of whole)) (ids-scored scorer (d ∷ ds) (d ∷ ds))
          (Perm.trans (penalized-ids penalty (sorted r items)) (sorted-ids items)))
