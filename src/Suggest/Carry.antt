-- ===== src/Suggest/Carry.antt =====
-- internal/ranking/suggest.go, Blend: what survives the merging of the variants of one text.
use vidra_search.Prelude.{
  String, Bool, true, false, not, ◌&&◌, ◌||◌, List, [], ◌∷◌, any, str_eq, eq_iff, if◌then◌else◌,
  Bool-cases, inl, inr, ◌≡◌, refl, sym, ap, ◌∙◌, arith,
}
use vidra_search.Suggest.Blend.{
  Candidate, Scored, Arith, Weights, MaxPop, Entry, better, carry, merge, put_best, put_candidate,
  put_candidates, blend_score, max_pops,
}
use vidra_search.Suggest.Slots.{entries_of}

abbrev pub has_video : Candidate → Bool
has_video c = not (str_eq c.video_id "")

abbrev pub personal : Candidate → Bool
personal c = c.is_personal

-- The test of the entry under the key, false where there is none.
unfoldable pub at : (Candidate → Bool) → String → List Entry → Bool
at q k [] = false
at q k (e ∷ es) = let rest = at q k es in if str_eq e.key k then q e.best.cand else rest

-- The candidate goes to the entry under the key.
abbrev pub goes_to : Arith → String → Candidate → Bool
goes_to a k c = not (str_eq (a.normalize c.text) "") && str_eq (a.normalize c.text) k

pick_video :
    (t : Bool) (u v : String)
    → str_eq u "" ≡ t
    → not (str_eq (if t then v else u) "") ≡ (not (str_eq u "") || not (str_eq v ""))
pick_video true u v h = ground (arith, h)
pick_video false u v h = ground (arith, h)

or_none : (b : Bool) → (b || false) ≡ b
or_none b = ground arith

or_comm : (b c : Bool) → (b || c) ≡ (c || b)
or_comm b c = ground arith

rotate : (g cs es : Bool) → (cs || (g || es)) ≡ ((g || cs) || es)
rotate g cs es = ground arith

-- One entry of the map, under the key that the candidate goes to, or under another.
hit :
    (ek lk qx qe qm rest : Bool)
    → ek ≡ lk
    → qm ≡ (qx || qe)
    → (if ek then qm else rest) ≡ ((lk && qx) || (if ek then qe else rest))
hit ek lk qx qe qm rest h k = ground arith

miss :
    (ek lk qx qe rest new : Bool)
    → (ek && lk) ≡ false
    → new ≡ ((lk && qx) || rest)
    → (if ek then qe else new) ≡ ((lk && qx) || (if ek then qe else rest))
miss ek lk qx qe rest new h k = ground arith

apart_keys : (d l k : String) → str_eq d l ≡ false → (str_eq d k && str_eq l k) ≡ false
apart_keys d l k h = ground (arith, eq_iff d k, eq_iff l k, eq_iff d l)

module _ (a : Arith) where
  carry-has_video : (c d : Candidate) → has_video (carry a c d) ≡ (has_video c || has_video d)
  carry-has_video c d = pick_video (str_eq c.video_id "") c.video_id d.video_id refl

  carry-personal : (c d : Candidate) → personal (carry a c d) ≡ (personal c || personal d)
  carry-personal c d = refl

  -- A test that a carry takes from either.
  module _ (q : Candidate → Bool) (joins : (c d : Candidate) → q (carry a c d) ≡ (q c || q d)) where
    joined :
        (t : Bool) (x y : Scored)
        → q
            (if t
              then record x { cand = carry a x.cand y.cand }
              else record y { cand = carry a y.cand x.cand }).cand
          ≡ (q x.cand || q y.cand)
    joined true x y = joins x.cand y.cand
    joined false x y = joins y.cand x.cand ∙ or_comm (q y.cand) (q x.cand)

    at-merge : (x y : Scored) → q (merge a x y).cand ≡ (q x.cand || q y.cand)
    unfolding merge
    at-merge x y = joined (better a x y) x y

    at-put_best :
        (k l : String) (x : Scored) (es : List Entry)
        → at q k (put_best a l x es) ≡ ((str_eq l k && q x.cand) || at q k es)
    unfolding at put_best
    at-put_best k l x [] = ground arith
    at-put_best k l x (e ∷ es) = elim (Bool-cases (str_eq e.key l)) [
      | inl t ↦
          let same : e.key ≡ l = (eq_iff e.key l).0 t in
          let changed : Entry = record e { best = merge a x e.best } in
          at-if t (changed ∷ es) (e ∷ put_best a l x es)
          ∙ hit (str_eq e.key k) (str_eq l k) (q x.cand) (q e.best.cand) (q (merge a x e.best).cand)
              (at q k es) (ap (λ s. str_eq s k) same) (at-merge x e.best)
      | inr t ↦
          at-unless t (record e { best = merge a x e.best } ∷ es) (e ∷ put_best a l x es)
          ∙ miss (str_eq e.key k) (str_eq l k) (q x.cand) (q e.best.cand) (at q k es)
              (at q k (put_best a l x es)) (apart_keys e.key l k t) (at-put_best k l x es)
    ]
      where
        at-if :
            {b : Bool} → b ≡ true → (xs ys : List Entry) → at q k (if b then xs else ys) ≡ at q k xs
        at-if h xs ys = ap (λ b. at q k (if b then xs else ys)) h

        at-unless :
            {b : Bool}
            → b ≡ false
            → (xs ys : List Entry) → at q k (if b then xs else ys) ≡ at q k ys
        at-unless h xs ys = ap (λ b. at q k (if b then xs else ys)) h

    at-put_candidate :
        (k : String) (m : MaxPop) (w : Weights) (c : Candidate) (es : List Entry)
        → at q k (put_candidate a m w c es) ≡ ((goes_to a k c && q c) || at q k es)
    at-put_candidate k m w c es = elim (Bool-cases (str_eq (a.normalize c.text) "")) [
      | inl t ↦
          ap
            (λ b. at q k (
              if b
              then es
              else put_best a (a.normalize c.text)
                  (record { cand = c; score = blend_score a c m w }) es))
            t
          ∙ sym (ap (λ b. ((not b && str_eq (a.normalize c.text) k) && q c) || at q k es) t)
      | inr t ↦
          ap
            (λ b. at q k (
              if b
              then es
              else put_best a (a.normalize c.text)
                  (record { cand = c; score = blend_score a c m w }) es))
            t
          ∙ at-put_best k (a.normalize c.text) (record { cand = c; score = blend_score a c m w }) es
          ∙ sym (ap (λ b. ((not b && str_eq (a.normalize c.text) k) && q c) || at q k es) t)
    ]

    at-put_candidates :
        (k : String) (m : MaxPop) (w : Weights) (cs : List Candidate) (es : List Entry)
        → at q k (put_candidates a m w cs es) ≡ (any (λ c. goes_to a k c && q c) cs || at q k es)
    unfolding put_candidates any
    at-put_candidates k m w [] es = refl
    at-put_candidates k m w (c ∷ cs) es =
        at-put_candidates k m w cs (put_candidate a m w c es)
        ∙ ap (λ t. any (λ d. goes_to a k d && q d) cs || t) (at-put_candidate k m w c es)
        ∙ rotate (goes_to a k c && q c) (any (λ d. goes_to a k d && q d) cs) (at q k es)

-- Of the variants of one text that Blend merges, the row that stays has a video id exactly when one
-- of them has one, and is personal exactly when one of them is.
pub entries_of-carries :
    (a : Arith) (cands : List Candidate) (w : Weights) (k : String)
    → (at has_video k (entries_of a cands w) ≡ any (λ c. goes_to a k c && has_video c) cands)
      × (at personal k (entries_of a cands w) ≡ any (λ c. goes_to a k c && personal c) cands)
unfolding at
entries_of-carries a cands w k =
    let m = max_pops a cands (record { of_query = a.f0; of_doc = a.f0; of_history = a.f0 }) in
    (
      at-put_candidates a has_video (carry-has_video a) k m w cands []
          ∙ or_none (any (λ c. goes_to a k c && has_video c) cands),
      at-put_candidates a personal (carry-personal a) k m w cands []
          ∙ or_none (any (λ c. goes_to a k c && personal c) cands),
    )
