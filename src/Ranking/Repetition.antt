-- ===== src/Ranking/Repetition.antt =====
-- internal/ranking/advanced.go, RerankWith: the penalty for repeated creators, and the order.
use vidra_search.Prelude.{
  ℕ, zero, suc, ◌+◌, ◌-◌, ltb, String, true, false, Option, none, some, List, [], ◌∷◌, map, take,
  get_elem?, str_eq, if◌then◌else◌, ◌≡◌, refl, sym, ap, subst, ◌∙◌, Bool-cases, inl, inr, arith,
  eq_iff,
}
use vidra_search.Store.Rows.{Float}
use vidra_search.Ranking.Score.{Floats}
use vidra_search.Ranking.Rerank.{Scored, Counts, count_one, demote, penalize}

abbrev pub id_of : Scored → String
id_of x = x.doc.video_id

-- How many of the items are of the channel.
unfoldable pub results_of : String → List Scored → ℕ
results_of ch [] = 0
results_of ch (x ∷ xs) = (if str_eq x.channel ch then 1 else 0) + results_of ch xs

-- What the penalty does to the item at place `i`, by the number of its channel's items up to it.
unfoldable pub charge : Floats → (penalty : Float) → List Scored → (i : ℕ) → Scored → Scored
charge r penalty items i x =
    let n = results_of x.channel (take (suc i) items) in
    if str_eq x.channel ""
    then x
    else if ltb 2 n
    then record x { score = r.minus x.score (r.times penalty (r.of_nat (n - 2))) }
    else x

abbrev pub map_option : (Scored → Scored) → Option Scored → Option Scored
map_option f none = none
map_option f (some x) = some (f x)

-- What the counts are after an item, at a channel that has a name.
bumped :
    (counts : Counts) (ch y : String)
    → str_eq y "" ≡ false
    → (if str_eq ch "" then counts else count_one ch counts) y
      ≡ counts y + (if str_eq ch y then 1 else 0)
bumped counts ch y h = elim (Bool-cases (str_eq ch "")) [
  | inl e ↦
      let same : ch ≡ "" = (eq_iff ch "").0 e in
      let other : str_eq ch y ≡ false =
        subst (λ t. str_eq t y ≡ false) (sym same) (flipped y "" h) in
      rw e (ground (arith, other))
  | inr e ↦ rw e (ground (arith, flip ch y))
]
  where
    flip : (a b : String) → str_eq b a ≡ str_eq a b
    flip a b = ground (arith, eq_iff a b, eq_iff b a)

    flipped : (a b : String) → str_eq a b ≡ false → str_eq b a ≡ false
    flipped a b k = ground (arith, eq_iff a b, eq_iff b a, k)

module _ (r : Floats) (penalty : Float) where
  demote-id : (n : ℕ) (x : Scored) → id_of (demote r penalty n x) ≡ id_of x
  unfolding demote
  demote-id n x = elim (Bool-cases (ltb 2 n)) [ inl e ↦ rw e refl | inr e ↦ rw e refl ]

  pub penalize-ids :
      (counts : Counts) (xs : List Scored) → map id_of (penalize r penalty counts xs) ≡ map id_of xs
  unfolding penalize
  penalize-ids counts [] = refl
  penalize-ids counts (x ∷ xs) = elim (Bool-cases (str_eq x.channel "")) [
    | inl e ↦ rw e (ap (λ ids. id_of x ∷ ids) (penalize-ids counts xs))
    | inr e ↦ rw e (
        ap (λ id. id ∷ map id_of (penalize r penalty (count_one x.channel counts) xs))
          (demote-id (suc (counts x.channel)) x)
        ∙ ap (λ ids. id_of x ∷ ids) (penalize-ids (count_one x.channel counts) xs))
  ]

  -- With the counts of the items before, as results so far.
  penalize-from :
      (counts : Counts) (xs : List Scored) (i : ℕ)
      → get_elem? (penalize r penalty counts xs) i
        ≡ map_option
            (λ x.
              if str_eq x.channel ""
              then x
              else demote r penalty (counts x.channel + results_of x.channel (take (suc i) xs)) x)
            (get_elem? xs i)
  unfolding penalize results_of
  penalize-from counts [] i = refl
  penalize-from counts (x ∷ xs) zero =
      let same : str_eq x.channel x.channel ≡ true = (eq_iff x.channel x.channel).1 refl in
      let n : suc (counts x.channel)
          ≡ counts x.channel + ((if str_eq x.channel x.channel then 1 else 0) + 0) =
        ground (arith, same) in
      ap (λ k. some (if str_eq x.channel "" then x else demote r penalty k x)) n
  penalize-from counts (x ∷ xs) (suc i) =
      let next : Counts = if str_eq x.channel "" then counts else count_one x.channel counts in
      penalize-from next xs i ∙ shifted (get_elem? xs i)
    where
      shifted :
          (o : Option Scored)
          → map_option
              (λ y.
                if str_eq y.channel ""
                then y
                else demote r penalty
                    ((if str_eq x.channel "" then counts else count_one x.channel counts) y.channel
                      + results_of y.channel (take (suc i) xs))
                    y)
              o
            ≡ map_option
                (λ y.
                  if str_eq y.channel ""
                  then y
                  else demote r penalty
                      (counts y.channel + results_of y.channel (take (suc (suc i)) (x ∷ xs)))
                      y)
                o
      shifted none = refl
      shifted (some y) = elim (Bool-cases (str_eq y.channel "")) [
        | inl e ↦ rw e refl
        | inr e ↦
            let n = bumped counts x.channel y.channel e in
            rw e (ap (λ k. some (demote r penalty k y)) (omega (arith, n)))
      ]

  -- The loop that demotes repeated creators leaves an item without a channel as it is, and an item that
  -- is the n-th of its channel up to there as well where n is at most 2; otherwise it takes n - 2 times
  -- the penalty from the item's score.
  pub penalize-at :
      (items : List Scored) (i : ℕ)
      → get_elem? (penalize r penalty (λ ch. 0) items) i
        ≡ map_option (charge r penalty items i) (get_elem? items i)
  unfolding charge demote
  penalize-at items i = penalize-from (λ ch. 0) items i ∙ from_zero (get_elem? items i)
    where
      from_zero :
          (o : Option Scored)
          → map_option
              (λ x.
                if str_eq x.channel ""
                then x
                else demote r penalty (0 + results_of x.channel (take (suc i) items)) x)
              o
            ≡ map_option (charge r penalty items i) o
      from_zero none = refl
      from_zero (some x) =
          ap (λ k. some (if str_eq x.channel "" then x else demote r penalty k x)) (omega arith)
