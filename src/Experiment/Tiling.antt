-- ===== src/Experiment/Tiling.antt =====
-- internal/experiment/experiment.go: experiments whose ranges tile 0 to 100.
use vidra_search.Prelude.{
  ℕ, ◌<◌, ℤ, pos, ◌≤ℤ◌, ◌<ℤ◌, leb_ℤ, ltb_ℤ, String, true, false, ◌&&◌, none, some, List, [], ◌∷◌,
  All, str_eq, if◌then◌else◌, ◌≡◌, refl, sym, ap, subst, ◌∙◌, arith, Bool-cases, inl, inr, ◌⊎◌,
}
use vidra_search.Prelude.Sort.{IsOrdered, IsWeakOrder, All-unit, stable_sort-IsOrdered}
use vidra_search.Store.Query.{Outcome, ok, err}
use vidra_search.Experiment.Assign.{
  Variant, Experiment, ExperimentRow, Cache, lookup, min_less, variants_of, put_row, put_rows,
  refresh, bucket_of, first_variant, assigned, assign_in, assign,
}

-- The ranges follow one another from `lo` to 100.
abbrev pub IsTiling : (lo : ℤ) → List Variant → Type 0
IsTiling lo [] = lo ≡ pos 100
IsTiling lo (v ∷ vs) = (v.min ≡ lo) × IsTiling v.max vs

-- The variant is one of the list.
pub data IsArm (v : Variant) : List Variant → Type 0 where
  here : (vs : List Variant) → IsArm v (v ∷ vs)
  later : (w : Variant) (vs : List Variant) → IsArm v vs → IsArm v (w ∷ vs)

bucket_of-bound :
    (bytes : String → List ℕ) (salt subject : String) → bucket_of bytes salt subject < 100
unfolding bucket_of
bucket_of-bound bytes salt subject = omega arith

-- An arm of the list that the bucket lies in and that the search finds.
abbrev pub Finds : ℕ → List Variant → Variant → Type 0
Finds b vs v = IsArm v vs × (v.min ≤ℤ pos b) × (pos b <ℤ v.max) × (first_variant b vs ≡ some v)

within :
    (v : Variant) (b : ℕ)
    → v.min ≤ℤ pos b
    → pos b <ℤ v.max
    → (leb_ℤ v.min (pos b) && ltb_ℤ (pos b) v.max) ≡ true
within v b h k = ground arith

beyond :
    (v : Variant) (b : ℕ)
    → ltb_ℤ (pos b) v.max ≡ false
    → (leb_ℤ v.min (pos b) && ltb_ℤ (pos b) v.max) ≡ false
beyond v b h = ground arith

tiling-Finds :
    (b : ℕ) (lo : ℤ) (vs : List Variant)
    → b < 100
    → lo ≤ℤ pos b
    → IsTiling lo vs
    → (v : Variant) × Finds b vs v
unfolding first_variant
tiling-Finds b lo [] h k t =
    let bad : pos 100 ≤ℤ pos b = subst (λ l. l ≤ℤ pos b) t k in absurd (omega (arith, h, bad))
tiling-Finds b lo (v ∷ vs) h k (s, t) =
    let low : v.min ≤ℤ pos b = subst (λ l. l ≤ℤ pos b) (sym s) k in
    elim (Bool-cases (ltb_ℤ (pos b) v.max)) [
      | inl e ↦
          let high : pos b <ℤ v.max = ground (arith, e) in
          (
            v,
            (
              here vs,
              low,
              high,
              ap (λ t. if t then some v else first_variant b vs) (within v b low high),
            ),
          )
      | inr e ↦
          let up : v.max ≤ℤ pos b = ground (arith, e) in
          let (w, (a, l, u, f)) = tiling-Finds b v.max vs h up t in
          (
            w,
            (
              later v vs a,
              l,
              u,
              ap (λ t. if t then some v else first_variant b vs) (beyond v b e) ∙ f,
            ),
          )
    ]

-- A subject that is not empty is assigned, in an experiment whose ranges tile 0 to 100, to the arm
-- that its bucket lies in, and the bucket is below 100.
pub assign-IsTiling :
    (bytes : String → List ℕ) (cache : Cache) (key subject : String) (e : Experiment)
    → str_eq subject "" ≡ false
    → lookup key cache ≡ some e
    → IsTiling (pos 0) e.variants
    → (v : Variant) × IsArm v e.variants
      × (bucket_of bytes e.salt subject < 100)
      × (v.min ≤ℤ pos (bucket_of bytes e.salt subject))
      × (pos (bucket_of bytes e.salt subject) <ℤ v.max)
      × (assign bytes cache key subject
          ≡ some (record {
            experiment = key;
            variant = v.name;
            bucket = pos (bucket_of bytes e.salt subject);
            model_version = v.model_version;
          }))
unfolding assign
assign-IsTiling bytes cache key subject e n l t =
    let b = bucket_of bytes e.salt subject in
    let bound = bucket_of-bound bytes e.salt subject in
    let (v, (a, low, high, f)) = tiling-Finds b (pos 0) e.variants bound (omega arith) t in
    (
      v,
      a,
      bound,
      low,
      high,
      ap (λ t. if t then none else assign_in bytes key subject (lookup key cache)) n
          ∙ ap (assign_in bytes key subject) l
          ∙ ap (assigned key b) f,
    )

min_less-IsWeakOrder : IsWeakOrder (λ v. Unit {0}) min_less
min_less-IsWeakOrder = record {
  asym = λ x y p q h. ground arith;
  trans = λ x y z p q w h k. ground arith;
}

-- Each cached experiment has its arms by their lower ends.
abbrev pub AllByMin : Cache → Type 0
AllByMin = All (λ e. IsOrdered min_less e.variants)

put_row-AllByMin :
    (row : ExperimentRow) (vs : Outcome (List Variant)) (next : Cache)
    → AllByMin next
    → AllByMin (put_row row vs next)
unfolding put_row
put_row-AllByMin row (err e) next h = h
put_row-AllByMin row (ok vs) next h =
    (stable_sort-IsOrdered min_less-IsWeakOrder vs (All-unit vs), h)

put_rows-AllByMin :
    (decode : String → Outcome (List Variant)) (rows : List ExperimentRow) (next : Cache)
    → AllByMin next
    → AllByMin (put_rows decode rows next)
unfolding put_rows
put_rows-AllByMin decode [] next h = h
put_rows-AllByMin decode (r ∷ rs) next h =
    put_rows-AllByMin decode rs (put_row r (variants_of decode r.variants) next)
      (put_row-AllByMin r (variants_of decode r.variants) next h)

-- A refresh that the store refuses leaves the cache as it was, and reports the error; one that
-- succeeds reports none. Either way, and whatever order the store has the arms in, they are cached
-- by their lower ends.
pub refresh-AllByMin :
    (decode : String → Outcome (List Variant)) (answer : Outcome (List ExperimentRow))
    (cache : Cache)
    → AllByMin cache
    → AllByMin (refresh decode answer cache).1
      × (((e : String) × (answer ≡ err e) × (refresh decode answer cache ≡ (some e, cache)))
          ⊎ ((refresh decode answer cache).0 ≡ none))
unfolding refresh
refresh-AllByMin decode (err e) cache h = (h, inl (e, refl, refl))
refresh-AllByMin decode (ok rows) cache h = (put_rows-AllByMin decode rows [] tt, inr refl)
