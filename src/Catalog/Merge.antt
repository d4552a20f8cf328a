-- ===== src/Catalog/Merge.antt =====
-- internal/store/catalog_activation.go: what the upsert of one document makes of the corpus.
use vidra_search.Prelude.{
  ◌==◌, ==_iff, ==_refl, Bool, true, false, not, ◌&&◌, List, [], ◌∷◌, any, keep, ◌≡◌, refl, sym, ap,
  ◌∙◌, arith, Bool-cases, inl, inr, if◌then◌else◌,
}
use vidra_search.Store.Rows.{Uuid, Document}
use vidra_search.Store.Tables.{upsert}
use vidra_search.Catalog.Tables.{Host}
use vidra_search.Catalog.Digests.{same_test}
use vidra_search.Catalog.Staging.{member}
use vidra_search.Catalog.Activation.{
  is_local, same_columns, seed_row, refreshed, merge_live, has_id, project_one,
}

-- A row that the search shows as the local video `u`.
abbrev pub is_served : Uuid → Document → Bool
is_served u d = d.video_id == u && (is_local d && d.eligible)

abbrev pub is_foreign : Document → Bool
is_foreign d = not (is_local d)

-- A row of an incoming id that is not local.
abbrev pub is_taken : List Uuid → Document → Bool
is_taken ids d = is_foreign d && member d.video_id ids

module _ {A : Type 0} (hit : A → Bool) (change : A → A) (new : A) where
  keep-upsert :
      (k : A → Bool)
      → ((r : A) → k (change r) ≡ k r)
      → ((r : A) → k r ≡ true → change r ≡ r)
      → k new ≡ false
      → (rows : List A) → keep k (upsert hit change new rows) ≡ keep k rows
  unfolding keep upsert
  keep-upsert k same fix n [] = ap (λ t. if t then new ∷ [] else []) n
  keep-upsert k same fix n (r ∷ rows) = elim (Bool-cases (hit r)) [
    | inl e ↦ rw e (changed r rows (k r) refl)
    | inr e ↦ rw e (ap (λ xs. if k r then r ∷ xs else xs) (keep-upsert k same fix n rows))
  ]
    where
      changed :
          (r : A) (rows : List A) (t : Bool)
          → k r ≡ t
          → keep k (change r ∷ rows) ≡ keep k (r ∷ rows)
      changed r rows true e = ap (λ x. keep k (x ∷ rows)) (fix r e)
      changed r rows false e =
          ap (λ t. if t then change r ∷ keep k rows else keep k rows) (same r ∙ e)
          ∙ sym (ap (λ t. if t then r ∷ keep k rows else keep k rows) e)

  -- A test that the change keeps is still passed.
  any-upsert :
      (q : A → Bool)
      → ((r : A) → hit r ≡ true → q r ≡ true → q (change r) ≡ true)
      → (rows : List A) → any q rows ≡ true
      → any q (upsert hit change new rows) ≡ true
  unfolding any upsert
  any-upsert q f [] h = absurd (ground (arith, h))
  any-upsert q f (r ∷ rows) h = elim (Bool-cases (hit r)) [
    | inl e ↦ rw e (ground (arith, h, f r e))
    | inr e ↦ rw e (ground (arith, h, any-upsert q f rows))
  ]

  -- The row that is inserted or changed passes, where no row stands in the way.
  any-upsert_new :
      (q bad : A → Bool)
      → ((r : A) → hit r ≡ true → bad r ≡ false → q (change r) ≡ true)
      → q new ≡ true
      → (rows : List A) → any bad rows ≡ false
      → any q (upsert hit change new rows) ≡ true
  unfolding any upsert
  any-upsert_new q bad f n [] h = ground (arith, n)
  any-upsert_new q bad f n (r ∷ rows) h = elim (Bool-cases (hit r)) [
    | inl e ↦ rw e (ground (arith, h, f r e))
    | inr e ↦ rw e (ground (arith, h, any-upsert_new q bad f n rows))
  ]

last_true : (a b : Bool) → (a && b) ≡ true → b ≡ true
last_true true b h = h
last_true false b h = absurd (ground (arith, h))

first_true : (a b : Bool) → (a && b) ≡ true → a ≡ true
first_true true b h = refl
first_true false b h = h

-- A row that a full observation would not change is eligible already.
same_columns-eligible :
    (d e : Document) → d.eligible ≡ true → same_columns d e ≡ true → e.eligible ≡ true
same_columns-eligible d e t h =
    both d.eligible e.eligible t
      (last_true _ _ (first_true _ _ (first_true _ _ (first_true _ _ h))))
  where
    both : (a b : Bool) → a ≡ true → same_test a b ≡ true → b ≡ true
    both true b t h = h
    both false b t h = absurd (ground (arith, t))

module _ (h : Host) (d : Document) where
  -- What a live row can become.
  merged :
      (P : Document → Type 0) (r : Document)
      → (same_columns (seed_row h d) r ≡ true → P r)
      → (is_local r ≡ true → P (refreshed h d r))
      → (is_local r ≡ false → P r)
      → P (merge_live h d r)
  merged P r same local other = go (same_columns (seed_row h d) r) (is_local r) same local other
    where
      go :
          (t l : Bool)
          → (t ≡ true → P r)
          → (l ≡ true → P (refreshed h d r))
          → (l ≡ false → P r)
          → P (if t then r else if l then refreshed h d r else r)
      go true l same local other = same refl
      go false true same local other = local refl
      go false false same local other = other refl

  merged_foreign : (r : Document) → is_foreign (merge_live h d r) ≡ is_foreign r
  merged_foreign r = merged (λ x. is_foreign x ≡ is_foreign r) r (λ e. refl) (λ e. refl) (λ e. refl)

  merged_fixed : (r : Document) → is_foreign r ≡ true → merge_live h d r ≡ r
  merged_fixed r f =
      merged (λ x. x ≡ r) r (λ e. refl) (λ e. absurd (ground (arith, e, f))) (λ e. refl)

  merged_served :
      (u : Uuid) (r : Document)
      → has_id d.video_id r ≡ true
      → is_served u r ≡ true
      → is_served u (merge_live h d r) ≡ true
  merged_served u r i s =
      merged (λ x. is_served u x ≡ true) r (λ e. s)
        (λ e. same_id (is_local r) d.video_id r.video_id r.eligible i s e) (λ e. s)
    where
      same_id :
          (l : Bool) (a b : Uuid) (t : Bool)
          → (b == a) ≡ true
          → (b == u && (l && t)) ≡ true
          → l ≡ true
          → (a == u && (l && true)) ≡ true
      same_id l a b t i s e = ground (arith, i, s, e)

  merged_new :
      (ids : List Uuid) (r : Document)
      → member d.video_id ids ≡ true
      → has_id d.video_id r ≡ true
      → is_taken ids r ≡ false
      → is_served d.video_id (merge_live h d r) ≡ true
  merged_new ids r m i n =
      let here : member r.video_id ids ≡ true =
        ap (λ v. member v ids) ((==_iff r.video_id d.video_id).0 i) ∙ m in
      let local : is_local r ≡ true = mine (is_local r) (member r.video_id ids) here n in
      merged (λ x. is_served d.video_id x ≡ true) r
        (λ e.
          all3 (r.video_id == d.video_id) (is_local r) r.eligible i local
            (same_columns-eligible (seed_row h d) r refl e))
        (λ e. all3 (d.video_id == d.video_id) (is_local r) true (==_refl d.video_id) e refl)
        (λ e. absurd (ground (arith, e, local)))
    where
      mine : (a b : Bool) → b ≡ true → (not a && b) ≡ false → a ≡ true
      mine true b e f = refl
      mine false b e f = absurd (ground (arith, e, f))

      all3 : (a b c : Bool) → a ≡ true → b ≡ true → c ≡ true → (a && (b && c)) ≡ true
      all3 a b c x y z = ground (arith, x, y, z)

  pub project_one-foreign :
      (ds : List Document) → keep is_foreign (project_one h d ds) ≡ keep is_foreign ds
  project_one-foreign ds =
      keep-upsert (has_id d.video_id) (merge_live h d) (seed_row h d) is_foreign merged_foreign
        merged_fixed refl ds

  pub project_one-served :
      (u : Uuid) (ds : List Document)
      → any (is_served u) ds ≡ true
      → any (is_served u) (project_one h d ds) ≡ true
  project_one-served u ds s =
      any-upsert (has_id d.video_id) (merge_live h d) (seed_row h d) (is_served u) (merged_served u)
        ds s

  pub project_one-new :
      (ids : List Uuid) (ds : List Document)
      → member d.video_id ids ≡ true
      → any (is_taken ids) ds ≡ false
      → any (is_served d.video_id) (project_one h d ds) ≡ true
  project_one-new ids ds m n =
      any-upsert_new (has_id d.video_id) (merge_live h d) (seed_row h d) (is_served d.video_id)
        (is_taken ids) (λ r. merged_new ids r m)
        (seed_served (d.video_id == d.video_id) (==_refl d.video_id)) ds n
    where
      seed_served : (t : Bool) → t ≡ true → (t && (true && true)) ≡ true
      seed_served t e = ground (arith, e)
