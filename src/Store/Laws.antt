-- ===== src/Store/Laws.antt =====
-- What the three forms of write keep.
use vidra_search.Prelude.{
  Bool, true, not, ◌&&◌, ◌≡◌, refl, List, [], ◌∷◌, map, any, All, arith, Bool-cases, inl, inr,
}
use vidra_search.Store.Tables.{upsert, insert_new, update_where, delete_where}

module _ {ℓ κ} {A : Type ℓ} (P : A → Type κ) (hit : A → Bool) where
  -- a property of every row, through a write that has it
  pub All-upsert :
      (change : A → A) (new : A) (rows : List A)
      → ((r : A) → hit r ≡ true → P r → P (change r))
      → P new
      → All P rows
      → All P (upsert hit change new rows)
  unfolding upsert
  All-upsert change new [] f n a = (n, tt)
  All-upsert change new (r ∷ rows) f n a = elim (Bool-cases (hit r)) [
    | inl e ↦ rw e (f r e a.0, a.1)
    | inr e ↦ rw e (a.0, All-upsert change new rows f n a.1)
  ]

  pub All-update_where :
      (change : A → A) (rows : List A)
      → ((r : A) → hit r ≡ true → P r → P (change r))
      → All P rows
      → All P (update_where hit change rows)
  unfolding update_where
  All-update_where change [] f a = tt
  All-update_where change (r ∷ rows) f a = elim (Bool-cases (hit r)) [
    | inl e ↦ rw e (f r e a.0, All-update_where change rows f a.1)
    | inr e ↦ rw e (a.0, All-update_where change rows f a.1)
  ]

  pub All-delete_where : (rows : List A) → All P rows → All P (delete_where hit rows)
  unfolding delete_where
  All-delete_where [] a = tt
  All-delete_where (r ∷ rows) a = elim (Bool-cases (hit r)) [
    | inl e ↦ rw e (All-delete_where rows a.1)
    | inr e ↦ rw e (a.0, All-delete_where rows a.1)
  ]

module _ {ℓ} {A : Type ℓ} (hit : A → Bool) where
  -- a view of the rows that the update does not change
  pub map-update_where {κ} :
      {B : Type κ} (view : A → B) (change : A → A) (rows : List A)
      → ((r : A) → view (change r) ≡ view r)
      → map view (update_where hit change rows) ≡ map view rows
  unfolding update_where
  map-update_where view change [] f = refl
  map-update_where view change (r ∷ rows) f = elim (Bool-cases (hit r)) [
    | inl e ↦ rw (e, f r, map-update_where view change rows f)
    | inr e ↦ rw (e, map-update_where view change rows f)
  ]

  -- the row with the key is there after an insert
  pub any-insert_new :
      (new : A) (rows : List A) → hit new ≡ true → any hit (insert_new hit new rows) ≡ true
  unfolding insert_new any
  any-insert_new new [] h = rw h
  any-insert_new new (r ∷ rows) h = ground (arith, any-insert_new new rows h)

  -- and what was there stays
  pub any-insert_new_of_any :
      (q : A → Bool) (new : A) (rows : List A)
      → any q rows ≡ true
      → any q (insert_new hit new rows) ≡ true
  unfolding insert_new any
  any-insert_new_of_any q new [] h = absurd (cc)
  any-insert_new_of_any q new (r ∷ rows) h = ground (arith, any-insert_new_of_any q new rows)

  -- a row that is there keeps another of its key out
  pub insert_new_of_any :
      (new : A) (rows : List A) → any hit rows ≡ true → insert_new hit new rows ≡ rows
  unfolding insert_new any
  insert_new_of_any new [] h = absurd (cc)
  insert_new_of_any new (r ∷ rows) h = ground (arith, insert_new_of_any new rows)

  -- what a delete leaves
  pub any-delete_where :
      (q : A → Bool) (rows : List A)
      → any q (delete_where hit rows) ≡ any (λ r. not (hit r) && q r) rows
  unfolding delete_where any
  any-delete_where q [] = refl
  any-delete_where q (r ∷ rows) = ground (arith, any-delete_where q rows)
