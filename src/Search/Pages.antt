-- ===== src/Search/Pages.antt =====
-- internal/search: the pages of both modes, and the recall window.
use vidra_search.Prelude.{
  ◌≤ℤ◌, negsuc, pos_part, ℕ, suc, ◌+◌, ◌-◌, ◌*◌, ◌/◌, ◌%◌, ◌^◌, ◌≤◌, ◌<◌, min, ltb, leb, ℤ, pos,
  negsuc, String, Bool, true, false, Option, none, some, List, map, take, drop, length, length-take,
  length-drop, take-take_longer, take_all, ◌≡◌, ◌⊎◌, refl, sym, ap, subst, ◌∙◌, arith, Bool-cases,
  inl, inr, if◌then◌else◌,
}
use vidra_search.Store.Rows.{Uuid}
use vidra_search.Store.Query.{ok}
use vidra_search.Paging.{limit, limit_bounds}
use vidra_search.Search.Service.{
  default_limit, max_limit, Request, Hit, Response, SimpleRow, SimpleQuerier, int32, filter_of,
  limit_of, offset_of, hit, simple_version, with_rows, counted, respond, search_simple,
}
use vidra_search.Search.Advanced.{recall_limit, max_recall_limit, int_sum, window_of, recall_window}

-- The window of a page is a whole number of blocks of 500, at most 2000, holds the page as far as
-- 2000 goes, and no smaller such number does, where the end of the page fits Go's int.
pub recall_window_bounds :
    (offset limit : ℕ)
    → offset + limit < 2 ^ 63
    → (recall_window offset limit % recall_limit ≡ 0)
      × (min (offset + limit) max_recall_limit ≤ recall_window offset limit)
      × (recall_limit ≤ recall_window offset limit)
      × (recall_window offset limit ≤ max_recall_limit)
      × ((recall_window offset limit ≡ recall_limit)
          ⊎ (recall_window offset limit < offset + limit + recall_limit))
unfolding recall_window int_sum
recall_window_bounds offset limit h =
    subst
      (λ z.
        (window_of z % recall_limit ≡ 0)
        × (min (offset + limit) max_recall_limit ≤ window_of z)
        × (recall_limit ≤ window_of z)
        × (window_of z ≤ max_recall_limit)
        × ((window_of z ≡ recall_limit) ⊎ (window_of z < offset + limit + recall_limit)))
      (sym (fits (offset + limit) h)) (bounds (offset + limit))
  where
    fits :
        (n : ℕ) → n < 2 ^ 63 → (if ltb n (2 ^ 63) then pos n else negsuc (2 ^ 64 - 1 - n)) ≡ pos n
    fits n h = ground (arith, h)

    blocks :
        (n : ℕ)
        → recall_limit < n
        → n < max_recall_limit
        → (((n + recall_limit - 1) / recall_limit * recall_limit) % recall_limit ≡ 0)
          × (min n max_recall_limit ≤ (n + recall_limit - 1) / recall_limit * recall_limit)
          × (recall_limit ≤ (n + recall_limit - 1) / recall_limit * recall_limit)
          × ((n + recall_limit - 1) / recall_limit * recall_limit ≤ max_recall_limit)
          × (((n + recall_limit - 1) / recall_limit * recall_limit ≡ recall_limit)
              ⊎ ((n + recall_limit - 1) / recall_limit * recall_limit < n + recall_limit))
    blocks n a b = (
      omega arith,
      omega (arith, a, b),
      omega (arith, a, b),
      omega (arith, a, b),
      inr (omega (arith, a, b)),
    )

    bounds :
        (n : ℕ)
        → (window_of (pos n) % recall_limit ≡ 0)
          × (min n max_recall_limit ≤ window_of (pos n))
          × (recall_limit ≤ window_of (pos n))
          × (window_of (pos n) ≤ max_recall_limit)
          × ((window_of (pos n) ≡ recall_limit) ⊎ (window_of (pos n) < n + recall_limit))
    bounds n = elim (Bool-cases (leb n recall_limit)) [
      | inl e ↦ rw e (omega arith, ground (arith, e), omega arith, omega arith, inl refl)
      | inr e ↦ rw e (elim (Bool-cases (leb max_recall_limit n)) [
        | inl k ↦ rw k (omega arith, omega arith, omega arith, omega arith, inr (ground (arith, k)))
        | inr k ↦ rw k (blocks n (ground (arith, e)) (ground (arith, k)))
      ])
    ]

-- Dropping the sentinel row leaves the page.
pub cut_page :
    {A : Type 0} (n : ℕ) (xs : List A)
    → (if ltb n (length (take (n + 1) xs)) then take n (take (n + 1) xs) else take (n + 1) xs)
      ≡ take n xs
cut_page n xs =
    subst (λ m. (if ltb n (length (take m xs)) then take n (take m xs) else take m xs) ≡ take n xs)
      (next n)
      (elim (Bool-cases (ltb n (length (take (suc n) xs)))) [
        | inl e ↦ rw e (take-take_longer n xs)
        | inr e ↦ rw e (short (length-take (suc n) xs) e)
      ])
  where
    next : (n : ℕ) → suc n ≡ n + 1
    next n = omega arith

    short :
        length (take (suc n) xs) ≡ min (suc n) (length xs)
        → ltb n (length (take (suc n) xs)) ≡ false
        → take (suc n) xs ≡ take n xs
    short l e =
        let few : length xs ≤ n = ground (arith, l, e) in
        take_all (suc n) xs (omega (arith, few)) ∙ sym (take_all n xs few)

-- The sentinel row is there exactly when the list goes on behind the page.
more :
    {A : Type 0} (off n : ℕ) (xs : List A)
    → ltb n (length (take (n + 1) (drop off xs))) ≡ ltb (off + n) (length xs)
more off n xs =
    count (length xs) (length (drop off xs)) _ (length-take (n + 1) (drop off xs))
      (length-drop off xs)
  where
    count : (l d t : ℕ) → t ≡ min (n + 1) d → d ≡ l - off → ltb n t ≡ ltb (off + n) l
    count l d t p q = ground (arith, p, q)

pub int32_small : (n : ℕ) → n < 2 ^ 31 → int32 n ≡ pos n
unfolding int32
int32_small n h = ground (arith, h)

-- Where the store answers with the slices and the count of one ranked list, a simple search whose
-- offset fits Go's int32 answers with the slice of the page, says that there is more exactly
-- when the list goes on behind it, and gives the list's length unless that is to be skipped.
pub search_simple-pages :
    (q : SimpleQuerier) (text : Uuid → String) (normalized : String) (req : Request)
    (matches : List SimpleRow)
    → ((off lim : ℕ)
        → q.search (filter_of normalized req) (pos off) (pos lim)
          ≡ ok (take lim (drop off matches)))
    → q.count (filter_of normalized req) ≡ ok (pos (length matches))
    → offset_of req < 2 ^ 31
    → search_simple q text normalized req
      ≡ ok (record {
        query = req.query;
        ids = map (hit q text) (take (limit_of req) (drop (offset_of req) matches));
        model_version = simple_version;
        experiment = none;
        total = if req.skip_count then none else some (pos (length matches));
        total_is_lower_bound = false;
        has_more = ltb (offset_of req + limit_of req) (length matches);
      })
unfolding search_simple
search_simple-pages q text normalized req matches slices count small_offset =
    let off = offset_of req in
    let lim = limit_of req in
    let small_limit =
      small (limit req.limit default_limit max_limit)
        (limit_bounds req.limit default_limit max_limit (omega arith) (omega arith)).1 in
    ap
      (λ o.
        with_rows q text normalized req (q.search (filter_of normalized req) o (int32 (lim + 1))))
      (int32_small off small_offset)
    ∙ ap (λ l. with_rows q text normalized req (q.search (filter_of normalized req) (pos off) l))
        (int32_small (lim + 1) small_limit)
    ∙ ap (with_rows q text normalized req) (slices off (lim + 1))
    ∙ ap
        (λ c.
          if req.skip_count
          then ok (answer (take (lim + 1) (drop off matches)) none)
          else counted q text req (take (lim + 1) (drop off matches)) c)
        count
    ∙ skipped req.skip_count (take (lim + 1) (drop off matches))
    ∙ ap ok (
        ap (λ ids. shape ids (ltb lim (length (take (lim + 1) (drop off matches)))))
          (ap (map (hit q text)) (cut_page lim (drop off matches)))
        ∙ ap (shape (map (hit q text) (take lim (drop off matches)))) (more off lim matches))
  where
    small : (z : ℤ) → z ≤ℤ max_limit → pos_part z + 1 < 2 ^ 31
    small (pos n) h = omega (arith, h)
    small (negsuc n) h = omega arith

    answer : List SimpleRow → Option ℤ → Response
    answer rows total = respond q text req rows total

    skipped :
        (t : Bool) (rows : List SimpleRow)
        → (if t then ok (answer rows none) else ok (answer rows (some (pos (length matches)))))
          ≡ ok (answer rows (if t then none else some (pos (length matches))))
    skipped true rows = refl
    skipped false rows = refl

    shape : List Hit → Bool → Response
    shape ids further = record {
      query = req.query;
      ids = ids;
      model_version = simple_version;
      experiment = none;
      total = if req.skip_count then none else some (pos (length matches));
      total_is_lower_bound = false;
      has_more = further;
    }
