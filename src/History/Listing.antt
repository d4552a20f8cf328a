-- ===== src/History/Listing.antt =====
-- internal/history/service.go, List, with its statement of internal/store/queries/history.sql.
use vidra_search.Prelude.{
  ℕ, zero, suc, ◌<◌, ◌^◌, ltb, if◌then◌else◌, ◌==◌, ==_iff, ℤ, pos, negsuc, pos_part, String, Bool,
  false, not, ◌&&◌, Option, none, some, List, [], ◌∷◌, map, keep, take, drop, ◌≡◌, refl, ap, ◌∙◌,
  Bool-cases, inl, inr,
}
use vidra_search.Prelude.Sort.{stable_sort}
use vidra_search.Store.Rows.{Uuid, Time, SearchHistory}
use vidra_search.Store.Tables.{Db, delete_where}
use vidra_search.Store.Query.{Server, Outcome, ok, err, Error}
use vidra_search.Paging.{limit, offset}
use vidra_search.Search.Service.{int32}
use vidra_search.Search.Pages.{int32_small}
use vidra_search.History.Service.{clear_all}
use vidra_search.History.Clear.{without_footprint, clear_all-without}

pub record Entry : Type 0 where
  pub query : String
  pub normalized_query : String
  pub last_used_at : Time
  pub use_count : ℕ

pub record ListResponse : Type 0 where
  pub entries : List Entry
  pub limit : ℤ
  pub offset : ℤ

-- Why a read may fail: the database does, or it refuses a negative offset.
pub record Failures : Type 0 where
  pub down : Option Error
  pub negative_offset : Error

abbrev pub is_listed : Uuid → SearchHistory → Bool
is_listed u r = r.user_id == u && not r.hidden

abbrev pub recent_first : SearchHistory → SearchHistory → Bool
recent_first r s = ltb s.last_used_at r.last_used_at

-- The rows by their last use; SQL leaves the order of equal times open.
unfoldable pub listed : Uuid → List SearchHistory → List SearchHistory
listed u rows = stable_sort recent_first (keep (is_listed u) rows)

abbrev pub page_of :
    Failures → (lim : ℕ) → (off : ℤ) → List SearchHistory → Outcome (List SearchHistory)
page_of f lim (negsuc n) rows = err f.negative_offset
page_of f lim (pos n) rows = ok (take lim (drop n rows))

abbrev pub unless_down : Option Error → Outcome (List SearchHistory) → Outcome (List SearchHistory)
unless_down (some e) rows = err e
unless_down none rows = rows

-- ListUserSearchHistory
unfoldable pub list_user_search_history :
    Failures → Uuid → (lim : ℕ) → (off : ℤ) → Db → Outcome (List SearchHistory)
unfolding listed
list_user_search_history f u lim off db =
    unless_down f.down (page_of f lim off (listed u db.search_history))

abbrev pub entry : SearchHistory → Entry
entry r = record {
  query = r.display_query;
  normalized_query = r.normalized_query;
  last_used_at = r.last_used_at;
  use_count = r.use_count;
}

abbrev pub list_response : (lim off : ℤ) → Outcome (List SearchHistory) → Outcome ListResponse
list_response lim off (err e) = err e
list_response lim off (ok rows) =
    ok (record { entries = map entry rows; limit = lim; offset = off })

-- List; the limit is at most 100, so that `int32` keeps it.
unfoldable pub list : Failures → Uuid → (limit offset : ℤ) → Db → Outcome ListResponse
list f u asked from db =
    let lim = limit asked (pos 20) (pos 100) in
    let off = offset from in
    list_response lim off (list_user_search_history f u (pos_part lim) (int32 (pos_part off)) db)

keep-deleted_own :
    (u : Uuid) (rows : List SearchHistory)
    → keep (is_listed u) (delete_where (λ r. r.user_id == u) rows) ≡ []
unfolding keep delete_where
keep-deleted_own u [] = refl
keep-deleted_own u (r ∷ rows) = elim (Bool-cases (r.user_id == u)) [
  | inl e ↦ rw e (keep-deleted_own u rows)
  | inr e ↦ rw e (rw e (keep-deleted_own u rows))
]

keep-deleted_other :
    (u v : Uuid) (rows : List SearchHistory)
    → (u == v) ≡ false
    → keep (is_listed v) (delete_where (λ r. r.user_id == u) rows) ≡ keep (is_listed v) rows
unfolding keep delete_where
keep-deleted_other u v [] h = refl
keep-deleted_other u v (r ∷ rows) h = elim (Bool-cases (r.user_id == u)) [
  | inl e ↦
      let other : (r.user_id == v) ≡ false = ap (λ x. x == v) ((==_iff r.user_id u).0 e) ∙ h in
      rw (e, other) (keep-deleted_other u v rows h)
  | inr e ↦
      rw e (ap (λ rest. if is_listed v r then r ∷ rest else rest) (keep-deleted_other u v rows h))
]

-- A page of nothing.
page_of-none : (f : Failures) (lim n : ℕ) → page_of f lim (pos n) [] ≡ ok []
page_of-none f zero zero = refl
page_of-none f zero (suc n) = refl
page_of-none f (suc lim) zero = refl
page_of-none f (suc lim) (suc n) = refl

-- After ClearAll has ended without an error, List of the account gives an empty page, whatever limit
-- and offset below 2 ^ 31 are asked for, if the database answers; List of any other account gives what
-- it gave before.
pub list-clear_all :
    (srv : Server) (has_redis : Bool) (u v : Uuid) (db : Db) (f : Failures) (asked from : ℤ)
    → (clear_all srv has_redis u db).error ≡ none
    → (u == v) ≡ false
    → f.down ≡ none
    → pos_part (offset from) < 2 ^ 31
    → (list f u asked from (clear_all srv has_redis u db).db
        ≡ ok
            (record { entries = []; limit = limit asked (pos 20) (pos 100); offset = offset from }))
      × (list f v asked from (clear_all srv has_redis u db).db ≡ list f v asked from db)
unfolding list list_user_search_history without_footprint listed stable_sort
list-clear_all srv has_redis u v db f asked from h apart up small =
    let lim = limit asked (pos 20) (pos 100) in
    let off = offset from in
    let n = pos_part off in
    let cleared = ap (λ (d : Db). d.search_history) (clear_all-without srv has_redis u db h) in
    let read = λ (o : Option Error) (at : ℤ) (rows : List SearchHistory).
      list_response lim off
        (unless_down o (page_of f (pos_part lim) at (stable_sort recent_first rows))) in
    (
      ap (λ rows. read f.down (int32 n) (keep (is_listed u) rows)) cleared
          ∙ ap (read f.down (int32 n)) (keep-deleted_own u db.search_history)
          ∙ ap (λ o. read o (int32 n) []) up
          ∙ ap (λ at. read none at []) (int32_small n small)
          ∙ ap (λ o. list_response lim off (unless_down none o)) (page_of-none f (pos_part lim) n),
      ap (λ rows. read f.down (int32 n) (keep (is_listed v) rows)) cleared
          ∙ ap (read f.down (int32 n)) (keep-deleted_other u v db.search_history apart),
    )
