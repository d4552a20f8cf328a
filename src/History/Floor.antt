-- ===== src/History/Floor.antt =====
-- The distinct-subject floor of internal/store/queries/rollups.sql, under a deletion.
use vidra_search.Prelude.{
  ℕ, suc, ◌+◌, String, Bool, false, ◌&&◌, ◌≡◌, refl, Option, none, some, List, [], ◌∷◌, any,
  any-keep, keep, leb, ap, ◌∙◌, arith, str_eq, opt_is, ◌==◌, ==_iff, if◌then◌else◌,
}
use vidra_search.Store.Rows.{Uuid, Time, QueryLog}
use vidra_search.Store.Tables.{Db, delete_where}
use vidra_search.Store.Query.{Server}
use vidra_search.History.Service.{clear_all}
use vidra_search.History.Clear.{without_footprint, clear_all-without}

-- count(DISTINCT key)
unfoldable pub count_distinct {ℓ} : {A : Type ℓ} → (A → A → Bool) → List A → ℕ
count_distinct same [] = 0
count_distinct same (k ∷ ks) =
    let n = count_distinct same ks in if any (same k) ks then n else suc n

-- COALESCE(subject_id, session_id)
abbrev pub anonymous_key : QueryLog → Option String
anonymous_key r = elim r.subject_id [ some s ↦ some s | none ↦ r.session_id ]

abbrev pub cons_key {ℓ} : {A : Type ℓ} → Option A → List A → List A
cons_key none ks = ks
cons_key (some k) ks = k ∷ ks

-- The accounts of a query's rows.
unfoldable pub user_keys : String → List QueryLog → List Uuid
user_keys q [] = []
user_keys q (r ∷ rows) =
    let rest = user_keys q rows in
    if str_eq r.normalized_query q then cons_key r.user_id rest else rest

abbrev pub unless_user : Option Uuid → Option String → Option String
unless_user none k = k
unless_user (some u) k = none

-- The anonymous subjects of a query's rows.
unfoldable pub anonymous_keys : String → List QueryLog → List String
anonymous_keys q [] = []
anonymous_keys q (r ∷ rows) =
    let rest = anonymous_keys q rows in
    if str_eq r.normalized_query q
    then cons_key (unless_user r.user_id (anonymous_key r)) rest
    else rest

-- The rows from the start of the retention window on.
abbrev pub in_window : Time → List QueryLog → List QueryLog
in_window start rows = keep (λ r. leb start r.submitted_at) rows

-- The `distinct_users` of a query.
unfoldable pub distinct_users : (window_start : Time) → String → List QueryLog → ℕ
distinct_users start q rows =
    count_distinct ◌==◌ (user_keys q (in_window start rows))
    + count_distinct str_eq (anonymous_keys q (in_window start rows))

in_window-delete :
    (start : Time) (u : Uuid) (rows : List QueryLog)
    → in_window start (delete_where (λ r. opt_is u r.user_id) rows)
      ≡ delete_where (λ r. opt_is u r.user_id) (in_window start rows)
unfolding keep delete_where
in_window-delete start u [] = refl
in_window-delete start u (r ∷ rows) = ground (arith, in_window-delete start u rows)

anonymous_keys-delete :
    (u : Uuid) (q : String) (rows : List QueryLog)
    → anonymous_keys q (delete_where (λ r. opt_is u r.user_id) rows) ≡ anonymous_keys q rows
unfolding anonymous_keys delete_where
anonymous_keys-delete u q [] = refl
anonymous_keys-delete u q (r ∷ rows) = ground (arith, anonymous_keys-delete u q rows)

user_keys-delete :
    (u : Uuid) (q : String) (rows : List QueryLog)
    → user_keys q (delete_where (λ r. opt_is u r.user_id) rows)
      ≡ delete_where (λ k. k == u) (user_keys q rows)
unfolding user_keys delete_where
user_keys-delete u q [] = refl
user_keys-delete u q (r ∷ rows) = ground (arith, user_keys-delete u q rows)

any-delete_other :
    (u k : ℕ) (ks : List ℕ)
    → (k == u) ≡ false
    → any (λ x. k == x) (delete_where (λ x. x == u) ks) ≡ any (λ x. k == x) ks
unfolding any delete_where
any-delete_other u k [] h = refl
any-delete_other u k (x ∷ ks) h = ground (arith, any-delete_other u k ks)

any_comm : (u : ℕ) (ks : List ℕ) → any (λ x. u == x) ks ≡ any (λ x. x == u) ks
unfolding any
any_comm u [] = refl
any_comm u (x ∷ ks) = ground (arith, any_comm u ks)

-- Without one key there is one distinct key less, if it was there.
count_distinct-delete :
    (u : ℕ) (ks : List ℕ)
    → count_distinct ◌==◌ (delete_where (λ x. x == u) ks) + (if any (λ x. x == u) ks then 1 else 0)
      ≡ count_distinct ◌==◌ ks
unfolding count_distinct any delete_where
count_distinct-delete u [] = refl
count_distinct-delete u (k ∷ ks) =
    ground (arith, count_distinct-delete u ks, any-delete_other u k ks, any_comm u ks, ==_iff k u)

any-user_keys :
    (u : Uuid) (q : String) (rows : List QueryLog)
    → any (λ k. k == u) (user_keys q rows)
      ≡ any (λ r. str_eq r.normalized_query q && opt_is u r.user_id) rows
unfolding any user_keys
any-user_keys u q [] = refl
any-user_keys u q (r ∷ rows) = ground (arith, any-user_keys u q rows)

-- Whether a row of the window that carries the query names the account.
abbrev pub is_counted : Time → String → Uuid → List QueryLog → Bool
is_counted start q u rows =
    any (λ r. leb start r.submitted_at && (str_eq r.normalized_query q && opt_is u r.user_id)) rows

distinct_users-delete_where :
    (start : Time) (u : Uuid) (q : String) (rows : List QueryLog)
    → distinct_users start q (delete_where (λ r. opt_is u r.user_id) rows)
        + (if is_counted start q u rows then 1 else 0)
      ≡ distinct_users start q rows
unfolding distinct_users
distinct_users-delete_where start u q rows =
    let inside = in_window start rows in
    let counted =
      any-keep (λ r. leb start r.submitted_at)
        (λ r. str_eq r.normalized_query q && opt_is u r.user_id) rows in
    rw
      (
        in_window-delete start u rows,
        anonymous_keys-delete u q inside,
        user_keys-delete u q inside,
        ← counted,
        ← any-user_keys u q inside,
        ← count_distinct-delete u (user_keys q inside),
      )
      (omega arith)

-- When ClearAll ends without an error, it has taken exactly the account's own contribution from each
-- query's distinct-subject count over the retention window: one, if some row of the window with the
-- query named the account, and else none.
pub distinct_users-clear_all :
    (srv : Server) (has_redis : Bool) (u : Uuid) (db : Db) (start : Time) (q : String)
    → (clear_all srv has_redis u db).error ≡ none
    → distinct_users start q (clear_all srv has_redis u db).db.query_log
        + (if is_counted start q u db.query_log then 1 else 0)
      ≡ distinct_users start q db.query_log
unfolding without_footprint
distinct_users-clear_all srv has_redis u db start q h =
    ap
      (λ (d : Db).
        distinct_users start q d.query_log + (if is_counted start q u db.query_log then 1 else 0))
      (clear_all-without srv has_redis u db h)
    ∙ distinct_users-delete_where start u q db.query_log
