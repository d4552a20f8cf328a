-- ===== src/Worker/Sessionize.antt =====
-- internal/worker/sessionize.go. Times are numbers; the two windows are not negative.
use vidra_search.Prelude.{
  codes, ℕ, ◌+◌, ◌-◌, ltb, leb, ◌==◌, ℤ, ltb_ℤ, String, Bool, true, false, not, ◌&&◌, ◌||◌, Option,
  none, some, List, [], ◌∷◌, ◌++◌, keep, str_eq, if◌then◌else◌,
}
use vidra_search.Prelude.Sort.{stable_sort}
use vidra_search.Store.Rows.{Uuid, Time}

pub record QueryEvent : Type 0 where
  pub id : ℤ
  pub normalized_query : String
  pub user_id : Option Uuid
  pub session_id : String
  pub submitted_at : Time

pub record Signal : Type 0 where
  pub session_id : String
  pub normalized_query : String
  pub occurred_at : Time

-- `prior` and `next` are Go's From and To.
pub record Derived : Type 0 where
  pub source_id : ℤ
  pub type : String
  pub user_id : Option Uuid
  pub session_id : String
  pub normalized_query : String
  pub occurred_at : Time
  pub prior : String
  pub next : String

pub record SessionizeConfig : Type 0 where
  pub reformulation_gap : ℕ
  pub abandon_window : ℕ

-- Go's order of strings: byte by byte in UTF-8, which is the order of the code points.
unfoldable pub codes_less : List ℕ → List ℕ → Bool
codes_less [] [] = false
codes_less [] (d ∷ t) = true
codes_less (c ∷ s) [] = false
codes_less (c ∷ s) (d ∷ t) = ltb c d || (c == d && codes_less s t)

-- The `less` of the defensive sort.
abbrev pub query_less : QueryEvent → QueryEvent → Bool
query_less p q =
    if not (str_eq p.session_id q.session_id)
    then codes_less (codes p.session_id) (codes q.session_id)
    else if not (p.submitted_at == q.submitted_at)
    then ltb p.submitted_at q.submitted_at
    else ltb_ℤ p.id q.id

abbrev pub engages : (window : ℕ) → QueryEvent → Signal → Bool
engages window q s =
    not (ltb s.occurred_at q.submitted_at || ltb (q.submitted_at + window) s.occurred_at)
    && (str_eq s.normalized_query "" || str_eq s.normalized_query q.normalized_query)

-- hasEngagement, over the signals of the query's session
unfoldable pub has_engagement : List Signal → QueryEvent → (window : ℕ) → Bool
has_engagement [] q window = false
has_engagement (s ∷ signals) q window =
    let rest = has_engagement signals q window in if engages window q s then true else rest

-- bySession[id]
abbrev pub of_session : List Signal → String → List Signal
of_session signals id = keep (λ s. str_eq s.session_id id) signals

abbrev pub is_reformulation : SessionizeConfig → QueryEvent → QueryEvent → Bool
is_reformulation cfg prev q =
    str_eq prev.session_id q.session_id
    && not (str_eq q.normalized_query prev.normalized_query)
    && not (ltb q.submitted_at prev.submitted_at)
    && leb (q.submitted_at - prev.submitted_at) cfg.reformulation_gap

abbrev pub abandoned : QueryEvent → Derived
abandoned q = record {
  source_id = q.id;
  type = "search.abandoned";
  user_id = q.user_id;
  session_id = q.session_id;
  normalized_query = q.normalized_query;
  occurred_at = q.submitted_at;
  prior = "";
  next = "";
}

abbrev pub reformulated : QueryEvent → QueryEvent → Derived
reformulated prev q = record (abandoned q) {
  type = "search.reformulated";
  prior = prev.normalized_query;
  next = q.normalized_query;
}

module _ (signals : List Signal) (cfg : SessionizeConfig) where
  abbrev pub reformulation : Option QueryEvent → QueryEvent → List Derived
  reformulation none q = []
  reformulation (some prev) q = if is_reformulation cfg prev q then reformulated prev q ∷ [] else []

  abbrev pub abandonment : QueryEvent → List Derived
  abandonment q =
      if not (has_engagement (of_session signals q.session_id) q cfg.abandon_window)
      then abandoned q ∷ []
      else []

  -- The loop, after the query before.
  unfoldable pub derive : Option QueryEvent → List QueryEvent → List Derived
  derive prev [] = []
  derive prev (q ∷ qs) = reformulation prev q ++ (abandonment q ++ derive (some q) qs)

  -- Sessionize
  unfoldable pub sessionize : List QueryEvent → List Derived
  sessionize queries = derive none (stable_sort query_less queries)
