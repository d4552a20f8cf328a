-- ===== src/Worker/Derivations.antt =====
-- internal/worker/sessionize.go: which events are derived, and which are not.
use mathlib.Core.List.{Perm}
use vidra_search.Prelude.{
  ℕ, ◌+◌, ◌-◌, ltb, leb, arith, Bool, true, false, not, ◌&&◌, ◌||◌, Option, none, some, List, [],
  ◌∷◌, ◌++◌, keep, keep-append, any, any-keep, map, str_eq, ◌≡◌, refl, ap, ◌∙◌, if◌then◌else◌,
}
use vidra_search.Prelude.Sort.{stable_sort, stable_sort-perm}
use vidra_search.Worker.Sessionize.{
  QueryEvent, Signal, Derived, SessionizeConfig, query_less, engages, has_engagement, of_session,
  is_reformulation, abandoned, reformulated, reformulation, abandonment, derive, sessionize,
}
use vidra_search.Worker.Order.{InOrder, stable_sort-InOrder}

abbrev pub is_abandoned : Derived → Bool
is_abandoned d = str_eq d.type "search.abandoned"

abbrev pub is_reformulated : Derived → Bool
is_reformulated d = str_eq d.type "search.reformulated"

-- A click on the query's text or a play, of the query's session and at most the window after it.
abbrev pub answers : SessionizeConfig → QueryEvent → Signal → Bool
answers cfg q s =
    str_eq s.session_id q.session_id
    && leb q.submitted_at s.occurred_at
    && leb s.occurred_at (q.submitted_at + cfg.abandon_window)
    && (str_eq s.normalized_query q.normalized_query || str_eq s.normalized_query "")

abbrev pub is_left : List Signal → SessionizeConfig → QueryEvent → Bool
is_left signals cfg q = not (any (answers cfg q) signals)

-- Two queries of one session with different texts, the second at most the gap after the first.
abbrev pub is_changed : SessionizeConfig → QueryEvent × QueryEvent → Bool
is_changed cfg s =
    str_eq s.0.session_id s.1.session_id
    && not (str_eq s.1.normalized_query s.0.normalized_query)
    && leb s.0.submitted_at s.1.submitted_at
    && leb s.1.submitted_at (s.0.submitted_at + cfg.reformulation_gap)

-- Some signal of the query's session engages it, with the code's test.
abbrev is_engaged : List Signal → SessionizeConfig → QueryEvent → Bool
is_engaged signals cfg q =
    any (λ s. str_eq s.session_id q.session_id && engages cfg.abandon_window q s) signals

answers_lem :
    (cfg : SessionizeConfig) (q : QueryEvent) (s : Signal)
    → (str_eq s.session_id q.session_id && engages cfg.abandon_window q s) ≡ answers cfg q s
answers_lem cfg q s =
    tests (str_eq s.session_id q.session_id) (str_eq s.normalized_query "")
      (str_eq s.normalized_query q.normalized_query) s.occurred_at q.submitted_at cfg.abandon_window
  where
    tests :
        (e n t : Bool) (a b w : ℕ)
        → (e && (not (ltb a b || ltb (b + w) a) && (n || t)))
          ≡ (e && leb b a && leb a (b + w) && (t || n))
    tests e n t a b w = ground arith

is_changed_lem :
    (cfg : SessionizeConfig) (p q : QueryEvent) → is_reformulation cfg p q ≡ is_changed cfg (p, q)
is_changed_lem cfg p q =
    tests (str_eq p.session_id q.session_id) (str_eq q.normalized_query p.normalized_query)
      p.submitted_at q.submitted_at cfg.reformulation_gap
  where
    tests :
        (e t : Bool) (a b g : ℕ)
        → (e && not t && not (ltb b a) && leb (b - a) g) ≡ (e && not t && leb a b && leb b (a + g))
    tests e t a b g = ground arith

-- What is recorded of an abandoned search, and of a reformulation.
abbrev pub abandonment_of : QueryEvent → Derived
abandonment_of q = record {
  source_id = q.id;
  type = "search.abandoned";
  user_id = q.user_id;
  session_id = q.session_id;
  normalized_query = q.normalized_query;
  occurred_at = q.submitted_at;
  prior = "";
  next = "";
}

abbrev pub reformulation_of : QueryEvent × QueryEvent → Derived
reformulation_of s = record {
  source_id = s.1.id;
  type = "search.reformulated";
  user_id = s.1.user_id;
  session_id = s.1.session_id;
  normalized_query = s.1.normalized_query;
  occurred_at = s.1.submitted_at;
  prior = s.0.normalized_query;
  next = s.1.normalized_query;
}

-- The neighbours in a list.
abbrev pub pairs : List QueryEvent → List (QueryEvent × QueryEvent)
pairs [] = []
pairs (p ∷ []) = []
pairs (p ∷ q ∷ qs) = (p, q) ∷ pairs (q ∷ qs)

has_engagement-any :
    (signals : List Signal) (q : QueryEvent) (window : ℕ)
    → has_engagement signals q window ≡ any (engages window q) signals
unfolding has_engagement any
has_engagement-any [] q window = refl
has_engagement-any (s ∷ signals) q window =
    either (engages window q s) (has_engagement signals q window) _
      (has_engagement-any signals q window)
  where
    either : (t a b : Bool) → a ≡ b → (if t then true else a) ≡ (t || b)
    either true a b e = refl
    either false a b e = e

module _ (signals : List Signal) (cfg : SessionizeConfig) where
  engaged_lem :
      (q : QueryEvent)
      → has_engagement (of_session signals q.session_id) q cfg.abandon_window
        ≡ is_engaged signals cfg q
  engaged_lem q =
      has_engagement-any (of_session signals q.session_id) q cfg.abandon_window
      ∙ any-keep (λ s. str_eq s.session_id q.session_id) (engages cfg.abandon_window q) signals

  abandoned-reformulation :
      (prev : Option QueryEvent) (q : QueryEvent)
      → keep is_abandoned (reformulation signals cfg prev q) ≡ []
  unfolding keep
  abandoned-reformulation none q = refl
  abandoned-reformulation (some prev) q = go (is_reformulation cfg prev q)
    where
      go : (t : Bool) → keep is_abandoned (if t then reformulated prev q ∷ [] else []) ≡ []
      go true = refl
      go false = refl

  reformulated-abandonment :
      (q : QueryEvent) → keep is_reformulated (abandonment signals cfg q) ≡ []
  unfolding keep
  reformulated-abandonment q =
      go (not (has_engagement (of_session signals q.session_id) q cfg.abandon_window))
    where
      go : (t : Bool) → keep is_reformulated (if t then abandoned q ∷ [] else []) ≡ []
      go true = refl
      go false = refl

  derive-abandoned :
      (prev : Option QueryEvent) (qs : List QueryEvent)
      → keep is_abandoned (derive signals cfg prev qs)
        ≡ map abandoned (keep (λ q. not (is_engaged signals cfg q)) qs)
  unfolding derive keep
  derive-abandoned prev [] = refl
  derive-abandoned prev (q ∷ qs) =
      keep-append is_abandoned (reformulation signals cfg prev q)
        (abandonment signals cfg q ++ derive signals cfg (some q) qs)
      ∙ ap
          (λ xs.
            xs ++ keep is_abandoned (abandonment signals cfg q ++ derive signals cfg (some q) qs))
          (abandoned-reformulation prev q)
      ∙ ap
          (λ t.
            keep is_abandoned
              ((if not t then abandoned q ∷ [] else []) ++ derive signals cfg (some q) qs))
          (engaged_lem q)
      ∙ one (is_engaged signals cfg q) (derive signals cfg (some q) qs) _
          (derive-abandoned (some q) qs)
    where
      one :
          (t : Bool) (ds : List Derived) (rest : List QueryEvent)
          → keep is_abandoned ds ≡ map abandoned rest
          → keep is_abandoned ((if not t then abandoned q ∷ [] else []) ++ ds)
            ≡ map abandoned (if not t then q ∷ rest else rest)
      one true ds rest e = e
      one false ds rest e = ap (λ xs. abandoned q ∷ xs) e

  abbrev steps : List QueryEvent → List Derived
  steps qs = map (λ s. reformulated s.0 s.1) (keep (λ s. is_reformulation cfg s.0 s.1) (pairs qs))

  abbrev from : Option QueryEvent → List QueryEvent → List QueryEvent
  from none qs = qs
  from (some p) qs = p ∷ qs

  derive-reformulated :
      (prev : Option QueryEvent) (qs : List QueryEvent)
      → keep is_reformulated (derive signals cfg prev qs) ≡ steps (from prev qs)
  unfolding derive keep
  derive-reformulated none [] = refl
  derive-reformulated (some p) [] = refl
  derive-reformulated prev (q ∷ qs) =
      keep-append is_reformulated (reformulation signals cfg prev q)
        (abandonment signals cfg q ++ derive signals cfg (some q) qs)
      ∙ ap (λ xs. keep is_reformulated (reformulation signals cfg prev q) ++ xs)
          (keep-append is_reformulated (abandonment signals cfg q) (derive signals cfg (some q) qs)
            ∙ ap (λ xs. xs ++ keep is_reformulated (derive signals cfg (some q) qs))
                (reformulated-abandonment q)
            ∙ derive-reformulated (some q) qs)
      ∙ first prev
    where
      first :
          (prev : Option QueryEvent)
          → keep is_reformulated (reformulation signals cfg prev q) ++ steps (q ∷ qs)
            ≡ steps (from prev (q ∷ qs))
      first none = refl
      first (some p) = step (is_reformulation cfg p q)
        where
          step :
              (t : Bool)
              → keep is_reformulated (if t then reformulated p q ∷ [] else []) ++ steps (q ∷ qs)
                ≡ map
                    (λ s. reformulated s.0 s.1)
                    (if t
                      then (p, q) ∷ keep (λ s. is_reformulation cfg s.0 s.1) (pairs (q ∷ qs))
                      else keep (λ s. is_reformulation cfg s.0 s.1) (pairs (q ∷ qs)))
          step true = refl
          step false = refl

  left_lem :
      (qs : List QueryEvent)
      → keep (λ q. not (is_engaged signals cfg q)) qs ≡ keep (is_left signals cfg) qs
  left_lem qs = λ i. keep (λ q. not (any (λ s. answers_lem cfg q s i) signals)) qs

  changed_lem :
      (ps : List (QueryEvent × QueryEvent))
      → keep (λ s. is_reformulation cfg s.0 s.1) ps ≡ keep (is_changed cfg) ps
  changed_lem ps = λ i. keep (λ s. is_changed_lem cfg s.0 s.1 i) ps

  -- The queries can be put into an order, by sessions, then times, then ids, in which the abandoned
  -- searches that are derived are those of the queries that no click on their text and no play answers,
  -- in the same session and from the query's time to the end of the window, each with its query's
  -- fields.
  pub sessionize-abandoned :
      (queries : List QueryEvent)
      → (qs : List QueryEvent) × Perm qs queries
        × InOrder qs
        × (keep is_abandoned (sessionize signals cfg queries)
            ≡ map abandonment_of (keep (is_left signals cfg) qs))
  unfolding sessionize
  sessionize-abandoned queries =
      let qs = stable_sort query_less queries in
      (
        qs,
        stable_sort-perm query_less queries,
        stable_sort-InOrder queries,
        derive-abandoned none qs ∙ ap (map abandonment_of) (left_lem qs),
      )

  -- The queries can be put into an order, by sessions, then times, then ids, in which the
  -- reformulations that are derived are those of the neighbours that are of one session, have different
  -- texts and are at most the gap apart, each with the fields of the later query and with both texts.
  pub sessionize-reformulated :
      (queries : List QueryEvent)
      → (qs : List QueryEvent) × Perm qs queries
        × InOrder qs
        × (keep is_reformulated (sessionize signals cfg queries)
            ≡ map reformulation_of (keep (is_changed cfg) (pairs qs)))
  unfolding sessionize
  sessionize-reformulated queries =
      let qs = stable_sort query_less queries in
      (
        qs,
        stable_sort-perm query_less queries,
        stable_sort-InOrder queries,
        derive-reformulated none qs ∙ ap (map reformulation_of) (changed_lem (pairs qs)),
      )
