-- ===== src/Suggest/Sharing.antt =====
-- internal/suggest/service.go: the shared cache, the personal streams and the size of an answer.
use vidra_search.Prelude.{
  codes, ℕ, zero, suc, min, leb, ℤ, pos, negsuc, ◌≤ℤ◌, ◌<ℤ◌, String, Bool, true, false, not, ◌&&◌,
  ◌||◌, is_some, Option, none, some, List, [], ◌∷◌, map, length, length-map, str_eq, ◌≡◌, refl, sym,
  ap, ◌∙◌, arith, if◌then◌else◌,
}
use vidra_search.Prelude.Sort.{stable_sort}
use vidra_search.Paging.{limit, limit_bounds}
use vidra_search.Store.Query.{Outcome, ok, err}
use vidra_search.Suggest.Blend.{Weights, Candidate, Suggestion, Arith, Entry, better}
use vidra_search.Suggest.Slots.{blend, reserve_slots, entries_of}
use vidra_search.Suggest.Promote.{length-reserve_slots}
use vidra_search.Suggest.Prefix.{runes}
use vidra_search.Suggest.Service.{
  cache_prefix_max, default_limit, max_limit, aggregate, history_of, history_stream, session_of,
  session_stream, gather, with_fuzzy, candidates, is_personalized, is_cacheable, cache_key, respond,
  answer, look_up, serve, suggest, suggest_from,
}
use vidra_search.Suggest.Requests.{Service, Request}

-- The request without its viewer.
abbrev pub anonymous : Request → Request
anonymous req = record req { include_history = false; user_id = ""; session_id = "" }

abbrev pub uncached : Service → Service
uncached s = record s { cache = none }

module _ (s : Service) (req : Request) where
  history-none :
      (normalized : String)
      → is_personalized s req ≡ false
      → history_stream s normalized req ≡ ok []
  unfolding history_stream
  history-none normalized e =
      if_personal req.include_history (not (str_eq req.user_id "")) (not (str_eq req.session_id ""))
        e
    where
      if_personal :
          (i u v : Bool)
          → (i && (u || v)) ≡ false
          → (if i && u then history_of s normalized (s.parse_uuid req.user_id) else ok []) ≡ ok []
      if_personal true true v e = absurd (ground (arith, e))
      if_personal true false v e = refl
      if_personal false u v e = refl

  session-none :
      (normalized : String) → is_personalized s req ≡ false → session_stream s normalized req ≡ []
  unfolding session_stream
  session-none normalized e =
      if_personal req.include_history (not (str_eq req.user_id "")) (not (str_eq req.session_id ""))
        e
    where
      if_personal :
          (i u v : Bool)
          → (i && (u || v)) ≡ false
          → (if i && v then session_of s normalized req s.session else []) ≡ []
      if_personal true true v e = absurd (ground (arith, e))
      if_personal true false true e = absurd (ground (arith, e))
      if_personal true false false e = refl
      if_personal false u v e = refl

  candidates-anonymous :
      (normalized : String) (lim : ℤ)
      → is_personalized s req ≡ false
      → candidates s normalized (anonymous req) lim ≡ candidates s normalized req lim
  unfolding candidates history_stream session_stream
  candidates-anonymous normalized lim e =
      ap (λ h. gather s normalized req.hide_sensitive lim h []) (sym (history-none normalized e))
      ∙ ap (gather s normalized req.hide_sensitive lim (history_stream s normalized req))
          (sym (session-none normalized e))

  cacheable-anonymous :
      (normalized : String)
      → is_personalized s req ≡ false
      → is_cacheable s normalized (anonymous req) ≡ is_cacheable s normalized req
  cacheable-anonymous normalized e =
      ap (λ t. is_some s.cache && not t && leb (runes (codes normalized)) cache_prefix_max) (sym e)

  -- A request without `include_history`, or without a user and a session, is answered as one of nobody:
  -- the same response, and the same text for the shared cache.
  pub suggest-anonymous : is_personalized s req ≡ false → suggest s (anonymous req) ≡ suggest s req
  unfolding suggest cache_key
  suggest-anonymous e =
      let normalized = s.numbers.normalize req.query in
      let lim = limit req.limit default_limit max_limit in
      ap
        (λ c.
          suggest_from s c (cache_key s normalized req) normalized req
            (candidates s normalized (anonymous req) lim))
        (cacheable-anonymous normalized e)
      ∙ ap
          (suggest_from s (is_cacheable s normalized req) (cache_key s normalized req) normalized
            req)
          (candidates-anonymous normalized lim e)

  -- A request for a user or a session, with its history, neither reads the shared cache nor writes it: it
  -- is answered as where there is no cache, and nothing is set.
  pub suggest-bypass :
      is_personalized s req ≡ true
      → (suggest s req ≡ suggest (uncached s) req) × ((suggest s req).stored ≡ none)
  unfolding suggest candidates gather with_fuzzy aggregate history_stream session_stream cache_key
  suggest-bypass e =
      let normalized = s.numbers.normalize req.query in
      let lim = limit req.limit default_limit max_limit in
      let off : is_cacheable s normalized req ≡ false =
        never (is_some s.cache) (is_personalized s req) _ e in
      (
        ap
            (λ c.
              suggest_from s c (cache_key s normalized req) normalized req
                (candidates s normalized req lim))
            off,
        ap
              (λ c.
                (suggest_from s c (cache_key s normalized req) normalized req
                  (candidates s normalized req lim)).stored)
              off
            ∙ unstored normalized (str_eq normalized "") (candidates s normalized req lim),
      )
    where
      never : (a p c : Bool) → p ≡ true → (a && not p && c) ≡ false
      never true true c e = refl
      never false true c e = refl
      never a false c e = absurd (ground (arith, e))

      unstored :
          (normalized : String) (t : Bool) (x : Outcome (List Candidate))
          → (if t
              then respond s normalized req [] none
              else answer s false (cache_key s normalized req) normalized req x).stored
            ≡ none
      unstored normalized true x = refl
      unstored normalized false (ok cands) = refl
      unstored normalized false (err e) = refl

length-blend :
    (a : Arith) (order : List Entry → List Entry) (cands : List Candidate) (lim : ℤ) (w : Weights)
    → pos 0 <ℤ lim
    → pos (length (blend a order cands lim w)) ≤ℤ lim
unfolding blend
length-blend a order cands (negsuc n) w h = omega (arith, h)
length-blend a order [] (pos zero) w h = omega (arith, h)
length-blend a order (c ∷ cs) (pos zero) w h = omega (arith, h)
length-blend a order [] (pos (suc n)) w h = ground arith
length-blend a order (c ∷ cs) (pos (suc n)) w h =
    let ranked = stable_sort (better a) (map (λ e. e.best) (order (entries_of a (c ∷ cs) w))) in
    bounded _ _ (suc n) (length ranked) (length-map _ (reserve_slots a ranked (suc n)))
      (length-reserve_slots a ranked (suc n))
  where
    bounded : (x y n m : ℕ) → x ≡ y → y ≡ min n m → pos x ≤ℤ pos n
    bounded x y n m p q = omega (arith, p, q)

-- Where the cache has no readable text for the request, the answer has at most as many suggestions as
-- the request's limit after clamping, and that is at most 20.
pub length-suggest :
    (s : Service) (req : Request)
    → look_up s (cache_key s (s.numbers.normalize req.query) req) s.cache ≡ none
    → (pos (length (suggest s req).response.suggestions) ≤ℤ limit req.limit default_limit max_limit)
      × (limit req.limit default_limit max_limit ≤ℤ max_limit)
unfolding suggest
length-suggest s req e =
    let normalized = s.numbers.normalize req.query in
    let lim = limit req.limit default_limit max_limit in
    let (low, high) = limit_bounds req.limit default_limit max_limit (omega arith) (omega arith) in
    (
      answered (is_cacheable s normalized req) (cache_key s normalized req) normalized low
          (candidates s normalized req lim) (str_eq normalized "")
          (if is_cacheable s normalized req
            then look_up s (cache_key s normalized req) s.cache
            else none)
          (missed (is_cacheable s normalized req) _ e),
      high,
    )
  where
    missed : (c : Bool) (o : Option (List Suggestion)) → o ≡ none → (if c then o else none) ≡ none
    missed true o e = e
    missed false o e = refl

    answered :
        (c : Bool) (key normalized : String)
        → pos 0 <ℤ limit req.limit default_limit max_limit
        → (x : Outcome (List Candidate)) (t : Bool) (o : Option (List Suggestion)) → o ≡ none
        → pos (
            length
              (if t
                then respond s normalized req [] none
                else serve s c key normalized req x o).response.suggestions)
          ≤ℤ limit req.limit default_limit max_limit
    answered c key normalized low x true o e = omega (arith, low)
    answered c key normalized low x false (some v) e = absurd (cc)
    answered c key normalized low (err y) false none e = omega (arith, low)
    answered c key normalized low (ok cands) false none e =
        length-blend s.numbers s.order cands (limit req.limit default_limit max_limit) s.weights low
