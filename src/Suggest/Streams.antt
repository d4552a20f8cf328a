-- ===== src/Suggest/Streams.antt =====
-- internal/suggest/service.go: what the streams may bring into the blend.
use vidra_search.Prelude.{
  codes, ℤ, pos, ltb_ℤ, String, Bool, true, false, not, ◌&&◌, ◌||◌, Option, none, some, List, [],
  ◌∷◌, ◌++◌, map, any, any-append, keep, str_eq, ◌≡◌, refl, ap, ◌∙◌, subst, arith, if◌then◌else◌,
}
use vidra_search.Store.Rows.{Uuid, Float}
use vidra_search.Store.Query.{Outcome, ok, err}
use vidra_search.Suggest.Blend.{Candidate, is_doc, is_history}
use vidra_search.Suggest.Prefix.{like_prefix, has_prefix}
use vidra_search.Suggest.Service.{
  then_do, of_history, stream_limit, exact_count, title_candidate, channel_candidate, tag_candidate,
  aggregate_candidate, history_candidate, fuzzy_candidate, aggregate, history_of, history_stream,
  session_of, session_stream, mark, boost, with_fuzzy, gather, candidates,
}
use vidra_search.Suggest.Requests.{Service, Request, TitleRow, ChannelRow, TagRow, AggregateRow}

-- A candidate from documents without a video.
abbrev pub is_unnamed : Candidate → Bool
is_unnamed c = is_doc c.source && str_eq c.video_id ""

-- A personal candidate that is no history, or history that is not personal.
abbrev pub is_misattributed : Candidate → Bool
is_misattributed c =
    (c.is_personal && not (is_history c.source)) || (is_history c.source && not c.is_personal)

then_do_ok :
    {A B : Type 0} (x : Outcome A) (f : A → Outcome B) (b : B)
    → then_do x f ≡ ok b
    → (a : A) × (x ≡ ok a) × (f a ≡ ok b)
then_do_ok (ok a) f b e = (a, refl, e)
then_do_ok (err c) f b e = absurd (cc)

ok_path : {A : Type 0} (a b : A) → Outcome.ok a ≡ ok b → a ≡ b
ok_path a b e = cc

-- A fault that no row makes, and that the mark of a trend does not make.
record NeverMade (s : Service) (bad : Candidate → Bool) : Type 0 where
  titles : (r : TitleRow) → bad (title_candidate s r) ≡ false
  channels : (r : ChannelRow) → bad (channel_candidate s r) ≡ false
  tags : (r : TagRow) → bad (tag_candidate s r) ≡ false
  aggregates : (r : AggregateRow) → bad (aggregate_candidate s r) ≡ false
  histories : (text : String) (n : Float) → bad (of_history text n) ≡ false
  fuzzies : (r : TitleRow) → bad (fuzzy_candidate s r) ≡ false
  marked : (c : Candidate) → bad (record c { trending = true }) ≡ bad c

module _ (s : Service) (bad : Candidate → Bool) (n : NeverMade s bad) where
  any-map-false :
      {A : Type 0} (f : A → Candidate)
      → ((a : A) → bad (f a) ≡ false)
      → (xs : List A) → any bad (map f xs) ≡ false
  unfolding any
  any-map-false f h [] = refl
  any-map-false f h (x ∷ xs) = both (bad (f x)) (any bad (map f xs)) (h x) (any-map-false f h xs)
    where
      both : (a b : Bool) → a ≡ false → b ≡ false → (a || b) ≡ false
      both a b p q = ground (arith, p, q)

  any-append-false :
      (xs ys : List Candidate)
      → any bad xs ≡ false
      → any bad ys ≡ false
      → any bad (xs ++ ys) ≡ false
  any-append-false xs ys p q = any-append bad xs ys ∙ both (any bad xs) (any bad ys) p q
    where
      both : (a b : Bool) → a ≡ false → b ≡ false → (a || b) ≡ false
      both a b p q = ground (arith, p, q)

  any-marks :
      (set : List String) (cands : List Candidate)
      → any bad (map (mark s set) cands) ≡ any bad cands
  unfolding any
  any-marks set [] = refl
  any-marks set (c ∷ cands) =
      go (any (λ t. str_eq t (s.numbers.normalize c.text)) set) (any-marks set cands)
    where
      go :
          (t : Bool)
          → any bad (map (mark s set) cands) ≡ any bad cands
          → (bad (if t then record c { trending = true } else c)
              || any bad (map (mark s set) cands))
            ≡ (bad c || any bad cands)
      go true e =
          ap (λ b. b || any bad (map (mark s set) cands)) (n.marked c) ∙ ap (λ b. bad c || b) e
      go false e = ap (λ b. bad c || b) e

  boost-clean :
      (t : Option (List String)) (cands : List Candidate)
      → any bad cands ≡ false
      → any bad (boost s t cands) ≡ false
  boost-clean none cands h = h
  boost-clean (some set) cands h = any-marks set cands ∙ h

  aggregate-clean :
      (normalized : String) (cands : List Candidate)
      → aggregate s normalized stream_limit ≡ ok cands
      → any bad cands ≡ false
  unfolding aggregate
  aggregate-clean normalized cands e =
      let (rows, e1, e2) =
        then_do_ok (s.q.aggregate_prefix (like_prefix (codes normalized)) stream_limit) _ cands e in
      subst (λ x. any bad x ≡ false) (ok_path _ cands e2)
        (any-map-false (aggregate_candidate s) n.aggregates rows)

  history-clean :
      (normalized : String) (req : Request) (cands : List Candidate)
      → history_stream s normalized req ≡ ok cands
      → any bad cands ≡ false
  unfolding history_stream any
  history-clean normalized req cands =
      go (req.include_history && not (str_eq req.user_id "")) (s.parse_uuid req.user_id)
    where
      go :
          (t : Bool) (u : Option Uuid)
          → (if t then history_of s normalized u else ok []) ≡ ok cands
          → any bad cands ≡ false
      go true none e = subst (λ x. any bad x ≡ false) (ok_path [] cands e) refl
      go true (some u) e =
          let (rows, e1, e2) =
            then_do_ok (s.q.user_history_prefix u (like_prefix (codes normalized)) stream_limit) _
              cands e in
          subst (λ x. any bad x ≡ false) (ok_path _ cands e2)
            (any-map-false (history_candidate s) (λ r. n.histories _ _) rows)
      go false u e = subst (λ x. any bad x ≡ false) (ok_path [] cands e) refl

  session-clean :
      (normalized : String) (req : Request) → any bad (session_stream s normalized req) ≡ false
  unfolding session_stream any
  session-clean normalized req =
      go (req.include_history && not (str_eq req.session_id "")) s.session
    where
      go :
          (t : Bool) (o : Option (String → List String))
          → any bad (if t then session_of s normalized req o else []) ≡ false
      go true none = refl
      go true (some queries) =
          any-map-false (λ rq. of_history rq (s.to_float (pos 0))) (λ rq. n.histories _ _)
            (keep (λ rq. has_prefix (codes rq) (codes normalized)) (queries req.session_id))
      go false o = refl

  with_fuzzy-clean :
      (normalized : String) (hide : Bool) (lim : ℤ) (before after : List Candidate)
      → any bad before ≡ false
      → with_fuzzy s normalized hide lim before ≡ ok after
      → any bad after ≡ false
  unfolding with_fuzzy
  with_fuzzy-clean normalized hide lim before after h = go (ltb_ℤ (pos (exact_count s before)) lim)
    where
      go :
          (t : Bool)
          → (if t
              then then_do
                  (s.q.title_fuzzy normalized hide stream_limit)
                  (λ rows. ok (before ++ map (fuzzy_candidate s) rows))
              else ok before)
            ≡ ok after
          → any bad after ≡ false
      go true e =
          let (rows, e1, e2) =
            then_do_ok (s.q.title_fuzzy normalized hide stream_limit) _ after e in
          subst (λ x. any bad x ≡ false) (ok_path _ after e2)
            (any-append-false before (map (fuzzy_candidate s) rows) h
              (any-map-false (fuzzy_candidate s) n.fuzzies rows))
      go false e = subst (λ x. any bad x ≡ false) (ok_path before after e) h

  candidates-clean :
      (normalized : String) (req : Request) (lim : ℤ) (cands : List Candidate)
      → candidates s normalized req lim ≡ ok cands
      → any bad cands ≡ false
  unfolding candidates gather
  candidates-clean normalized req lim cands e =
      let (titles, t1, e1) =
        then_do_ok
          (s.q.title_prefix req.hide_sensitive (like_prefix (codes normalized)) stream_limit) _
          cands e in
      let (channels, t2, e2) =
        then_do_ok
          (s.q.channel_prefix req.hide_sensitive (like_prefix (codes normalized)) stream_limit) _
          cands e1 in
      let (tags, t3, e3) =
        then_do_ok (s.q.tag_prefix req.hide_sensitive (like_prefix (codes normalized)) stream_limit)
          _ cands e2 in
      let (agg, t4, e4) = then_do_ok (aggregate s normalized stream_limit) _ cands e3 in
      let (hist, t5, e5) = then_do_ok (history_stream s normalized req) _ cands e4 in
      with_fuzzy-clean normalized req.hide_sensitive lim _ cands
        (boost-clean s.trend _ (
          any-append-false _ _ (any-map-false (title_candidate s) n.titles titles) (
            any-append-false _ _ (any-map-false (channel_candidate s) n.channels channels) (
              any-append-false _ _ (any-map-false (tag_candidate s) n.tags tags) (
                any-append-false _ _ (aggregate-clean normalized agg t4) (
                  any-append-false _ _ (history-clean normalized req hist t5)
                    (session-clean normalized req)))))))
        e5

-- Where the text of a uuid is not empty, every candidate that comes from documents names a video, so
-- that the gateway can check it again, and a candidate is personal exactly when it is history.
pub candidates-named :
    (s : Service) (normalized : String) (req : Request) (lim : ℤ) (cands : List Candidate)
    → ((u : Uuid) → str_eq (s.uuid_string u) "" ≡ false)
    → candidates s normalized req lim ≡ ok cands
    → (any is_unnamed cands ≡ false) × (any is_misattributed cands ≡ false)
candidates-named s normalized req lim cands named e = (
  candidates-clean s is_unnamed
      (record {
        titles = λ r. named r.video_id;
        channels = λ r. named r.video_id;
        tags = λ r. named r.video_id;
        aggregates = λ r. refl;
        histories = λ text n. refl;
        fuzzies = λ r. named r.video_id;
        marked = λ c. refl;
      })
      normalized req lim cands e,
  candidates-clean s is_misattributed
      (record {
        titles = λ r. refl;
        channels = λ r. refl;
        tags = λ r. refl;
        aggregates = λ r. refl;
        histories = λ text n. refl;
        fuzzies = λ r. refl;
        marked = λ c. refl;
      })
      normalized req lim cands e,
)
