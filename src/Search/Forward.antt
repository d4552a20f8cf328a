-- ===== src/Search/Forward.antt =====
-- internal/search/advanced.go: how far a client can page.
use vidra_search.Prelude.{
  ℕ, ◌+◌, ◌-◌, ◌^◌, ◌≤◌, ◌<◌, min, ltb, pos, String, Bool, true, false, ◌&&◌, ◌||◌, Option, str_eq,
  none, some, List, [], ◌∷◌, map, take, drop, length, length-take, length-drop, length-map, ◌≡◌,
  ◌⊎◌, refl, sym, ap, subst, ◌∙◌, arith, if◌then◌else◌,
}
use vidra_search.Store.Rows.{Uuid}
use vidra_search.Store.Query.{ok_path, Outcome, ok, err}
use vidra_search.Experiment.Assign.{Assignment}
use vidra_search.Search.Service.{Request, Response, int32, filter_of, limit_of, offset_of}
use vidra_search.Search.Advanced.{
  recall_limit, max_recall_limit, recall_window, then_do, doc_of, personalize, session_of,
  assignment_of, version_of, pick_ranker, to_hit, personal_of, apply_personal_affinity,
  apply_session_intent, ids_of, set_affinity, intent_of, set_intent, parse_uuids, rank,
  search_advanced,
}
use vidra_search.Search.Features.{Service, RecallRow, Doc, Ranker}
use vidra_search.Search.Pages.{recall_window_bounds, cut_page, int32_small}

then_do_ok :
    {A B : Type 0} (x : Outcome A) (f : A → Outcome B) (b : B)
    → then_do x f ≡ ok b
    → (a : A) × (x ≡ ok a) × (f a ≡ ok b)
then_do_ok (ok a) f b e = (a, refl, e)
then_do_ok (err c) f b e = absurd (cc)

abbrev Docs : Type 0
Docs = List (RecallRow × Doc)

module _ (s : Service) (req : Request) where
  personalize-length :
      (docs after : Docs) → personalize s req docs ≡ ok after → length after ≡ length docs
  unfolding personalize apply_personal_affinity
  personalize-length docs after = go req.personalized (s.parse_uuid req.user_id)
    where
      go :
          (t : Bool) (u : Option Uuid)
          → (if t then personal_of s docs u else ok docs) ≡ ok after
          → length after ≡ length docs
      go true none e = ap length (sym (ok_path docs after e))
      go true (some u) e =
          let (scores, e1, e2) = then_do_ok (s.q.neighbor_affinity u (ids_of s docs)) _ after e in
          let (channels, e3, e4) = then_do_ok (s.q.user_channel_affinity u) _ after e2 in
          ap length (sym (ok_path _ after e4)) ∙ length-map (set_affinity s scores channels) docs
      go false u e = ap length (sym (ok_path docs after e))

  intent-length :
      (docs after : Docs) (seeds : List Uuid)
      → intent_of s docs seeds ≡ ok after
      → length after ≡ length docs
  intent-length docs after [] e = ap length (sym (ok_path docs after e))
  intent-length docs after (u ∷ seeds) e =
      let (scores, e1, e2) =
        then_do_ok (s.q.neighbor_scores (u ∷ seeds) (ids_of s docs)) _ after e in
      ap length (sym (ok_path _ after e2)) ∙ length-map (set_intent s scores) docs

  session-length :
      (docs after : Docs) (o : Option (String → List String))
      → session_of s req docs o ≡ ok after
      → length after ≡ length docs
  unfolding apply_session_intent
  session-length docs after none e = ap length (sym (ok_path docs after e))
  session-length docs after (some videos) e = go (str_eq req.session_id "") e
    where
      go :
          (t : Bool)
          → (if t then ok docs else intent_of s docs (parse_uuids s (videos req.session_id)))
            ≡ ok after
          → length after ≡ length docs
      go true e = ap length (sym (ok_path docs after e))
      go false e = intent-length docs after (parse_uuids s (videos req.session_id)) e

  -- What a response says of the candidates that were ranked.
  record Describes (window total : ℕ) (truncated : Bool) (r : Response) : Type 0 where
    counts : r.total ≡ some (pos total)
    bounded : r.total_is_lower_bound ≡ truncated
    shown : length r.ids ≡ min (limit_of req) (total - offset_of req)
    continues :
        r.has_more
        ≡ (ltb (offset_of req + length r.ids) total || truncated && ltb window max_recall_limit)

  rank-Describes :
      (a : Option Assignment) (picked : Ranker × String) (window : ℕ) (truncated : Bool)
      (rows : List RecallRow) (r : Response)
      → ((docs : List Doc) → length (picked.0 docs) ≡ length docs)
      → (truncated ≡ true → 0 < length rows)
      → rank s req a picked window truncated rows ≡ ok r
      → Describes window (length rows) truncated r
  rank-Describes a picked window true [] r keeps some_rows e =
      absurd (omega (arith, some_rows refl))
  rank-Describes a picked window false [] r keeps some_rows e =
      let same = ok_path _ r e in
      subst (Describes window 0 false) same
        (record { counts = refl; bounded = refl; shown = omega arith; continues = ground arith })
  rank-Describes a picked window truncated (x ∷ rows) r keeps some_rows e =
      let (docs, e1, e2) =
        then_do_ok (personalize s req (map (λ y. (y, doc_of s y)) (x ∷ rows))) _ r e in
      let (last, e3, e4) = then_do_ok (session_of s req docs s.session) _ r e2 in
      let ranked = picked.0 (map (λ d. d.1) last) in
      let size : length ranked ≡ length (x ∷ rows) =
        keeps (map (λ d. d.1) last)
        ∙ length-map (λ d. d.1) last
        ∙ session-length docs last s.session e3
        ∙ personalize-length _ docs e1
        ∙ length-map (λ y. (y, doc_of s y)) (x ∷ rows) in
      let hits : length (map (to_hit s) (take (limit_of req) (drop (offset_of req) ranked)))
          ≡ min (limit_of req) (length (x ∷ rows) - offset_of req) =
        length-map (to_hit s) (take (limit_of req) (drop (offset_of req) ranked))
        ∙ length-take (limit_of req) (drop (offset_of req) ranked)
        ∙ ap (min (limit_of req))
            (length-drop (offset_of req) ranked ∙ ap (λ n. n - offset_of req) size) in
      subst (Describes window (length (x ∷ rows)) truncated) (ok_path _ r e4) (record {
        counts = refl;
        bounded = refl;
        shown = hits;
        continues =
            ap
              (λ n.
                ltb
                  (offset_of req
                    + length (map (to_hit s) (take (limit_of req) (drop (offset_of req) ranked))))
                  n
                || truncated && ltb window max_recall_limit)
              size;
      })

-- Where the store's recall is a prefix of one list and the rankers neither drop nor add candidates, an
-- advanced search that succeeds and whose page ends within Go's int says that there is more exactly
-- when the list, cut off at 2000, goes on behind the page. The total is the size of the window or of
-- the list, whichever is less, and is called a lower bound exactly when the list is longer.
pub search_advanced-pages :
    (s : Service) (normalized : String) (req : Request) (matches : List RecallRow) (r : Response)
    → ((lim : ℕ) → s.q.recall (filter_of normalized req) (pos lim) ≡ ok (take lim matches))
    → ((version : String) (docs : List Doc)
        → length ((pick_ranker s version s.ranker).0 docs) ≡ length docs)
    → offset_of req + limit_of req < 2 ^ 63
    → search_advanced s normalized req ≡ ok r
    → (r.has_more ≡ ltb (offset_of req + limit_of req) (min (length matches) max_recall_limit))
      × (r.total ≡ some (pos (min (recall_window (offset_of req) (limit_of req)) (length matches))))
      × (r.total_is_lower_bound
          ≡ ltb (recall_window (offset_of req) (limit_of req)) (length matches))
unfolding search_advanced
search_advanced-pages s normalized req matches r slices keeps fits e =
    let off = offset_of req in
    let lim = limit_of req in
    let w = recall_window off lim in
    let (blocks, holds, low, high, least) = recall_window_bounds off lim fits in
    let a = assignment_of s req s.exp in
    let picked = pick_ranker s (version_of s a) s.ranker in
    let asked : s.q.recall (filter_of normalized req) (int32 (w + 1)) ≡ ok (take (w + 1) matches) =
      ap (s.q.recall (filter_of normalized req)) (int32_small (w + 1) (omega (arith, high)))
      ∙ slices (w + 1) in
    let ranks : rank s req a picked w (ltb w (length matches)) (take w matches) ≡ ok r =
      ap (λ rows. rank s req a picked w (ltb w (length matches)) rows) (sym (cut_page w matches))
      ∙ ap
          (λ t. rank s req a picked w t (
            if ltb w (length (take (w + 1) matches))
            then take w (take (w + 1) matches)
            else take (w + 1) matches))
          (sym (sentinel w (length matches) _ (length-take (w + 1) matches)))
      ∙ ap
          (λ o. then_do o (λ rows.
            rank s req a picked w (ltb w (length rows))
              (if ltb w (length rows) then take w rows else rows)))
          (sym asked)
      ∙ e in
    let d =
      rank-Describes s req a picked w (ltb w (length matches)) (take w matches) r
        (keeps (version_of s a))
        (λ t. nonempty w (length matches) (length (take w matches)) (length-take w matches) low t)
        ranks in
    (
      d.continues
          ∙ settle off lim w (length matches) (length (take w matches)) (length r.ids)
              (length-take w matches) d.shown holds low high least,
      d.counts ∙ ap (λ n. some (pos n)) (length-take w matches),
      d.bounded,
    )
  where
    sentinel : (w l t : ℕ) → t ≡ min (w + 1) l → ltb w t ≡ ltb w l
    sentinel w l t p = ground (arith, p)

    nonempty : (w l n : ℕ) → n ≡ min w l → recall_limit ≤ w → ltb w l ≡ true → 0 < n
    nonempty w l n p q t = ground (arith, p, q, t)

    settle :
        (off lim w l n shown : ℕ)
        → n ≡ min w l
        → shown ≡ min lim (n - off)
        → min (off + lim) max_recall_limit ≤ w
        → recall_limit ≤ w
        → w ≤ max_recall_limit
        → (w ≡ recall_limit) ⊎ (w < off + lim + recall_limit)
        → (ltb (off + shown) n || ltb w l && ltb w max_recall_limit)
          ≡ ltb (off + lim) (min l max_recall_limit)
    settle off lim w l n shown p q a b c d = ground (arith, p, q, a, b, c, d)
