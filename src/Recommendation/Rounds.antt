-- ===== src/Recommendation/Rounds.antt =====
-- internal/recommendation/service.go: homeSimple, redisTrendingCandidates and the round-robin loop.
use vidra_search.Prelude.{
  ℕ, zero, suc, max, ℤ, String, Bool, true, false, Option, none, some, List, [], ◌∷◌, length,
  get_elem?, if◌then◌else◌, ◌==◌,
}
use vidra_search.Store.Rows.{Uuid}
use vidra_search.Store.Query.{Outcome, ok, err}
use vidra_search.Index.{opt_str}
use vidra_search.Paging.{limit}
use vidra_search.Recommendation.Composer.{Candidate, Composer, new_composer, full, add}
use vidra_search.Recommendation.Feeds.{
  FeedRow, Reads, times, ◌>>=◌, candidates, default_limit, max_home_limit,
}

-- redisTrendingCandidates: the ids that parse.
abbrev pub parsed : (String → Option Uuid) → List String → List Uuid
parsed parse [] = []
parsed parse (s ∷ ss) = parsed_cons (parse s) (parsed parse ss)
  where
    parsed_cons : Option Uuid → List Uuid → List Uuid
    parsed_cons none us = us
    parsed_cons (some u) us = u ∷ us

-- The channel of the last row with the id, as the map of the rows has it.
abbrev pub eligible_channel : Uuid → List FeedRow → Option (Option Uuid)
eligible_channel u [] = none
eligible_channel u (r ∷ rs) = elim (eligible_channel u rs) [
  | some ch ↦ some ch
  | none ↦ if r.video_id == u then some r.channel_id else none
]

abbrev pub trending_one : Uuid → Option (Option Uuid) → List Candidate → List Candidate
trending_one u none cs = cs
trending_one u (some ch) cs = record { video_id = u; channel_id = ch; reason = "trending" } ∷ cs

abbrev pub trending_of : List FeedRow → List Uuid → List Candidate
trending_of rows [] = []
trending_of rows (u ∷ us) = trending_one u (eligible_channel u rows) (trending_of rows us)

abbrev pub some_unless_empty : {A : Type 0} → List A → Option (List A)
some_unless_empty [] = none
some_unless_empty (x ∷ xs) = some (x ∷ xs)

abbrev pub trending_rows : List Uuid → Outcome (List FeedRow) → Option (List Candidate)
trending_rows us (err e) = none
trending_rows us (ok rows) = some_unless_empty (trending_of rows us)

unfoldable pub redis_trending : Reads → Bool → Option (List Candidate)
redis_trending q hide = elim q.trending_videos [
  | none ↦ none
  | some items ↦ elim (some_unless_empty (parsed q.parse_uuid items)) [
    | none ↦ none
    | some us ↦ trending_rows us (q.list_eligible_by_ids hide us)
  ]
]

-- The gated list, or the SQL one where it is not to be had.
abbrev pub trending_or :
    Reads → Bool → Option String → ℤ → Option (List Candidate) → Outcome (List Candidate)
trending_or q hide language fetch (some cands) = ok cands
trending_or q hide language fetch none = do
  rows ← q.home_trending hide language fetch
  ok (candidates "trending" rows)

abbrev pub Streams : Type 0
Streams = List (List Candidate)

-- homeSimple: the three sources.
unfoldable pub home_streams : Reads → (limit : ℤ) → Bool → (lang : String) → Outcome Streams
unfolding opt_str
home_streams q lim hide lang = do
  trending ← trending_or q hide (opt_str lang) (times 2 lim) (redis_trending q hide)
  recent ← q.home_recent hide (opt_str lang) (times 2 lim)
  popular ← q.popular_eligible hide [] (times 2 lim)
  ok (trending ∷ candidates "fresh" recent ∷ candidates "popular" popular ∷ [])

-- One stream's turn: the composer, and whether the pass has progressed.
abbrev pub turn : Option Candidate → Composer × Bool → Composer × Bool
turn none r = r
turn (some cand) (c, progressed) = (add cand c, true)

-- One pass of the inner loop.
unfoldable pub pass : ℕ → Streams → Composer × Bool → Composer × Bool
pass i [] r = r
pass i (s ∷ ss) r = pass i ss (turn (get_elem? s i) r)

-- Whether a round is the last one: the feed is full, or the pass did not progress.
abbrev pub go_on :
    Bool → Composer → Composer × Bool → (Composer → Option Composer) → Option Composer
go_on true c r k = some c
go_on false c (d, true) k = k d
go_on false c (d, false) k = some d

-- The loop, `none` where the fuel is out.
unfoldable pub rounds : (fuel i : ℕ) → Streams → Composer → Option Composer
rounds zero i ss c = none
rounds (suc fuel) i ss c = go_on (full c) c (pass i ss (c, false)) (λ d. rounds fuel (suc i) ss d)

abbrev pub longest : Streams → ℕ
longest [] = 0
longest (s ∷ ss) = max (length s) (longest ss)

-- homeSimple, with one round more than the longest stream.
unfoldable pub home_picks : Reads → (asked : ℤ) → Bool → String → Outcome (Option Composer)
home_picks q asked hide lang = do
  ss ← home_streams q (limit asked default_limit max_home_limit) hide lang
  ok (rounds (suc (longest ss)) 0 ss (new_composer (limit asked default_limit max_home_limit)))
