-- ===== src/Recommendation/Composer.antt =====
-- internal/recommendation/service.go: candidate and composer.
use vidra_search.Prelude.{
  ℕ, suc, ◌-◌, ℤ, pos, leb_ℤ, String, Bool, ◌||◌, Option, none, some, List, [], ◌∷◌, ◌++◌, any,
  length, leb, ◌==◌, if◌then◌else◌, map,
}
use vidra_search.Store.Rows.{Uuid, Float}

pub record Candidate : Type 0 where
  pub video_id : Uuid
  pub channel_id : Option Uuid
  pub reason : String

pub record Item : Type 0 where
  pub video_id : String
  pub score : Float
  pub reason : String

-- Go's maps: `seen` is the list of its true keys, `per_chan` is 0 where a key is missing.
pub record Composer : Type 0 where
  pub limit : ℤ
  pub seen : List Uuid
  pub per_chan : Uuid → ℕ
  pub excludes : List Uuid
  pub picks : List Candidate

-- perChannelCap
abbrev pub per_channel_cap : ℕ
per_channel_cap = 2

abbrev pub has : Uuid → List Uuid → Bool
has u us = any (λ x. x == u) us

abbrev pub picked_ids : List Candidate → List Uuid
picked_ids ps = map (λ p. p.video_id) ps

-- newComposer
abbrev pub new_composer : ℤ → Composer
new_composer limit = record {
  limit = limit;
  seen = [];
  per_chan = λ ch. 0;
  excludes = [];
  picks = [];
}

-- `c.perChan[ch]++`
abbrev pub count_one : Uuid → (Uuid → ℕ) → Uuid → ℕ
count_one ch f x = if x == ch then suc (f x) else f x

unfoldable pub exclude : Uuid → Composer → Composer
exclude u c = record c { seen = u ∷ c.seen; excludes = c.excludes ++ u ∷ [] }

unfoldable pub excluded : Composer → List Uuid
excluded c = c.excludes ++ picked_ids c.picks

unfoldable pub full : Composer → Bool
full c = leb_ℤ c.limit (pos (length c.picks))

abbrev pub pick : Candidate → Composer → Composer
pick cand c = record c { seen = cand.video_id ∷ c.seen; picks = c.picks ++ cand ∷ [] }

-- The part of `add` after its first guard: a candidate with no channel is under no cap.
unfoldable pub add_capped : Candidate → Composer → Option Uuid → Composer
add_capped cand c none = pick cand c
add_capped cand c (some ch) =
    if leb per_channel_cap (c.per_chan ch)
    then c
    else pick cand (record c { per_chan = count_one ch c.per_chan })

unfoldable pub add : Candidate → Composer → Composer
add cand c = if full c || has cand.video_id c.seen then c else add_capped cand c cand.channel_id

unfoldable pub add_all : List Candidate → Composer → Composer
add_all [] c = c
add_all (cand ∷ cands) c = add_all cands (add cand c)

-- `float64(k) / float64(n)`, and `uuid.UUID.String`.
pub record Prints : Type 0 where
  pub ratio : ℕ → ℕ → Float
  pub uuid_string : Uuid → String

-- items: the i-th of n picks has the score (n - i) / n.
unfoldable pub items_from : Prints → (n i : ℕ) → List Candidate → List Item
items_from out n i [] = []
items_from out n i (p ∷ ps) =
    record { video_id = out.uuid_string p.video_id; score = out.ratio (n - i) n; reason = p.reason }
    ∷ items_from out n (suc i) ps

unfoldable pub items : Prints → Composer → List Item
items out c = items_from out (length c.picks) 0 c.picks
