-- ===== src/Suggest/Blend.antt =====
-- internal/ranking/suggest.go: Candidate, Weights, blendScore, better and Blend. Floating-point
-- numbers are bit patterns, and their arithmetic is a parameter.
use vidra_search.Prelude.{String, Bool, true, false, ◌||◌, List, [], ◌∷◌, str_eq, if◌then◌else◌}
use vidra_search.Store.Rows.{Float}

pub record Weights : Type 0 where
  pub pop : Float
  pub pfx : Float
  pub pers : Float
  pub doc : Float
  pub trend : Float
  pub len : Float

pub data Source : Type 0 where
  source_query : Source
  source_doc : Source
  source_history : Source

pub data Kind : Type 0 where
  kind_query : Kind
  kind_video : Kind
  kind_channel : Kind
  kind_tag : Kind
  kind_history : Kind

pub record Candidate : Type 0 where
  pub text : String
  pub kind : Kind
  pub source : Source
  pub video_id : String
  pub channel_handle : String
  pub is_personal : Bool
  pub exact_prefix : Bool
  pub trending : Bool
  pub popularity : Float

pub record Suggestion : Type 0 where
  pub text : String
  pub kind : Kind
  pub video_id : String
  pub channel_handle : String
  pub is_personal : Bool

pub record Scored : Type 0 where
  pub cand : Candidate
  pub score : Float

-- The arithmetic of `float64` with the constants of the blend, `normalize.Normalize`, the order of
-- lower-cased texts and the number of a text's runes.
pub record Arith : Type 0 where
  pub plus : Float → Float → Float
  pub minus : Float → Float → Float
  pub times : Float → Float → Float
  pub div : Float → Float → Float
  pub less : Float → Float → Bool
  pub same : Float → Float → Bool
  pub f0 : Float
  pub half : Float
  pub f1 : Float
  pub fifty : Float
  pub rune_count : String → Float
  pub normalize : String → String
  pub lower_less : String → String → Bool

abbrev pub is_history : Source → Bool
is_history source_query = false
is_history source_doc = false
is_history source_history = true

abbrev pub is_doc : Source → Bool
is_doc source_query = false
is_doc source_doc = true
is_doc source_history = false

-- The map of the greatest popularity per source, 0 where nothing is greater.
pub record MaxPop : Type 0 where
  pub of_query : Float
  pub of_doc : Float
  pub of_history : Float

abbrev pub max_of : MaxPop → Source → Float
max_of m source_query = m.of_query
max_of m source_doc = m.of_doc
max_of m source_history = m.of_history

abbrev pub set_max : MaxPop → Source → Float → MaxPop
set_max m source_query p = record m { of_query = p }
set_max m source_doc p = record m { of_doc = p }
set_max m source_history p = record m { of_history = p }

-- The entry of `best`: the scored variant under its normalized text.
pub record Entry : Type 0 where
  pub key : String
  pub best : Scored

module _ (a : Arith) where
  unfoldable pub max_pops : List Candidate → MaxPop → MaxPop
  max_pops [] m = m
  max_pops (c ∷ cs) m =
      max_pops cs
        (if a.less (max_of m c.source) c.popularity then set_max m c.source c.popularity else m)

  abbrev pub share : MaxPop → Candidate → Float
  share m c =
      if a.less a.f0 (max_of m c.source) then a.div c.popularity (max_of m c.source) else a.f0

  -- The source's terms of the blend: the popularity of a query and that of a document.
  abbrev pub pop_term : MaxPop → Candidate → Source → Float
  pop_term m c source_query = share m c
  pop_term m c source_doc = a.f0
  pop_term m c source_history = a.f0

  abbrev pub doc_term : MaxPop → Candidate → Source → Float
  doc_term m c source_query = a.f0
  doc_term m c source_doc = share m c
  doc_term m c source_history = a.f0

  abbrev pub len_penalty : String → Float
  len_penalty t =
      if a.less a.f1 (a.div (a.rune_count t) a.fifty) then a.f1 else a.div (a.rune_count t) a.fifty

  infixl 30 ◌⊕◌
  abbrev ◌⊕◌ : Float → Float → Float
  x ⊕ y = a.plus x y

  unfoldable pub blend_score : Candidate → MaxPop → Weights → Float
  blend_score c m w =
      a.minus
        (a.times w.pop (pop_term m c c.source)
          ⊕ a.times w.pfx (if c.exact_prefix then a.f1 else a.half)
          ⊕ a.times w.pers (if c.is_personal then a.f1 else a.f0)
          ⊕ a.times w.doc (doc_term m c c.source)
          ⊕ a.times w.trend (if c.trending then a.f1 else a.f0))
        (a.times w.len (len_penalty c.text))

  abbrev pub better_score : Scored → Scored → Bool
  better_score x y =
      if a.same x.score y.score
      then a.lower_less x.cand.text y.cand.text
      else a.less y.score x.score

  -- `better`, on the tiers of the two.
  abbrev pub better_tier : Bool → Bool → Scored → Scored → Bool
  better_tier true true x y = better_score x y
  better_tier true false x y = true
  better_tier false true x y = false
  better_tier false false x y = better_score x y

  unfoldable pub better : Scored → Scored → Bool
  better x y = better_tier x.cand.exact_prefix y.cand.exact_prefix x y

  -- What the winner of two variants carries forward from the loser.
  abbrev pub carry : (winner loser : Candidate) → Candidate
  carry c d = record c {
    is_personal = c.is_personal || d.is_personal;
    video_id = if str_eq c.video_id "" then d.video_id else c.video_id;
  }

  -- The two variants of one text, the new one first.
  unfoldable pub merge : (new cur : Scored) → Scored
  unfolding better
  merge x y =
      if better x y
      then record x { cand = carry x.cand y.cand }
      else record y { cand = carry y.cand x.cand }

  unfoldable pub put_best : String → Scored → List Entry → List Entry
  unfolding merge
  put_best k x [] = record { key = k; best = x } ∷ []
  put_best k x (e ∷ es) =
      let rest = put_best k x es in
      if str_eq e.key k then record e { best = merge x e.best } ∷ es else e ∷ rest

  abbrev pub put_candidate : MaxPop → Weights → Candidate → List Entry → List Entry
  put_candidate m w c es =
      if str_eq (a.normalize c.text) ""
      then es
      else put_best (a.normalize c.text) (record { cand = c; score = blend_score c m w }) es

  unfoldable pub put_candidates : MaxPop → Weights → List Candidate → List Entry → List Entry
  put_candidates m w [] es = es
  put_candidates m w (c ∷ cs) es = put_candidates m w cs (put_candidate m w c es)
