-- ===== src/Recommendation/Candidates.antt =====
-- internal/recommendation/advanced.go: advCand and candidateSet. The map holds a pointer to each
-- candidate, so that an entry is changed where it stands.
use vidra_search.Prelude.{
  ℕ, ltb, ◌==◌, String, Bool, false, ◌&&◌, ◌||◌, Option, none, some, List, [], ◌∷◌, ◌++◌,
  if◌then◌else◌,
}
use vidra_search.Store.Rows.{Uuid, Float}
use vidra_search.Explore.Mmr.{Reals}
use vidra_search.Recommendation.Composer.{has}

pub record AdvCand : Type 0 where
  pub id : Uuid
  pub channel : Option Uuid
  pub base_score : Float
  pub reason : String
  pub priority : ℕ
  pub tokens : List String
  pub views : Float
  pub age_days : Float
  pub eligible : Bool
  pub affinity : Float
  pub channel_aff : Float

abbrev pub ById : Type 0
ById = Uuid → Option AdvCand

-- Whether there is a candidate, and it is eligible.
abbrev pub is_eligible : Option AdvCand → Bool
is_eligible none = false
is_eligible (some c) = c.eligible

pub record CandidateSet : Type 0 where
  pub by_id : ById
  pub exclude : List Uuid
  pub order : List Uuid

-- The arguments of `add`.
pub record Offer : Type 0 where
  pub video_id : Uuid
  pub channel_id : Option Uuid
  pub base : Float
  pub reason : String
  pub priority : ℕ

abbrev pub put : Uuid → AdvCand → ById → ById
put u c m x = if x == u then some c else m x

-- newCandidateSet and skip
abbrev pub new_candidate_set : CandidateSet
new_candidate_set = record { by_id = λ u. none; exclude = []; order = [] }

unfoldable pub skip : Uuid → CandidateSet → CandidateSet
skip u cs = record cs { exclude = u ∷ cs.exclude }

unfoldable pub skip_all : List Uuid → CandidateSet → CandidateSet
skip_all [] cs = cs
skip_all (u ∷ us) cs = skip_all us (skip u cs)

module _ (r : Reals) where
  abbrev pub new_cand : Offer → AdvCand
  new_cand o = record {
    id = o.video_id;
    channel = o.channel_id;
    base_score = o.base;
    reason = o.reason;
    priority = o.priority;
    tokens = [];
    views = r.f0;
    age_days = r.f0;
    eligible = false;
    affinity = r.f0;
    channel_aff = r.f0;
  }

  -- The offer's source comes before the one that is kept.
  abbrev pub wins : Offer → AdvCand → Bool
  wins o cur =
      ltb cur.priority o.priority || (cur.priority == o.priority && r.less cur.base_score o.base)

  abbrev pub relabel : Offer → AdvCand → AdvCand
  relabel o cur =
      if wins o cur then record cur { reason = o.reason; priority = o.priority } else cur

  abbrev pub raise : Offer → AdvCand → AdvCand
  raise o cur = if r.less cur.base_score o.base then record cur { base_score = o.base } else cur

  unfoldable pub merge : Offer → AdvCand → AdvCand
  merge o cur = raise o (relabel o cur)

  abbrev pub add_to : Offer → CandidateSet → Option AdvCand → CandidateSet
  add_to o cs (some cur) = record cs { by_id = put o.video_id (merge o cur) cs.by_id }
  add_to o cs none = record cs {
    by_id = put o.video_id (new_cand o) cs.by_id;
    order = cs.order ++ o.video_id ∷ [];
  }

  unfoldable pub add : Offer → CandidateSet → CandidateSet
  add o cs = if has o.video_id cs.exclude then cs else add_to o cs (cs.by_id o.video_id)

  unfoldable pub offer_all : List Offer → CandidateSet → CandidateSet
  offer_all [] cs = cs
  offer_all (o ∷ os) cs = offer_all os (add o cs)
