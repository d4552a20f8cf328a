-- ===== src/Examples/Suggest.antt =====
-- Experiments and suggestions at concrete inputs.
use vidra_search.Prelude.{
  ℕ, ◌*◌, ◌+◌, ◌-◌, ◌<◌, ltb, ◌==◌, pos, ◌≤ℤ◌, ◌<ℤ◌, String, true, false, ◌&&◌, some, List, [], ◌∷◌,
  any, str_eq, ◌≡◌, refl, if◌then◌else◌,
}
use vidra_search.Store.Query.{Outcome, ok}
use vidra_search.Experiment.Assign.{Variant, Experiment, ExperimentRow, lookup, bucket_of, assign}
use vidra_search.Experiment.Tiling.{IsArm, assign-IsTiling}
use vidra_search.Suggest.Blend.{
  Candidate, Scored, Arith, Weights, Source, source_query, source_doc, source_history, kind_query,
}
use vidra_search.Suggest.Slots.{from_history, reserve_slots, entries_of}
use vidra_search.Suggest.Promote.{reserve_slots-history}
use vidra_search.Suggest.Carry.{at, has_video, personal, goes_to, entries_of-carries}

abbrev arm : String → ℕ → ℕ → Variant
arm name lo hi = record { name = name; min = pos lo; max = pos hi; model_version = name }

abbrev halves : Experiment
halves = record {
  key = "rec_ranker";
  salt = "s";
  variants = arm "control" 0 50 ∷ arm "learned" 50 100 ∷ [];
}

abbrev bytes : String → List ℕ
bytes s = if str_eq s "s" then 115 ∷ [] else 55 ∷ []

assign_example :
    (v : Variant) × IsArm v halves.variants
    × (bucket_of bytes "s" "7" < 100)
    × (v.min ≤ℤ pos (bucket_of bytes "s" "7"))
    × (pos (bucket_of bytes "s" "7") <ℤ v.max)
    × (assign bytes (halves ∷ []) "rec_ranker" "7"
        ≡ some (record {
          experiment = "rec_ranker";
          variant = v.name;
          bucket = pos (bucket_of bytes "s" "7");
          model_version = v.model_version;
        }))
unfolding lookup
assign_example =
    assign-IsTiling bytes (halves ∷ []) "rec_ranker" "7" halves refl refl (refl, (refl, refl))

abbrev decode : String → Outcome (List Variant)
decode s = ok (arm "learned" 50 100 ∷ arm "control" 0 50 ∷ [])

abbrev rows : Outcome (List ExperimentRow)
rows = ok (record { key = "rec_ranker"; salt = "s"; variants = "[...]" } ∷ [])

-- An arithmetic on small whole numbers.
abbrev pub whole : Arith
whole = record {
  plus = λ x y. x + y;
  minus = λ x y. x - y;
  times = λ x y. x * y;
  div = λ x y. x;
  less = ltb;
  same = λ x y. x == y;
  f0 = 0;
  half = 1;
  f1 = 2;
  fifty = 100;
  rune_count = λ s. 0;
  normalize = λ s. s;
  lower_less = λ s t. false;
}

abbrev pub weights : Weights
weights = record { pop = 1; pfx = 1; pers = 1; doc = 1; trend = 1; len = 1 }

abbrev offer : String → Source → String → Candidate
offer text source video = record {
  text = text;
  kind = kind_query;
  source = source;
  video_id = video;
  channel_handle = "";
  is_personal = false;
  exact_prefix = true;
  trending = false;
  popularity = 1;
}

abbrev scored : String → Source → ℕ → Scored
scored text source n = record { cand = offer text source ""; score = n }

-- Two queries, then a history item, then a document.
abbrev ranked : List Scored
ranked =
    scored "a" source_query 9
    ∷ scored "b" source_query 8
    ∷ scored "h" source_history 7
    ∷ scored "d" source_doc 6
    ∷ []

reserve_slots-history_example : any from_history (reserve_slots whole ranked 2) ≡ false
unfolding any
reserve_slots-history_example = reserve_slots-history whole ranked 1 refl refl refl refl refl

-- A query and the title of video 5 with the same text.
abbrev offers : List Candidate
offers = offer "go" source_query "" ∷ offer "go" source_doc "5" ∷ []

entries_of_example :
    (at has_video "go" (entries_of whole offers weights)
      ≡ any (λ c. goes_to whole "go" c && has_video c) offers)
    × (at personal "go" (entries_of whole offers weights)
        ≡ any (λ c. goes_to whole "go" c && personal c) offers)
entries_of_example = entries_of-carries whole offers weights "go"
