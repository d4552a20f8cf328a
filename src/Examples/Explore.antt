-- ===== src/Examples/Explore.antt =====
-- Diversity and exploration at concrete inputs.
use mathlib.Core.List.{Perm}
use vidra_search.Prelude.{
  ℕ, ltb, ◌-◌, ◌*◌, ◌==◌, pos, String, false, List, [], ◌∷◌, ◌++◌, map, length, ◌≡◌,
}
use vidra_search.Explore.Mmr.{MmrDoc, Reals, mmr, clamp}
use vidra_search.Explore.Picks.{mmr_lem}
use vidra_search.Explore.Slot.{Draw}

abbrev pub whole : Reals
whole = record {
  minus = λ x y. x - y;
  times = λ x y. x * y;
  ratio = λ x y. x;
  less = ltb;
  same = λ x y. x == y;
  f0 = 0;
  f1 = 1;
  id_less = λ s t. false;
}

abbrev doc : String → ℕ → List String → MmrDoc
doc v rel tags = record { video_id = v; relevance = rel; tokens = tags }

-- Two documents on one topic, a third on another.
abbrev docs : List MmrDoc
docs = doc "a" 9 ("go" ∷ []) ∷ doc "b" 8 ("go" ∷ []) ∷ doc "c" 7 ("rust" ∷ []) ∷ []

mmr_example :
    (length (mmr whole docs 1 (pos 2)) ≡ clamp (pos 2) (length docs))
    × (picks : List MmrDoc) × (left : List MmrDoc) × (mmr whole docs 1 (pos 2)
        ≡ map (λ d. d.video_id) picks)
    × Perm (picks ++ left) docs
mmr_example = mmr_lem whole docs 1 (pos 2)

abbrev draw : Draw
draw = record { bytes = λ s. 115 ∷ 49 ∷ []; not_positive = λ e. e == 0; below = ltb }
