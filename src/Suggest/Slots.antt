-- ===== src/Suggest/Slots.antt =====
-- internal/ranking/suggest.go: reserveSlots, and Blend.
use vidra_search.Prelude.{
  ℕ, zero, suc, ℤ, pos, negsuc, Bool, not, Option, none, some, List, [], ◌∷◌, map, take, drop,
  length, leb, any, if◌then◌else◌,
}
use vidra_search.Prelude.Sort.{stable_sort}
use vidra_search.Suggest.Blend.{
  Candidate, Suggestion, Scored, Arith, Weights, Entry, is_history, is_doc, better, max_pops,
  put_candidates,
}

abbrev pub first_match : (Scored → Bool) → List Scored → Option Scored
first_match p [] = none
first_match p (x ∷ xs) = if p x then some x else first_match p xs

-- The last item that does not match gives its place to `x`.
unfoldable pub evict_last : (Scored → Bool) → Scored → List Scored → List Scored
evict_last p x [] = []
evict_last p x (y ∷ ys) =
    let rest = evict_last p x ys in
    if any (λ z. not (p z)) ys then y ∷ rest else if p y then y ∷ rest else x ∷ ys

abbrev pub promote : (Scored → Bool) → Option Scored → List Scored → List Scored
promote p none picked = picked
promote p (some x) picked = evict_last p x picked

-- The closure `ensure`; `rest` is `ranked[limit:]`.
unfoldable pub ensure : (Scored → Bool) → (rest picked : List Scored) → List Scored
unfolding evict_last
ensure p rest picked = if any p picked then picked else promote p (first_match p rest) picked

abbrev pub from_history : Scored → Bool
from_history s = is_history s.cand.source

abbrev pub from_doc : Scored → Bool
from_doc s = is_doc s.cand.source

unfoldable pub reserve_slots : Arith → List Scored → (limit : ℕ) → List Scored
unfolding ensure better
reserve_slots a ranked limit =
    let rest = drop limit ranked in
    if leb (length ranked) limit
    then ranked
    else stable_sort (better a)
        (ensure from_doc rest (ensure from_history rest (take limit ranked)))

abbrev pub suggestion : Scored → Suggestion
suggestion s = record {
  text = s.cand.text;
  kind = s.cand.kind;
  video_id = s.cand.video_id;
  channel_handle = s.cand.channel_handle;
  is_personal = s.cand.is_personal;
}

abbrev pub entries_of : Arith → List Candidate → Weights → List Entry
entries_of a cands w =
    put_candidates a
      (max_pops a cands (record { of_query = a.f0; of_doc = a.f0; of_history = a.f0 })) w cands []

-- Blend; `order` is the order in which Go ranges over the map.
unfoldable pub blend :
    Arith
    → (order : List Entry → List Entry) → List Candidate
    → (limit : ℤ) → Weights
    → List Suggestion
unfolding max_pops put_candidates reserve_slots
blend a order cands (negsuc n) w = []
blend a order cands (pos zero) w = []
blend a order [] (pos (suc n)) w = []
blend a order (c ∷ cs) (pos (suc n)) w = map suggestion (
    reserve_slots a (stable_sort (better a) (map (λ e. e.best) (order (entries_of a (c ∷ cs) w))))
      (suc n))
