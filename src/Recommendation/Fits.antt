-- ===== src/Recommendation/Fits.antt =====
-- internal/recommendation/advanced.go, composeAdvanced: the loop over the ordered candidates.
use vidra_search.Prelude.{
  ℤ, pos, ◌≤ℤ◌, String, Bool, true, false, ◌||◌, Option, none, some, List, [], ◌∷◌, ◌++◌, All,
  if◌then◌else◌, ◌≡◌, refl, ◌∙◌,
}
use vidra_search.Store.Rows.{Uuid}
use vidra_search.Recommendation.Composer.{
  Candidate, Composer, has, new_composer, full, pick, add_capped, add, count_one,
}
use vidra_search.Recommendation.Bounds.{
  IsBounded, add-IsBounded, add-Frames, new_composer-IsBounded,
}
use vidra_search.Recommendation.Candidates.{ById}
use vidra_search.Recommendation.Compose.{candidate_of_id, compose_one, compose_ids}

All-snoc :
    (P : Candidate → Type 0) (ps : List Candidate) (q : Candidate)
    → All P ps
    → P q
    → All P (ps ++ q ∷ [])
All-snoc P [] q h k = (k, tt)
All-snoc P (p ∷ ps) q h k = (h.0, All-snoc P ps q h.1 k)

if-All :
    (P : Candidate → Type 0) (t : Bool) (c d : Composer)
    → All P c.picks
    → All P d.picks
    → All P (if t then c else d).picks
if-All P true c d h k = h
if-All P false c d h k = k

add_capped-All :
    (P : Candidate → Type 0) (cand : Candidate) (c : Composer) (o : Option Uuid)
    → P cand
    → All P c.picks
    → All P (add_capped cand c o).picks
unfolding add_capped
add_capped-All P cand c none p a = All-snoc P c.picks cand a p
add_capped-All P cand c (some ch) p a =
    if-All P _ c (pick cand (record c { per_chan = count_one ch c.per_chan })) a
      (All-snoc P c.picks cand a p)

-- Every pick that a composer has after an offer satisfies what the offer and its picks did.
pub add-All :
    (P : Candidate → Type 0) (cand : Candidate) (c : Composer)
    → P cand
    → All P c.picks
    → All P (add cand c).picks
unfolding add
add-All P cand c p a =
    if-All P (full c || has cand.video_id c.seen) c (add_capped cand c cand.channel_id) a
      (add_capped-All P cand c cand.channel_id p a)

-- What composeAdvanced keeps of its composer.
abbrev pub Fits : (lim : ℤ) → (P : Candidate → Type 0) → Composer → Type 0
Fits lim P c = IsBounded c × (c.limit ≡ lim) × All P c.picks

add-Fits :
    (lim : ℤ) (P : Candidate → Type 0) (cand : Candidate) (c : Composer)
    → P cand
    → Fits lim P c
    → Fits lim P (add cand c)
add-Fits lim P cand c p (b, l, a) =
    (add-IsBounded cand c b, (add-Frames cand c).0 ∙ l, add-All P cand c p a)

pub new_composer-Fits :
    (lim : ℤ) (P : Candidate → Type 0) → pos 0 ≤ℤ lim → Fits lim P (new_composer lim)
new_composer-Fits lim P h = (new_composer-IsBounded lim h, refl, tt)

-- The candidate, if there is one, satisfies `P`.
abbrev pub Offers : (Candidate → Type 0) → Option Candidate → Type 0
Offers P none = Unit
Offers P (some c) = P c

compose_one-Fits :
    (lim : ℤ) (P : Candidate → Type 0) (o : Option Candidate) (c : Composer)
    (k : Composer → Composer)
    → Offers P o
    → ((d : Composer) → Fits lim P d → Fits lim P (k d))
    → Fits lim P c
    → Fits lim P (compose_one o c k)
compose_one-Fits lim P none c k p again f = again c f
compose_one-Fits lim P (some cand) c k p again f =
    let g = add-Fits lim P cand c p f in
    if-Fits (full (add cand c)) (add cand c) (k (add cand c)) g (again (add cand c) g)
  where
    if-Fits :
        (t : Bool) (x y : Composer) → Fits lim P x → Fits lim P y → Fits lim P (if t then x else y)
    if-Fits true x y h k = h
    if-Fits false x y h k = k

pub compose_ids-Fits :
    (lim : ℤ) (P : Candidate → Type 0) (parse : String → Option Uuid) (m : ById)
    → ((id : String) → Offers P (candidate_of_id parse m id))
    → (ids : List String) (c : Composer) → Fits lim P c
    → Fits lim P (compose_ids parse m ids c)
unfolding compose_ids
compose_ids-Fits lim P parse m h [] c f = f
compose_ids-Fits lim P parse m h (id ∷ ids) c f =
    compose_one-Fits lim P (candidate_of_id parse m id) c (λ d. compose_ids parse m ids d) (h id)
      (λ d g. compose_ids-Fits lim P parse m h ids d g) f
