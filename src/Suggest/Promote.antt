-- ===== src/Suggest/Promote.antt =====
-- internal/ranking/suggest.go, reserveSlots: which classes end up in the window.
use vidra_search.Prelude.{
  drop, length-take, ℕ, suc, ◌<◌, min, Bool, true, false, not, ◌&&◌, ◌||◌, Option, none, some, List,
  [], ◌∷◌, take, length, leb, leb→le, any, if◌then◌else◌, Bool-cases, inl, inr, ◌≡◌, refl, sym, ap,
  ◌∙◌, arith,
}
use vidra_search.Prelude.Sort.{insert, stable_sort, length-stable_sort}
use vidra_search.Suggest.Blend.{
  Scored, Source, source_query, source_doc, source_history, is_doc, is_history, Arith, better,
}
use vidra_search.Suggest.Slots.{
  first_match, evict_last, promote, ensure, from_history, from_doc, reserve_slots,
}

-- Sorting keeps what a list has.
module _ (less : Scored → Scored → Bool) (p : Scored → Bool) where
  any-insert : (x : Scored) (ys : List Scored) → any p (insert less x ys) ≡ (p x || any p ys)
  unfolding insert any
  any-insert x [] = refl
  any-insert x (y ∷ ys) = ground (arith, any-insert x ys)

  any-stable_sort : (xs : List Scored) → any p (stable_sort less xs) ≡ any p xs
  unfolding stable_sort any
  any-stable_sort [] = refl
  any-stable_sort (x ∷ xs) =
      any-insert x (stable_sort less xs) ∙ ap (λ t. p x || t) (any-stable_sort xs)

module _ (p : Scored → Bool) where
  length-evict_last : (x : Scored) (ys : List Scored) → length (evict_last p x ys) ≡ length ys
  unfolding evict_last any
  length-evict_last x [] = refl
  length-evict_last x (y ∷ ys) = ground (arith, length-evict_last x ys)

  length-promote : (o : Option Scored) (ys : List Scored) → length (promote p o ys) ≡ length ys
  length-promote none ys = refl
  length-promote (some x) ys = length-evict_last x ys

  length-ensure : (rest ys : List Scored) → length (ensure p rest ys) ≡ length ys
  unfolding ensure
  length-ensure rest ys = ground (arith, length-promote (first_match p rest) ys)

  first_match-some :
      (xs : List Scored)
      → any p xs ≡ true
      → (x : Scored) × (first_match p xs ≡ some x) × (p x ≡ true)
  unfolding any
  first_match-some [] h = absurd (ground (arith, h))
  first_match-some (x ∷ xs) h = elim (Bool-cases (p x)) [
    | inl e ↦ (x, ap (λ t. if t then some x else first_match p xs) e, e)
    | inr e ↦
        let (y, f, g) = first_match-some xs (ap (λ t. t || any p xs) (sym e) ∙ h) in
        (y, ap (λ t. if t then some x else first_match p xs) e ∙ f, g)
  ]

if_true : (t : Bool) (xs ys : List Scored) → t ≡ true → (if t then xs else ys) ≡ xs
if_true t xs ys h = ap (λ b. if b then xs else ys) h

if_false : (t : Bool) (xs ys : List Scored) → t ≡ false → (if t then xs else ys) ≡ ys
if_false t xs ys h = ap (λ b. if b then xs else ys) h

-- The list with its last item replaced.
abbrev set_last : Scored → List Scored → List Scored
set_last x [] = []
set_last x (y ∷ []) = x ∷ []
set_last x (y ∷ z ∷ ys) = y ∷ set_last x (z ∷ ys)

set_last-twice : (x z : Scored) (ys : List Scored) → set_last z (set_last x ys) ≡ set_last z ys
set_last-twice x z [] = refl
set_last-twice x z (y ∷ []) = refl
set_last-twice x z (y ∷ u ∷ []) = refl
set_last-twice x z (y ∷ u ∷ v ∷ ys) = ap (λ ws. y ∷ ws) (set_last-twice x z (u ∷ v ∷ ys))

module _ (p : Scored → Bool) where
  -- Where nothing matches, the last item is the one that goes.
  evict_last-last :
      (x : Scored) (ys : List Scored) → any p ys ≡ false → evict_last p x ys ≡ set_last x ys
  unfolding evict_last any
  evict_last-last x [] h = refl
  evict_last-last x (y ∷ []) h = ground (arith, h)
  evict_last-last x (y ∷ z ∷ ys) h =
      let e : any (λ u. not (p u)) (z ∷ ys) ≡ true = ground (arith, h) in
      if_true (any (λ u. not (p u)) (z ∷ ys)) (y ∷ evict_last p x (z ∷ ys))
        (if p y then y ∷ evict_last p x (z ∷ ys) else x ∷ z ∷ ys) e
      ∙ ap (λ ws. y ∷ ws) (evict_last-last x (z ∷ ys) (ground (arith, h)))

  any-set_last :
      (x y : Scored) (ys : List Scored) → any p (y ∷ ys) ≡ false → any p (set_last x (y ∷ ys)) ≡ p x
  unfolding any
  any-set_last x y [] h = ground arith
  any-set_last x y (z ∷ ys) h = ground (arith, any-set_last x z ys (ground (arith, h)))

-- A class that the window lacks and the rest has: its best item takes the window's last place.
ensure-last :
    (p : Scored → Bool) (rest ys : List Scored)
    → any p ys ≡ false
    → any p rest ≡ true
    → (x : Scored) × (ensure p rest ys ≡ set_last x ys) × (p x ≡ true)
unfolding ensure
ensure-last p rest ys h k =
    let (x, e, f) = first_match-some p rest k in
    (
      x,
      if_false (any p ys) ys (promote p (first_match p rest) ys) h
          ∙ ap (λ o. promote p o ys) e
          ∙ evict_last-last p x ys h,
      f,
    )

class_apart : (s : Source) → (is_history s && is_doc s) ≡ false
class_apart source_query = refl
class_apart source_doc = refl
class_apart source_history = refl

-- Both classes ensured where the window has neither.
both-last :
    (rest : List Scored) (y : Scored) (ys : List Scored)
    → any from_history (y ∷ ys) ≡ false
    → any from_doc (y ∷ ys) ≡ false
    → any from_history rest ≡ true
    → any from_doc rest ≡ true
    → any from_history (ensure from_doc rest (ensure from_history rest (y ∷ ys))) ≡ false
both-last rest y ys nh nd h d =
    let (x, e, f) = ensure-last from_history rest (y ∷ ys) nh h in
    let apart : from_doc x ≡ false = ground (arith, class_apart x.cand.source, f) in
    let nd2 : any from_doc (ensure from_history rest (y ∷ ys)) ≡ false =
      ap (any from_doc) e ∙ any-set_last from_doc x y ys nd ∙ apart in
    let (z, e2, f2) = ensure-last from_doc rest (ensure from_history rest (y ∷ ys)) nd2 d in
    let apart2 : from_history z ≡ false = ground (arith, class_apart z.cand.source, f2) in
    ap (any from_history) (e2 ∙ ap (set_last z) e ∙ set_last-twice x z (y ∷ ys))
    ∙ any-set_last from_history z y ys nh
    ∙ apart2

lt_of_not_le : (a b : ℕ) → leb a b ≡ false → b < a
lt_of_not_le a b h = ground arith

-- The window before it is sorted.
abbrev pub ensured : List Scored → ℕ → List Scored
ensured ranked limit =
    let rest = drop limit ranked in
    ensure from_doc rest (ensure from_history rest (take limit ranked))

length-ensured :
    (ranked : List Scored) (limit : ℕ) → length (ensured ranked limit) ≡ min limit (length ranked)
length-ensured ranked limit =
    let rest = drop limit ranked in
    length-ensure from_doc rest (ensure from_history rest (take limit ranked))
    ∙ length-ensure from_history rest (take limit ranked)
    ∙ length-take limit ranked

reserve_slots-short :
    (a : Arith) (ranked : List Scored) (limit : ℕ)
    → leb (length ranked) limit ≡ true
    → reserve_slots a ranked limit ≡ ranked
unfolding reserve_slots
reserve_slots-short a ranked limit h =
    if_true (leb (length ranked) limit) ranked (stable_sort (better a) (ensured ranked limit)) h

reserve_slots-long :
    (a : Arith) (ranked : List Scored) (limit : ℕ)
    → leb (length ranked) limit ≡ false
    → reserve_slots a ranked limit ≡ stable_sort (better a) (ensured ranked limit)
unfolding reserve_slots
reserve_slots-long a ranked limit h =
    if_false (leb (length ranked) limit) ranked (stable_sort (better a) (ensured ranked limit)) h

-- The window that reserveSlots returns has as many items as the limit and the candidates allow.
pub length-reserve_slots :
    (a : Arith) (ranked : List Scored) (limit : ℕ)
    → length (reserve_slots a ranked limit) ≡ min limit (length ranked)
length-reserve_slots a ranked limit = elim (Bool-cases (leb (length ranked) limit)) [
  | inl e ↦
      omega
        (arith, leb→le (length ranked) limit e, ap length (reserve_slots-short a ranked limit e))
  | inr e ↦
      ap length (reserve_slots-long a ranked limit e)
      ∙ length-stable_sort (better a) (ensured ranked limit)
      ∙ length-ensured ranked limit
]

nonempty_take :
    (ranked : List Scored) (n : ℕ)
    → leb (length ranked) (suc n) ≡ false
    → (y : Scored) × (ys : List Scored) × (take (suc n) ranked ≡ y ∷ ys)
nonempty_take [] n h = absurd (ground (arith, h))
nonempty_take (x ∷ xs) n h = (x, take n xs, refl)

any-ensure :
    (p : Scored → Bool) (rest : List Scored) (y : Scored) (ys : List Scored)
    → any p rest ≡ true
    → any p (ensure p rest (y ∷ ys)) ≡ true
unfolding ensure
any-ensure p rest y ys h = elim (Bool-cases (any p (y ∷ ys))) [
  | inl e ↦
      ap (any p) (if_true (any p (y ∷ ys)) (y ∷ ys) (promote p (first_match p rest) (y ∷ ys)) e) ∙ e
  | inr e ↦
      let (x, f, g) = ensure-last p rest (y ∷ ys) e h in ap (any p) f ∙ any-set_last p x y ys e ∙ g
]

cons_of : (ws : List Scored) → 0 < length ws → (y : Scored) × (ys : List Scored) × (ws ≡ y ∷ ys)
cons_of [] h = absurd (omega (arith, h))
cons_of (y ∷ ys) h = (y, ys, refl)

-- When more candidates are ranked than fit and one of those outside the window comes from the
-- documents, the window that is returned has one that does.
pub reserve_slots-doc :
    (a : Arith) (ranked : List Scored) (n : ℕ)
    → leb (length ranked) (suc n) ≡ false
    → any from_doc (drop (suc n) ranked) ≡ true
    → any from_doc (reserve_slots a ranked (suc n)) ≡ true
reserve_slots-doc a ranked n l d =
    let rest = drop (suc n) ranked in
    let inner = ensure from_history rest (take (suc n) ranked) in
    let size = length-ensure from_history rest (take (suc n) ranked) ∙ length-take (suc n) ranked in
    let (y, ys, e) = cons_of inner (omega (arith, size, lt_of_not_le (length ranked) (suc n) l)) in
    ap (any from_doc) (reserve_slots-long a ranked (suc n) l)
    ∙ any-stable_sort (better a) from_doc (ensured ranked (suc n))
    ∙ ap (λ ws. any from_doc (ensure from_doc rest ws)) e
    ∙ any-ensure from_doc rest y ys d

-- When the window has neither a history item nor a document, and both are to be had outside it, the
-- history item that is promoted first is the one that gives way to the document: the window that is
-- returned has no history item, whatever its limit.
pub reserve_slots-history :
    (a : Arith) (ranked : List Scored) (n : ℕ)
    → leb (length ranked) (suc n) ≡ false
    → any from_history (take (suc n) ranked) ≡ false
    → any from_doc (take (suc n) ranked) ≡ false
    → any from_history (drop (suc n) ranked) ≡ true
    → any from_doc (drop (suc n) ranked) ≡ true
    → any from_history (reserve_slots a ranked (suc n)) ≡ false
reserve_slots-history a ranked n l nh nd h d =
    let rest = drop (suc n) ranked in
    let (y, ys, e) = nonempty_take ranked n l in
    ap (any from_history) (reserve_slots-long a ranked (suc n) l)
    ∙ any-stable_sort (better a) from_history (ensured ranked (suc n))
    ∙ ap (λ ws. any from_history (ensure from_doc rest (ensure from_history rest ws))) e
    ∙ both-last rest y ys (ap (any from_history) (sym e) ∙ nh) (ap (any from_doc) (sym e) ∙ nd) h d
