-- ===== src/Recommendation/Fairness.antt =====
-- internal/recommendation/service.go, homeSimple: the round robin.
use vidra_search.Prelude.{
  ℕ, zero, suc, ◌+◌, ◌≤◌, Bool, true, false, ◌||◌, Option, none, some, List, [], ◌∷◌, ◌++◌, length,
  get_elem?, ◌≡◌, refl, sym, ap, ◌∙◌, arith, Bool-cases, inl, inr,
}
use vidra_search.Recommendation.Composer.{Candidate, Composer, full, add, add_all}
use vidra_search.Recommendation.Rounds.{Streams, turn, pass, go_on, rounds, longest}

abbrev pub cons_some : Option Candidate → List Candidate → List Candidate
cons_some none cs = cs
cons_some (some c) cs = c ∷ cs

-- The candidates at place `i` of the streams that reach it, in the streams' order.
unfoldable pub row : ℕ → Streams → List Candidate
row i [] = []
row i (s ∷ ss) = cons_some (get_elem? s i) (row i ss)

-- All the candidates in the order of the round robin.
unfoldable pub interleaved : (fuel i : ℕ) → Streams → List Candidate
interleaved zero i ss = []
interleaved (suc n) i ss = row i ss ++ interleaved n (suc i) ss

abbrev nonempty : List Candidate → Bool
nonempty [] = false
nonempty (c ∷ cs) = true

add_all-append :
    (xs ys : List Candidate) (c : Composer) → add_all (xs ++ ys) c ≡ add_all ys (add_all xs c)
unfolding add_all
add_all-append [] ys c = refl
add_all-append (x ∷ xs) ys c = add_all-append xs ys (add x c)

-- A full composer takes nothing.
add-full : (x : Candidate) (c : Composer) → full c ≡ true → add x c ≡ c
unfolding add
add-full x c h = ground (arith, h)

add_all-full : (xs : List Candidate) (c : Composer) → full c ≡ true → add_all xs c ≡ c
unfolding add_all
add_all-full [] c h = refl
add_all-full (x ∷ xs) c h = ap (add_all xs) (add-full x c h) ∙ add_all-full xs c h

get_elem?-none : (xs : List Candidate) (i : ℕ) → length xs ≤ i → get_elem? xs i ≡ none
get_elem?-none [] i h = refl
get_elem?-none (x ∷ xs) zero h = absurd (omega (arith, h))
get_elem?-none (x ∷ xs) (suc i) h = get_elem?-none xs i (omega arith)

length-none : (xs : List Candidate) (i : ℕ) → get_elem? xs i ≡ none → length xs ≤ i
length-none [] i h = omega arith
length-none (x ∷ xs) zero h = ground (arith, h)
length-none (x ∷ xs) (suc i) h = omega (arith, length-none xs i h)

pub cons_some-nil :
    (o : Option Candidate) (cs : List Candidate)
    → nonempty (cons_some o cs) ≡ false
    → (o ≡ none) × (nonempty cs ≡ false)
cons_some-nil none cs h = (refl, h)
cons_some-nil (some c) cs h = ground (arith, h)

-- Past the longest stream there is no candidate.
row-nil : (i : ℕ) (ss : Streams) → longest ss ≤ i → row i ss ≡ []
unfolding row
row-nil i [] h = refl
row-nil i (s ∷ ss) h =
    let here = get_elem?-none s i (omega (arith, h)) in
    let rest = row-nil i ss (omega (arith, h)) in ap (λ o. cons_some o (row i ss)) here ∙ rest

longest-row : (i : ℕ) (ss : Streams) → nonempty (row i ss) ≡ false → longest ss ≤ i
unfolding row
longest-row i [] h = omega arith
longest-row i (s ∷ ss) h =
    let (here, rest) = cons_some-nil (get_elem? s i) (row i ss) h in
    omega (arith, length-none s i here, longest-row i ss rest)

abbrev end : List Candidate → Composer × Bool → Composer × Bool
end cs (c, b) = (add_all cs c, b || nonempty cs)

end-turn :
    (o : Option Candidate) (cs : List Candidate) (r : Composer × Bool)
    → end cs (turn o r) ≡ end (cons_some o cs) r
unfolding add_all
end-turn none cs r = refl
end-turn (some cand) cs (c, true) = refl
end-turn (some cand) cs (c, false) = refl

pass-row : (i : ℕ) (ss : Streams) (r : Composer × Bool) → pass i ss r ≡ end (row i ss) r
unfolding pass row add_all
pass-row i [] (c, true) = refl
pass-row i [] (c, false) = refl
pass-row i (s ∷ ss) r =
    pass-row i ss (turn (get_elem? s i) r) ∙ end-turn (get_elem? s i) (row i ss) r

-- Nothing is left once the streams are exhausted.
interleaved-nil : (n i : ℕ) (ss : Streams) → longest ss ≤ i → interleaved n i ss ≡ []
unfolding interleaved
interleaved-nil zero i ss h = refl
interleaved-nil (suc n) i ss h =
    rw (row-nil i ss h) (interleaved-nil n (suc i) ss (omega (arith, h)))

-- What a round comes to that the feed is not full for.
module _ (i : ℕ) (ss : Streams) (c : Composer) (k : Composer → Option Composer) where
  round-full : full c ≡ true → go_on (full c) c (pass i ss (c, false)) k ≡ some c
  round-full e = ap (λ t. go_on t c (pass i ss (c, false)) k) e

  round-end :
      (b : Bool)
      → full c ≡ false
      → nonempty (row i ss) ≡ b
      → go_on (full c) c (pass i ss (c, false)) k ≡ go_on false c (add_all (row i ss) c, b) k
  round-end b e f =
      ap (λ t. go_on t c (pass i ss (c, false)) k) e
      ∙ ap (λ r. go_on false c r k) (pass-row i ss (c, false))
      ∙ ap (λ t. go_on false c (add_all (row i ss) c, t) k) f

nonempty-row : (i : ℕ) (ss : Streams) → nonempty (row i ss) ≡ true → longest ss ≤ i → ⊥
nonempty-row i ss h k = ground (arith, h, ap nonempty (row-nil i ss k))

-- One round, where the rounds after it add their candidates in turn.
round_lem :
    (n i : ℕ) (ss : Streams) (c : Composer)
    → longest ss ≤ i + n
    → (nonempty (row i ss) ≡ true
        → rounds n (suc i) ss (add_all (row i ss) c)
          ≡ some (add_all (interleaved n (suc i) ss) (add_all (row i ss) c)))
    → rounds (suc n) i ss c ≡ some (add_all (interleaved (suc n) i ss) c)
unfolding rounds interleaved row add_all
round_lem n i ss c h again =
    let k = λ (d : Composer). rounds n (suc i) ss d in
    let rest = add_all-append (row i ss) (interleaved n (suc i) ss) c in
    elim (Bool-cases (full c)) [
      | inl e ↦
          round-full i ss c k e
          ∙ sym (ap some (add_all-full (row i ss ++ interleaved n (suc i) ss) c e))
      | inr e ↦ elim (Bool-cases (nonempty (row i ss))) [
        | inr f ↦
            round-end i ss c k false e f
            ∙ ap (λ xs. some (add_all xs (add_all (row i ss) c)))
                (sym (interleaved-nil n (suc i) ss (omega (arith, longest-row i ss f))))
            ∙ ap some (sym rest)
        | inl f ↦ round-end i ss c k true e f ∙ again f ∙ ap some (sym rest)
      ]
    ]

-- The loop ends when its fuel reaches past the longest stream, and has then added the candidates of
-- the streams in turn, from place `i` on.
pub rounds_lem :
    (n i : ℕ) (ss : Streams) (c : Composer)
    → longest ss ≤ i + n
    → rounds (suc n) i ss c ≡ some (add_all (interleaved (suc n) i ss) c)
rounds_lem zero i ss c h =
    round_lem 0 i ss c h (λ f. absurd (nonempty-row i ss f (omega (arith, h))))
rounds_lem (suc n) i ss c h =
    round_lem (suc n) i ss c h
      (λ f. rounds_lem n (suc i) ss (add_all (row i ss) c) (omega (arith, h)))
