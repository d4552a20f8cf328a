-- ===== src/Explore/Picks.antt =====
-- internal/ranking/diversity.go: the picks of MMR.
use mathlib.Core.List.{Perm}
use mathlib.Core.List.Perm
use vidra_search.Prelude.{
  ℕ, zero, suc, ◌+◌, ◌≤◌, ℤ, pos, negsuc, Bool, true, false, Option, none, some, List, [], ◌∷◌,
  ◌++◌, map, length, length-append, length-map, append_assoc, is_some, if◌then◌else◌, ◌≡◌, refl,
  sym, ap, subst, ◌∙◌, arith,
}
use vidra_search.Prelude.Sort.{stable_sort, stable_sort-perm, length-stable_sort}
use vidra_search.Store.Rows.{Float}
use vidra_search.Explore.Mmr.{
  MmrDoc, Reals, Candidate, mark, Best, best_index, marginal, select_next, select, fresh, clamp,
  mmr, doc_less,
}

unfoldable pub unused : List Candidate → List MmrDoc
unused [] = []
unused ((d, true) ∷ cs) = unused cs
unused ((d, false) ∷ cs) = d ∷ unused cs

-- The candidate at a place has not been used.
abbrev IsFree : MmrDoc → ℕ → List Candidate → Type 0
IsFree d i [] = ⊥
IsFree d zero ((e, used) ∷ cs) = (e ≡ d) × (used ≡ false)
IsFree d (suc i) (c ∷ cs) = IsFree d i cs

mark-perm :
    (d : MmrDoc) (i : ℕ) (cs : List Candidate)
    → IsFree d i cs
    → Perm (d ∷ unused (mark i cs)) (unused cs)
unfolding unused mark
mark-perm d i [] f = absurd f
mark-perm d zero ((e, true) ∷ cs) (q, u) = absurd (ground (arith, u))
mark-perm d zero ((e, false) ∷ cs) (q, u) =
    subst (λ x. Perm (x ∷ unused cs) (e ∷ unused cs)) q (Perm.refl (e ∷ unused cs))
mark-perm d (suc i) ((e, true) ∷ cs) f = mark-perm d i cs f
mark-perm d (suc i) ((e, false) ∷ cs) f =
    Perm.trans (Perm.swap e d (unused (mark i cs))) (Perm.cons e (mark-perm d i cs f))

length-mark :
    (d : MmrDoc) (i : ℕ) (cs : List Candidate)
    → IsFree d i cs
    → suc (length (unused (mark i cs))) ≡ length (unused cs)
unfolding unused mark
length-mark d i [] f = absurd f
length-mark d zero ((e, true) ∷ cs) (q, u) = absurd (ground (arith, u))
length-mark d zero ((e, false) ∷ cs) (q, u) = refl
length-mark d (suc i) ((e, true) ∷ cs) f = length-mark d i cs f
length-mark d (suc i) ((e, false) ∷ cs) f = ap suc (length-mark d i cs f)

-- The best so far, if there is one, satisfies `P` of its place and itself.
abbrev Holds : (ℕ → MmrDoc → Type 0) → Option Best → Type 0
Holds P none = Unit
Holds P (some (i, d, top)) = P i d

module _ (r : Reals) (score : MmrDoc → Float) (P : ℕ → MmrDoc → Type 0) where
  shift :
      (i : ℕ) (c : Candidate) (cs : List Candidate)
      → ((k : ℕ) (d : MmrDoc) → IsFree d k (c ∷ cs) → P (i + k) d)
      → (k : ℕ) (d : MmrDoc) → IsFree d k cs
      → P (suc i + k) d
  shift i c cs h k d f = subst (λ n. P n d) (omega arith) (h (suc k) d f)

  best_index-Holds :
      (i : ℕ) (cs : List Candidate) (best : Option Best)
      → ((k : ℕ) (d : MmrDoc) → IsFree d k cs → P (i + k) d)
      → Holds P best
      → Holds P (best_index r score i cs best)
  unfolding best_index
  best_index-Holds i [] best h b = b
  best_index-Holds i ((d, true) ∷ cs) best h b =
      best_index-Holds (suc i) cs best (shift i (d, true) cs h) b
  best_index-Holds i ((d, false) ∷ cs) none h b =
      best_index-Holds (suc i) cs (some (i, d, score d)) (shift i (d, false) cs h)
        (subst (λ n. P n d) (omega arith) (h 0 d (refl, refl)))
  best_index-Holds i ((d, false) ∷ cs) (some (j, e, top)) h b =
      best_index-Holds (suc i) cs
        (if r.less top (score d) then some (i, d, score d) else some (j, e, top))
        (shift i (d, false) cs h)
        (either (r.less top (score d)) (i, d, score d) (j, e, top)
          (subst (λ n. P n d) (omega arith) (h 0 d (refl, refl))) b)
    where
      either :
          (t : Bool) (x y : Best) → P x.0 x.1 → P y.0 y.1 → Holds P (if t then some x else some y)
      either true x y p q = p
      either false x y p q = q

-- A best is found as long as something is unused.
best_index-some :
    (r : Reals) (score : MmrDoc → Float) (i : ℕ) (cs : List Candidate) (best : Option Best)
    → best_index r score i cs best ≡ none
    → (is_some best ≡ false) × (unused cs ≡ [])
unfolding best_index unused
best_index-some r score i [] best h = (ap is_some h, refl)
best_index-some r score i ((d, true) ∷ cs) best h = best_index-some r score (suc i) cs best h
best_index-some r score i ((d, false) ∷ cs) none h =
    let (e, u) = best_index-some r score (suc i) cs (some (i, d, score d)) h in
    absurd (ground (arith, e))
best_index-some r score i ((d, false) ∷ cs) (some (j, e, top)) h =
    let next : Option Best =
      if r.less top (score d) then some (i, d, score d) else some (j, e, top) in
    let (f, u) = best_index-some r score (suc i) cs next h in absurd (ground (arith, f))

-- Appending a pick to what is selected, with the rest left.
pick-perm :
    (d : MmrDoc) (i : ℕ) (cs : List Candidate) (selected : List MmrDoc)
    → IsFree d i cs
    → Perm ((selected ++ d ∷ []) ++ unused (mark i cs)) (selected ++ unused cs)
pick-perm d i cs selected f =
    subst (λ xs. Perm xs (selected ++ unused cs))
      (sym (append_assoc selected (d ∷ []) (unused (mark i cs))))
      (Perm.append_left selected (mark-perm d i cs f))

-- From `selected` on, `ws` comes of `n` picks among the unused candidates.
abbrev ArePicks : ℕ → List Candidate → (selected ws : List MmrDoc) → Type 0
ArePicks n cs selected ws =
    ((left : List MmrDoc) × Perm (ws ++ left) (selected ++ unused cs))
    × (n ≤ length (unused cs) → length ws ≡ length selected + n)

select_next-ArePicks :
    (n : ℕ) (cs : List Candidate) (selected : List MmrDoc) (o : Option Best)
    → Holds (λ i d. IsFree d i cs) o
    → (o ≡ none → unused cs ≡ [])
    → (k : ℕ → MmrDoc → List MmrDoc)
    → ((i : ℕ) (d : MmrDoc) → ArePicks n (mark i cs) (selected ++ d ∷ []) (k i d))
    → ArePicks (suc n) cs selected (select_next o selected k)
select_next-ArePicks n cs selected none h e k again = (
  (unused cs, Perm.refl (selected ++ unused cs)),
  λ l. absurd (omega (arith, l, ap length (e refl))),
)
select_next-ArePicks n cs selected (some (i, d, top)) h e k again =
    let ((left, p), size) = again i d in
    (
      (left, Perm.trans p (pick-perm d i cs selected h)),
      λ l.
          let m = length-mark d i cs h in
          omega (arith, size (omega (arith, l, m)), length-append selected (d ∷ [])),
    )

select-ArePicks :
    (r : Reals) (lambda : Float) (n : ℕ) (cs : List Candidate) (selected : List MmrDoc)
    → ArePicks n cs selected (select r lambda n cs selected)
unfolding select
select-ArePicks r lambda zero cs selected =
    ((unused cs, Perm.refl (selected ++ unused cs)), λ l. omega arith)
select-ArePicks r lambda (suc n) cs selected =
    let score = marginal r lambda selected in
    select_next-ArePicks n cs selected (best_index r score 0 cs none)
      (best_index-Holds r score (λ i d. IsFree d i cs) 0 cs none
        (λ k d f. subst (λ m. IsFree d m cs) (omega arith) f) tt)
      (λ e. (best_index-some r score 0 cs none e).1)
      (λ i d. select r lambda n (mark i cs) (selected ++ d ∷ []))
      (λ i d. select-ArePicks r lambda n (mark i cs) (selected ++ d ∷ []))

unused-fresh : (ds : List MmrDoc) → unused (fresh ds) ≡ ds
unfolding unused
unused-fresh [] = refl
unused-fresh (d ∷ ds) = ap (λ es. d ∷ es) (unused-fresh ds)

clamp-le : (k : ℤ) (n : ℕ) → clamp k n ≤ n
clamp-le (pos k) n = omega arith
clamp-le (negsuc k) n = omega arith

-- MMR returns as many ids as were asked for and there are documents for, none where the number is
-- not positive; they are the ids of picks that, with the documents left over, make up the input, so
-- that no document is picked twice.
pub mmr_lem :
    (r : Reals) (docs : List MmrDoc) (lambda : Float) (k : ℤ)
    → (length (mmr r docs lambda k) ≡ clamp k (length docs))
      × (picks : List MmrDoc) × (left : List MmrDoc) × (mmr r docs lambda k
          ≡ map (λ d. d.video_id) picks)
      × Perm (picks ++ left) docs
unfolding mmr
mmr_lem r docs lambda k =
    let sorted = stable_sort (doc_less r) docs in
    let n = clamp k (length docs) in
    let picks = select r lambda n (fresh sorted) [] in
    let all = unused-fresh sorted in
    let count = length-stable_sort (doc_less r) docs in
    let ((left, p), size) = select-ArePicks r lambda n (fresh sorted) [] in
    (
      length-map (λ d. d.video_id) picks
          ∙ size (omega (arith, ap length all, count, clamp-le k (length docs)))
          ∙ omega arith,
      picks,
      left,
      refl,
      Perm.trans (subst (λ ds. Perm (picks ++ left) ds) all p) (stable_sort-perm (doc_less r) docs),
    )
