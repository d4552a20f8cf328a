-- ===== src/Worker/Order.antt =====
-- internal/worker/sessionize.go: what the `less` of its sort orders.
use text.Mathlib.TextEquality.{Char-path}
use Prim.Native.Char.{code}
use vidra_search.Prelude.{
  codes, ℕ, ◌+◌, ◌<◌, ◌≤◌, ◌≤ℤ◌, ltb, ◌==◌, String, Bool, true, false, not, ◌&&◌, ◌⊎◌, List, [],
  ◌∷◌, All, str_eq, eq_iff, ◌≡◌, refl, sym, ◌∙◌, subst, arith, pos_part, neg_part, if◌then◌else◌,
  Bool-cases, inl, inr,
}
use vidra_search.Prelude.Sort.{
  stable_sort, IsOrdered, IsWeakOrder, All-unit, lexical_asym, lexical_trans, stable_sort-IsOrdered,
}
use vidra_search.Worker.Sessionize.{QueryEvent, codes_less, query_less}

codes_asym : (s t : List ℕ) → (codes_less s t && codes_less t s) ≡ false
unfolding codes_less
codes_asym [] [] = refl
codes_asym [] (d ∷ t) = refl
codes_asym (c ∷ s) [] = refl
codes_asym (c ∷ s) (d ∷ t) = ground (arith, codes_asym s t)

codes_trans :
    (s t u : List ℕ) → (not (codes_less s t) && (not (codes_less t u) && codes_less s u)) ≡ false
unfolding codes_less
codes_trans [] [] [] = refl
codes_trans [] [] (e ∷ u) = refl
codes_trans [] (d ∷ t) u = refl
codes_trans (c ∷ s) [] [] = refl
codes_trans (c ∷ s) [] (e ∷ u) = ground arith
codes_trans (c ∷ s) (d ∷ t) [] = ground arith
codes_trans (c ∷ s) (d ∷ t) (e ∷ u) = ground (arith, codes_trans s t u)

codes_refl : (s : List ℕ) → codes_less s s ≡ false
unfolding codes_less
codes_refl [] = refl
codes_refl (c ∷ s) = ground (arith, codes_refl s)

same_codes :
    (s t : String)
    → codes_less (codes s) (codes t) ≡ false
    → codes_less (codes t) (codes s) ≡ false
    → s ≡ t
unfolding codes_less
same_codes String.[] String.[] h k = refl
same_codes String.[] (String.◌∷◌ d t) h k = ground (arith, h)
same_codes (String.◌∷◌ c s) String.[] h k = ground (arith, k)
same_codes (String.◌∷◌ c s) (String.◌∷◌ d t) h k =
    let e : code c ≡ code d = ground (arith, h, k) in
    let f : s ≡ t = same_codes s t (ground (arith, e, h)) (ground (arith, e, k)) in
    λ i. String.◌∷◌ (Char-path c d e i) (f i)

same_iff :
    (s t : String)
    → str_eq s t ≡ (not (codes_less (codes s) (codes t)) && not (codes_less (codes t) (codes s)))
same_iff s t = elim (Bool-cases (str_eq s t)) [
  | inl e ↦
      let same : codes_less (codes s) (codes t) ≡ false =
        subst (λ x. codes_less (codes s) (codes x) ≡ false) ((eq_iff s t).0 e)
          (codes_refl (codes s)) in
      let back : codes_less (codes t) (codes s) ≡ false =
        subst (λ x. codes_less (codes x) (codes s) ≡ false) ((eq_iff s t).0 e)
          (codes_refl (codes s)) in
      ground (arith, e, same, back)
  | inr e ↦ elim (Bool-cases (codes_less (codes s) (codes t))) [
    | inl a ↦ ground (arith, e, a)
    | inr a ↦ elim (Bool-cases (codes_less (codes t) (codes s))) [
      | inl b ↦ ground (arith, e, a, b)
      | inr b ↦ ground (arith, e, (eq_iff s t).1 (same_codes s t a b))
    ]
  ]
]

-- Times, then ids given by the two parts of an integer.
abbrev within : (p q a b c d : ℕ) → Bool
within p q a b c d = if not (p == q) then ltb p q else ltb (a + d) (c + b)

within_asym : (p q a b c d : ℕ) → (within p q a b c d && within q p c d a b) ≡ false
within_asym p q a b c d = ground arith

within_trans :
    (p q w a b c d e f : ℕ)
    → (not (within p q a b c d) && (not (within q w c d e f) && within p w a b e f)) ≡ false
within_trans p q w a b c d e f = ground arith

if_not : {A : Type 0} (t : Bool) (a b : A) → (if not t then a else b) ≡ (if t then b else a)
if_not true a b = refl
if_not false a b = refl

same_back :
    (s t : String)
    → str_eq s t ≡ (not (codes_less (codes t) (codes s)) && not (codes_less (codes s) (codes t)))
same_back s t = ground (arith, same_iff s t)

codes_trans_back :
    (s t u : List ℕ) → (not (codes_less t s) && (not (codes_less u t) && codes_less u s)) ≡ false
codes_trans_back s t u = ground (arith, codes_trans u t s)

codes_asym_back : (s t : List ℕ) → (codes_less t s && codes_less s t) ≡ false
codes_asym_back s t = codes_asym t s

-- The order of one session.
abbrev inner : QueryEvent → QueryEvent → Bool
inner p q =
    within p.submitted_at q.submitted_at (pos_part p.id) (neg_part p.id) (pos_part q.id)
      (neg_part q.id)

less_lem :
    (p q : QueryEvent)
    → query_less p q ≡ (
        if str_eq p.session_id q.session_id
        then inner p q
        else codes_less (codes p.session_id) (codes q.session_id))
less_lem p q =
    if_not (str_eq p.session_id q.session_id) (codes_less (codes p.session_id) (codes q.session_id))
      (inner p q)

pub query_order : IsWeakOrder (λ q. Unit {0}) query_less
query_order = record {
  asym = λ x y p q h.
      let s = codes x.session_id in
      let t = codes y.session_id in
      less_lem x y
      ∙ lexical_asym (codes_less t s) (codes_less s t) (inner x y) (inner y x)
          (str_eq x.session_id y.session_id) (str_eq y.session_id x.session_id)
          (same_back x.session_id y.session_id) (same_back y.session_id x.session_id)
          (codes_asym_back s t) (asym_inner x y) (sym (less_lem y x) ∙ h);
  trans = λ x y z p q w h k.
      let s = codes x.session_id in
      let t = codes y.session_id in
      let u = codes z.session_id in
      less_lem z x
      ∙ lexical_trans (codes_less t s) (codes_less s t) (codes_less u t) (codes_less t u)
          (codes_less u s) (codes_less s u) (inner y x) (inner z y) (inner z x)
          (str_eq y.session_id x.session_id) (str_eq z.session_id y.session_id)
          (str_eq z.session_id x.session_id) (same_back y.session_id x.session_id)
          (same_back z.session_id y.session_id) (same_back z.session_id x.session_id)
          (codes_trans_back s t u) (codes_trans_back t u s) (codes_trans_back u s t)
          (trans_inner z y x) (sym (less_lem y x) ∙ h) (sym (less_lem z y) ∙ k);
}
  where
    asym_inner : (p q : QueryEvent) → (inner p q && inner q p) ≡ false
    asym_inner p q =
        within_asym p.submitted_at q.submitted_at (pos_part p.id) (neg_part p.id) (pos_part q.id)
          (neg_part q.id)

    trans_inner : (p q w : QueryEvent) → (not (inner p q) && (not (inner q w) && inner p w)) ≡ false
    trans_inner p q w =
        within_trans p.submitted_at q.submitted_at w.submitted_at (pos_part p.id) (neg_part p.id)
          (pos_part q.id) (neg_part q.id) (pos_part w.id) (neg_part w.id)

-- `q` may stand after `p`: its session is not before in Go's order of strings, and within a session it
-- is later, or at the same time with no smaller id.
abbrev pub MayFollow : QueryEvent → QueryEvent → Type 0
MayFollow p q =
    (codes_less (codes q.session_id) (codes p.session_id) ≡ false)
    × (p.session_id ≡ q.session_id
        → (p.submitted_at < q.submitted_at) ⊎ ((p.submitted_at ≡ q.submitted_at) × (p.id ≤ℤ q.id)))

-- Each query may follow all that stand before it.
abbrev pub InOrder : List QueryEvent → Type 0
InOrder [] = Unit
InOrder (p ∷ qs) = All (MayFollow p) qs × InOrder qs

in_session : (p q a b c d : ℕ) → within q p c d a b ≡ false → (p < q) ⊎ ((p ≡ q) × (a + d ≤ c + b))
in_session p q a b c d h = elim (Bool-cases (ltb p q)) [
  | inl e ↦ inl (ground (arith, e))
  | inr e ↦ inr (ground (arith, h, e), ground (arith, h, e))
]

may_follow : (p q : QueryEvent) → query_less q p ≡ false → MayFollow p q
may_follow p q h =
    let k = sym (less_lem q p) ∙ h in
    (
      ground (arith, k, same_iff q.session_id p.session_id),
      λ e.
          in_session p.submitted_at q.submitted_at (pos_part p.id) (neg_part p.id) (pos_part q.id)
            (neg_part q.id) (ground (arith, k, (eq_iff q.session_id p.session_id).1 (sym e))),
    )

All-MayFollow :
    (p : QueryEvent) (qs : List QueryEvent)
    → All (λ q. query_less q p ≡ false) qs
    → All (MayFollow p) qs
All-MayFollow p [] h = tt
All-MayFollow p (q ∷ qs) h = (may_follow p q h.0, All-MayFollow p qs h.1)

in_order : (qs : List QueryEvent) → IsOrdered query_less qs → InOrder qs
in_order [] h = tt
in_order (p ∷ qs) h = (All-MayFollow p qs h.0, in_order qs h.1)

pub stable_sort-InOrder : (qs : List QueryEvent) → InOrder (stable_sort query_less qs)
stable_sort-InOrder qs =
    in_order (stable_sort query_less qs) (stable_sort-IsOrdered query_order qs (All-unit qs))
