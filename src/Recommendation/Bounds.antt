-- ===== src/Recommendation/Bounds.antt =====
-- internal/recommendation/service.go: what the composer keeps while it collects picks.
use vidra_search.Prelude.{
  ℕ, ◌+◌, ◌≤◌, ℤ, pos, ◌≤ℤ◌, ◌<ℤ◌, negsuc, leb_ℤ, Bool-cases, ==_iff, inl, inr, Bool, true, false,
  ◌||◌, Option, none, some, List, [], ◌∷◌, ◌++◌, any, any-append, length, length-append, leb, ◌==◌,
  if◌then◌else◌, ◌≡◌, refl, sym, ap, subst, ◌∙◌, arith, opt_is,
}
use vidra_search.Store.Rows.{Uuid}
use vidra_search.Recommendation.Composer.{
  Candidate, Composer, per_channel_cap, has, picked_ids, new_composer, count_one, exclude, full,
  pick, add_capped, add, add_all,
}

-- No id stands twice.
abbrev pub AllDistinct : List Uuid → Type 0
AllDistinct [] = Unit
AllDistinct (u ∷ us) = (has u us ≡ false) × AllDistinct us

-- How many picks a channel has.
unfoldable pub channel_picks : Uuid → List Candidate → ℕ
channel_picks ch [] = 0
channel_picks ch (p ∷ ps) = (if opt_is ch p.channel_id then 1 else 0) + channel_picks ch ps

-- What a feed promises of its picks.
pub record IsBounded (c : Composer) : Type 0 where
  pub bounded_limit : pos (length c.picks) ≤ℤ c.limit
  pub bounded_distinct : AllDistinct (picked_ids c.picks)
  pub bounded_channels : (ch : Uuid) → channel_picks ch c.picks ≤ per_channel_cap
  pub bounded_excludes :
      (u : Uuid) → (has u c.excludes || has u (picked_ids c.picks)) ≡ has u c.seen
  pub bounded_apart : (u : Uuid) → has u c.excludes ≡ true → has u (picked_ids c.picks) ≡ false
  pub bounded_counts : (ch : Uuid) → c.per_chan ch ≡ channel_picks ch c.picks

pub has-append : (u : Uuid) (us vs : List Uuid) → has u (us ++ vs) ≡ (has u us || has u vs)
has-append u us vs = any-append (λ x. x == u) us vs

pub picked_ids-append :
    (ps qs : List Candidate) → picked_ids (ps ++ qs) ≡ picked_ids ps ++ picked_ids qs
picked_ids-append [] qs = refl
picked_ids-append (p ∷ ps) qs = ap (λ us. p.video_id ∷ us) (picked_ids-append ps qs)

pub channel_picks-append :
    (ch : Uuid) (ps qs : List Candidate)
    → channel_picks ch (ps ++ qs) ≡ channel_picks ch ps + channel_picks ch qs
unfolding channel_picks
channel_picks-append ch [] qs = omega arith
channel_picks-append ch (p ∷ ps) qs = omega (arith, channel_picks-append ch ps qs)

pub AllDistinct-snoc :
    (us : List Uuid) (u : Uuid) → AllDistinct us → has u us ≡ false → AllDistinct (us ++ u ∷ [])
unfolding any
AllDistinct-snoc [] u h k = (refl, tt)
AllDistinct-snoc (v ∷ us) u (n, h) k =
    let e : has v (us ++ u ∷ []) ≡ (has v us || has v (u ∷ [])) = has-append v us (u ∷ []) in
    (ground arith, AllDistinct-snoc us u h (ground arith))

-- Of a list with `u` and without `v`.
pub has-apart :
    (u v : Uuid) (us : List Uuid) → has v us ≡ false → has u us ≡ true → (v == u) ≡ false
has-apart u v us absent present = elim (Bool-cases (v == u)) [
  | inr e ↦ e
  | inl e ↦
      let same : v ≡ u = (==_iff v u).0 e in
      ground (arith, subst (λ x. has x us ≡ false) same absent)
]

or_left : (a b s : Bool) → (a || b) ≡ s → s ≡ false → a ≡ false
or_left a b s h k = ground arith

or_right : (a b s : Bool) → (a || b) ≡ s → s ≡ false → b ≡ false
or_right a b s h k = ground arith

or_swap : (a p q e s : Bool) → (a || p) ≡ s → q ≡ (p || (e || false)) → (a || q) ≡ (e || s)
or_swap a p q e s h k = ground arith

or_none : (q p e : Bool) → q ≡ (p || (e || false)) → p ≡ false → e ≡ false → q ≡ false
or_none q p e h k l = ground arith

leb_false : (a b : ℤ) → leb_ℤ a b ≡ false → b <ℤ a
leb_false (pos a) (pos b) h = ground arith
leb_false (pos a) (negsuc b) h = ground arith
leb_false (negsuc a) (pos b) h = ground arith
leb_false (negsuc a) (negsuc b) h = ground arith

channel_picks-snoc :
    (x : Uuid) (ps : List Candidate) (cand : Candidate) (o : Option Uuid)
    → cand.channel_id ≡ o
    → channel_picks x (ps ++ cand ∷ []) ≡ channel_picks x ps + (if opt_is x o then 1 else 0)
unfolding channel_picks
channel_picks-snoc x ps cand o e =
    let here = ap {B = ℕ} (λ r. if opt_is x r then 1 else 0) e in
    omega (arith, channel_picks-append x ps (cand ∷ []), here)

-- `c.perChan[ch]++` counts the pick at its own channel only.
one_more :
    (x ch : Uuid) (f : Uuid → ℕ) (n m : ℕ)
    → m ≡ n + (if ch == x then 1 else 0)
    → f x ≡ n
    → count_one ch f x ≡ m
one_more x ch f n m e k = ground arith

below_cap :
    (x ch : Uuid) (f : Uuid → ℕ) (n m : ℕ)
    → leb per_channel_cap (f ch) ≡ false
    → m ≡ n + (if ch == x then 1 else 0)
    → n ≤ per_channel_cap
    → f x ≡ n
    → m ≤ per_channel_cap
below_cap x ch f n m h e l k = elim (Bool-cases (ch == x)) [
  | inl t ↦ let same : f ch ≡ f x = ap f ((==_iff ch x).0 t) in ground arith
  | inr t ↦ ground arith
]

if-IsBounded :
    (t : Bool) (x y : Composer)
    → (t ≡ true → IsBounded x)
    → (t ≡ false → IsBounded y)
    → IsBounded (if t then x else y)
if-IsBounded true x y f g = f refl
if-IsBounded false x y f g = g refl

module _ (cand : Candidate) (c : Composer) (b : IsBounded c) where
  pub pick-IsBounded :
      (f : Uuid → ℕ)
      → full c ≡ false
      → has cand.video_id c.seen ≡ false
      → ((ch : Uuid) → f ch ≡ channel_picks ch (c.picks ++ cand ∷ []))
      → ((ch : Uuid) → channel_picks ch (c.picks ++ cand ∷ []) ≤ per_channel_cap)
      → IsBounded (pick cand (record c { per_chan = f }))
  unfolding full any
  pick-IsBounded f room fresh counts caps =
      let n = length-append c.picks (cand ∷ []) in
      let ids = picked_ids-append c.picks (cand ∷ []) in
      let split : (u : Uuid)
          → has u (picked_ids (c.picks ++ cand ∷ []))
            ≡ (has u (picked_ids c.picks) || has u (cand.video_id ∷ [])) =
        λ u. ap (has u) ids ∙ has-append u (picked_ids c.picks) (cand.video_id ∷ []) in
      let outside = b.bounded_excludes cand.video_id in
      record {
        bounded_limit = omega (arith, n, leb_false c.limit (pos (length c.picks)) room);
        bounded_distinct = subst AllDistinct (sym ids) (
            AllDistinct-snoc (picked_ids c.picks) cand.video_id b.bounded_distinct (
              or_right (has cand.video_id c.excludes) (has cand.video_id (picked_ids c.picks))
                (has cand.video_id c.seen) outside fresh));
        bounded_channels = caps;
        bounded_excludes = λ u.
            or_swap (has u c.excludes) (has u (picked_ids c.picks))
              (has u (picked_ids (c.picks ++ cand ∷ []))) (cand.video_id == u) (has u c.seen)
              (b.bounded_excludes u) (split u);
        bounded_apart = λ u h.
            or_none (has u (picked_ids (c.picks ++ cand ∷ []))) (has u (picked_ids c.picks))
              (cand.video_id == u) (split u) (b.bounded_apart u h)
              (has-apart u cand.video_id c.excludes
                (or_left (has cand.video_id c.excludes) (has cand.video_id (picked_ids c.picks))
                  (has cand.video_id c.seen) outside fresh)
                h);
        bounded_counts = counts;
      }

  pub add_capped-IsBounded :
      full c ≡ false
      → has cand.video_id c.seen ≡ false
      → (o : Option Uuid) → cand.channel_id ≡ o
      → IsBounded (add_capped cand c o)
  unfolding add_capped channel_picks
  add_capped-IsBounded room fresh none e =
      let snoc = λ (x : Uuid). channel_picks-snoc x c.picks cand none e in
      pick-IsBounded c.per_chan room fresh (λ x. omega (arith, snoc x, b.bounded_counts x))
        (λ x. omega (arith, snoc x, b.bounded_channels x))
  add_capped-IsBounded room fresh (some ch) e =
      let snoc = λ (x : Uuid). channel_picks-snoc x c.picks cand (some ch) e in
      if-IsBounded (leb per_channel_cap (c.per_chan ch)) c
        (pick cand (record c { per_chan = count_one ch c.per_chan })) (λ h. b)
        (λ h.
          pick-IsBounded (count_one ch c.per_chan) room fresh
            (λ x.
              one_more x ch c.per_chan (channel_picks x c.picks)
                (channel_picks x (c.picks ++ cand ∷ [])) (snoc x) (b.bounded_counts x))
            (λ x.
              below_cap x ch c.per_chan (channel_picks x c.picks)
                (channel_picks x (c.picks ++ cand ∷ [])) h (snoc x) (b.bounded_channels x)
                (b.bounded_counts x)))

  pub add-IsBounded : IsBounded (add cand c)
  unfolding add
  add-IsBounded =
      if-IsBounded (full c || has cand.video_id c.seen) c (add_capped cand c cand.channel_id)
        (λ h. b)
        (λ h.
          add_capped-IsBounded (or_left (full c) (has cand.video_id c.seen) false h refl)
            (or_right (full c) (has cand.video_id c.seen) false h refl) cand.channel_id refl)

pub add_all-IsBounded :
    (cands : List Candidate) (c : Composer) → IsBounded c → IsBounded (add_all cands c)
unfolding add_all
add_all-IsBounded [] c b = b
add_all-IsBounded (cand ∷ cands) c b = add_all-IsBounded cands (add cand c) (add-IsBounded cand c b)

pub new_composer-IsBounded : (n : ℤ) → pos 0 ≤ℤ n → IsBounded (new_composer n)
unfolding any channel_picks
new_composer-IsBounded n h = record {
  bounded_limit = h;
  bounded_distinct = tt;
  bounded_channels = λ ch. omega arith;
  bounded_excludes = λ u. refl;
  bounded_apart = λ u h. refl;
  bounded_counts = λ ch. refl;
}

pub exclude-IsBounded : (u : Uuid) (n : ℤ) → pos 0 ≤ℤ n → IsBounded (exclude u (new_composer n))
unfolding any channel_picks exclude
exclude-IsBounded u n h = record {
  bounded_limit = h;
  bounded_distinct = tt;
  bounded_channels = λ ch. omega arith;
  bounded_excludes = λ v. ground arith;
  bounded_apart = λ v h. refl;
  bounded_counts = λ ch. refl;
}

-- A step that leaves the limit and the exclusions alone.
abbrev pub Frames : Composer → Composer → Type 0
Frames c d = (d.limit ≡ c.limit) × (d.excludes ≡ c.excludes)

if-Frames : (t : Bool) (c x y : Composer) → Frames c x → Frames c y → Frames c (if t then x else y)
if-Frames true c x y f g = f
if-Frames false c x y f g = g

add_capped-Frames :
    (cand : Candidate) (c : Composer) (o : Option Uuid) → Frames c (add_capped cand c o)
unfolding add_capped
add_capped-Frames cand c none = (refl, refl)
add_capped-Frames cand c (some ch) =
    if-Frames (leb per_channel_cap (c.per_chan ch)) c c
      (pick cand (record c { per_chan = count_one ch c.per_chan })) (refl, refl) (refl, refl)

pub add-Frames : (cand : Candidate) (c : Composer) → Frames c (add cand c)
unfolding add
add-Frames cand c =
    if-Frames (full c || has cand.video_id c.seen) c c (add_capped cand c cand.channel_id)
      (refl, refl) (add_capped-Frames cand c cand.channel_id)

pub add_all-Frames : (cands : List Candidate) (c : Composer) → Frames c (add_all cands c)
unfolding add_all
add_all-Frames [] c = (refl, refl)
add_all-Frames (cand ∷ cands) c =
    let (l, e) = add_all-Frames cands (add cand c) in
    let (m, f) = add-Frames cand c in (l ∙ m, e ∙ f)
