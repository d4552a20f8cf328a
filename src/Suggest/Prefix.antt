-- ===== src/Suggest/Prefix.antt =====
-- internal/suggest/service.go: likePrefix, and Go's `strings.HasPrefix`.
use vidra_search.Prelude.{
  [], ◌∷◌, ℕ, suc, ◌==◌, Bool, true, false, ◌&&◌, ◌||◌, List, ◌≡◌, refl, ap, ◌∙◌, arith, Bool-cases,
  inl, inr, if◌then◌else◌,
}

abbrev pub Codes : Type 0
Codes = List ℕ

-- `len([]rune(s))`
abbrev pub runes : Codes → ℕ
runes [] = 0
runes (c ∷ s) = suc (runes s)

unfoldable pub has_prefix : (s prefix : Codes) → Bool
has_prefix s [] = true
has_prefix [] (c ∷ p) = false
has_prefix (d ∷ s) (c ∷ p) = d == c && has_prefix s p

abbrev pub backslash : ℕ
backslash = 92

abbrev pub percent : ℕ
percent = 37

abbrev pub underscore : ℕ
underscore = 95

abbrev pub is_meta : ℕ → Bool
is_meta c = c == backslash || c == percent || c == underscore

-- The replacer, and the wildcard behind its text.
unfoldable pub like_prefix : Codes → Codes
like_prefix [] = percent ∷ []
like_prefix (c ∷ s) =
    let rest = like_prefix s in if is_meta c then backslash ∷ c ∷ rest else c ∷ rest

abbrev pub is_empty : Codes → Bool
is_empty [] = true
is_empty (d ∷ s) = false

-- The first character passes, and the rest of the text does.
abbrev pub after : (ℕ → Bool) → (Codes → Bool) → Codes → Bool
after t f [] = false
after t f (d ∷ s) = t d && f s

abbrev pub some_suffix : (Codes → Bool) → Codes → Bool
some_suffix f [] = f []
some_suffix f (d ∷ s) = f (d ∷ s) || some_suffix f s

-- SQL's LIKE as PostgreSQL documents it: a backslash takes the next character literally, an
-- underscore stands for one character, a percent sign for any number of them.
unfoldable pub like : (escaped : Bool) → (pattern s : Codes) → Bool
like true [] s = false
like false [] s = is_empty s
like true (c ∷ p) s = after (λ d. d == c) (like false p) s
like false (c ∷ p) s =
    let quoted = like true p s in
    let rest = like false p in
    if c == backslash
    then quoted
    else if c == percent
    then some_suffix rest s
    else if c == underscore
    then after (λ d. true) rest s
    else after (λ d. d == c) rest s

any_suffix : (s : Codes) → some_suffix is_empty s ≡ true
any_suffix [] = refl
any_suffix (d ∷ s) = any_suffix s

after-prefix :
    (c : ℕ) (p s : Codes)
    → ((t : Codes) → like false (like_prefix p) t ≡ has_prefix t p)
    → after (λ d. d == c) (like false (like_prefix p)) s ≡ has_prefix s (c ∷ p)
unfolding has_prefix
after-prefix c p [] h = refl
after-prefix c p (d ∷ s) h = ap (λ t. d == c && t) (h s)

-- A normalized prefix is matched literally whatever characters it has: a text is like its pattern
-- exactly when it starts with the prefix.
pub like-like_prefix : (p s : Codes) → like false (like_prefix p) s ≡ has_prefix s p
unfolding like like_prefix has_prefix
like-like_prefix [] [] = refl
like-like_prefix [] (d ∷ s) = any_suffix s
like-like_prefix (c ∷ p) s = elim (Bool-cases (is_meta c)) [
  | inl e ↦
      ap (λ t. like false (if t then backslash ∷ c ∷ like_prefix p else c ∷ like_prefix p) s) e
      ∙ after-prefix c p s (like-like_prefix p)
  | inr e ↦
      ap (λ t. like false (if t then backslash ∷ c ∷ like_prefix p else c ∷ like_prefix p) s) e
      ∙ plain (c == backslash) (c == percent) (c == underscore) _ _ _ _ e
      ∙ after-prefix c p s (like-like_prefix p)
]
  where
    plain :
        (a b d : Bool) (w x y z : Bool)
        → (a || b || d) ≡ false
        → (if a then w else if b then x else if d then y else z) ≡ z
    plain a b d w x y z e = ground (arith, e)
