-- ===== src/Catalog/Decimal.antt =====
-- Go's `strconv.FormatInt` and `strconv.ParseInt` in base 10 with 64 bits, on the bytes of a text.
use vidra_search.Prelude.{
  ℕ, zero, suc, ◌+◌, ◌-◌, ◌*◌, ◌/◌, ◌%◌, ◌^◌, ◌≤◌, ◌<◌, ◌==◌, ltb, leb, ℤ, pos, negsuc, Bool, ◌&&◌,
  Option, none, some, List, [], ◌∷◌, if◌then◌else◌, ◌≡◌, refl, ap, ◌∙◌, arith, Bool-cases, inl, inr,
  true, false,
}

abbrev pub Bytes : Type 0
Bytes = List ℕ

-- Digits from the last one on, with as many rounds as there may be digits.
unfoldable pub emit : (rounds n : ℕ) → Bytes → Bytes
emit zero n out = out
emit (suc f) n out =
    let more = emit f (n / 10) ((48 + n % 10) ∷ out) in if n == 0 then out else more

-- 2 ^ 64 has 20 digits.
unfoldable pub format_uint : ℕ → Bytes
unfolding emit
format_uint n = if n == 0 then 48 ∷ [] else emit 20 n []

abbrev pub minus_sign : ℕ
minus_sign = 45

abbrev pub plus_sign : ℕ
plus_sign = 43

unfoldable pub format_int : ℤ → Bytes
unfolding format_uint
format_int (pos n) = format_uint n
format_int (negsuc n) = minus_sign ∷ format_uint (suc n)

-- The number that digits spell behind `n`.
unfoldable pub scan : Bytes → ℕ → Option ℕ
scan [] n = some n
scan (c ∷ s) n =
    let rest = scan s (n * 10 + (c - 48)) in if leb 48 c && leb c 57 then rest else none

unfoldable pub parse_uint : Bytes → Option ℕ
unfolding scan
parse_uint [] = none
parse_uint (c ∷ s) = scan (c ∷ s) 0

-- The range of an int64, after the sign.
abbrev pub positive : Option ℕ → Option ℤ
positive none = none
positive (some n) = if ltb n (2 ^ 63) then some (pos n) else none

abbrev pub negative : Option ℕ → Option ℤ
negative none = none
negative (some zero) = some (pos 0)
negative (some (suc n)) = if ltb n (2 ^ 63) then some (negsuc n) else none

unfoldable pub parse_int : Bytes → Option ℤ
unfolding parse_uint
parse_int [] = none
parse_int (c ∷ s) =
    if c == minus_sign
    then negative (parse_uint s)
    else if c == plus_sign
    then positive (parse_uint s)
    else positive (parse_uint (c ∷ s))

-- The least number that does not fit the digits.
abbrev ten_to : ℕ → ℕ
ten_to zero = 1
ten_to (suc f) = 10 * ten_to f

-- A digit read after the digits before it.
scan-digit : (n : ℕ) (out : Bytes) → scan ((48 + n % 10) ∷ out) (n / 10) ≡ scan out n
unfolding scan
scan-digit n out =
    let whole : n / 10 * 10 + (48 + n % 10 - 48) ≡ n = omega arith in
    ap (λ t. if t then scan out (n / 10 * 10 + (48 + n % 10 - 48)) else none) (digit n)
    ∙ ap (scan out) whole
  where
    digit : (n : ℕ) → (leb 48 (48 + n % 10) && leb (48 + n % 10) 57) ≡ true
    digit n = ground arith

scan-emit : (f n : ℕ) (out : Bytes) → n < ten_to f → scan (emit f n out) 0 ≡ scan out n
unfolding emit
scan-emit zero n out h = ap (scan out) (omega (arith, h))
scan-emit (suc f) n out h = elim (Bool-cases (n == 0)) [
  | inl e ↦
      ap (λ t. scan (if t then out else emit f (n / 10) ((48 + n % 10) ∷ out)) 0) e
      ∙ ap (scan out) (ground (arith, e))
  | inr e ↦
      ap (λ t. scan (if t then out else emit f (n / 10) ((48 + n % 10) ∷ out)) 0) e
      ∙ scan-emit f (n / 10) ((48 + n % 10) ∷ out) (omega (arith, h))
      ∙ scan-digit n out
]

-- What the emitted text starts with, where there is one.
abbrev Starts : Bytes → Type 0
Starts [] = Unit
Starts (c ∷ s) = (48 ≤ c) × (c ≤ 57)

emit-Starts : (f n : ℕ) (out : Bytes) → Starts out → Starts (emit f n out)
unfolding emit
emit-Starts zero n out h = h
emit-Starts (suc f) n out h =
    if_Starts (n == 0) out (emit f (n / 10) ((48 + n % 10) ∷ out)) h
      (emit-Starts f (n / 10) ((48 + n % 10) ∷ out) (omega arith))
  where
    if_Starts : (t : Bool) (x y : Bytes) → Starts x → Starts y → Starts (if t then x else y)
    if_Starts true x y p q = p
    if_Starts false x y p q = q

-- Text that starts with a digit is read as a positive number, and what is empty is not read.
parse_int-Starts :
    (s : Bytes) (n : ℕ)
    → Starts s
    → 0 < n
    → n < 2 ^ 63
    → scan s 0 ≡ some n
    → parse_int s ≡ some (pos n)
unfolding parse_int parse_uint scan
parse_int-Starts [] n h p b e = absurd (ground (arith, e, p))
parse_int-Starts (c ∷ s) n h p b e = ground (arith, h, b, e)

-- Every positive int64 is read back from its decimal print.
pub parse_int-format_int :
    (n : ℕ) → 0 < n → n < 2 ^ 63 → parse_int (format_int (pos n)) ≡ some (pos n)
unfolding format_int format_uint
parse_int-format_int n h b =
    ap (λ t. parse_int (if t then 48 ∷ [] else emit 20 n [])) (nonzero n h)
    ∙ parse_int-Starts (emit 20 n []) n (emit-Starts 20 n [] tt) h b
        (scan-emit 20 n [] (omega (arith, b)) ∙ (unfold scan in refl))
  where
    nonzero : (n : ℕ) → 0 < n → (n == 0) ≡ false
    nonzero n h = ground arith
