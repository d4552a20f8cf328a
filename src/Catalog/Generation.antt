-- ===== src/Catalog/Generation.antt =====
-- internal/catalog/protocol.go: Generation's JSON form, and Identity.
use vidra_search.Prelude.{
  ℕ, ◌^◌, ◌<◌, ◌==◌, ℤ, pos, leb_ℤ, Bool, true, false, ◌||◌, not, Option, none, some, [], ◌∷◌,
  if◌then◌else◌, ◌&&◌, ◌≡◌, refl, ap, ◌∙◌, arith, sym, subst,
}
use vidra_search.Store.Query.{Outcome, ok, err}
use vidra_search.Catalog.Decimal.{Bytes, format_int, parse_int, parse_int-format_int}

-- `json.Marshal` and `json.Unmarshal` of a string.
pub record JsonText : Type 0 where
  pub quote : Bytes → Bytes
  pub unquote : Bytes → Option Bytes

abbrev pub bytes_eq : Bytes → Bytes → Bool
bytes_eq [] [] = true
bytes_eq [] (y ∷ ys) = false
bytes_eq (x ∷ xs) [] = false
bytes_eq (x ∷ xs) (y ∷ ys) = x == y && bytes_eq xs ys

unfoldable pub marshal_generation : JsonText → ℤ → Outcome Bytes
unfolding format_int
marshal_generation j g =
    if leb_ℤ g (pos 0)
    then err "catalog: generation must be positive"
    else ok (j.quote (format_int g))

abbrev invalid : Outcome ℤ
invalid = err "catalog: invalid generation"

-- `n <= 0 || strconv.FormatInt(n, 10) != wire`
abbrev pub accept_generation : Bytes → Option ℤ → Outcome ℤ
accept_generation wire none = invalid
accept_generation wire (some n) =
    if leb_ℤ n (pos 0) || not (bytes_eq (format_int n) wire) then invalid else ok n

abbrev pub read_generation : Option Bytes → Outcome ℤ
read_generation none = err "catalog: generation must be a decimal string"
read_generation (some wire) = accept_generation wire (parse_int wire)

unfoldable pub unmarshal_generation : JsonText → Bytes → Outcome ℤ
unmarshal_generation j raw = read_generation (j.unquote raw)

pub bytes_eq_refl : (s : Bytes) → bytes_eq s s ≡ true
bytes_eq_refl [] = refl
bytes_eq_refl (x ∷ xs) = ground (arith, bytes_eq_refl xs)

pub bytes_eq-path : (s t : Bytes) → bytes_eq s t ≡ true → s ≡ t
bytes_eq-path [] [] h = refl
bytes_eq-path [] (y ∷ ys) h = ground (arith, h)
bytes_eq-path (x ∷ xs) [] h = ground (arith, h)
bytes_eq-path (x ∷ xs) (y ∷ ys) h = ground (arith, bytes_eq-path xs ys)

accept-format_int :
    (n : ℕ) → 0 < n → accept_generation (format_int (pos n)) (some (pos n)) ≡ ok (pos n)
accept-format_int n h =
    ap (λ t. if leb_ℤ (pos n) (pos 0) || not t then invalid else ok (pos n))
      (bytes_eq_refl (format_int (pos n)))
    ∙ ap (λ t. if t || false then invalid else ok (pos n)) (above n h)
  where
    above : (n : ℕ) → 0 < n → leb_ℤ (pos n) (pos 0) ≡ false
    above n h = ground arith

checked :
    (low same : Bool) (wire : Bytes) (n g : ℤ)
    → leb_ℤ n (pos 0) ≡ low
    → bytes_eq (format_int n) wire ≡ same
    → (if low || not same then invalid else ok n) ≡ ok g
    → (leb_ℤ g (pos 0) ≡ false) × (format_int g ≡ wire)
checked true same wire n g e f h = absurd (cc)
checked false false wire n g e f h = absurd (cc)
checked false true wire n g e f h =
    let same : n ≡ g = cc in
    subst (λ m. (leb_ℤ m (pos 0) ≡ false) × (format_int m ≡ wire)) same
      (e, bytes_eq-path (format_int n) wire f)

accepted-canonical :
    (wire : Bytes) (o : Option ℤ) (g : ℤ)
    → accept_generation wire o ≡ ok g
    → (leb_ℤ g (pos 0) ≡ false) × (format_int g ≡ wire)
accepted-canonical wire none g h = absurd (cc)
accepted-canonical wire (some n) g h =
    checked (leb_ℤ n (pos 0)) (bytes_eq (format_int n) wire) wire n g refl refl h

read-canonical :
    (o : Option Bytes) (g : ℤ)
    → read_generation o ≡ ok g
    → (leb_ℤ g (pos 0) ≡ false) × (o ≡ some (format_int g))
read-canonical none g h = absurd (cc)
read-canonical (some wire) g h =
    let (low, same) = accepted-canonical wire (parse_int wire) g h in (low, ap some (sym same))

above : (n : ℕ) → 0 < n → leb_ℤ (pos n) (pos 0) ≡ false
above n h = ground arith

marshal_positive :
    (j : JsonText) (g : ℤ)
    → leb_ℤ g (pos 0) ≡ false
    → marshal_generation j g ≡ ok (j.quote (format_int g))
unfolding marshal_generation
marshal_positive j g e =
    ap (λ t. if t then err "catalog: generation must be positive" else ok (j.quote (format_int g)))
      e

-- Where the JSON texts of decimal prints are read back as those prints, every positive int64
-- generation has a JSON form, and is read back from it.
pub unmarshal-marshal_generation :
    (j : JsonText) (n : ℕ)
    → ((m : ℕ) → j.unquote (j.quote (format_int (pos m))) ≡ some (format_int (pos m)))
    → 0 < n
    → n < 2 ^ 63
    → (wire : Bytes) × (marshal_generation j (pos n) ≡ ok wire)
      × (unmarshal_generation j wire ≡ ok (pos n))
unfolding unmarshal_generation
unmarshal-marshal_generation j n q h b = (
  j.quote (format_int (pos n)),
  marshal_positive j (pos n) (above n h),
  ap read_generation (q n)
      ∙ ap (accept_generation (format_int (pos n))) (parse_int-format_int n h b)
      ∙ accept-format_int n h,
)

-- A JSON text that is read as a generation is a text of its decimal print, without a sign or
-- leading zeros, and the generation is one that has a JSON form: it is positive.
pub unmarshal_generation-canonical :
    (j : JsonText) (raw : Bytes) (g : ℤ)
    → unmarshal_generation j raw ≡ ok g
    → (j.unquote raw ≡ some (format_int g)) × (marshal_generation j g ≡ ok (j.quote (format_int g)))
unfolding unmarshal_generation
unmarshal_generation-canonical j raw g h =
    let (low, same) = read-canonical (j.unquote raw) g h in (same, marshal_positive j g low)
