-- ===== src/Catalog/Digests.antt =====
-- internal/catalog: Identity and MembershipDigest of protocol.go, DocumentsDigest and PagesDigest of
-- hashes.go, Manifest of validation.go, VerifySnapshot of snapshot.go.
use vidra_search.Prelude.{
  codes, ℕ, suc, ◌==◌, ℤ, pos, negsuc, ltb_ℤ, leb, String, Bool, true, false, ◌&&◌, ◌||◌, not,
  Option, none, some, List, [], ◌∷◌, ◌++◌, any, length, str_eq, if◌then◌else◌,
}
use vidra_search.Prelude.Sort.{stable_sort}
use vidra_search.Store.Rows.{Uuid}
use vidra_search.Catalog.Decimal.{Bytes, format_int}

-- What goes wrong, as far as callers tell it apart.
pub data CatalogError : Type 0 where
  invalid conflict quota : String → CatalogError
  already_completed : CatalogError
  sql : String → CatalogError

pub data Checked {ℓ} (A : Type ℓ) : Type ℓ where
  good : A → Checked A
  bad : CatalogError → Checked A

abbrev pub and_then : {A B : Type 0} → Checked A → (A → Checked B) → Checked B
and_then (good a) f = f a
and_then (bad e) f = bad e

-- SHA-256 in hexadecimal, the canonical form of a JSON array of documents where the text is one, the
-- video ids of the canonical form, and the order and the bytes of uuid texts.
pub record Codec : Type 0 where
  pub sha256_hex : Bytes → String
  pub canonical : String → Option Bytes
  pub members : Bytes → Option (List Uuid)
  pub uuid_bytes : Uuid → Bytes
  pub uuid_less : Uuid → Uuid → Bool

abbrev pub is_lower_hex : ℕ → Bool
is_lower_hex c = (leb 48 c && leb c 57) || (leb 97 c && leb c 102)

abbrev pub every : (ℕ → Bool) → Bytes → Bool
every p [] = true
every p (c ∷ cs) = p c && every p cs

-- The hexadecimal of 32 bytes, in lower case.
unfoldable pub is_sha256 : String → Bool
is_sha256 s = length (codes s) == 64 && every is_lower_hex (codes s)

pub record Identity : Type 0 where
  pub scope : String
  pub epoch : Uuid
  -- a Generation is decoded from a positive number; 0 is Go's zero value
  pub generation : ℕ

unfoldable pub validate_identity : Identity → Checked (Unit {0})
validate_identity v =
    if not (str_eq v.scope "local")
    then bad (invalid "catalog: unsupported scope")
    else if v.epoch == 0 || v.generation == 0
    then bad (invalid "catalog: missing observation fence")
    else good tt

pub record Manifest : Type 0 where
  pub page_count : ℤ
  pub document_count : ℤ
  pub membership_sha256 : String
  pub pages_sha256 : String

abbrev pub eq_ℤ : ℤ → ℤ → Bool
eq_ℤ (pos m) (pos n) = m == n
eq_ℤ (pos m) (negsuc n) = false
eq_ℤ (negsuc m) (pos n) = false
eq_ℤ (negsuc m) (negsuc n) = m == n

abbrev pub is_zero : ℤ → Bool
is_zero a = eq_ℤ a (pos 0)

abbrev pub same_test : Bool → Bool → Bool
same_test true b = b
same_test false b = not b

abbrev pub eq_manifest : Manifest → Manifest → Bool
eq_manifest m n =
    eq_ℤ m.page_count n.page_count
    && eq_ℤ m.document_count n.document_count
    && str_eq m.membership_sha256 n.membership_sha256
    && str_eq m.pages_sha256 n.pages_sha256

abbrev pub empty_sha256 : String
empty_sha256 = "e3b0c44298fc1c149afbf4c8996fb92427ae41e4649b934ca495991b7852b855"

unfoldable pub validate_manifest : Manifest → Checked (Unit {0})
validate_manifest m =
    if ltb_ℤ m.page_count (pos 0)
      || ltb_ℤ m.document_count (pos 0)
      || ltb_ℤ m.document_count m.page_count
      || not (same_test (is_zero m.page_count) (is_zero m.document_count))
    then bad (invalid "catalog: inconsistent manifest counts")
    else if not (is_sha256 m.membership_sha256 && is_sha256 m.pages_sha256)
    then bad (invalid "catalog: manifest requires lowercase SHA-256 digests")
    else if is_zero m.page_count
        && (not (str_eq m.membership_sha256 empty_sha256)
            || not (str_eq m.pages_sha256 empty_sha256))
    then bad (invalid "catalog: empty manifest requires empty digests")
    else good tt

pub record PageDigest : Type 0 where
  pub page_index : ℤ
  pub content_sha256 : String

-- The loop over the ordered pages, at place `i`: the bytes that are hashed.
unfoldable pub page_lines : (i : ℕ) → List PageDigest → Checked Bytes
unfolding is_sha256
page_lines i [] = good []
page_lines i (p ∷ ps) =
    let rest = page_lines (suc i) ps in
    if not (eq_ℤ p.page_index (pos i)) || not (length (codes p.content_sha256) == 64)
    then bad (invalid "catalog: incomplete or invalid page sequence")
    else if not (is_sha256 p.content_sha256)
    then bad (invalid "catalog: invalid canonical page digest")
    else and_then rest
        (λ bytes. good (format_int p.page_index ++ 58 ∷ codes p.content_sha256 ++ 10 ∷ bytes))

abbrev pub index_less : PageDigest → PageDigest → Bool
index_less p q = ltb_ℤ p.page_index q.page_index

-- The loop over the ids: none is nil, and none was seen.
unfoldable pub has_invalid : (seen ids : List Uuid) → Bool
has_invalid seen [] = false
has_invalid seen (u ∷ us) = u == 0 || any (λ v. v == u) seen || has_invalid (u ∷ seen) us

module _ (k : Codec) where
  -- Pages of the same index fail the sequence in whatever order the sort leaves them.
  unfoldable pub pages_digest : List PageDigest → Checked String
  unfolding page_lines
  pages_digest pages =
      and_then (page_lines 0 (stable_sort index_less pages)) (λ bytes. good (k.sha256_hex bytes))

  abbrev pub hashed : Option Bytes → Checked (Bytes × String)
  hashed none = bad (invalid "catalog: documents must be a JSON array")
  hashed (some bytes) = good (bytes, k.sha256_hex bytes)

  -- DocumentsDigest: the canonical bytes and their digest.
  unfoldable pub documents_digest : String → Checked (Bytes × String)
  documents_digest raw = hashed (k.canonical raw)

  abbrev pub id_lines : List Uuid → Bytes
  id_lines [] = []
  id_lines (u ∷ us) = k.uuid_bytes u ++ 10 ∷ id_lines us

  unfoldable pub membership_digest : List Uuid → Checked String
  unfolding has_invalid
  membership_digest ids =
      if has_invalid [] ids
      then bad (invalid "catalog: invalid or duplicate membership ID")
      else good (k.sha256_hex (id_lines (stable_sort k.uuid_less ids)))
