-- ===== src/Catalog/Whole.antt =====
-- internal/catalog: a snapshot that is whole, and what the checks on digests and ids ensure.
use vidra_search.Prelude.{
  codes, ℕ, suc, ◌+◌, ◌≤◌, ◌==◌, ==_iff, ==_refl, ℤ, pos, negsuc, Bool, true, false, not, ◌||◌,
  some, List, [], ◌∷◌, ◌++◌, any, length, map, ◌≡◌, ◌≢◌, refl, ap, arith, Bool-cases, inl, inr,
  if◌then◌else◌,
}
use vidra_search.Prelude.Sort.{stable_sort}
use vidra_search.Store.Rows.{Uuid}
use vidra_search.Catalog.Decimal.{Bytes}
use vidra_search.Catalog.Digests.{
  Manifest, PageDigest, Codec, CatalogError, Checked, good, bad, and_then, membership_digest,
  pages_digest, page_lines, index_less, has_invalid, eq_ℤ, is_sha256,
}
use vidra_search.Catalog.Staging.{max_snapshot_bytes, max_documents, max_pages, member}
use vidra_search.Catalog.Snapshot.{SnapshotPage}

-- No id is nil, and none stands twice.
abbrev pub IsDistinct : List Uuid → Type 0
IsDistinct [] = Unit
IsDistinct (u ∷ us) = (u ≢ 0) × (member u us ≡ false) × IsDistinct us

-- The pages are those from `i` on, without a gap.
abbrev pub IsNumbered : ℕ → List PageDigest → Type 0
IsNumbered i [] = Unit
IsNumbered i (p ∷ ps) = (p.page_index ≡ pos i) × IsNumbered (suc i) ps

-- The pages hold these ids in this order, and so many canonical bytes; each has the digest and the
-- count that it says.
pub data Holds (k : Codec) : List SnapshotPage → List Uuid → ℕ → Type 0 where
  empty : Holds k [] [] 0
  page :
      {pages : List SnapshotPage} {ids : List Uuid} {size : ℕ} (p : SnapshotPage) (bytes : Bytes)
      (us : List Uuid)
      → k.canonical p.documents ≡ some bytes
      → k.sha256_hex bytes ≡ p.digest.content_sha256
      → k.members bytes ≡ some us
      → length us ≡ p.document_count
      → Holds k pages ids size
      → Holds k (p ∷ pages) (us ++ ids) (length bytes + size)

-- A snapshot that is all there is of what its manifest declares.
pub record IsWhole (k : Codec) (m : Manifest) (pages : List SnapshotPage) (canonical_bytes : ℕ)
    : Type 0 where
  pub ids : List Uuid
  pub holds : Holds k pages ids canonical_bytes
  pub page_count : m.page_count ≡ pos (length pages)
  pub document_count : m.document_count ≡ pos (length ids)
  pub distinct : IsDistinct ids
  pub membership : membership_digest k ids ≡ good m.membership_sha256
  pub numbered : IsNumbered 0 (stable_sort index_less (map (λ p. p.digest) pages))
  pub content : pages_digest k (map (λ p. p.digest) pages) ≡ good m.pages_sha256
  pub budget :
      (canonical_bytes ≤ max_snapshot_bytes)
      × (length ids ≤ max_documents)
      × (length pages ≤ max_pages)

module _ {A B : Type 0} where
  pub and_then_good :
      (x : Checked A) (f : A → Checked B) (b : B)
      → and_then x f ≡ good b
      → (a : A) × (x ≡ good a) × (f a ≡ good b)
  and_then_good (good a) f b e = (a, refl, e)
  and_then_good (bad c) f b e = absurd (cc)

pub if_good :
    {A : Type 0} (t : Bool) (e : CatalogError) (x : Checked A) (a : A)
    → (if t then bad e else x) ≡ good a
    → (t ≡ false) × (x ≡ good a)
if_good true e x a p = absurd (cc)
if_good false e x a p = (refl, p)

pub else_good :
    {A : Type 0} (t : Bool) (e : CatalogError) (x : Checked A) (a : A)
    → (if t then x else bad e) ≡ good a
    → (t ≡ true) × (x ≡ good a)
else_good true e x a p = (refl, p)
else_good false e x a p = absurd (cc)

pub good_path : {A : Type 0} (a b : A) → Checked.good a ≡ good b → a ≡ b
good_path a b e = cc

pub eq_ℤ-path : (a b : ℤ) → eq_ℤ a b ≡ true → a ≡ b
eq_ℤ-path (pos m) (pos n) e = ap pos ((==_iff m n).0 e)
eq_ℤ-path (pos m) (negsuc n) e = absurd (ground (arith, e))
eq_ℤ-path (negsuc m) (pos n) e = absurd (ground (arith, e))
eq_ℤ-path (negsuc m) (negsuc n) e = ap negsuc ((==_iff m n).0 e)

pub page_lines-IsNumbered :
    (i : ℕ) (ps : List PageDigest) (b : Bytes) → page_lines i ps ≡ good b → IsNumbered i ps
unfolding page_lines
page_lines-IsNumbered i [] b e = tt
page_lines-IsNumbered i (p ∷ ps) b e =
    let (first, e1) =
      if_good (not (eq_ℤ p.page_index (pos i)) || not (length (codes p.content_sha256) == 64)) _ _ b
        e in
    let (second, e2) = if_good (not (is_sha256 p.content_sha256)) _ _ b e1 in
    let (rest, e3, e4) = and_then_good (page_lines (suc i) ps) _ b e2 in
    (
      eq_ℤ-path p.page_index (pos i)
          (kept (eq_ℤ p.page_index (pos i)) (length (codes p.content_sha256) == 64) first),
      page_lines-IsNumbered (suc i) ps rest e3,
    )
  where
    kept : (a b : Bool) → (not a || not b) ≡ false → a ≡ true
    kept true b e = refl
    kept false b e = absurd (ground (arith, e))

pub has_invalid-IsDistinct :
    (seen ids : List Uuid)
    → has_invalid seen ids ≡ false
    → IsDistinct ids × ((v : Uuid) → member v seen ≡ true → member v ids ≡ false)
unfolding has_invalid any
has_invalid-IsDistinct seen [] e = (tt, λ v m. refl)
has_invalid-IsDistinct seen (u ∷ us) e =
    let rest = has_invalid-IsDistinct (u ∷ seen) us (third (u == 0) (member u seen) _ e) in
    (
      (λ p. nonzero (member u seen) _ e p, rest.1 u (ground (arith, ==_refl u)), rest.0),
      λ v m. other v m (second (u == 0) (member u seen) _ e) (rest.1 v (ground (arith, m))),
    )
  where
    nonzero : (b c : Bool) → (u == 0 || b || c) ≡ false → u ≡ 0 → ⊥
    nonzero b c e p = ground (arith, e, p)

    second : (a b c : Bool) → (a || b || c) ≡ false → b ≡ false
    second a b c e = ground (arith, e)

    third : (a b c : Bool) → (a || b || c) ≡ false → c ≡ false
    third a b c e = ground (arith, e)

    other :
        (v : Uuid)
        → member v seen ≡ true
        → member u seen ≡ false
        → member v us ≡ false
        → (u == v || member v us) ≡ false
    other v m n e = elim (Bool-cases (u == v)) [
      | inl p ↦
          let same = ap (λ w. member w seen) ((==_iff u v).0 p) in
          absurd (ground (arith, m, n, same))
      | inr p ↦ ground (arith, p, e)
    ]
