-- ===== src/Catalog/Verified.antt =====
-- internal/catalog: VerifySnapshot, against a description of a snapshot that is whole.
use vidra_search.Prelude.{
  ℕ, ◌+◌, ◌≤◌, ltb, ◌==◌, ==_iff, ℤ, pos, ltb_ℤ, String, Bool, true, false, not, ◌||◌, Option, none,
  some, List, [], ◌∷◌, ◌++◌, append_assoc, append-nil, length, map, str_eq, eq_iff, ◌≡◌, sym, ap,
  subst, ◌∙◌, arith,
}
use vidra_search.Prelude.Sort.{stable_sort}
use vidra_search.Store.Rows.{Uuid}
use vidra_search.Catalog.Decimal.{Bytes}
use vidra_search.Catalog.Digests.{
  Manifest, Codec, good, documents_digest, hashed, membership_digest, pages_digest, page_lines,
  index_less, has_invalid, validate_manifest, eq_ℤ,
}
use vidra_search.Catalog.Staging.{max_snapshot_bytes, max_documents, max_pages, member}
use vidra_search.Catalog.Snapshot.{
  SnapshotPage, Collected, nothing, content_of, counted_ids, collect_ids, collect_page, collect,
  equals, check_ledgers, verify_snapshot,
}
use vidra_search.Catalog.Whole.{
  empty, page, IsNumbered, Holds, IsWhole, and_then_good, if_good, else_good, good_path, eq_ℤ-path,
  page_lines-IsNumbered, has_invalid-IsDistinct,
}

-- What one round adds.
collect_page-adds :
    (k : Codec) (p : SnapshotPage) (c d : Collected)
    → collect_page k p c ≡ good d
    → (bytes : Bytes) × (us : List Uuid) × (k.canonical p.documents ≡ some bytes)
      × (k.sha256_hex bytes ≡ p.digest.content_sha256)
      × (k.members bytes ≡ some us)
      × (length us ≡ p.document_count)
      × (d ≡ collect_ids p c bytes us)
unfolding collect_page documents_digest
collect_page-adds k p c d e =
    let ((bytes, digest), e1, e2) = and_then_good (documents_digest k p.documents) _ d e in
    let (whole, e3, e4) = and_then_good (content_of p (bytes, digest)) _ d e2 in
    let (us, e5, e6) = and_then_good (counted_ids p (k.members whole)) _ d e4 in
    let (q1, q2) = canonical (k.canonical p.documents) bytes digest e1 in
    let (q3, q4) = else_good (str_eq digest p.digest.content_sha256) _ _ whole e3 in
    let (q5, q6) = counted (k.members whole) us e5 in
    let (q7, q8) =
      if_good
        (ltb max_snapshot_bytes (collect_ids p c whole us).charged
          || ltb max_documents (length (collect_ids p c whole us).ids))
        _ _ d e6 in
    let same : bytes ≡ whole = good_path bytes whole q4 in
    (
      whole,
      us,
      q1 ∙ ap some same,
      ap k.sha256_hex (sym same) ∙ q2 ∙ (eq_iff digest p.digest.content_sha256).0 q3,
      q5,
      q6,
      sym (good_path _ d q8),
    )
  where
    canonical :
        (o : Option Bytes) (bytes : Bytes) (digest : String)
        → hashed k o ≡ good (bytes, digest)
        → (o ≡ some bytes) × (k.sha256_hex bytes ≡ digest)
    canonical none bytes digest e = absurd (cc)
    canonical (some b) bytes digest e =
        let same : ◌≡◌ {A = Bytes × String} (b, k.sha256_hex b) (bytes, digest) = good_path _ _ e in
        (ap (λ x. some x.0) same, ap k.sha256_hex (sym (ap (λ x. x.0) same)) ∙ ap (λ x. x.1) same)

    agrees : (a b : ℕ) → (a == 0 || not (a == b)) ≡ false → a ≡ b
    agrees a b e = ground (arith, e)

    counted :
        (o : Option (List Uuid)) (us : List Uuid)
        → counted_ids p o ≡ good us
        → (o ≡ some us) × (length us ≡ p.document_count)
    counted none us e = absurd (cc)
    counted (some vs) us e =
        let (n, e2) = if_good (length vs == 0 || not (length vs == p.document_count)) _ _ us e in
        let same : vs ≡ us = good_path vs us e2 in
        (ap some same, ap length (sym same) ∙ agrees (length vs) p.document_count n)

collect-Holds :
    (k : Codec) (ps : List SnapshotPage) (c d : Collected)
    → collect k ps c ≡ good d
    → (ids : List Uuid) × (size : ℕ) × Holds k ps ids size
      × (d.ids ≡ c.ids ++ ids)
      × (d.digests ≡ c.digests ++ map (λ p. p.digest) ps)
      × (d.charged ≡ c.charged + size)
unfolding collect
collect-Holds k [] c d e =
    let same : c ≡ d = good_path c d e in
    (
      [],
      0,
      empty,
      ap (λ x. x.ids) (sym same) ∙ sym (append-nil c.ids),
      ap (λ x. x.digests) (sym same) ∙ sym (append-nil c.digests),
      added c.charged d.charged (ap (λ x. x.charged) same),
    )
  where
    added : (a b : ℕ) → a ≡ b → b ≡ a + 0
    added a b e = omega (arith, e)
collect-Holds k (p ∷ ps) c d e =
    let (mid, e1, e2) = and_then_good (collect_page k p c) _ d e in
    let (bytes, us, q1, q2, q3, q4, q5) = collect_page-adds k p c mid e1 in
    let (ids, size, holds, i, g, n) = collect-Holds k ps mid d e2 in
    (
      us ++ ids,
      length bytes + size,
      page p bytes us q1 q2 q3 q4 holds,
      i ∙ ap (λ x. x.ids ++ ids) q5 ∙ append_assoc c.ids us ids,
      g
          ∙ ap (λ x. x.digests ++ map (λ p. p.digest) ps) q5
          ∙ append_assoc c.digests (p.digest ∷ []) (map (λ p. p.digest) ps),
      sum d.charged mid.charged c.charged (length bytes) size n (ap (λ x. x.charged) q5),
    )
  where
    sum : (d m c b s : ℕ) → d ≡ m + s → m ≡ c + b → d ≡ c + (b + s)
    sum d m c b s p q = omega (arith, p, q)

-- A persisted snapshot that passes the verification is whole: its pages are numbered from 0 without a
-- gap and are as many as the manifest says; each holds canonical documents with the digest and the
-- count that it says; the ids are not nil, distinct and as many as the manifest says; the digests of
-- the members and of the pages are the manifest's; the canonical bytes are those that were charged;
-- and the budgets are kept.
pub verify_snapshot-IsWhole :
    (k : Codec) (m : Manifest) (pages : List SnapshotPage) (canonical_bytes : ℕ)
    → verify_snapshot k m pages canonical_bytes ≡ good tt
    → IsWhole k m pages canonical_bytes
unfolding verify_snapshot check_ledgers membership_digest pages_digest
verify_snapshot-IsWhole k m pages canonical_bytes e =
    let (u, v, e1) = and_then_good (validate_manifest m) _ tt e in
    let (over, e2) =
      if_good
        (ltb_ℤ (pos max_pages) m.page_count
          || ltb_ℤ (pos max_documents) m.document_count
          || not (eq_ℤ (pos (length pages)) m.page_count)
          || ltb max_snapshot_bytes canonical_bytes)
        _ _ tt e1 in
    let (c, e3, e4) = and_then_good (collect k pages nothing) _ tt e2 in
    let (ids, size, holds, i, g, charged) = collect-Holds k pages nothing c e3 in
    let (ledger, e5) =
      if_good
        (not (c.charged == canonical_bytes) || not (eq_ℤ (pos (length c.ids)) m.document_count)) _ _
        tt e4 in
    let (member, e6, e7) = and_then_good (membership_digest k c.ids) _ tt e5 in
    let (w, e8, e9) =
      and_then_good (equals k "catalog: snapshot membership mismatch" member m.membership_sha256) _
        tt e7 in
    let (content, e10, e11) = and_then_good (pages_digest k c.digests) _ tt e9 in
    let (valid, e12) = if_good (has_invalid [] c.ids) _ _ member e6 in
    let (lines, e13, e14) =
      and_then_good (page_lines 0 (stable_sort index_less c.digests)) _ content e10 in
    let bytes : c.charged ≡ canonical_bytes =
      (==_iff c.charged canonical_bytes).0
        (left (c.charged == canonical_bytes) (eq_ℤ (pos (length c.ids)) m.document_count) ledger) in
    let documents : pos (length c.ids) ≡ m.document_count =
      eq_ℤ-path _ _ (
        right (c.charged == canonical_bytes) (eq_ℤ (pos (length c.ids)) m.document_count) ledger) in
    let count : pos (length pages) ≡ m.page_count = eq_ℤ-path _ _ (
      third (ltb_ℤ (pos max_pages) m.page_count) (ltb_ℤ (pos max_documents) m.document_count)
        (eq_ℤ (pos (length pages)) m.page_count) _ over) in
    record {
      ids = c.ids;
      holds =
          subst (λ x. Holds k pages x canonical_bytes) (sym i)
            (subst (Holds k pages ids) (total size c.charged canonical_bytes charged bytes) holds);
      page_count = sym count;
      document_count = sym documents;
      distinct = (has_invalid-IsDistinct [] c.ids valid).0;
      membership = e6 ∙ ap good (equal _ member m.membership_sha256 e8);
      numbered =
          subst (λ x. IsNumbered 0 (stable_sort index_less x)) g
            (page_lines-IsNumbered 0 _ lines e13);
      content = ap (pages_digest k) (sym g) ∙ e10 ∙ ap good (equal _ content m.pages_sha256 e11);
      budget = (
        under canonical_bytes max_snapshot_bytes (
            fourth (ltb_ℤ (pos max_pages) m.page_count) (ltb_ℤ (pos max_documents) m.document_count)
              (eq_ℤ (pos (length pages)) m.page_count) _ over),
        within (length c.ids) max_documents m.document_count documents (
            second (ltb_ℤ (pos max_pages) m.page_count) _ (eq_ℤ (pos (length pages)) m.page_count) _
              over),
        within (length pages) max_pages m.page_count count (
            first _ (ltb_ℤ (pos max_documents) m.document_count)
              (eq_ℤ (pos (length pages)) m.page_count) _ over),
      );
    }
  where
    total : (s c n : ℕ) → c ≡ 0 + s → c ≡ n → s ≡ n
    total s c n p q = omega (arith, p, q)

    left : (a b : Bool) → (not a || not b) ≡ false → a ≡ true
    left a b e = ground (arith, e)

    right : (a b : Bool) → (not a || not b) ≡ false → b ≡ true
    right a b e = ground (arith, e)

    third : (a b c d : Bool) → (a || b || not c || d) ≡ false → c ≡ true
    third a b c d e = ground (arith, e)

    equal : (what a b : String) → equals k what a b ≡ good tt → a ≡ b
    equal what a b e = (eq_iff a b).0 (else_good (str_eq a b) _ _ tt e).0

    first : (a b c d : Bool) → (a || b || not c || d) ≡ false → a ≡ false
    first a b c d e = ground (arith, e)

    second : (a b c d : Bool) → (a || b || not c || d) ≡ false → b ≡ false
    second a b c d e = ground (arith, e)

    fourth : (a b c d : Bool) → (a || b || not c || d) ≡ false → d ≡ false
    fourth a b c d e = ground (arith, e)

    under : (a b : ℕ) → ltb b a ≡ false → a ≤ b
    under a b e = ground (arith, e)

    below : (n bound : ℕ) → ltb_ℤ (pos bound) (pos n) ≡ false → n ≤ bound
    below n bound e = ground (arith, e)

    within : (n bound : ℕ) (z : ℤ) → pos n ≡ z → ltb_ℤ (pos bound) z ≡ false → n ≤ bound
    within n bound z p e = below n bound (ap (ltb_ℤ (pos bound)) p ∙ e)
