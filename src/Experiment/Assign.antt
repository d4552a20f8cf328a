-- ===== src/Experiment/Assign.antt =====
-- internal/experiment/experiment.go: Registry.Refresh, Registry.Assign, SubjectOf and Bucket. Of Go's
-- `hash/fnv` and of strings the bytes are a parameter.
use Prim.Native.Nat.{bit_xor}
use vidra_search.Prelude.{
  ℕ, ◌*◌, ◌%◌, ◌^◌, ℤ, pos, leb_ℤ, ltb_ℤ, String, Bool, ◌&&◌, Option, none, some, List, [], ◌∷◌,
  str_eq, if◌then◌else◌,
}
use vidra_search.Prelude.Sort.{stable_sort}
use vidra_search.Store.Query.{Outcome, ok, err, Error}

pub record Variant : Type 0 where
  pub name : String
  pub min : ℤ
  pub max : ℤ
  pub model_version : String

pub record Experiment : Type 0 where
  pub key : String
  pub salt : String
  pub variants : List Variant

pub record Assignment : Type 0 where
  pub experiment : String
  pub variant : String
  pub bucket : ℤ
  pub model_version : String

-- sqlcgen.SearchExperiment, as far as it is read; `variants` is JSON.
pub record ExperimentRow : Type 0 where
  pub key : String
  pub salt : String
  pub variants : String

-- The map by key; an earlier entry stands over a later one of the same key.
abbrev pub Cache : Type 0
Cache = List Experiment

unfoldable pub lookup : String → Cache → Option Experiment
lookup k [] = none
lookup k (e ∷ es) = let rest = lookup k es in if str_eq e.key k then some e else rest

abbrev pub min_less : Variant → Variant → Bool
min_less v w = ltb_ℤ v.min w.min

-- `json.Unmarshal` into a slice of variants, run unless the column is empty.
abbrev pub variants_of : (String → Outcome (List Variant)) → String → Outcome (List Variant)
variants_of decode raw = if str_eq raw "" then ok [] else decode raw

-- One row of the store, put into the map; one with bad JSON is skipped.
unfoldable pub put_row : ExperimentRow → Outcome (List Variant) → Cache → Cache
put_row row (err e) next = next
put_row row (ok vs) next =
    record { key = row.key; salt = row.salt; variants = stable_sort min_less vs } ∷ next

unfoldable pub put_rows : (String → Outcome (List Variant)) → List ExperimentRow → Cache → Cache
put_rows decode [] next = next
put_rows decode (r ∷ rs) next = put_rows decode rs (put_row r (variants_of decode r.variants) next)

-- Refresh: the error, and the cache after it.
unfoldable pub refresh :
    (String → Outcome (List Variant)) → Outcome (List ExperimentRow) → Cache → Option Error × Cache
refresh decode (err e) cache = (some e, cache)
refresh decode (ok rows) cache = (none, put_rows decode rows [])

-- fnv.New64a over bytes.
abbrev pub fnv_offset : ℕ
fnv_offset = 14695981039346656037

abbrev pub fnv_prime : ℕ
fnv_prime = 1099511628211

unfoldable pub fnv1a : (hash : ℕ) → List ℕ → ℕ
fnv1a hash [] = hash
fnv1a hash (b ∷ bs) = fnv1a ((bit_xor hash b * fnv_prime) % 2 ^ 64) bs

unfoldable pub bucket_of : (bytes : String → List ℕ) → (salt subject : String) → ℕ
bucket_of bytes salt subject =
    fnv1a (fnv1a (fnv1a fnv_offset (bytes salt)) (0 ∷ [])) (bytes subject) % 100

-- The first variant whose range holds the bucket.
unfoldable pub first_variant : ℕ → List Variant → Option Variant
first_variant b [] = none
first_variant b (v ∷ vs) =
    let rest = first_variant b vs in
    if leb_ℤ v.min (pos b) && ltb_ℤ (pos b) v.max then some v else rest

abbrev pub assigned : (key : String) → (bucket : ℕ) → Option Variant → Option Assignment
assigned key b none = none
assigned key b (some v) =
    some (record {
      experiment = key;
      variant = v.name;
      bucket = pos b;
      model_version = v.model_version;
    })

abbrev pub assign_in :
    (bytes : String → List ℕ) → (key subject : String) → Option Experiment → Option Assignment
assign_in bytes key subject none = none
assign_in bytes key subject (some e) =
    let b = bucket_of bytes e.salt subject in assigned key b (first_variant b e.variants)

unfoldable pub assign :
    (bytes : String → List ℕ) → Cache → (key subject : String) → Option Assignment
assign bytes cache key subject =
    if str_eq subject "" then none else assign_in bytes key subject (lookup key cache)

abbrev pub subject_of_request : (user_id session_id : String) → String
subject_of_request user_id session_id = if str_eq user_id "" then session_id else user_id
