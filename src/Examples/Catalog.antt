-- ===== src/Examples/Catalog.antt =====
-- The catalog's authority at concrete inputs.
use vidra_search.Prelude.{pos, true, false, none, some, [], ◌∷◌, any, ◌≡◌, refl, arith}
use vidra_search.Catalog.Decimal.{Bytes, emit, format_uint, format_int, scan, parse_uint, parse_int}
use vidra_search.Catalog.Generation.{
  marshal_generation, unmarshal_generation, unmarshal-marshal_generation,
  unmarshal_generation-canonical,
}
use vidra_search.Store.Query.{ok}
use vidra_search.Catalog.Digests.{
  is_sha256, validate_identity, validate_manifest, page_lines, has_invalid, pages_digest,
  documents_digest, membership_digest, good,
}
use vidra_search.Catalog.Tx.{pure, lift, raise, read, write, ◌>>=◌}
use vidra_search.Catalog.Authority.{
  admit_again, admit_new, admit_generation, set_catalog_epoch, new_epoch, move_epoch,
}
use vidra_search.Catalog.Staging.{
  check_page, collides, insert_staged, stage_apart, stage_new, stage_checked, stage_page,
  declare_new, end_admitted, end_checked, stage_end,
}
use vidra_search.Catalog.Activation.{
  drop_own, publish, suppress, project, verify_declared, load_current, load_verified, is_invalid,
  project_all, finish, publish_manifest, activate, complete_snapshot,
}
use vidra_search.Catalog.Intake.{
  apply_page, apply_end, apply_catalog_body, apply_catalog_one, run_catalog, run_batch,
  ingest_catalog,
}
use vidra_search.Catalog.Fence.{HasAuthority, Later}
use vidra_search.Catalog.History.{ingested, set, still, moved, Reaches-HasAuthority}
use vidra_search.Catalog.Completes.{complete_snapshot-Completes}
use vidra_search.Catalog.Observed.{Completes, IsObserved, ordered_pages}
use vidra_search.Catalog.Snapshot.{collect_page, collect, check_ledgers, verify_snapshot}
use vidra_search.Catalog.Verified.{verify_snapshot-IsWhole}
use vidra_search.Catalog.Whole.{IsWhole}
use vidra_search.Catalog.Publishing.{complete_snapshot-runs}
use vidra_search.Prelude.Sort.{insert, stable_sort}
use vidra_search.Store.Tables.{upsert, update_where}
use vidra_search.Catalog.Snapshot.{collect_page, collect, check_ledgers}
use vidra_search.Catalog.Budgets.{IsWithin, stage_page-IsWithin}
use vidra_search.Examples.CatalogWorld.{
  first_page, json, host, identity, manifest, parsers, delivery, fresh, opened, staged, published,
  scope_at_start, slot, codec,
}

opens : set_catalog_epoch host 7 none "local" fresh ≡ good (tt, opened)
unfolding set_catalog_epoch new_epoch move_epoch raise read write pure ◌>>=◌ any
opens = refl

delivers : ingest_catalog host parsers delivery opened ≡ good ((2, []), published)
unfolding emit format_uint format_int is_sha256 validate_identity validate_manifest page_lines
    has_invalid pages_digest documents_digest membership_digest pure lift raise read write ◌>>=◌
    admit_again admit_new admit_generation check_page collides insert_staged stage_apart stage_new
    stage_checked stage_page declare_new end_admitted end_checked stage_end collect_page collect
    check_ledgers verify_snapshot verify_declared load_current load_verified is_invalid project_all
    finish publish_manifest activate complete_snapshot apply_page apply_end apply_catalog_body
    apply_catalog_one run_catalog run_batch ingest_catalog any stable_sort insert upsert
    update_where
delivers = refl

Reaches-HasAuthority_example : HasAuthority published × Later fresh published
Reaches-HasAuthority_example = Reaches-HasAuthority fresh published tt (
    moved (moved still (set host 7 none "local" opens))
      (ingested host parsers delivery (2, []) delivers))

completes : complete_snapshot host identity staged ≡ good (true, published)
unfolding emit format_uint format_int is_sha256 validate_identity validate_manifest page_lines
    has_invalid pages_digest documents_digest membership_digest pure lift raise read write ◌>>=◌
    admit_again admit_new admit_generation check_page collides insert_staged stage_apart stage_new
    stage_checked stage_page declare_new end_admitted end_checked stage_end collect_page collect
    check_ledgers verify_snapshot verify_declared load_current load_verified is_invalid project_all
    finish publish_manifest activate complete_snapshot apply_page apply_end apply_catalog_body
    apply_catalog_one run_catalog run_batch ingest_catalog any stable_sort insert upsert
    update_where
completes = refl

complete_snapshot-Completes_example : Completes host identity staged true published
complete_snapshot-Completes_example =
    complete_snapshot-Completes host identity staged published true completes

verifies : verify_snapshot codec manifest (ordered_pages staged) 1 ≡ good tt
unfolding emit format_uint format_int is_sha256 validate_identity validate_manifest page_lines
    has_invalid pages_digest documents_digest membership_digest pure lift raise read write ◌>>=◌
    admit_again admit_new admit_generation check_page collides insert_staged stage_apart stage_new
    stage_checked stage_page declare_new end_admitted end_checked stage_end collect_page collect
    check_ledgers verify_snapshot verify_declared load_current load_verified is_invalid project_all
    finish publish_manifest activate complete_snapshot apply_page apply_end apply_catalog_body
    apply_catalog_one run_catalog run_batch ingest_catalog any stable_sort insert upsert
    update_where
verifies = refl

verify_snapshot-IsWhole_example : IsWhole codec manifest (ordered_pages staged) 1
verify_snapshot-IsWhole_example =
    verify_snapshot-IsWhole codec manifest (ordered_pages staged) 1 verifies

is_valid : validate_identity identity ≡ good tt
unfolding validate_identity
is_valid = refl

is_clear : is_invalid host staged ≡ false
unfolding is_invalid any
is_clear = refl

observed : IsObserved host identity staged (record scope_at_start { highest = 5 }) manifest
observed = record {
  current = refl;
  epoch = refl;
  highest = refl;
  pending = slot;
  held = refl;
  fresh = refl;
  declared = refl;
  verified = verifies;
}

complete_snapshot-runs_example :
    complete_snapshot host identity staged
    ≡ good (
      true,
      drop_own host identity (publish host identity manifest (suppress host (project host staged))),
    )
complete_snapshot-runs_example =
    complete_snapshot-runs host identity staged (record scope_at_start { highest = 5 }) manifest
      (λ st x. refl) is_valid observed (omega arith) is_clear

unmarshal-marshal_generation_example :
    (wire : Bytes) × (marshal_generation json (pos 42) ≡ ok wire)
    × (unmarshal_generation json wire ≡ ok (pos 42))
unmarshal-marshal_generation_example =
    unmarshal-marshal_generation json 42 (λ s. refl) (omega arith) (omega arith)

reads : unmarshal_generation json (34 ∷ 52 ∷ 50 ∷ []) ≡ ok (pos 42)
unfolding unmarshal_generation parse_int parse_uint scan format_int format_uint emit
reads = refl

unmarshal_generation-canonical_example :
    (json.unquote (34 ∷ 52 ∷ 50 ∷ []) ≡ some (format_int (pos 42)))
    × (marshal_generation json (pos 42) ≡ ok (json.quote (format_int (pos 42))))
unmarshal_generation-canonical_example =
    unmarshal_generation-canonical json (34 ∷ 52 ∷ 50 ∷ []) (pos 42) reads

stages :
    stage_page host identity first_page "page" opened
    ≡ good (tt, record staged { snapshot = some (record slot { declared = none }) })
unfolding emit format_uint format_int is_sha256 validate_identity validate_manifest page_lines
    has_invalid pages_digest documents_digest membership_digest pure lift raise read write ◌>>=◌
    admit_again admit_new admit_generation check_page collides insert_staged stage_apart stage_new
    stage_checked stage_page declare_new end_admitted end_checked stage_end collect_page collect
    check_ledgers verify_snapshot verify_declared load_current load_verified is_invalid project_all
    finish publish_manifest activate complete_snapshot apply_page apply_end apply_catalog_body
    apply_catalog_one run_catalog run_batch ingest_catalog any stable_sort insert upsert
    update_where
stages = refl

stage_page-IsWithin_example : IsWithin (some (record slot { declared = none }))
stage_page-IsWithin_example =
    stage_page-IsWithin host identity first_page "page" opened
      (record staged { snapshot = some (record slot { declared = none }) }) tt stages
