-- ===== src/Search/Service.antt =====
-- internal/search/service.go: the types and the simple mode.
use vidra_search.Prelude.{
  ℕ, ◌+◌, ◌-◌, ◌%◌, ◌^◌, ltb, ℤ, pos, negsuc, pos_part, String, Bool, false, Option, none, some,
  List, map, take, length, if◌then◌else◌,
}
use vidra_search.Paging.{limit, offset}
use vidra_search.Index.{opt_str}
use vidra_search.Store.Rows.{Uuid, Float}
use vidra_search.Store.Query.{Outcome, ok, err}
use vidra_search.Experiment.Assign.{Assignment}

pub record Request : Type 0 where
  pub query : String
  pub limit : ℤ
  pub offset : ℤ
  pub tag : String
  pub category : String
  pub language : String
  pub license : String
  pub hide_sensitive : Bool
  pub mode : String
  pub user_id : String
  pub session_id : String
  pub personalized : Bool
  pub skip_count : Bool

pub record Hit : Type 0 where
  pub video_id : String
  pub score : Float

pub record Response : Type 0 where
  pub query : String
  pub ids : List Hit
  pub model_version : String
  pub experiment : Option Assignment
  pub total : Option ℤ
  pub total_is_lower_bound : Bool
  pub has_more : Bool

-- What the queries of a search share.
pub record Filter : Type 0 where
  pub query : String
  pub hide_sensitive : Bool
  pub tag : Option String
  pub category : Option String
  pub language : Option String
  pub license : Option String

pub record SimpleRow : Type 0 where
  pub video_id : Uuid
  pub score : Float

-- `int32(n)` of a number that is not negative.
unfoldable pub int32 : ℕ → ℤ
int32 n = if ltb (n % 2 ^ 32) (2 ^ 31) then pos (n % 2 ^ 32) else negsuc (2 ^ 32 - 1 - n % 2 ^ 32)

abbrev pub default_limit : ℤ
default_limit = pos 20

abbrev pub max_limit : ℤ
max_limit = pos 200

abbrev pub simple_version : String
simple_version = "simple-v1"

abbrev pub filter_of : (normalized : String) → Request → Filter
filter_of normalized req = record {
  query = normalized;
  hide_sensitive = req.hide_sensitive;
  tag = opt_str req.tag;
  category = opt_str req.category;
  language = opt_str req.language;
  license = opt_str req.license;
}

abbrev pub limit_of : Request → ℕ
limit_of req = pos_part (limit req.limit default_limit max_limit)

abbrev pub offset_of : Request → ℕ
offset_of req = pos_part (offset req.offset)

-- SearchSimple and SearchSimpleCount
pub record SimpleQuerier : Type 0 where
  pub search : Filter → (off lim : ℤ) → Outcome (List SimpleRow)
  pub count : Filter → Outcome ℤ

module _ (q : SimpleQuerier) (uuid_string : Uuid → String) where
  abbrev pub hit : SimpleRow → Hit
  hit r = record { video_id = uuid_string r.video_id; score = r.score }

  abbrev pub respond : Request → List SimpleRow → Option ℤ → Response
  respond req rows total = record {
    query = req.query;
    ids = map hit (if ltb (limit_of req) (length rows) then take (limit_of req) rows else rows);
    model_version = simple_version;
    experiment = none;
    total = total;
    total_is_lower_bound = false;
    has_more = ltb (limit_of req) (length rows);
  }

  abbrev pub counted : Request → List SimpleRow → Outcome ℤ → Outcome Response
  counted req rows (ok total) = ok (respond req rows (some total))
  counted req rows (err e) = err e

  abbrev pub with_rows :
      (normalized : String) → Request → Outcome (List SimpleRow) → Outcome Response
  with_rows normalized req (err e) = err e
  with_rows normalized req (ok rows) =
      if req.skip_count
      then ok (respond req rows none)
      else counted req rows (q.count (filter_of normalized req))

  -- searchSimple: one row more than the page is asked for.
  unfoldable pub search_simple : (normalized : String) → Request → Outcome Response
  search_simple normalized req =
      with_rows normalized req
        (q.search (filter_of normalized req) (int32 (offset_of req)) (int32 (limit_of req + 1)))
