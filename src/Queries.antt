-- ===== src/Queries.antt =====
-- The queries and mutations of the dashboard, frontend/src/api/hooks.ts. Running them is the query
-- library's: a hook is the key, the request and whether it is enabled, a mutation the request and the
-- filters of the queries that its success invalidates.
pub mod Cache
pub mod Retry
pub mod Sharing
use energlens.Common.{
  Bool, true, false, Option, none, some, List, [], ◌∷◌, ◌++◌, Text, codes, or_else,
}
use energlens.Client.{Json, RequestOptions}
use energlens.Api.{SeriesPoint, CompareSeries}

pub data Metric : Type 0 where
  consumption cost unit_price : Metric

pub data Granularity : Type 0 where
  month bill : Granularity

pub record SeriesParams : Type 0 where
  pub metric : Metric
  pub granularity : Option Granularity
  pub from : Option Text
  pub to : Option Text

pub record SeriesResponse (F : Type 0) : Type 0 where
  pub place_id : Text
  pub metric : Metric
  pub granularity : Granularity
  pub unit : Text
  pub currency_code : Option Text
  pub points : List (SeriesPoint F)

pub record CompareResponse (F : Type 0) : Type 0 where
  pub metric : Metric
  pub granularity : Granularity
  pub series : List (CompareSeries F)

-- A part of a query key; the id of a place may be undefined.
pub data Part : Type 0 where
  word : Text → Part
  place_id : Option Text → Part
  params_of : SeriesParams → Part

abbrev pub Key : Type 0
Key = List Part

pub record Query : Type 0 where
  pub key : Key
  pub path : Text
  pub params : List (Text × Option Text)
  pub enabled : Bool

-- `${placeId}`
abbrev pub id_text : Option Text → Text
id_text id = or_else id (codes "undefined")

-- `!!placeId`
abbrev pub is_id : Option Text → Bool
is_id none = false
is_id (some []) = false
is_id (some (c ∷ cs)) = true

abbrev metric_text : Metric → Text
metric_text consumption = codes "consumption"
metric_text cost = codes "cost"
metric_text unit_price = codes "unit_price"

abbrev granularity_text : Option Granularity → Option Text
granularity_text none = none
granularity_text (some month) = some (codes "month")
granularity_text (some bill) = some (codes "bill")

abbrev pub series_params : SeriesParams → List (Text × Option Text)
series_params p =
    (codes "metric", some (metric_text p.metric))
    ∷ (codes "granularity", granularity_text p.granularity)
    ∷ (codes "from", p.from)
    ∷ (codes "to", p.to)
    ∷ []

abbrev pub places_key : Key
places_key = word (codes "places") ∷ []

unfoldable pub use_places : Query
use_places = record { key = places_key; path = codes "/places"; params = []; enabled = true }

abbrev under_place : Text → Text → Option Text → Query
under_place name rest id = record {
  key = word name ∷ place_id id ∷ [];
  path = codes "/places/" ++ id_text id ++ rest;
  params = [];
  enabled = is_id id;
}

unfoldable pub use_place : Option Text → Query
use_place id = under_place (codes "places") [] id

unfoldable pub use_bills : Option Text → Query
use_bills id = under_place (codes "bills") (codes "/bills") id

unfoldable pub use_summary : Option Text → Query
use_summary id = under_place (codes "summary") (codes "/stats/summary") id

unfoldable pub use_series : Option Text → SeriesParams → Query
use_series id params = record {
  key = word (codes "series") ∷ place_id id ∷ params_of params ∷ [];
  path = codes "/places/" ++ id_text id ++ codes "/series";
  params = series_params params;
  enabled = is_id id;
}

unfoldable pub use_compare : SeriesParams → Query
use_compare params = record {
  key = word (codes "compare") ∷ params_of params ∷ [];
  path = codes "/series/compare";
  params = series_params params;
  enabled = true;
}

-- `invalidateQueries({ queryKey })`, or `none` for `invalidateQueries()`
pub record Mutation : Type 0 where
  pub path : Text
  pub options : RequestOptions
  pub invalidates : List (Option Key)

abbrev send : Option Text → Option Json → RequestOptions
send method body = record { method = method; body = body; form = none; params = [] }

unfoldable pub create_place : Json → Mutation
create_place data' = record {
  path = codes "/places";
  options = send none (some data');
  invalidates = some places_key ∷ [];
}

unfoldable pub update_place : Text → Json → Mutation
update_place id data' = record {
  path = codes "/places/" ++ id;
  options = send (some (codes "PATCH")) (some data');
  invalidates = some places_key ∷ [];
}

unfoldable pub delete_place : Text → Mutation
delete_place id = record {
  path = codes "/places/" ++ id;
  options = send (some (codes "DELETE")) none;
  invalidates = none ∷ [];
}

-- `invalidatePlaceData`
unfoldable pub invalidate_place_data : Text → List (Option Key)
invalidate_place_data id =
    some (word (codes "bills") ∷ place_id (some id) ∷ [])
    ∷ some (word (codes "series") ∷ place_id (some id) ∷ [])
    ∷ some (word (codes "summary") ∷ place_id (some id) ∷ [])
    ∷ some (word (codes "compare") ∷ [])
    ∷ []

abbrev bills_path : Text → Text
bills_path id = codes "/places/" ++ id ++ codes "/bills"

unfoldable pub create_bill : Text → Json → Mutation
create_bill id data' = record {
  path = bills_path id;
  options = send none (some data');
  invalidates = invalidate_place_data id;
}

unfoldable pub update_bill : Text → Text → Json → Mutation
update_bill id bill_id data' = record {
  path = bills_path id ++ (b'/' ∷ bill_id);
  options = send (some (codes "PATCH")) (some data');
  invalidates = invalidate_place_data id;
}

unfoldable pub delete_bill : Text → Text → Mutation
delete_bill id bill_id = record {
  path = bills_path id ++ (b'/' ∷ bill_id);
  options = send (some (codes "DELETE")) none;
  invalidates = invalidate_place_data id;
}
