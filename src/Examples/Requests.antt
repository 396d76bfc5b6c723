-- ===== src/Examples/Requests.antt =====
-- Runs of the theorems on the queries and on the bill form.
use energlens.Common.{
  suc, min, ◌*◌, ◌≤◌, ◌≡◌, refl, ◌&&◌, true, false, none, some, List, [], ◌∷◌, codes, map, ltb,
  arith,
}
use energlens.Client.{Browser, api_failure, api_error, json_null}
use energlens.Errors.{describe_error}
use energlens.Queries.{consumption, SeriesParams, Key}
use energlens.Queries.Sharing.{Plain, plain, query_fn, hash-query_fn}
use energlens.Queries.Cache.{
  Entry, bills, summary, series, compare, query_of, creates, mutation_of, on_success, marked,
  starts_with, on_success-depends,
}
use energlens.Queries.Retry.{retry, retry_delay, retry-can_retry, retry_delay-bounds}
use energlens.Api.{electricity}
use energlens.Forms.{to_input}
use energlens.Forms.Initial.{default_values, iso_text, IsTight, to_input-default_values}
use energlens.Examples.Figures.{paper}

abbrev cached : List Entry
cached =
    record { resource = bills (some (codes "home")); stale = false }
    ∷ record { resource = summary (some (codes "cabin")); stale = false }
    ∷ record {
      resource =
          compare (record { metric = consumption; granularity = none; from = none; to = none });
      stale = false;
    }
    ∷ []

on_success-depends_example :
    on_success (λ f k. starts_with f k) (mutation_of (codes "home") (creates json_null)) cached
    ≡ map (marked (codes "home")) cached
on_success-depends_example =
    on_success-depends (λ f k. starts_with f k) (λ f k h. refl) (codes "home") (creates json_null)
      cached

abbrev in_browser : Browser
in_browser = record { token = some (codes "t"); has_handler = true; unauthorized_calls = 0 }

abbrev usage : SeriesParams
usage = record {
  metric = consumption;
  granularity = none;
  from = some (codes "2024-01");
  to = none;
}

abbrev json_of : Key → List Plain
json_of k = map plain k

hash-query_fn_example :
    (query_fn in_browser (query_of (series (some (codes "home")) usage))
      ≡ query_fn in_browser (query_of (series (some (codes "home")) usage)))
    × ((query_of (series (some (codes "home")) usage)).enabled
        ≡ (query_of (series (some (codes "home")) usage)).enabled)
hash-query_fn_example =
    hash-query_fn json_of (λ k l same. same) (series (some (codes "home")) usage)
      (series (some (codes "home")) usage) in_browser refl

retry-can_retry_example :
    retry 2 (api_failure (api_error 503 json_null))
    ≡ ((describe_error false (api_failure (api_error 503 json_null))).can_retry && ltb 2 3)
retry-can_retry_example = retry-can_retry 2 (api_failure (api_error 503 json_null))

retry_delay-bounds_example :
    (retry_delay 0 ≡ 1000)
    × (retry_delay (suc 2) ≡ min (2 * retry_delay 2) 8000)
    × (1000 ≤ retry_delay 2)
    × (retry_delay 2 ≤ 8000)
    × (retry_delay 2 ≤ retry_delay (suc 2))
retry_delay-bounds_example = retry_delay-bounds 2

march-IsTight : IsTight (paper (codes "a") 3)
march-IsTight = record {
  consumption_tight = λ h. ground arith;
  unit_price_tight = λ h. ground arith;
  fixed_charges_tight = λ h. ground arith;
  taxes_tight = λ h. ground arith;
  provider_name_tight = λ h. ground arith;
  notes_tight = λ h. ground arith;
}

to_input-default_values_example :
    to_input (some (paper (codes "a") 3)) (default_values (some (paper (codes "a") 3))) ≡ record {
      utility_type = electricity;
      period_start = iso_text (paper (codes "a") 3).period_start;
      period_end = iso_text (paper (codes "a") 3).period_end;
      consumption = some (codes "120");
      unit = codes "kWh";
      unit_price = none;
      fixed_charges = none;
      taxes = none;
      total_amount = codes "100";
      provider_name = none;
      source = (paper (codes "a") 3).source;
      notes = none;
    }
to_input-default_values_example = to_input-default_values (paper (codes "a") 3) march-IsTight
