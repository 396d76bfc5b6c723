-- ===== src/Queries/Sharing.antt =====
-- The query library keeps one answer per key, and tells keys apart by a hash of their JSON. The hash
-- is an argument; `IsFaithful` is what is documented of it. Here is what the hooks of
-- frontend/src/api/hooks.ts owe it: keys that are not told apart fetch the same.
use energlens.Common.{
  ◌≡◌, refl, ap, Bool, true, false, Option, none, some, List, [], ◌∷◌, ◌++◌, Text, codes, text_eq,
  if◌then◌else◌, map, sym, ◌∙◌,
}
use energlens.Client.{Browser, Request, build_request}
use energlens.Queries.{
  Key, Part, word, place_id, params_of, SeriesParams, Query, is_id, use_places, use_place,
  use_bills, use_series, use_compare, use_summary, id_text, series_params,
}
use energlens.Queries.Cache.{Resource, places, place, bills, summary, series, compare, query_of}

-- The JSON value of a part: in an array, `undefined` is `null`.
pub data Plain : Type 0 where
  null : Plain
  string : Text → Plain
  object : SeriesParams → Plain

abbrev pub plain : Part → Plain
plain (word s) = string s
plain (place_id none) = null
plain (place_id (some id)) = string id
plain (params_of p) = object p

abbrev pub IsFaithful {ℓ} : {H : Type ℓ} → (Key → H) → Type ℓ
IsFaithful hash = (k l : Key) → hash k ≡ hash l → map plain k ≡ map plain l

-- `queryFn`: the request that a query sends.
unfoldable pub query_fn : Browser → Query → Request
query_fn b q =
    build_request b q.path (record { method = none; body = none; form = none; params = q.params })

-- What a key stands for, read off its JSON.
abbrev Fetch : Type 0
Fetch = (Text × List (Text × Option Text)) × Bool

abbrev fetch : Query → Fetch
fetch q = ((q.path, q.params), q.enabled)

abbrev id_of : Plain → Option Text
id_of (string id) = some id
id_of _ = none

abbrev nothing : Fetch
nothing = (([], []), false)

abbrev of_place : Text → Option Text → Fetch
of_place rest id = ((codes "/places/" ++ id_text id ++ rest, []), is_id id)

abbrev two_parts : Text → Plain → Fetch
two_parts name (object p) = ((codes "/series/compare", series_params p), true)
two_parts name v =
    if text_eq name (codes "places")
    then of_place [] (id_of v)
    else if text_eq name (codes "bills")
    then of_place (codes "/bills") (id_of v)
    else of_place (codes "/stats/summary") (id_of v)

abbrev read_key : List Plain → Fetch
read_key (string name ∷ []) = ((codes "/places", []), true)
read_key (string name ∷ v ∷ []) = two_parts name v
read_key (string name ∷ v ∷ object p ∷ []) =
    ((codes "/places/" ++ id_text (id_of v) ++ codes "/series", series_params p), is_id (id_of v))
read_key _ = nothing

read_key-key : (r : Resource) → read_key (map plain (query_of r).key) ≡ fetch (query_of r)
unfolding query_of use_places use_place use_bills use_summary use_series use_compare
read_key-key places = refl
read_key-key (place none) = refl
read_key-key (place (some id)) = refl
read_key-key (bills none) = refl
read_key-key (bills (some id)) = refl
read_key-key (summary none) = refl
read_key-key (summary (some id)) = refl
read_key-key (series none params) = refl
read_key-key (series (some id) params) = refl
read_key-key (compare params) = refl

-- Two queries of the hooks whose keys the cache does not tell apart send the same request and are
-- enabled alike, so that no query is answered with what another one has fetched. The hash of the cache
-- may be any that differs where the JSON of two keys differs.
pub hash-query_fn {ℓ} :
    {H : Type ℓ} (hash : Key → H)
    → IsFaithful hash
    → (a b : Resource) (browser : Browser) → hash (query_of a).key ≡ hash (query_of b).key
    → (query_fn browser (query_of a) ≡ query_fn browser (query_of b))
      × ((query_of a).enabled ≡ (query_of b).enabled)
unfolding query_fn
hash-query_fn hash faithful a b browser same =
    let fetches : fetch (query_of a) ≡ fetch (query_of b) =
      sym (read_key-key a)
      ∙ ap read_key (faithful (query_of a).key (query_of b).key same)
      ∙ read_key-key b in
    (ap (λ f. requested f.0.0 f.0.1) fetches, ap (λ f. f.1) fetches)
  where
    requested : Text → List (Text × Option Text) → Request
    requested path params =
        build_request browser path
          (record { method = none; body = none; form = none; params = params })
