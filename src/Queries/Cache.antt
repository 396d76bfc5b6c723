-- ===== src/Queries/Cache.antt =====
-- What the success of a mutation does to the query cache. The library's test of a filter against a key
-- is an argument; `IsPartialMatch` is what it documents: a filter matches the keys that begin with it.
use energlens.Common.{
  ◌≡◌, refl, ap, Bool, true, false, ◌||◌, ◌&&◌, Option, none, some, List, [], ◌∷◌, Text, codes,
  text_eq, map, foldl, arith, All,
}
use mathlib.Core.Path.{ap₂}
use energlens.Client.{Json}
use energlens.Queries.{
  Key, Part, word, place_id, params_of, SeriesParams, Query, Mutation, use_places, use_place,
  use_bills, use_series, use_compare, use_summary, create_bill, update_bill, delete_bill,
  invalidate_place_data,
}

-- The queries of the hooks.
pub data Resource : Type 0 where
  places : Resource
  place bills summary : Option Text → Resource
  series : Option Text → SeriesParams → Resource
  compare : SeriesParams → Resource

unfoldable pub query_of : Resource → Query
query_of places = use_places
query_of (place id) = use_place id
query_of (bills id) = use_bills id
query_of (summary id) = use_summary id
query_of (series id params) = use_series id params
query_of (compare params) = use_compare params

pub record Entry : Type 0 where
  pub resource : Resource
  pub stale : Bool

-- A filter of the hooks holds no object.
abbrev IsPlain : Part → Type 0
IsPlain (params_of _) = ⊥
IsPlain _ = Unit

abbrev pub id_eq : Text → Option Text → Bool
id_eq id none = false
id_eq id (some other) = text_eq id other

abbrev part_eq : Part → Part → Bool
part_eq (word s) (word t) = text_eq s t
part_eq (place_id (some id)) (place_id other) = id_eq id other
part_eq (place_id none) (place_id none) = true
part_eq _ _ = false

abbrev pub starts_with : Key → Key → Bool
starts_with [] key = true
starts_with (p ∷ ps) [] = false
starts_with (p ∷ ps) (q ∷ qs) = part_eq p q && starts_with ps qs

abbrev pub IsPartialMatch : (Key → Key → Bool) → Type 0
IsPartialMatch matches =
    (filter key : Key) → All IsPlain filter → matches filter key ≡ starts_with filter key

-- What is computed from the bills of a place.
abbrev pub depends : Text → Resource → Bool
depends id places = false
depends id (place _) = false
depends id (bills other) = id_eq id other
depends id (summary other) = id_eq id other
depends id (series other _) = id_eq id other
depends id (compare _) = true

-- The specification: what a change to the bills of a place makes stale.
abbrev pub marked : Text → Entry → Entry
marked id e = record e { stale = e.stale || depends id e.resource }

pub data BillChange : Type 0 where
  creates : Json → BillChange
  updates : Text → Json → BillChange
  deletes : Text → BillChange

unfoldable pub mutation_of : Text → BillChange → Mutation
mutation_of id (creates data') = create_bill id data'
mutation_of id (updates bill_id data') = update_bill id bill_id data'
mutation_of id (deletes bill_id) = delete_bill id bill_id

module _ (matches : Key → Key → Bool) where
  abbrev invalidated : Option Key → Entry → Entry
  invalidated none e = record e { stale = true }
  invalidated (some filter) e = record e {
    stale = e.stale || matches filter (query_of e.resource).key;
  }

  -- `onSuccess`
  unfoldable pub on_success : Mutation → List Entry → List Entry
  on_success m entries = foldl (λ es filter. map (invalidated filter) es) entries m.invalidates

  module _ (partial : IsPartialMatch matches) where
    flags :
        (id : Text) (r : Resource) (stale : Bool)
        → ((((stale || matches (word (codes "bills") ∷ place_id (some id) ∷ []) (query_of r).key)
                || matches (word (codes "series") ∷ place_id (some id) ∷ []) (query_of r).key)
              || matches (word (codes "summary") ∷ place_id (some id) ∷ []) (query_of r).key)
            || matches (word (codes "compare") ∷ []) (query_of r).key)
          ≡ (stale || depends id r)
    unfolding query_of use_places use_place use_bills use_summary use_series use_compare
    flags id r stale =
        rw
          (
            partial (word (codes "bills") ∷ place_id (some id) ∷ []) (query_of r).key
                (tt, (tt, tt)),
            partial (word (codes "series") ∷ place_id (some id) ∷ []) (query_of r).key
                (tt, (tt, tt)),
            partial (word (codes "summary") ∷ place_id (some id) ∷ []) (query_of r).key
                (tt, (tt, tt)),
            partial (word (codes "compare") ∷ []) (query_of r).key (tt, tt),
          )
          (by_resource r)
      where
        by_resource :
            (r : Resource)
            → ((((stale
                      || starts_with
                          (word (codes "bills") ∷ place_id (some id) ∷ [])
                          (query_of r).key)
                    || starts_with
                        (word (codes "series") ∷ place_id (some id) ∷ [])
                        (query_of r).key)
                  || starts_with
                      (word (codes "summary") ∷ place_id (some id) ∷ [])
                      (query_of r).key)
                || starts_with (word (codes "compare") ∷ []) (query_of r).key)
              ≡ (stale || depends id r)
        by_resource places = ground arith
        by_resource (place q) = ground arith
        by_resource (bills q) = ground arith
        by_resource (summary q) = ground arith
        by_resource (series q params) = ground arith
        by_resource (compare params) = ground arith

    all_four-map :
        (id : Text) (es : List Entry)
        → foldl (λ es' filter. map (invalidated filter) es') es (invalidate_place_data id)
          ≡ map (marked id) es
    unfolding invalidate_place_data
    all_four-map id [] = refl
    all_four-map id (e ∷ es) =
        ap₂ ◌∷◌ (ap (λ b. record e { stale = b }) (flags id e.resource e.stale))
          (all_four-map id es)

    -- When a bill of a place has been added, changed or deleted, the cached queries that become stale
    -- are exactly those computed from the place's bills: its list of bills, its series and its summary, and
    -- the comparisons of all places. What was stale stays so, and no other place's data is fetched again.
    pub on_success-depends :
        (id : Text) (change : BillChange) (es : List Entry)
        → on_success (mutation_of id change) es ≡ map (marked id) es
    unfolding on_success mutation_of create_bill update_bill delete_bill
    on_success-depends id (creates data') es = all_four-map id es
    on_success-depends id (updates bill_id data') es = all_four-map id es
    on_success-depends id (deletes bill_id) es = all_four-map id es
