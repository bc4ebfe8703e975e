-- ===== src/Sparql/Queries.antt =====
-- The two queries of a request: `_get_total_count` and `_get_query_results` of
-- sta/src/sparql/base_query_handler.py and of the classes of sta/src/sparql/query_handlers.py.
-- The store answers as a function of the endpoint and the query: what it holds does not change
-- while one request is answered.
use Prim.Native.String.{[], ◌∷◌}
use mathlib.Core.List.{List, [], ◌∷◌}
use sta_generation_service.Prelude.{ℕ, String, Bool, true, false, Option, none, some, if◌then◌else◌}
use sta_generation_service.Errors.{
  Error, Result, ok, err, http, key_error, type_error, value_error, store_error, item, or_raise,
  ◌>>=◌,
}
use sta_generation_service.Dict.{lookup}
use sta_generation_service.Text.{◌<>◌, contains, replace}
use sta_generation_service.Text.Number.{show}
use sta_generation_service.Models.{
  Pilot, Resource, observations, datastreams, features_of_interest, historical_locations, locations,
  observed_properties, sensors, things,
}
use sta_generation_service.Sparql.Terms.{Binding, Store}
use sta_generation_service.Sparql.Handler.{
  Handler, Request, Select, single, simple_or_normal, query_endpoint,
}

abbrev pub not_found : Error
not_found = http 404 none

abbrev pub unavailable : Error
unavailable = http 503 (some "SPARQL endpoint is unavailable")

abbrev pub bad_query : Error
bad_query = http 400 (some "There was an error processing the query. Check assigned graphs")

-- `handle_sparql_exception`, which always raises: 503 where the error came of a URLError
unfoldable pub handle_sparql_exception : Error → Error
handle_sparql_exception (store_error true is_value_error) = unavailable
handle_sparql_exception _ = bad_query

-- try: ... except Exception as e: self.handle_sparql_exception(e)
unfoldable pub handled {ℓ} : {A : Type ℓ} → Result A → Result A
unfolding handle_sparql_exception
handled (ok a) = ok a
handled (err e) = err (handle_sparql_exception e)

-- `_add_graphs_to_query`
unfoldable pub add_graphs_to_query : List String → String
add_graphs_to_query [] = ""
add_graphs_to_query (graph ∷ graphs) = "FROM <" <> (graph <> (">\n" <> add_graphs_to_query graphs))

-- The first line of the count query of each class, and the variable that it binds.
unfoldable pub count_header : Resource → String
count_header observations = "SELECT (COUNT(DISTINCT ?obs) AS ?count)\n"
count_header datastreams = "SELECT COUNT DISTINCT ?sensor ?obs_property\n"
count_header locations = "SELECT (COUNT(DISTINCT ?foi) AS ?count)\n"
count_header sensors = "SELECT (COUNT(DISTINCT ?sensor) AS ?count)\n"
count_header features_of_interest = "SELECT (COUNT(DISTINCT ?foi) AS ?count)\n"
count_header things = "SELECT (COUNT(DISTINCT ?sensor) AS ?count)\n"
count_header observed_properties = "SELECT (COUNT(DISTINCT ?obs_property) AS ?count)\n"
count_header historical_locations = "SELECT (COUNT(DISTINCT ?obs) AS ?count)\n"

unfoldable pub count_variable : Resource → String
count_variable datastreams = "callret-0"
count_variable _ = "count"

-- `_is_limited`
unfoldable pub is_limited : Request → Bool
is_limited r = elim r.top [
  | none ↦ false
  | some top ↦ elim r.skip [ none ↦ false | some skip ↦ true ]
]

-- int(bindings[0][Variable(name)])
unfoldable pub read_count : String → List Binding → Result ℕ
unfolding lookup
read_count name rows = item rows 0 >>= λ row.
    or_raise key_error (lookup name row) >>= λ term. or_raise value_error term.integer

-- self.select, or one of its two texts for the observations
select_text : Resource → Select → String → Result String
unfolding contains
select_text observations (simple_or_normal simple normal) where_ =
    ok (if contains "sosa:hasSimpleResult" where_ then simple else normal)
select_text observations (single select) where_ = err type_error
select_text _ (single select) where_ = ok select
select_text _ (simple_or_normal simple normal) where_ = err type_error

limit_clause : ℕ → ℕ → String
unfolding show
limit_clause top skip = "LIMIT " <> (show top <> (" OFFSET " <> show skip))

-- The page is put at the place that the query marks; only the base class appends it otherwise.
place_limit : Resource → String → String → String
unfolding contains replace
place_limit observations clause query = replace "$LIMIT_OFFSET$" clause query
place_limit _ clause query =
    if contains "$LIMIT_OFFSET$" query
    then replace "$LIMIT_OFFSET$" clause query
    else query <> clause

limit_query : Resource → Option ℕ → Option ℕ → String → String
unfolding limit_clause place_limit
limit_query resource (some top) (some skip) query =
    place_limit resource (limit_clause top skip) query
limit_query resource _ _ query = query

-- The text that `_get_query_results` sends.
unfoldable pub results_query : Handler → String → Result String
unfolding select_text add_graphs_to_query replace limit_query
results_query h where_ =
    let graphs = add_graphs_to_query h.pilot.graphs in
    select_text h.resource h.select where_ >>= λ select. ok (
      limit_query h.resource h.request.top h.request.skip
        (replace "$GRAPHS_LIST$" graphs (select <> ("\n" <> (graphs <> where_)))))

-- if len(results) == 0: raise HTTPException(404)
unfoldable pub some_rows : List Binding → Result (List Binding)
some_rows [] = err not_found
some_rows (row ∷ rows) = ok (row ∷ rows)

module _ (store : Store) where
  -- self.query_graph.query(query)
  unfoldable pub query_graph : Pilot → String → Result (List Binding)
  unfolding query_endpoint
  query_graph pilot query = store (query_endpoint pilot.custom_endpoint) query

  -- `_get_total_count`
  unfoldable pub get_total_count : Handler → String → Result ℕ
  unfolding query_graph handled count_header count_variable add_graphs_to_query read_count
  get_total_count h where_ = handled (
      query_graph h.pilot
        (count_header h.resource <> (add_graphs_to_query h.pilot.graphs <> where_))
      >>= read_count (count_variable h.resource))

  -- `_get_query_results`
  unfoldable pub get_query_results : Handler → String → Result (List Binding)
  unfolding query_graph handled results_query some_rows
  get_query_results h where_ =
      results_query h where_ >>= λ query. handled (query_graph h.pilot query) >>= some_rows
