-- ===== src/Tests/Answers.antt =====
-- The answers of a sample store to sample requests.
use mathlib.Core.List.{List, [], ◌∷◌}
use sta_generation_service.Prelude.{
  ℕ, zero, suc, ◌<◌, get_elem?, String, true, false, none, some, ◌≡◌, ◌↔◌, refl, length, All, arith,
}
use sta_generation_service.Errors.{Error, ok, err, store_error}
use sta_generation_service.Models.{observed_properties}
use sta_generation_service.Dict.{lookup}
use sta_generation_service.Sparql.Terms.{Store, Entity, Response, value, str, entity, page}
use sta_generation_service.Sparql.Codes.Choice.{Agree}
use sta_generation_service.Sparql.Handler.{Handler}
use sta_generation_service.Sparql.Queries.{
  not_found, unavailable, is_limited, query_graph, results_query,
}
use sta_generation_service.Sparql.Transform.{collect, transform_binding}
use sta_generation_service.Sparql.Transform.Links.{
  Avoids, Renamed, renamed, transform_binding-Renamed,
}
use sta_generation_service.Sparql.Response.{
  answer_one, wants_one, by_all_queries, get_response, fill_id, fill_names,
}
use sta_generation_service.Sparql.Response.Fits.{Fits, get_response-Fits}
use sta_generation_service.Sparql.Response.Chosen.{decided, get_response-chosen}
use sta_generation_service.Sparql.Response.Outcomes.{
  FirstAnswer, Fails, get_response-one, get_response-down,
}
use sta_generation_service.Sparql.Response.Paging.{visited}
use sta_generation_service.Tests.{row, two_of_three, farm, first_page, one_item, asks}

abbrev property : Entity
property =
    ("name", value (str "Temperature"))
    ∷ ("@iot.id", value (str "temperature"))
    ∷ ("@iot.selfLink", value (str "self"))
    ∷ ("Datastreams@iot.navigationLink", value (str "streams"))
    ∷ []

abbrev first_answer_page : Response
first_answer_page =
    page 3 (some "http://sta/ObservedProperties?$top=2&$skip=2") (property ∷ property ∷ [])

test_page : get_response two_of_three (asks first_page) ≡ ok first_answer_page
unfolding get_response
test_page = refl

test_item : get_response two_of_three (asks one_item) ≡ ok (entity property)
unfolding get_response
test_item = refl

get_response-Fits_example : Fits (asks first_page) first_answer_page
unfolding get_response
get_response-Fits_example = get_response-Fits two_of_three (asks first_page) first_answer_page refl

-- A pilot whose cached properties are 1, and queries for the codes 2 and 3.
abbrev cached_farm : Handler
cached_farm = record (asks one_item) {
  pilot = record farm { cached_properties = some 1 };
  where_queries = "WHERE { a }" ∷ "WHERE { b }" ∷ [];
  integer_codes = 2 ∷ 3 ∷ [];
  important_bits = some (0 ∷ []);
}

get_response-chosen_example :
    get_response two_of_three cached_farm
    ≡ decided
        (by_all_queries two_of_three cached_farm)
        observed_properties
        (query_graph two_of_three cached_farm.pilot "SELECT *\nFROM <http://graph/1>\nWHERE { b }")
unfolding results_query is_limited fill_id fill_names
get_response-chosen_example =
    get_response-chosen two_of_three cached_farm (0 ∷ []) 1 3 1 "WHERE { b }"
      "SELECT *\nFROM <http://graph/1>\nWHERE { b }" refl refl (refl, (refl, tt), only_first) refl
      refl refl
  where
    only_first : (j c : ℕ) → j < 1 → get_elem? (2 ∷ 3 ∷ []) j ≡ some c → ¬ Agree (0 ∷ []) c 1
    only_first zero c lt at agree = let e : 2 ≡ c = ground arith in omega (e, agree.0, arith)
    only_first (suc j) c lt at agree = absurd (omega arith)

get_response-one_example :
    ((r : Response)
      → (get_response two_of_three (asks one_item) ≡ ok r)
        ↔ FirstAnswer (answer_one two_of_three (asks one_item)) ("WHERE { ?id {id} }" ∷ []) r)
    × ((e : Error)
        → (get_response two_of_three (asks one_item) ≡ err e) ↔ (
            (e ≡ not_found)
            × All
                (λ q. Fails (answer_one two_of_three (asks one_item) q))
                ("WHERE { ?id {id} }" ∷ [])))
unfolding is_limited
get_response-one_example = get_response-one two_of_three (asks one_item) refl refl

abbrev unreachable : Store
unreachable endpoint query = err (store_error true true)

get_response-down_example :
    (wants_one (asks one_item) ≡ true → get_response unreachable (asks one_item) ≡ err not_found)
    × ((count query : String) (counts queries : List String)
        → wants_one (asks one_item) ≡ false
        → (asks one_item).request.filter_option ≡ none
        → "WHERE { c }" ∷ [] ≡ count ∷ counts
        → "WHERE { ?id {id} }" ∷ [] ≡ query ∷ queries
        → length counts ≡ length queries
        → get_response unreachable (asks one_item) ≡ err unavailable)
get_response-down_example =
    get_response-down unreachable (asks one_item) (λ endpoint query. (true, refl)) refl

-- Four pages of two hold seven positions.
test_visited :
    visited 9 "http://sta/Things" 7 (record { top = 2; skip = 0 })
    ≡ some (
        record { top = 2; skip = 0 }
        ∷ record { top = 2; skip = 2 }
        ∷ record { top = 2; skip = 4 }
        ∷ record { top = 2; skip = 6 }
        ∷ [])
unfolding visited
test_visited = refl

transform_binding-Renamed_example :
    (d : Entity) × (collect observed_properties row ≡ ok d)
    × Renamed (renamed observed_properties) d property
    × ((k : String) → Avoids k (renamed observed_properties) → lookup k property ≡ lookup k d)
unfolding transform_binding
transform_binding-Renamed_example = transform_binding-Renamed observed_properties row property refl
