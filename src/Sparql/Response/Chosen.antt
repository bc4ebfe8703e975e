-- ===== src/Sparql/Response/Chosen.antt =====
-- With cached properties the first code that agrees with them decides which query is asked.
use mathlib.Core.List.{List, [], ◌∷◌}
use sta_generation_service.Prelude.{ℕ, String, true, false, Option, some, ◌≡◌, refl, ◌∙◌, inl, inr}
use sta_generation_service.Errors.{
  Error, Result, ok, err, http, index_error, key_error, type_error, value_error, integrity_error,
  os_error, programming_error, store_error, item, Result-cases, ◌>>=◌,
}
use sta_generation_service.Text.{replace}
use sta_generation_service.Models.{Resource}
use sta_generation_service.Sparql.Terms.{Binding, Store, Response, entity}
use sta_generation_service.Sparql.Codes.{choose_code}
use sta_generation_service.Sparql.Codes.Choice.{IsFirst, IsFirst-choose_code}
use sta_generation_service.Sparql.Handler.{Handler}
use sta_generation_service.Sparql.Queries.{
  results_query, query_graph, get_query_results, handled, handle_sparql_exception, some_rows,
  not_found,
}
use sta_generation_service.Sparql.Transform.{transform_binding}
use sta_generation_service.Sparql.Response.{
  coded, cached_one, answer_one, attempt_chosen, chosen, by_code, by_cached_properties,
  by_all_queries, or_all_queries, get_response, fill_id, fill_names, wants_one,
}

-- The where part that is sent for a query of the handler.
abbrev pub filled : Handler → String → String
filled h query =
    fill_id h.request.item_id (fill_names h (replace "{bare_request_url}" h.request.url query))

-- What becomes of the error that a solution raised: an HTTPException leads to the other queries.
unfoldable pub unless_http : Result Response → Error → Result Response
unless_http others (http status detail) = others
unless_http others e = err e

-- What the answer of the store to one query leads to: `others` where the store raises or has no
-- solution; else the first solution is the entity, or what its transformation raises.
unfoldable pub decided : Result Response → Resource → Result (List Binding) → Result Response
unfolding transform_binding unless_http
decided others resource (err e) = others
decided others resource (ok []) = others
decided others resource (ok (row ∷ rows)) = elim (transform_binding resource row) [
  | ok e ↦ ok (entity e)
  | err e ↦ unless_http others e
]

module _ (store : Store) (h : Handler) where
  by_code-choose :
      (codes : List ℕ) (cached : ℕ)
      → by_code store h codes (some cached)
        ≡ (choose_code h.important_bits cached codes >>= chosen h (attempt_chosen store h))
  unfolding by_code choose_code chosen
  by_code-choose [] cached = refl
  by_code-choose (code ∷ codes) cached = refl

  or_all-err : (e : Error) → or_all_queries store h (err e) ≡ unless_http (by_all_queries store h) e
  unfolding or_all_queries unless_http
  or_all-err (http status detail) = refl
  or_all-err (store_error url is_value_error) = refl
  or_all-err index_error = refl
  or_all-err key_error = refl
  or_all-err type_error = refl
  or_all-err value_error = refl
  or_all-err integrity_error = refl
  or_all-err os_error = refl
  or_all-err programming_error = refl

  -- Whatever the store raises is an HTTPException for what stands around it.
  raised_http :
      (e : Error)
      → unless_http (by_all_queries store h) (handle_sparql_exception e) ≡ by_all_queries store h
  unfolding unless_http handle_sparql_exception
  raised_http (store_error true is_value_error) = refl
  raised_http (store_error false is_value_error) = refl
  raised_http (http status detail) = refl
  raised_http index_error = refl
  raised_http key_error = refl
  raised_http type_error = refl
  raised_http value_error = refl
  raised_http integrity_error = refl
  raised_http os_error = refl
  raised_http programming_error = refl

  -- The answer for an identifier, between what the store answered and the `except` around it.
  first_solution : Result (List Binding) → Result (Option Response)
  unfolding handled some_rows transform_binding
  first_solution answer =
      handled answer
      >>= some_rows
      >>= (λ rows. item rows 0 >>= λ row. transform_binding h.resource row >>= λ e. ok (entity e))
      >>= λ r. ok (some r)

  or_all-first :
      (answer : Result (List Binding))
      → or_all_queries store h (first_solution answer)
        ≡ decided (by_all_queries store h) h.resource answer
  unfolding first_solution handled some_rows decided or_all_queries
  or_all-first (err e) = or_all-err (handle_sparql_exception e) ∙ raised_http e
  or_all-first (ok []) = or_all-err not_found
  or_all-first (ok (row ∷ rows)) = elim (Result-cases (transform_binding h.resource row)) [
    | inl (e, made) ↦ rw (made, decided) refl
    | inr (e, failed) ↦ rw (failed, decided) (or_all-err e)
  ]

  -- The text that is sent for a query of the chosen place decides.
  attempt_chosen-sent :
      (i : ℕ) (query sent : String)
      → wants_one h ≡ true
      → results_query h (filled h query) ≡ ok sent
      → (attempt_chosen store h i query >>= λ r. ok (some r))
        ≡ first_solution (query_graph store h.pilot sent)
  unfolding attempt_chosen cached_one answer_one get_query_results first_solution
  attempt_chosen-sent i query sent one made = rw (one, made) refl

-- A request that names one item and no page, of a pilot with cached properties: where a code agrees
-- with these on the important bits and none before it does, the where query at its place, with the
-- URL, the pilot and the identifier filled in, is what is sent to the store. The first solution is
-- the entity that is answered, and what its transformation raises is raised. If the store raises
-- anything, or has no solution, or an HTTPException is raised, all queries are tried in turn.
pub get_response-chosen :
    (store : Store) (h : Handler) (bits : List ℕ) (cached code i : ℕ) (query sent : String)
    → h.important_bits ≡ some bits
    → h.pilot.cached_properties ≡ some cached
    → IsFirst bits cached h.integer_codes code i
    → wants_one h ≡ true
    → item h.where_queries i ≡ ok query
    → results_query h (filled h query) ≡ ok sent
    → get_response store h
      ≡ decided (by_all_queries store h) h.resource (query_graph store h.pilot sent)
unfolding get_response by_cached_properties chosen coded
get_response-chosen store h bits cached code i query sent given known first one there made =
    let (picked, found) = IsFirst-choose_code bits cached h.integer_codes code i first in
    rw
      (
        known,
        by_code-choose store h h.integer_codes cached,
        given,
        picked,
        chosen,
        coded,
        found,
        there,
        attempt_chosen-sent store h i query sent one made,
      )
      (or_all-first store h (query_graph store h.pilot sent))
