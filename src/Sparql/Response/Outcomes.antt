-- ===== src/Sparql/Response/Outcomes.antt =====
-- Which query answers a request, and what is answered when none can be asked.
use mathlib.Core.List.{List, [], ◌∷◌}
use sta_generation_service.Prelude.{
  ℕ, suc, String, Bool, true, false, none, ltb, length, ◌≡◌, ◌↔◌, ◌⊎◌, refl, sym, ap, ◌∙◌, arith,
  All, inl, inr,
}
use sta_generation_service.Errors.{Error, Result, ok, err, store_error, Result-cases, ◌>>=◌}
use sta_generation_service.Sparql.Terms.{Binding, Store, Response}
use sta_generation_service.Sparql.Handler.{Handler, query_endpoint}
use sta_generation_service.Sparql.Queries.{
  not_found, unavailable, handle_sparql_exception, handled, query_graph, results_query,
  get_query_results, get_total_count, read_count, count_variable,
}
use sta_generation_service.Sparql.Response.{
  fill_names, fill_id, filtered, answer_one, wants_one, by_code, by_cached_properties, first_answer,
  pair_page, counted_page, first_counted, by_all_queries, or_all_queries, get_response,
}

-- The attempt raises, whatever it raises.
abbrev pub Fails : {A : Type 0} → Result A → Type 0
Fails r = (e : Error) × (r ≡ err e)

-- The first query of the list that answers.
abbrev pub FirstAnswer : (String → Result Response) → List String → Response → Type 0
FirstAnswer attempt [] r = ⊥
FirstAnswer attempt (q ∷ qs) r = (attempt q ≡ ok r) ⊎ (Fails (attempt q) × FirstAnswer attempt qs r)

first_answer-ok_iff :
    (attempt : String → Result Response) (qs : List String) (r : Response)
    → (first_answer attempt qs ≡ ok r) ↔ FirstAnswer attempt qs r
unfolding first_answer
first_answer-ok_iff attempt [] r = (λ h. cc, λ h. absurd h)
first_answer-ok_iff attempt (q ∷ qs) r = elim (Result-cases (attempt q)) [
  | inl (a, done) ↦
      rw (done, first_answer)
        (
          λ h. inl h,
          λ h. elim h [ inl same ↦ same | inr (failed, later) ↦ absurd (no_fault failed) ],
        )
  | inr (e, failed) ↦
      let ih = first_answer-ok_iff attempt qs r in
      rw (failed, first_answer)
        (
          λ h. inr ((e, refl), ih.0 h),
          λ h. elim h [ inl bad ↦ absurd (no_answer bad) | inr (_, later) ↦ ih.1 later ],
        )
]
  where
    no_fault : {a : Response} → Fails (ok a) → ⊥
    no_fault (e, bad) = cc

    no_answer : {a : Response} {e : Error} → err e ≡ ok a → ⊥
    no_answer bad = cc

first_answer-err_iff :
    (attempt : String → Result Response) (qs : List String) (e : Error)
    → (first_answer attempt qs ≡ err e) ↔ ((e ≡ not_found) × All (λ q. Fails (attempt q)) qs)
unfolding first_answer
first_answer-err_iff attempt [] e = (λ h. (ground arith, tt), λ h. ap err (sym h.0))
first_answer-err_iff attempt (q ∷ qs) e = elim (Result-cases (attempt q)) [
  | inl (a, done) ↦ rw (done, first_answer) (λ h. absurd (no_error h), λ h. absurd (no_fault h.1.0))
  | inr (x, failed) ↦
      let ih = first_answer-err_iff attempt qs e in
      rw (failed, first_answer) (λ h. ((ih.0 h).0, ((x, refl), (ih.0 h).1)), λ h. ih.1 (h.0, h.1.1))
]
  where
    no_fault : {a : Response} → Fails (ok a) → ⊥
    no_fault (e, bad) = cc

    no_error : {a : Response} {e : Error} → ok a ≡ err e → ⊥
    no_error bad = cc

module _ (store : Store) (h : Handler) (uncached : h.pilot.cached_properties ≡ none) where
  by_code-uncached : (codes : List ℕ) → by_code store h codes none ≡ ok none
  unfolding by_code
  by_code-uncached [] = refl
  by_code-uncached (code ∷ codes) = refl

  get_response-uncached : get_response store h ≡ by_all_queries store h
  unfolding get_response by_cached_properties or_all_queries
  get_response-uncached = rw (uncached, by_code-uncached h.integer_codes)

  get_one-uncached :
      wants_one h ≡ true → get_response store h ≡ first_answer (answer_one store h) h.where_queries
  unfolding by_all_queries
  get_one-uncached one = get_response-uncached ∙ rw one

-- Without cached properties, a request that names one item and no page is answered by the first of
-- the where queries that answers; it raises 404 exactly when each of them raises something, and
-- never raises anything else.
pub get_response-one :
    (store : Store) (h : Handler)
    → h.pilot.cached_properties ≡ none
    → wants_one h ≡ true
    → ((r : Response)
        → (get_response store h ≡ ok r) ↔ FirstAnswer (answer_one store h) h.where_queries r)
      × ((e : Error)
          → (get_response store h ≡ err e)
            ↔ ((e ≡ not_found) × All (λ q. Fails (answer_one store h q)) h.where_queries))
get_response-one store h uncached one = rw (get_one-uncached store h uncached one) (
  first_answer-ok_iff (answer_one store h) h.where_queries,
  first_answer-err_iff (answer_one store h) h.where_queries,
)

-- The endpoint cannot be reached: each query raises in the context of a URLError, be what is raised a
-- ValueError or not.
abbrev pub IsDown : Store → Type 0
IsDown store =
    (endpoint query : String)
    → (is_value_error : Bool) × (store endpoint query ≡ err (store_error true is_value_error))

module _ (store : Store) (h : Handler) (down : IsDown store) where
  -- Whatever is raised is turned into 503.
  handled-down :
      {A : Type 0} (query : String) (next : List Binding → Result A)
      → handled (query_graph store h.pilot query >>= next) ≡ err unavailable
  unfolding query_graph handled handle_sparql_exception
  handled-down query next =
      let (is_value_error, raised) = down (query_endpoint h.pilot.custom_endpoint) query in
      rw raised

  query_graph-down : (query : String) → handled (query_graph store h.pilot query) ≡ err unavailable
  unfolding query_graph handled handle_sparql_exception
  query_graph-down query =
      let (is_value_error, raised) = down (query_endpoint h.pilot.custom_endpoint) query in
      rw raised

  get_total_count-down : (query : String) → get_total_count store h query ≡ err unavailable
  unfolding get_total_count
  get_total_count-down query = handled-down _ (read_count (count_variable h.resource))

  get_query_results-down : (query : String) → Fails (get_query_results store h query)
  unfolding get_query_results
  get_query_results-down query = elim (Result-cases (results_query h query)) [
    | inl (sent, made) ↦ (unavailable, rw (made, query_graph-down sent))
    | inr (e, failed) ↦ (e, rw failed)
  ]

  answer_one-down : (query : String) → Fails (answer_one store h query)
  unfolding answer_one
  answer_one-down query =
      let (e, failed) = get_query_results-down (fill_id h.request.item_id (fill_names h query)) in
      (e, rw failed)

  pair_page-down :
      (count query : String)
      → h.request.filter_option ≡ none
      → pair_page store h count query ≡ err unavailable
  unfolding pair_page filtered counted_page
  pair_page-down count query unfiltered =
      rw (unfiltered, get_total_count-down (fill_id h.request.item_id count))

  down-All : (queries : List String) → All (λ q. Fails (answer_one store h q)) queries
  down-All [] = tt
  down-All (q ∷ queries) = (answer_one-down q, down-All queries)

not_less : (a b : ℕ) → a ≡ b → ltb (suc a) (suc b) ≡ false
not_less a b h = ground arith

-- With an endpoint that cannot be reached, be the error a ValueError or not, and no cached properties, a request for one item raises
-- 404, whereas a request for a page of a resource with as many count queries as where queries, one
-- at least, and no filter raises 503.
pub get_response-down :
    (store : Store) (h : Handler)
    → IsDown store
    → h.pilot.cached_properties ≡ none
    → (wants_one h ≡ true → get_response store h ≡ err not_found)
      × ((count query : String) (counts queries : List String)
          → wants_one h ≡ false
          → h.request.filter_option ≡ none
          → h.count_queries ≡ count ∷ counts
          → h.where_queries ≡ query ∷ queries
          → length counts ≡ length queries
          → get_response store h ≡ err unavailable)
unfolding by_all_queries first_counted
get_response-down store h down uncached = (
  λ one.
      ((get_response-one store h uncached one).1 not_found).1
        (refl, down-All store h down h.where_queries),
  λ count query counts queries many unfiltered cs qs same.
      get_response-uncached store h uncached
      ∙ rw (
        many,
        cs,
        qs,
        not_less (length counts) (length queries) same,
        first_counted,
        pair_page-down store h down count query unfiltered,
      ),
)
