-- ===== src/Sparql/Response.antt =====
-- `get_response` and `_handle_results_properties` of sta/src/sparql/base_query_handler.py.
pub mod Shapes
pub mod Fits
pub mod Outcomes
pub mod Chosen
pub mod Paging
use mathlib.Core.List.{List, [], ◌∷◌, ◌++◌}
use sta_generation_service.Prelude.{
  ℕ, zero, suc, ◌+◌, String, Bool, true, false, not, ◌&&◌, Option, none, some, leb, ltb, ◌==◌,
  if◌then◌else◌, is_some, length,
}
use sta_generation_service.Errors.{Error, Result, ok, err, http, type_error, item, or_raise, ◌>>=◌}
use sta_generation_service.Text.{◌<>◌, replace}
use sta_generation_service.Text.Number.{show}
use sta_generation_service.Models.{Resource}
use sta_generation_service.Sparql.Terms.{Binding, Store, Entity, Response, entity, page}
use sta_generation_service.Sparql.Codes.{choose_code, index_of}
use sta_generation_service.Sparql.Handler.{Handler, Request}
use sta_generation_service.Sparql.Filters.{add_user_filters_to_query}
use sta_generation_service.Sparql.Queries.{
  not_found, is_limited, get_total_count, get_query_results,
}
use sta_generation_service.Sparql.Transform.{transform_binding}

-- f"{self.url}?$top={self.top}&$skip={self.skip + self.top}"
unfoldable pub next_link : String → ℕ → ℕ → String
unfolding show
next_link url top skip = url <> ("?$top=" <> (show top <> ("&$skip=" <> show (skip + top))))

-- `_handle_results_properties`, with the list of values; None cannot be added.
unfoldable pub handle_results_properties : Request → ℕ → List Entity → Result Response
unfolding next_link
handle_results_properties r total_count values = or_raise type_error r.top >>= λ top.
    or_raise type_error r.skip >>= λ skip. ok (
      page total_count
        (if leb total_count (skip + top) then none else some (next_link r.url top skip)) values)

-- where.replace("{bare_request_url}", self.url).replace("{pilot.name}", self.pilot.name)
unfoldable pub fill_names : Handler → String → String
unfolding replace
fill_names h where_ =
    replace "{pilot.name}" h.pilot.name (replace "{bare_request_url}" h.request.url where_)

-- .replace("{id}", self.item_id)
unfoldable pub fill_id : Option String → String → String
unfolding replace
fill_id none query = query
fill_id (some item_id) query = replace "{id}" item_id query

unfoldable pub filtered : Option String → String → String → Result (String × String)
unfolding add_user_filters_to_query
filtered none count where_ = ok (count, where_)
filtered (some filter_option) count where_ = add_user_filters_to_query filter_option count where_

unfoldable pub transform_all : Resource → List Binding → Result (List Entity)
unfolding transform_binding
transform_all resource [] = ok []
transform_all resource (row ∷ rows) =
    transform_binding resource row >>= λ e. transform_all resource rows >>= λ es. ok (e ∷ es)

-- The query of a chosen code: `self.where_queries[self.integer_codes.index(code)]`.
unfoldable pub coded : Handler → ℕ → (ℕ → String → Result Response) → Result Response
unfolding index_of
coded h code next = index_of code h.integer_codes >>= λ i. item h.where_queries i >>= next i

-- The count query that goes with the query at place `i`.
unfoldable pub count_query : Handler → ℕ → Result String
count_query h i =
    if ltb (length h.count_queries) (length h.where_queries)
    then item h.count_queries 0
    else item h.count_queries i

-- The body of the outer `try`: an answer, or none where no code is chosen.
unfoldable pub chosen :
    Handler → (ℕ → String → Result Response) → Option ℕ → Result (Option Response)
unfolding coded
chosen h next none = ok none
chosen h next (some code) = coded h code next >>= λ r. ok (some r)

-- The request names one item and no page.
abbrev pub wants_one : Handler → Bool
wants_one h = is_some h.request.item_id && not (is_limited h.request)

-- for where in self.where_queries: try ... except Exception: pass
unfoldable pub first_answer : (String → Result Response) → List String → Result Response
first_answer attempt [] = err not_found
first_answer attempt (q ∷ qs) = elim (attempt q) [ ok r ↦ ok r | err e ↦ first_answer attempt qs ]

-- for count, where in zip(...): an exception ends the loop, and so does an answer.
unfoldable pub first_counted :
    (String → String → Result (Option Response)) → List String → List String → Result Response
first_counted attempt (c ∷ cs) (q ∷ qs) = elim (attempt c q) [
  | err e ↦ err e
  | ok found ↦ elim found [ none ↦ first_counted attempt cs qs | some r ↦ ok r ]
]
first_counted attempt _ _ = err not_found

-- The dict of the response is made before the solutions are transformed, and filled after.
unfoldable pub page_of : Handler → ℕ → List Binding → Result Response
unfolding handle_results_properties transform_all
page_of h total_count rows = handle_results_properties h.request total_count [] >>= λ _.
    transform_all h.resource rows >>= λ values.
    handle_results_properties h.request total_count values

module _ (store : Store) where
  -- One entity: the first solution of the query for an identifier.
  unfoldable pub answer_one : Handler → String → Result Response
  unfolding fill_names fill_id get_query_results transform_binding
  answer_one h where_ =
      get_query_results store h (fill_id h.request.item_id (fill_names h where_)) >>= λ rows.
      item rows 0 >>= λ row. transform_binding h.resource row >>= λ e. ok (entity e)

  -- A page: the solutions, then their number.
  unfoldable pub answer_page : Handler → String → String → Result Response
  unfolding get_query_results get_total_count page_of
  answer_page h count where_ = get_query_results store h where_ >>= λ rows.
      get_total_count store h count >>= λ total_count. page_of h total_count rows

  unfoldable pub cached_page : Handler → ℕ → String → Result Response
  unfolding fill_names fill_id filtered answer_page count_query
  cached_page h i where_ = count_query h i >>= λ count.
      filtered h.request.filter_option (fill_id h.request.item_id count)
        (fill_id h.request.item_id (fill_names h where_))
      >>= λ (count', where'). answer_page h count' where'

  -- Here the code replaces the URL once more.
  unfoldable pub cached_one : Handler → ℕ → String → Result Response
  unfolding answer_one replace
  cached_one h i where_ = answer_one h (replace "{bare_request_url}" h.request.url where_)

  -- What is done with the query of the chosen code.
  unfoldable pub attempt_chosen : Handler → ℕ → String → Result Response
  unfolding cached_one cached_page is_limited
  attempt_chosen h i where_ = if wants_one h then cached_one h i where_ else cached_page h i where_

  -- With codes and cached properties a code is chosen; else nothing is answered here.
  unfoldable pub by_code : Handler → List ℕ → Option ℕ → Result (Option Response)
  unfolding choose_code chosen attempt_chosen
  by_code h [] cached = ok none
  by_code h (code ∷ codes) none = ok none
  by_code h (code ∷ codes) (some cached) =
      choose_code h.important_bits cached (code ∷ codes) >>= chosen h (attempt_chosen h)

  unfoldable pub by_cached_properties : Handler → Result (Option Response)
  unfolding by_code
  by_cached_properties h = by_code h h.integer_codes h.pilot.cached_properties

  unfoldable pub one_count_page : Handler → String → String → Result Response
  unfolding fill_names filtered answer_page
  one_count_page h default_count where_ =
      filtered h.request.filter_option default_count (fill_names h where_) >>= λ (count, where').
      answer_page h count where'

  -- The count is asked first; none is answered where it is 0.
  unfoldable pub counted_page : Handler → String → String → Result (Option Response)
  unfolding get_total_count get_query_results page_of
  counted_page h count where_ = get_total_count store h count >>= λ total_count.
      if total_count == 0
      then ok none
      else (get_query_results store h where_ >>= λ rows.
          page_of h total_count rows >>= λ r. ok (some r))

  unfoldable pub pair_page : Handler → String → String → Result (Option Response)
  unfolding fill_names fill_id filtered counted_page
  pair_page h count where_ =
      filtered h.request.filter_option (fill_id h.request.item_id count)
        (fill_id h.request.item_id (fill_names h where_))
      >>= λ (count', where'). counted_page h count' where'

  -- What comes after the outer `try`: the loops over all queries.
  unfoldable pub by_all_queries : Handler → Result Response
  unfolding answer_one first_answer one_count_page pair_page first_counted
  by_all_queries h =
      if wants_one h
      then first_answer (answer_one h) h.where_queries
      else if ltb (length h.count_queries) (length h.where_queries)
      then (item h.count_queries 0 >>= λ default_count.
          first_answer (one_count_page h default_count) h.where_queries)
      else first_counted (pair_page h) h.count_queries h.where_queries

  -- except HTTPException: pass
  unfoldable pub or_all_queries : Handler → Result (Option Response) → Result Response
  unfolding by_all_queries
  or_all_queries h (ok (some r)) = ok r
  or_all_queries h (ok none) = by_all_queries h
  or_all_queries h (err (http status detail)) = by_all_queries h
  or_all_queries h (err e) = err e

  unfoldable pub get_response : Handler → Result Response
  unfolding by_cached_properties or_all_queries
  get_response h = or_all_queries h (by_cached_properties h)
