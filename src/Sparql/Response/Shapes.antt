-- ===== src/Sparql/Response/Shapes.antt =====
-- What every answer looks like: an entity for a request that names one item and no page, and
-- otherwise a page that is not empty, with the link to the next one.
use mathlib.Core.List.{List, [], ◌∷◌}
use sta_generation_service.Prelude.{
  ℕ, ◌+◌, String, Bool, true, false, Option, none, some, leb, ◌==◌, if◌then◌else◌, ◌≡◌, ◌≢◌, refl,
  ◌∙◌, arith, Option-cases, subst, inl, inr,
}
use sta_generation_service.Errors.{
  Result, ok, type_error, or_raise, item, >>=-eq-ok, Result-cases, or_raise-eq-ok,
}
use sta_generation_service.Models.{Resource}
use sta_generation_service.Sparql.Terms.{Binding, Store, Entity, Response, entity, page}
use sta_generation_service.Sparql.Codes.{index_of}
use sta_generation_service.Sparql.Handler.{Handler, Request}
use sta_generation_service.Sparql.Queries.{
  some_rows, get_query_results, get_total_count, handled, query_graph, results_query,
}
use sta_generation_service.Sparql.Transform.{transform_binding}
use sta_generation_service.Sparql.Response.{
  next_link, handle_results_properties, transform_all, answer_one, answer_page, page_of, coded,
  chosen, first_answer, counted_page, first_counted,
}

-- A page with a solution at least, and with a link exactly where solutions are left.
pub record IsPage (r : Request) (n : ℕ) (link : Option String) (values : List Entity) : Type 0 where
  pub top : ℕ
  pub skip : ℕ
  pub top_given : r.top ≡ some top
  pub skip_given : r.skip ≡ some skip
  pub filled : values ≢ []
  pub linked : link ≡ (if leb n (skip + top) then none else some (next_link r.url top skip))

abbrev pub PageOf : Request → Response → Type 0
PageOf r (entity e) = ⊥
PageOf r (page n link values) = IsPage r n link values

abbrev pub EntityOf : Response → Type 0
EntityOf (entity e) = Unit {0}
EntityOf (page n link values) = ⊥

some_rows-ne-nil : (rows : List Binding) {rs : List Binding} → some_rows rows ≡ ok rs → rs ≢ []
unfolding some_rows
some_rows-ne-nil [] h e = cc
some_rows-ne-nil (row ∷ rows) h e = cc

transform_all-ne-nil :
    (resource : Resource) (rows : List Binding) {values : List Entity}
    → rows ≢ []
    → transform_all resource rows ≡ ok values
    → values ≢ []
unfolding transform_all
transform_all-ne-nil resource [] filled h e = filled refl
transform_all-ne-nil resource (row ∷ rows) filled h e =
    let (x, _, h') = >>=-eq-ok (transform_binding resource row) _ h in
    let (xs, _, h'') = >>=-eq-ok (transform_all resource rows) _ h' in cc

handle_results-PageOf :
    (r : Request) (n : ℕ) (values : List Entity) {response : Response}
    → values ≢ []
    → handle_results_properties r n values ≡ ok response
    → PageOf r response
unfolding handle_results_properties
handle_results-PageOf r n values {response} filled h =
    let (top, t, h') = >>=-eq-ok (or_raise type_error r.top) _ h in
    let (skip, s, h'') = >>=-eq-ok (or_raise type_error r.skip) _ h' in
    let same : page n (if leb n (skip + top) then none else some (next_link r.url top skip)) values
        ≡ response =
      ground arith in
    subst (PageOf r) same (record {
      top = top;
      skip = skip;
      top_given = or_raise-eq-ok type_error r.top t;
      skip_given = or_raise-eq-ok type_error r.skip s;
      filled = filled;
      linked = refl;
    })

pub first_answer-keeps :
    (P : Response → Type 0) (attempt : String → Result Response)
    → ((q : String) (r : Response) → attempt q ≡ ok r → P r)
    → (qs : List String) (r : Response) → first_answer attempt qs ≡ ok r
    → P r
unfolding first_answer
first_answer-keeps P attempt step [] r h = cc
first_answer-keeps P attempt step (q ∷ qs) r h = elim (Result-cases (attempt q)) [
  | inl (a, done) ↦ step q r (done ∙ (rw (done, first_answer) at h))
  | inr (e, failed) ↦ first_answer-keeps P attempt step qs r (rw (failed, first_answer) at h)
]

pub first_counted-keeps :
    (P : Response → Type 0) (attempt : String → String → Result (Option Response))
    → ((c q : String) (r : Response) → attempt c q ≡ ok (some r) → P r)
    → (cs qs : List String) (r : Response) → first_counted attempt cs qs ≡ ok r
    → P r
unfolding first_counted
first_counted-keeps P attempt step (c ∷ cs) (q ∷ qs) r h = elim (Result-cases (attempt c q)) [
  | inr (e, failed) ↦ let bad = rw (failed, first_counted) at h in absurd (cc)
  | inl (found, done) ↦ elim (Option-cases found) [
    | inl missed ↦
        first_counted-keeps P attempt step cs qs r (rw (done, missed, first_counted) at h)
    | inr (a, hit) ↦ let same = rw (done, hit, first_counted) at h in step c q r (ground arith)
  ]
]
first_counted-keeps P attempt step (c ∷ cs) [] r h = cc
first_counted-keeps P attempt step [] qs r h = cc

pub page_of-PageOf :
    (h : Handler) (n : ℕ) (rows : List Binding) {r : Response}
    → rows ≢ []
    → page_of h n rows ≡ ok r
    → PageOf h.request r
unfolding page_of
page_of-PageOf h n rows filled got =
    let (_, _, got0) = >>=-eq-ok (handle_results_properties h.request n []) _ got in
    let (values, made, got1) = >>=-eq-ok (transform_all h.resource rows) _ got0 in
    handle_results-PageOf h.request n values (transform_all-ne-nil h.resource rows filled made) got1

-- A test that answers none has failed where some answer came.
unless_none :
    (b : Bool) (m : Result (Option Response)) {r : Response}
    → (if b then ok none else m) ≡ ok (some r)
    → m ≡ ok (some r)
unless_none true m h = cc
unless_none false m h = h

module _ (store : Store) (h : Handler) where
  get_query_results-ne-nil :
      (query : String) {rows : List Binding} → get_query_results store h query ≡ ok rows → rows ≢ []
  unfolding get_query_results
  get_query_results-ne-nil query got =
      let (q, _, got') = >>=-eq-ok (results_query h query) _ got in
      let (rows, _, got'') = >>=-eq-ok (handled (query_graph store h.pilot q)) some_rows got' in
      some_rows-ne-nil rows got''

  pub answer_page-PageOf :
      (count query : String) (r : Response)
      → answer_page store h count query ≡ ok r
      → PageOf h.request r
  unfolding answer_page
  answer_page-PageOf count query r got =
      let (rows, g0, got0) = >>=-eq-ok (get_query_results store h query) _ got in
      let (n, _, got1) = >>=-eq-ok (get_total_count store h count) _ got0 in
      page_of-PageOf h n rows (get_query_results-ne-nil query g0) got1

  pub answer_one-EntityOf :
      (query : String) (r : Response) → answer_one store h query ≡ ok r → EntityOf r
  unfolding answer_one
  answer_one-EntityOf query r got =
      let (rows, _, got0) = >>=-eq-ok (get_query_results store h _) _ got in
      let (row, _, got1) = >>=-eq-ok (item rows 0) _ got0 in
      let (e, _, got2) = >>=-eq-ok (transform_binding h.resource row) _ got1 in
      let same : entity e ≡ r = ground arith in subst EntityOf same tt

  pub counted_page-PageOf :
      (count query : String) (r : Response)
      → counted_page store h count query ≡ ok (some r)
      → PageOf h.request r
  unfolding counted_page
  counted_page-PageOf count query r got =
      let (n, _, got0) = >>=-eq-ok (get_total_count store h count) _ got in
      let (rows, g1, got1) =
        >>=-eq-ok (get_query_results store h query) _ (unless_none (n == 0) _ got0) in
      let (p, made, same) = >>=-eq-ok (page_of h n rows) _ got1 in
      page_of-PageOf h n rows (get_query_results-ne-nil query g1) (made ∙ ground arith)

module _ (h : Handler) where
  pub coded-keeps :
      (P : Response → Type 0) (next : ℕ → String → Result Response) (code : ℕ) (r : Response)
      → ((i : ℕ) (q : String) (a : Response) → next i q ≡ ok a → P a)
      → coded h code next ≡ ok r
      → P r
  unfolding coded
  coded-keeps P next code r step got =
      let (i, _, got0) = >>=-eq-ok (index_of code h.integer_codes) _ got in
      let (q, _, got1) = >>=-eq-ok (item h.where_queries i) (next i) got0 in step i q r got1

  pub chosen-keeps :
      (P : Response → Type 0) (next : ℕ → String → Result Response) (code : Option ℕ) (r : Response)
      → ((i : ℕ) (q : String) (a : Response) → next i q ≡ ok a → P a)
      → chosen h next code ≡ ok (some r)
      → P r
  unfolding chosen
  chosen-keeps P next none r step got = absurd (cc)
  chosen-keeps P next (some code) r step got =
      let (a, g, same) = >>=-eq-ok (coded h code next) _ got in
      coded-keeps P next code r step (g ∙ ground arith)
