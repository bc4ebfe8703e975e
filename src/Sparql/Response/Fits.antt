-- ===== src/Sparql/Response/Fits.antt =====
-- Whatever way an answer was found, it fits its request.
use mathlib.Core.List.{List, [], ◌∷◌}
use sta_generation_service.Prelude.{
  ℕ, String, Bool, true, false, Option, none, some, ltb, length, if◌then◌else◌, ◌≡◌, refl, arith,
  subst,
}
use sta_generation_service.Errors.{Result, ok, err, http, item, >>=-eq-ok}
use sta_generation_service.Text.{replace}
use sta_generation_service.Sparql.Terms.{Store, Response}
use sta_generation_service.Sparql.Codes.{choose_code}
use sta_generation_service.Sparql.Handler.{Handler, Request}
use sta_generation_service.Sparql.Response.{
  filtered, answer_one, count_query, cached_page, cached_one, attempt_chosen, wants_one, by_code,
  by_cached_properties, one_count_page, pair_page, by_all_queries, or_all_queries, get_response,
}
use sta_generation_service.Sparql.Response.Shapes.{
  PageOf, EntityOf, first_answer-keeps, first_counted-keeps, answer_page-PageOf,
  answer_one-EntityOf, counted_page-PageOf, chosen-keeps,
}

abbrev pub FitsFor : Bool → Request → Response → Type 0
FitsFor true request r = EntityOf r
FitsFor false request r = PageOf request r

-- One entity where the request names an item and no page, and else a page.
abbrev pub Fits : Handler → Response → Type 0
Fits h r = FitsFor (wants_one h) h.request r

FitsFor-if :
    (b : Bool) (request : Request) (one many : Result Response) (r : Response)
    → ((a : Response) → one ≡ ok a → EntityOf a)
    → ((a : Response) → many ≡ ok a → PageOf request a)
    → (if b then one else many) ≡ ok r
    → FitsFor b request r
FitsFor-if true request one many r single paged got = single r got
FitsFor-if false request one many r single paged got = paged r got

if-keeps :
    (b : Bool) (P : Response → Type 0) (m n : Result Response) (r : Response)
    → ((a : Response) → m ≡ ok a → P a)
    → ((a : Response) → n ≡ ok a → P a)
    → (if b then m else n) ≡ ok r
    → P r
if-keeps true P m n r left right got = left r got
if-keeps false P m n r left right got = right r got

module _ (store : Store) (h : Handler) where
  one_count-PageOf :
      (count query : String) (r : Response)
      → one_count_page store h count query ≡ ok r
      → PageOf h.request r
  unfolding one_count_page
  one_count-PageOf count query r got =
      let (pair, _, got0) = >>=-eq-ok (filtered h.request.filter_option count _) _ got in
      answer_page-PageOf store h pair.0 pair.1 r got0

  pair_page-PageOf :
      (count query : String) (r : Response)
      → pair_page store h count query ≡ ok (some r)
      → PageOf h.request r
  unfolding pair_page
  pair_page-PageOf count query r got =
      let (pair, _, got0) = >>=-eq-ok (filtered h.request.filter_option _ _) _ got in
      counted_page-PageOf store h pair.0 pair.1 r got0

  cached_page-PageOf :
      (i : ℕ) (query : String) (r : Response)
      → cached_page store h i query ≡ ok r
      → PageOf h.request r
  unfolding cached_page
  cached_page-PageOf i query r got =
      let (count, _, got0) = >>=-eq-ok (count_query h i) _ got in
      let (pair, _, got1) = >>=-eq-ok (filtered h.request.filter_option _ _) _ got0 in
      answer_page-PageOf store h pair.0 pair.1 r got1

  attempt_chosen-Fits :
      (i : ℕ) (query : String) (r : Response) → attempt_chosen store h i query ≡ ok r → Fits h r
  unfolding attempt_chosen cached_one
  attempt_chosen-Fits i query r got =
      FitsFor-if (wants_one h) h.request (cached_one store h i query) (cached_page store h i query)
        r (answer_one-EntityOf store h (replace "{bare_request_url}" h.request.url query))
        (cached_page-PageOf i query) got

  by_all_queries-Fits : (r : Response) → by_all_queries store h ≡ ok r → Fits h r
  unfolding by_all_queries
  by_all_queries-Fits r got =
      FitsFor-if (wants_one h) h.request _ _ r
        (first_answer-keeps EntityOf (answer_one store h) (answer_one-EntityOf store h)
          h.where_queries)
        (λ a.
          if-keeps (ltb (length h.count_queries) (length h.where_queries)) (PageOf h.request) _ _ a
            (λ b found.
              let (c, _, found0) = >>=-eq-ok (item h.count_queries 0) _ found in
              first_answer-keeps (PageOf h.request) (one_count_page store h c) (one_count-PageOf c)
                h.where_queries b found0)
            (first_counted-keeps (PageOf h.request) (pair_page store h) pair_page-PageOf
              h.count_queries h.where_queries))
        got

  by_code-Fits :
      (codes : List ℕ) (cached : Option ℕ) (r : Response)
      → by_code store h codes cached ≡ ok (some r)
      → Fits h r
  unfolding by_code
  by_code-Fits [] cached r got = absurd (cc)
  by_code-Fits (code ∷ codes) none r got = absurd (cc)
  by_code-Fits (code ∷ codes) (some cached) r got =
      let (c, _, got0) = >>=-eq-ok (choose_code h.important_bits cached (code ∷ codes)) _ got in
      chosen-keeps h (Fits h) (attempt_chosen store h) c r attempt_chosen-Fits got0

  or_all-Fits :
      (m : Result (Option Response)) (r : Response)
      → ((a : Response) → m ≡ ok (some a) → Fits h a)
      → or_all_queries store h m ≡ ok r
      → Fits h r
  unfolding or_all_queries
  or_all-Fits (ok (some a)) r step got =
      let same : a ≡ r = ground arith in subst (Fits h) same (step a refl)
  or_all-Fits (ok none) r step got = by_all_queries-Fits r got
  or_all-Fits (err (http status detail)) r step got = by_all_queries-Fits r got
  or_all-Fits (err e) r step got = absurd (cc)

-- An answer to a request that names an item and no page is one entity. Any other answer is a page
-- with one value at least, of a request that gives a top and a skip, and it has a next link, to the
-- place `skip + top`, exactly where the count is above that.
pub get_response-Fits :
    (store : Store) (h : Handler) (r : Response) → get_response store h ≡ ok r → Fits h r
unfolding get_response by_cached_properties
get_response-Fits store h r got =
    or_all-Fits store h (by_cached_properties store h) r
      (by_code-Fits store h h.integer_codes h.pilot.cached_properties) got
