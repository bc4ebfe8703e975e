-- ===== src/Routes/Links.antt =====
-- Where the links of an answer lead.
use Prim.Native.String.{[], ◌∷◌}
use text.Mathlib.TextLemmas.{nil-append, cons-append}
use mathlib.Core.List.{List, [], ◌∷◌}
use sta_generation_service.Prelude.{
  ℕ, ◌+◌, String, Bool, true, false, Option, none, some, leb, if◌then◌else◌, ◌≡◌, refl, ap, ◌∙◌,
  arith, subst,
}
use sta_generation_service.Errors.{ok, key_error, or_raise, >>=-eq-ok}
use sta_generation_service.Dict.{lookup}
use sta_generation_service.Text.{◌<>◌, starts_with, contains, before_first, join}
use sta_generation_service.Text.Number.{show}
use sta_generation_service.Text.Laws.{
  starts_with-append, replace-absent, before_first-NoMark, before_first-mark,
}
use sta_generation_service.Models.{Pilot, Resource, resource_name}
use sta_generation_service.Sparql.Terms.{Store, Entity, page}
use sta_generation_service.Sparql.Codes.{important_bits}
use sta_generation_service.Sparql.Handler.{Handler, Request, Select, QueryFiles, make_handler}
use sta_generation_service.Sparql.Response.{next_link, wants_one}
use sta_generation_service.Sparql.Response.Fits.{FitsFor, get_response-Fits}
use sta_generation_service.Sparql.Response.Shapes.{IsPage}
use sta_generation_service.Routes.{
  ResourceFiles, WebRequest, get_bare_request_url, before_text, item_url, composite_url, respond,
  router_list, router_composite_list,
}

-- No suffix of `s`, continued by `rest`, begins with `p`.
abbrev pub Clear : String → String → String → Type 0
Clear p [] rest = Unit {0}
Clear p (c ∷ s) rest = (starts_with p (c ∷ (s <> rest)) ≡ false) × Clear p s rest

before_text-Clear :
    (s rest : String)
    → Clear "/v1.0/" s ("/v1.0/" <> rest)
    → before_text "/v1.0/" (s <> ("/v1.0/" <> rest)) ≡ s
unfolding before_text starts_with
before_text-Clear [] rest clear =
    let begins = rw cons-append at (starts_with-append "/v1.0/" rest) in
    rw (nil-append, cons-append, before_text, begins)
before_text-Clear (c ∷ s) rest (head, tail) =
    rw (cons-append, before_text, head) (ap (λ t. c ∷ t) (before_text-Clear s rest tail))

make_handler-request :
    (resource : Resource) (pilot : Pilot) (select : Select) (files : QueryFiles) (request : Request)
    {h : Handler}
    → make_handler resource pilot select files request ≡ ok h
    → h.request ≡ request
unfolding make_handler
make_handler-request resource pilot select files request made =
    let (bits, _, same) = >>=-eq-ok (important_bits files.bits) _ made in ground arith

linked_eq :
    (last : Bool) (link next : String)
    → some link ≡ (if last then none else some next)
    → link ≡ next
linked_eq true link next h = cc
linked_eq false link next h = cc

page-IsPage :
    (one : Bool) (r : Request) (n : ℕ) (link : Option String) (values : List Entity)
    → FitsFor one r (page n link values)
    → IsPage r n link values
page-IsPage true r n link values fits = absurd fits
page-IsPage false r n link values fits = fits

same_link :
    (r : Request) (top skip n : ℕ) (link : Option String) (values : List Entity)
    → r.top ≡ some top
    → r.skip ≡ some skip
    → IsPage r n link values
    → link ≡ (if leb n (skip + top) then none else some (next_link r.url top skip))
same_link r top skip n link values t s asked =
    let same_top : asked.top ≡ top = (let given = asked.top_given in cc) in
    let same_skip : asked.skip ≡ skip = (let given = asked.skip_given in cc) in
    rw (← same_top, ← same_skip) asked.linked

module _ (store : Store) (resources : Resource → ResourceFiles) (pilot : Pilot) where
  -- A page that a route answers with has the next link of its URL.
  respond-link :
      (resource : Resource) (operation : String) (r : Request) (top skip n : ℕ)
      (link : Option String) (values : List Entity)
      → r.top ≡ some top
      → r.skip ≡ some skip
      → respond store resources pilot resource operation r ≡ ok (page n link values)
      → link ≡ (if leb n (skip + top) then none else some (next_link r.url top skip))
  unfolding respond
  respond-link resource operation r top skip n link values t s got =
      let (files, _, got0) =
        >>=-eq-ok (or_raise key_error (lookup operation (resources resource).operations)) _ got in
      let (h, made, got1) =
        >>=-eq-ok (make_handler resource pilot (resources resource).select files r) _ got0 in
      let fits = get_response-Fits store h (page n link values) got1 in
      let asked =
        subst (λ q. IsPage q n link values)
          (make_handler-request resource pilot (resources resource).select files r made)
          (page-IsPage (wants_one h) h.request n link values fits) in
      same_link r top skip n link values t s asked

  -- The next link of a page of a composite list is that of the URL that `composite_url` gives.
  pub router_composite_list-link :
      (resource : Resource) (parts : List String) (web : WebRequest) (top skip n : ℕ)
      (item_id : String) (filter_option link : Option String) (values : List Entity)
      → router_composite_list store resources pilot resource parts web top skip item_id
          filter_option
        ≡ ok (page n link values)
      → link ≡ (
          if leb n (skip + top)
          then none
          else some (next_link (composite_url web item_id resource) top skip))
  unfolding router_composite_list
  router_composite_list-link resource parts web top skip n item_id filter_option link values got =
      respond-link resource (join "_" parts) _ top skip n link values refl refl got

  -- The next link of a page of a list is that of the bare URL of its request.
  pub router_list-link :
      (resource : Resource) (web : WebRequest) (top skip n : ℕ) (filter_option link : Option String)
      (values : List Entity)
      → router_list store resources pilot resource web top skip filter_option
        ≡ ok (page n link values)
      → link ≡ (
          if leb n (skip + top) then none else some (next_link (get_bare_request_url web) top skip))
  unfolding router_list
  router_list-link resource web top skip n filter_option link values got =
      respond-link resource "list" _ top skip n link values refl refl got

-- Where the bare URL of a request is a root, "/v1.0/" and a rest, without "id" anywhere and with no
-- earlier "/v1.0/", the URL for the items of another is the root, "/v1.0/" and the name of the
-- resource, whatever the identifier and the rest are.
pub composite_url-Clear :
    (web : WebRequest) (root rest item_id : String) (resource : Resource)
    → get_bare_request_url web ≡ root <> ("/v1.0/" <> rest)
    → contains "id" (root <> ("/v1.0/" <> rest)) ≡ false
    → Clear "/v1.0/" root ("/v1.0/" <> rest)
    → composite_url web item_id resource ≡ root <> ("/v1.0/" <> resource_name resource)
unfolding composite_url item_url
composite_url-Clear web root rest item_id resource bare no_id clear = rw (
  bare,
  replace-absent "id" item_id (root <> ("/v1.0/" <> rest)) no_id,
  before_text-Clear root rest clear,
)

bare-next_link :
    (url : String) (top skip : ℕ)
    → get_bare_request_url (record {
      debug = true;
      url = next_link (get_bare_request_url (record { debug = true; url = url })) top skip;
    })
      ≡ get_bare_request_url (record { debug = true; url = url })
unfolding get_bare_request_url next_link
bare-next_link url top skip =
    let bare = before_first b'?' url in
    let parameters = "$top=" <> (show top <> ("&$skip=" <> show (skip + top))) in
    ap (λ t. before_first b'?' (bare <> t)) (cons-append "?" "$top=" _ ∙ ap (λ t. "?" ∷ t) refl)
    ∙ before_first-mark bare parameters (before_first-NoMark url)

-- With settings.DEBUG, the next link of a page of a list is a URL with the same bare URL as that of
-- the request, so that its request asks the same list.
pub router_list-next :
    (store : Store) (resources : Resource → ResourceFiles) (pilot : Pilot) (resource : Resource)
    (url link : String) (top skip n : ℕ) (filter_option : Option String) (values : List Entity)
    → router_list store resources pilot resource
        (record { debug = true; url = url })
        top
        skip
        filter_option
      ≡ ok (page n (some link) values)
    → get_bare_request_url (record { debug = true; url = link })
      ≡ get_bare_request_url (record { debug = true; url = url })
router_list-next store resources pilot resource url link top skip n filter_option values got =
    let web : WebRequest = record { debug = true; url = url } in
    let linked =
      router_list-link store resources pilot resource web top skip n filter_option (some link)
        values got in
    ap (λ l. get_bare_request_url (record { debug = true; url = l }))
      (linked_eq (leb n (skip + top)) link (next_link (get_bare_request_url web) top skip) linked)
    ∙ bare-next_link url top skip
