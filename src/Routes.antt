-- ===== src/Routes.antt =====
-- The routes of a pilot's application: sta/src/routers/general_router.py, and the functions of
-- sta/src/utils.py that they use.
pub mod Links
pub mod Resources
use Prim.Native.String.{[], ◌∷◌}
use mathlib.Core.List.{List, [], ◌∷◌, ◌++◌}
use sta_generation_service.Prelude.{
  ℕ, String, Bool, true, false, Option, none, some, code, ltb, if◌then◌else◌,
}
use sta_generation_service.Errors.{Result, ok, err, key_error, or_raise, ◌>>=◌}
use sta_generation_service.Dict.{Dict, lookup}
use sta_generation_service.Text.{◌<>◌, starts_with, replace, before_first, join}
use sta_generation_service.Models.{Pilot, Resource, resource_name}
use sta_generation_service.Sparql.Terms.{Store, Response}
use sta_generation_service.Sparql.Handler.{Handler, Request, Select, QueryFiles, make_handler}
use sta_generation_service.Sparql.Response.{get_response}

-- The files of a folder: each name with the content.
abbrev pub Folder : Type 0
Folder = List (String × String)

-- The order of Python's texts: by the codes of the characters.
unfoldable pub at_most : String → String → Bool
at_most [] t = true
at_most (c ∷ s) [] = false
at_most (c ∷ s) (d ∷ t) =
    let rest = at_most s t in
    if ltb (code c) (code d) then true else if ltb (code d) (code c) then false else rest

insert_file : String × String → Folder → Folder
unfolding at_most
insert_file file [] = file ∷ []
insert_file file (other ∷ files) =
    let later = insert_file file files in
    if at_most file.0 other.0 then file ∷ other ∷ files else other ∷ later

-- sorted(os.listdir(...))
unfoldable pub sorted : Folder → Folder
unfolding insert_file
sorted [] = []
sorted (file ∷ files) = insert_file file (sorted files)

-- One round of the loop of `read_queries_from_files`.
read_file : String × String → QueryFiles → QueryFiles
unfolding starts_with
read_file (name, content) read =
    if starts_with "bits.txt" name
    then record read { bits = some content }
    else if starts_with "count" name
    then record read { count = read.count ++ content ∷ [] }
    else record read { where_ = read.where_ ++ content ∷ [] }

read_files : Folder → QueryFiles → QueryFiles
unfolding read_file
read_files [] read = read
read_files (file ∷ files) read = read_files files (read_file file read)

unfoldable pub read_queries_from_files : Folder → QueryFiles
unfolding sorted read_files
read_queries_from_files folder =
    read_files (sorted folder) (record { count = []; where_ = []; bits = none })

-- The entry of `resources` for one resource: its select clause, and the queries of each folder.
pub record ResourceFiles : Type 0 where
  pub select : Select
  pub operations : Dict QueryFiles

-- What a route sees of the request and the settings: settings.DEBUG and str(request.url).
pub record WebRequest : Type 0 where
  pub debug : Bool
  pub url : String

unfoldable pub get_bare_request_url : WebRequest → String
unfolding before_first replace
get_bare_request_url web =
    let bare = before_first b'?' web.url in
    if web.debug then bare else replace "http://" "https://" bare

-- s.split(sep, 1)[0]
unfoldable pub before_text : String → String → String
unfolding starts_with
before_text sep [] = []
before_text sep (c ∷ s) =
    let rest = before_text sep s in if starts_with sep (c ∷ s) then [] else c ∷ rest

-- The URL of a handler for one item, and of one for the items of another.
unfoldable pub item_url : WebRequest → String → String
unfolding get_bare_request_url replace
item_url web item_id = replace "id" item_id (get_bare_request_url web)

unfoldable pub composite_url : WebRequest → String → Resource → String
unfolding item_url before_text
composite_url web item_id resource =
    before_text "/v1.0/" (item_url web item_id) <> ("/v1.0/" <> resource_name resource)

module _ (store : Store) (resources : Resource → ResourceFiles) (pilot : Pilot) where
  -- The handler is made from the queries of an operation, and answers.
  respond : Resource → String → Request → Result Response
  unfolding lookup make_handler get_response
  respond resource operation request =
      or_raise key_error (lookup operation (resources resource).operations) >>= λ files.
      make_handler resource pilot (resources resource).select files request >>= get_response store

  unfoldable pub router_list : Resource → WebRequest → ℕ → ℕ → Option String → Result Response
  unfolding respond get_bare_request_url
  router_list resource web top skip filter_option = respond resource "list" (record {
    url = get_bare_request_url web;
    top = some top;
    skip = some skip;
    item_id = none;
    filter_option = filter_option;
  })

  unfoldable pub router_id : Resource → WebRequest → String → Result Response
  unfolding respond item_url
  router_id resource web item_id = respond resource "id" (record {
    url = item_url web item_id;
    top = none;
    skip = none;
    item_id = some item_id;
    filter_option = none;
  })

  unfoldable pub router_composite_list :
      Resource → List String → WebRequest → ℕ → ℕ → String → Option String → Result Response
  unfolding respond composite_url join
  router_composite_list resource composite_name_parts web top skip item_id filter_option =
      respond resource (join "_" composite_name_parts) (record {
        url = composite_url web item_id resource;
        top = some top;
        skip = some skip;
        item_id = some item_id;
        filter_option = filter_option;
      })

  unfoldable pub router_composite_id :
      Resource → List String → WebRequest → String → Result Response
  unfolding respond composite_url join
  router_composite_id resource composite_name_parts web item_id =
      respond resource (join "_" composite_name_parts) (record {
        url = composite_url web item_id resource;
        top = none;
        skip = none;
        item_id = some item_id;
        filter_option = none;
      })
