-- ===== src/Apps.antt =====
-- The applications that sta/src/main.py mounts (`generate_pilot_apps`), and sta/src/routers/root.py.
pub mod Paths
pub mod Commits
use Prim.Native.String.{[], ◌∷◌}
use mathlib.Core.List.{List, [], ◌∷◌, ◌++◌, map}
use text.Mathlib.Text.{◌==◌}
use sta_generation_service.Prelude.{
  ℕ, String, Bool, true, false, ◌||◌, Option, none, some, if◌then◌else◌,
}
use sta_generation_service.Errors.{Result, ok, err, item, ◌>>=◌}
use sta_generation_service.Text.{◌<>◌, replace, split_on, ends_with}
use sta_generation_service.Models.{Pilot, Resource, api_resources, resource_name}

-- What answers a route: the functions that the routers make.
pub data Endpoint : Type 0 where
  root : Endpoint
  list id_ : Resource → Endpoint
  composite_list composite_id : Resource → (composite_name_parts : List String) → Endpoint

-- A route of an application: its path and what answers it.
pub record Route : Type 0 where
  pub path : String
  pub endpoint : Endpoint

-- os.listdir(f"resources/{resource_name}/")
abbrev pub Listing : Type 0
Listing = Resource → List String

-- The names that are no composite.
abbrev pub plain_names : List String
plain_names =
    "id" ∷ "list" ∷ "select.rq" ∷ "select_simple_result.rq" ∷ "select_normal_result.rq" ∷ []

unfoldable pub is_plain : String → List String → Bool
is_plain name [] = false
is_plain name (plain ∷ names) = name == plain || is_plain name names

unfoldable pub resource_routes : Resource → List Route
resource_routes resource =
    record { path = "/" <> resource_name resource; endpoint = list resource }
    ∷ record { path = "/" <> (resource_name resource <> "({id})"); endpoint = id_ resource }
    ∷ []

-- f"/{composite_name_parts[0]}({{id}})/{composite_name_parts[1]}"
unfoldable pub composite_path : List String → Result String
composite_path parts = item parts 0 >>= λ first.
    item parts 1 >>= λ second. ok ("/" <> (first <> ("({id})/" <> second)))

unfoldable pub composite_endpoint : Resource → String → Endpoint
unfolding split_on ends_with
composite_endpoint resource composite_name =
    let parts = split_on b'_' composite_name in
    if ends_with "_list" composite_name
    then composite_list resource parts
    else composite_id resource parts

unfoldable pub composite_route : Resource → String → Result Route
unfolding split_on composite_path composite_endpoint
composite_route resource composite_name = composite_path (split_on b'_' composite_name) >>= λ path.
    ok (record { path = path; endpoint = composite_endpoint resource composite_name })

unfoldable pub composite_routes : Resource → List String → Result (List Route)
unfolding is_plain composite_route
composite_routes resource [] = ok []
composite_routes resource (name ∷ names) =
    let rest = composite_routes resource names in
    if is_plain name plain_names
    then rest
    else (composite_route resource name >>= λ route. rest >>= λ routes. ok (route ∷ routes))

unfoldable pub list_and_id_routes : List Resource → List Route
unfolding resource_routes
list_and_id_routes [] = []
list_and_id_routes (resource ∷ resources) = resource_routes resource ++ list_and_id_routes resources

unfoldable pub all_composite_routes : Listing → List Resource → Result (List Route)
unfolding composite_routes
all_composite_routes listing [] = ok []
all_composite_routes listing (resource ∷ resources) =
    composite_routes resource (listing resource) >>= λ routes.
    all_composite_routes listing resources >>= λ rest. ok (routes ++ rest)

-- The routes of the application of any pilot, in the order in which they are added.
unfoldable pub pilot_routes : Listing → Result (List Route)
unfolding list_and_id_routes all_composite_routes
pilot_routes listing = all_composite_routes listing api_resources >>= λ composites.
    ok (record { path = "/"; endpoint = root } ∷ (list_and_id_routes api_resources ++ composites))

-- app.mount(f"/{pilot.name}/api/v1.0", pilot_app)
unfoldable pub mount_path : Pilot → String
mount_path pilot = "/" <> (pilot.name <> "/api/v1.0")

pub record Mount : Type 0 where
  pub path : String
  pub pilot : Pilot
  pub routes : List Route

unfoldable pub mounts : List Route → List Pilot → List Mount
unfolding mount_path
mounts routes [] = []
mounts routes (pilot ∷ pilots) =
    record { path = mount_path pilot; pilot = pilot; routes = routes } ∷ mounts routes pilots

-- `generate_pilot_apps`: what it mounts beside the router of the pilots.
unfoldable pub generate_pilot_apps : Listing → List Pilot → Result (List Mount)
unfolding pilot_routes mounts
generate_pilot_apps listing [] = ok []
generate_pilot_apps listing (pilot ∷ pilots) =
    pilot_routes listing >>= λ routes. ok (mounts routes (pilot ∷ pilots))

-- The root of an application: each resource with its URL.
unfoldable pub router_root : (debug : Bool) → (url : String) → List (String × String)
unfolding replace
router_root debug url =
    map
      (λ (resource : Resource).
        let address : String = url <> resource_name resource in
        (resource_name resource, if debug then address else replace "http://" "https://" address))
      api_resources
