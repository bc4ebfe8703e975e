-- ===== src/Routes/Resources/Served.antt =====
-- Every route that is made for a pilot has the queries of its own folder.
use Prim.Native.String.{[], ◌∷◌}
use mathlib.Core.List.{List, [], ◌∷◌, Memᴰ}
use sta_generation_service.Prelude.{
  String, ◌≡◌, refl, sym, ap, subst, All, All-append, inl, inr, Bool-cases, if-intro,
}
use sta_generation_service.Errors.{Result, ok, err, >>=-eq-ok}
use sta_generation_service.Text.{split_on, join, ends_with}
use sta_generation_service.Text.Join.{join-split_on}
use sta_generation_service.Models.{Resource, api_resources}
use sta_generation_service.Apps.{
  Endpoint, root, list, id_, composite_list, composite_id, Route, is_plain, plain_names,
  composite_endpoint, composite_path, composite_route, composite_routes, all_composite_routes,
  list_and_id_routes, resource_routes, pilot_routes,
}
use sta_generation_service.Apps.Paths.{composites}
use sta_generation_service.Routes.{ResourceFiles}
use sta_generation_service.Routes.Resources.{Disk, entry_names, listing_of, load_resource}
use sta_generation_service.Routes.Resources.Operations.{HasQueries, load_resource-HasQueries}

abbrev endpoint_of : Result Route → Endpoint
endpoint_of (ok route) = route.endpoint
endpoint_of (err e) = root

abbrev routes_of : Result (List Route) → List Route
routes_of (ok routes) = routes
routes_of (err e) = []

-- What an endpoint asks of the loaded resources: the queries of the operation that it names.
module _ (disk : Disk) (resources : Resource → ResourceFiles) where
  abbrev pub Operates : Resource → (operation : String) → Type 0
  Operates resource operation = HasQueries (disk resource) operation (resources resource).operations

  abbrev pub IsServed : Endpoint → Type 0
  IsServed root = Unit
  IsServed (list resource) = Operates resource "list"
  IsServed (id_ resource) = Operates resource "id"
  IsServed (composite_list resource parts) = Operates resource (join "_" parts)
  IsServed (composite_id resource parts) = Operates resource (join "_" parts)

  abbrev RouteIsServed : Route → Type 0
  RouteIsServed route = IsServed route.endpoint

  module _
      (loaded : (resource : Resource) → load_resource disk resource ≡ ok (resources resource)) where
    composite_endpoint-IsServed :
        (resource : Resource) (name : String)
        → Memᴰ name (composites (entry_names (disk resource)))
        → IsServed (composite_endpoint resource name)
    unfolding composite_endpoint
    composite_endpoint-IsServed resource name there =
        let has : Operates resource (join "_" (split_on b'_' name)) =
          subst (Operates resource) (sym (join-split_on "_" name))
            (load_resource-HasQueries disk resource name (loaded resource) (inr there)) in
        if-intro IsServed (ends_with "_list" name) (λ yes. has) (λ no. has)

    composite_route-IsServed :
        (resource : Resource) (name : String) {route : Route}
        → Memᴰ name (composites (entry_names (disk resource)))
        → composite_route resource name ≡ ok route
        → IsServed route.endpoint
    unfolding composite_route
    composite_route-IsServed resource name there made =
        let (path, _, same) = >>=-eq-ok (composite_path (split_on b'_' name)) _ made in
        subst (λ endpoint. IsServed endpoint) (ap endpoint_of same)
          (composite_endpoint-IsServed resource name there)

    composite_routes-IsServed :
        (resource : Resource) (names : List String) {routes : List Route}
        → ((name : String)
            → Memᴰ name (composites names)
            → Memᴰ name (composites (entry_names (disk resource))))
        → composite_routes resource names ≡ ok routes
        → All RouteIsServed routes
    unfolding composite_routes composites
    composite_routes-IsServed resource [] within made =
        subst (All RouteIsServed) (ap routes_of made) tt
    composite_routes-IsServed resource (name ∷ names) within made =
        elim (Bool-cases (is_plain name plain_names)) [
          | inl plain ↦
              composite_routes-IsServed resource names (rw (composites, plain) at within)
                (rw (composite_routes, plain) at made)
          | inr composite ↦
              let within' = rw (composites, composite) at within in
              let (route, here, later) =
                >>=-eq-ok (composite_route resource name) _
                  (rw (composite_routes, composite) at made) in
              let (rest, there, same) = >>=-eq-ok (composite_routes resource names) _ later in
              let all : All RouteIsServed (route ∷ rest) = (
                composite_route-IsServed resource name (within' name (Memᴰ.head refl)) here,
                composite_routes-IsServed resource names (λ n m. within' n (Memᴰ.tail m)) there,
              ) in
              subst (All RouteIsServed) (ap routes_of same) all
        ]

    all_composite_routes-IsServed :
        (all : List Resource) {routes : List Route}
        → all_composite_routes (listing_of disk) all ≡ ok routes
        → All RouteIsServed routes
    unfolding all_composite_routes
    all_composite_routes-IsServed [] made = subst (All RouteIsServed) (ap routes_of made) tt
    all_composite_routes-IsServed (resource ∷ all) made =
        let (routes, here, later) =
          >>=-eq-ok (composite_routes resource (entry_names (disk resource))) _ made in
        let (rest, there, same) = >>=-eq-ok (all_composite_routes (listing_of disk) all) _ later in
        subst (All RouteIsServed) (ap routes_of same) (
          All-append routes rest RouteIsServed
            (composite_routes-IsServed resource (entry_names (disk resource)) (λ n m. m) here)
            (all_composite_routes-IsServed all there))

    list_and_id_routes-IsServed : (all : List Resource) → All RouteIsServed (list_and_id_routes all)
    unfolding list_and_id_routes resource_routes
    list_and_id_routes-IsServed [] = tt
    list_and_id_routes-IsServed (resource ∷ all) = (
      load_resource-HasQueries disk resource "list" (loaded resource) (inl (inl refl)),
      (
        load_resource-HasQueries disk resource "id" (loaded resource) (inl (inr refl)),
        list_and_id_routes-IsServed all,
      ),
    )

-- Where the folders of all resources could be read when the module was imported, and are the same
-- when the routes of the pilots are made: every route that is made asks for an operation that the
-- loaded resources have, so that no request raises KeyError there, and this operation has the queries
-- that are in the folder of its name.
pub pilot_routes-IsServed :
    (disk : Disk) (resources : Resource → ResourceFiles) {routes : List Route}
    → ((resource : Resource) → load_resource disk resource ≡ ok (resources resource))
    → pilot_routes (listing_of disk) ≡ ok routes
    → All (λ (r : Route). IsServed disk resources r.endpoint) routes
unfolding pilot_routes
pilot_routes-IsServed disk resources loaded made =
    let (composite, found, same) =
      >>=-eq-ok (all_composite_routes (listing_of disk) api_resources) _ made in
    subst (All (RouteIsServed disk resources)) (ap routes_of same) (
      tt,
      All-append (list_and_id_routes api_resources) composite (RouteIsServed disk resources)
          (list_and_id_routes-IsServed disk resources loaded api_resources)
          (all_composite_routes-IsServed disk resources loaded api_resources found),
    )
