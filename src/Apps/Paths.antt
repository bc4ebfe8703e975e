-- ===== src/Apps/Paths.antt =====
-- Which pilot is served under a path, and when the routes of an application can be made.
use Prim.Native.String.{[], ◌∷◌}
use mathlib.Core.List.{List, [], ◌∷◌}
use text.Mathlib.Text.{◌==◌}
use text.Mathlib.TextLemmas.{append_cancel_left, append_cancel_right}
use sta_generation_service.Prelude.{
  String, Option, none, some, if◌then◌else◌, ◌≡◌, refl, sym, ap, ◌∙◌, arith, eq_iff, Bool-cases,
  inl, inr, All, map,
}
use sta_generation_service.Errors.{ok, >>=-eq-ok}
use sta_generation_service.Text.{◌<>◌, split_on}
use sta_generation_service.Dict.Laws.{eq_of_ne}
use sta_generation_service.Models.{Pilot, Resource}
use sta_generation_service.Pilots.{find_pilot}
use sta_generation_service.Apps.{
  Listing, Route, Mount, mount_path, mounts, pilot_routes, generate_pilot_apps, composite_route,
  composite_endpoint, composite_routes, is_plain, plain_names,
}

-- The mounts of a list of applications, searched from the front for a path.
unfoldable pub find_mount : String → List Mount → Option Pilot
find_mount path [] = none
find_mount path (m ∷ mounted) = if m.path == path then some m.pilot else find_mount path mounted

path-injective : (s t : String) → "/" <> (s <> "/api/v1.0") ≡ "/" <> (t <> "/api/v1.0") → s ≡ t
path-injective s t same =
    append_cancel_right s t "/api/v1.0"
      (append_cancel_left "/" (s <> "/api/v1.0") (t <> "/api/v1.0") same)

path-eq :
    (p : Pilot) (name : String) → (mount_path p == "/" <> (name <> "/api/v1.0")) ≡ (p.name == name)
unfolding mount_path
path-eq p name = elim (Bool-cases (p.name == name)) [
  | inl same ↦
      rw same ((eq_iff _ _).1 (ap (λ n. "/" <> (n <> "/api/v1.0")) ((eq_iff p.name name).0 same)))
  | inr other ↦ rw other (
      eq_of_ne _ _ (λ paths.
        let e = path-injective p.name name paths in
        let bad = (eq_iff p.name name).1 e in absurd (cc)))
]

find_mount-mounts :
    (routes : List Route) (table : List Pilot) (name : String)
    → find_mount ("/" <> (name <> "/api/v1.0")) (mounts routes table) ≡ find_pilot name table
unfolding find_mount mounts find_pilot
find_mount-mounts routes [] name = refl
find_mount-mounts routes (p ∷ table) name =
    rw (path-eq p name)
      (ap (λ later. if p.name == name then some p else later) (find_mount-mounts routes table name))

-- Where the applications can be generated, the path of a name leads to exactly the pilot that a
-- look-up by that name finds in the table, and to none where there is no such row.
pub find_mount-generate :
    (listing : Listing) (table : List Pilot) (name : String) {mounted : List Mount}
    → generate_pilot_apps listing table ≡ ok mounted
    → find_mount ("/" <> (name <> "/api/v1.0")) mounted ≡ find_pilot name table
unfolding generate_pilot_apps find_mount find_pilot
find_mount-generate listing [] name {mounted} made =
    let e : [] ≡ mounted = ground arith in ap (find_mount ("/" <> (name <> "/api/v1.0"))) (sym e)
find_mount-generate listing (p ∷ table) name {mounted} made =
    let (routes, _, same) = >>=-eq-ok (pilot_routes listing) _ made in
    let e : mounts routes (p ∷ table) ≡ mounted = ground arith in
    ap (find_mount ("/" <> (name <> "/api/v1.0"))) (sym e)
    ∙ find_mount-mounts routes (p ∷ table) name

-- The names in the folder of a resource that are composites.
unfoldable pub composites : List String → List String
unfolding is_plain
composites [] = []
composites (name ∷ names) =
    let rest = composites names in if is_plain name plain_names then rest else name ∷ rest

-- A composite name has an underscore, so that it has two parts at least.
abbrev pub HasParts : String → Type 0
HasParts name =
    (first : String) × (second : String) × (rest : List String) × (split_on b'_' name
      ≡ first ∷ second ∷ rest)

pub composite_route-ok :
    (resource : Resource) (name : String)
    → HasParts name
    → (route : Route) × (composite_route resource name ≡ ok route)
      × (route.endpoint ≡ composite_endpoint resource name)
unfolding composite_route
composite_route-ok resource name (first, second, rest, parts) = (
  record {
    path = "/" <> (first <> ("({id})/" <> second));
    endpoint = composite_endpoint resource name;
  },
  rw parts refl,
  refl,
)

-- Where each composite name of the folder of a resource has an underscore, routes are made, and they
-- are one route for each composite name, in the order of the listing, and none for any other name.
composite_routes-HasParts :
    (resource : Resource) (names : List String)
    → All HasParts (composites names)
    → (routes : List Route) × (composite_routes resource names ≡ ok routes)
      × (map (λ (r : Route). r.endpoint) routes
          ≡ map (composite_endpoint resource) (composites names))
unfolding composite_routes composites
composite_routes-HasParts resource [] parts = ([], refl, refl)
composite_routes-HasParts resource (name ∷ names) parts =
    elim (Bool-cases (is_plain name plain_names)) [
      | inl plain ↦
          let others = composite_routes-HasParts resource names (rw (composites, plain) at parts) in
          rw (composite_routes, composites, plain) others
      | inr composite ↦
          let (here, later) = rw (composites, composite) at parts in
          let (route, made, endpoint) = composite_route-ok resource name here in
          let (routes, made', endpoints) = composite_routes-HasParts resource names later in
          rw (composite_routes, composites, composite, made, made') (route ∷ routes, refl, cc)
    ]
