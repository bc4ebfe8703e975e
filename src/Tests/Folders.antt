-- ===== src/Tests/Folders.antt =====
-- The folders of the resources, read into the routes' queries.
use mathlib.Core.List.{List, [], ◌∷◌}
use sta_generation_service.Prelude.{none, ◌≡◌, refl, All}
use sta_generation_service.Errors.{ok, err}
use sta_generation_service.Dict.{Dict}
use sta_generation_service.Models.{
  Resource, observations, datastreams, features_of_interest, historical_locations, locations,
  observed_properties, sensors, things,
}
use sta_generation_service.Sparql.Handler.{QueryFiles, single, simple_or_normal}
use sta_generation_service.Apps.{Route, pilot_routes}
use sta_generation_service.Routes.{Folder, ResourceFiles}
use sta_generation_service.Routes.Resources.{Entry, file, folder, Disk, listing_of, load_resource}
use sta_generation_service.Routes.Resources.Served.{IsServed, pilot_routes-IsServed}

abbrev queries : Folder
queries = ("where_1.rq", "w") ∷ ("count_1.rq", "c") ∷ []

abbrev read_ : QueryFiles
read_ = record { count = "c" ∷ []; where_ = "w" ∷ []; bits = none }

abbrev plain : Dict Entry
plain = ("select.rq", file "SELECT *") ∷ ("list", folder queries) ∷ ("id", folder queries) ∷ []

abbrev disk : Disk
disk observations =
    ("id", folder queries)
    ∷ ("select_simple_result.rq", file "s")
    ∷ ("list", folder queries)
    ∷ ("select_normal_result.rq", file "n")
    ∷ []
disk things = ("Locations_Things_list", folder queries) ∷ plain
disk _ = plain

abbrev literal : ResourceFiles
literal = record { select = single "SELECT *"; operations = ("list", read_) ∷ ("id", read_) ∷ [] }

abbrev resources : Resource → ResourceFiles
resources observations = record literal { select = simple_or_normal "s" "n" }
resources things = record literal {
  operations = ("list", read_) ∷ ("id", read_) ∷ ("Locations_Things_list", read_) ∷ [];
}
resources _ = literal

loaded : (resource : Resource) → load_resource disk resource ≡ ok (resources resource)
unfolding load_resource
loaded observations = refl
loaded datastreams = refl
loaded features_of_interest = refl
loaded historical_locations = refl
loaded locations = refl
loaded observed_properties = refl
loaded sensors = refl
loaded things = refl

abbrev made : List Route
unfolding pilot_routes
made = elim (pilot_routes (listing_of disk)) [ ok routes ↦ routes | err e ↦ [] ]

pilot_routes-IsServed_example : All (λ (r : Route). IsServed disk resources r.endpoint) made
unfolding pilot_routes
pilot_routes-IsServed_example = pilot_routes-IsServed disk resources {routes = made} loaded refl
