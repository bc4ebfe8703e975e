-- ===== src/Tests/Routes.antt =====
-- Routes, their URLs, and the applications that are mounted.
use Prim.Native.String.{[], ◌∷◌}
use mathlib.Core.List.{List, [], ◌∷◌}
use sta_generation_service.Prelude.{true, none, some, ◌≡◌, refl}
use sta_generation_service.Errors.{ok, err, index_error}
use sta_generation_service.Models.{Resource, observed_properties, datastreams}
use sta_generation_service.Sparql.Terms.{Entity, value, str}
use sta_generation_service.Sparql.Handler.{QueryFiles, single}
use sta_generation_service.Routes.{
  ResourceFiles, WebRequest, read_queries_from_files, composite_url,
}
use sta_generation_service.Pilots.{Reply, cache_reloaded}
use sta_generation_service.Apps.Commits.{commit_reload}
use sta_generation_service.Tests.{farm}
use sta_generation_service.Apps.{Listing, Route, pilot_routes}

abbrev files : QueryFiles
files = record { count = "WHERE { c }" ∷ []; where_ = "WHERE { {id} }" ∷ []; bits = none }

abbrev resources : Resource → ResourceFiles
resources resource = record {
  select = single "SELECT *";
  operations = ("list", files) ∷ ("Datastreams_ObservedProperties_list", files) ∷ [];
}

abbrev web : WebRequest
web = record {
  debug = true;
  url = "http://sta/farm/api/v1.0/Datastreams(7)/ObservedProperties?$top=2";
}

abbrev property : Entity
property =
    ("name", value (str "Temperature"))
    ∷ ("@iot.id", value (str "temperature"))
    ∷ ("@iot.selfLink", value (str "self"))
    ∷ ("Datastreams@iot.navigationLink", value (str "streams"))
    ∷ []

-- An identifier stands in place of each "id" of a URL, also of that in the name of a pilot.
test_item_url :
    composite_url
      (record { debug = true; url = "http://sta/grid/api/v1.0/Things(7)/Locations" })
      "7"
      observed_properties
    ≡ "http://sta/gr7/api/v1.0/ObservedProperties"
unfolding composite_url
test_item_url = refl

test_read :
    read_queries_from_files (
      ("where_2.rq", "w2")
      ∷ ("count_2.rq", "c2")
      ∷ ("bits.txt", "0,1")
      ∷ ("where_1.rq", "w1")
      ∷ ("count_1.rq", "c1")
      ∷ [])
    ≡ record { count = "c1" ∷ "c2" ∷ []; where_ = "w1" ∷ "w2" ∷ []; bits = some "0,1" }
unfolding read_queries_from_files
test_read = refl

abbrev pub listing : Listing
listing datastreams =
    "id" ∷ "list" ∷ "select.rq" ∷ "Things_Datastreams_list" ∷ "Observations_Datastream_id" ∷ []
listing _ = "id" ∷ "list" ∷ "select.rq" ∷ []

abbrev pub made_routes : List Route
unfolding pilot_routes
made_routes = elim (pilot_routes listing) [ ok routes ↦ routes | err e ↦ [] ]

-- A folder "other" among the datastreams has no underscore in its name.
abbrev unparted : Listing
unparted datastreams = "id" ∷ "list" ∷ "other" ∷ []
unparted _ = "id" ∷ "list" ∷ []

abbrev stored : Reply
stored = record { status = 200; body = cache_reloaded }

test_unparted :
    commit_reload unparted (farm ∷ []) stored (record { table = []; mounted = [] })
    ≡ (err index_error, record { table = farm ∷ []; mounted = [] })
unfolding commit_reload
test_unparted = refl
