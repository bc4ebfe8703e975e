-- ===== src/Models.antt =====
-- sta/src/models.py, sta/src/schemas.py and the constants of sta/src/settings.py
use mathlib.Core.List.{List, [], ◌∷◌}
use sta_generation_service.Prelude.{ℕ, String, Option}

-- A row of the table of pilots, but for its key `id`, which no code reads.
pub record Pilot : Type 0 where
  pub name : String
  pub description : Option String
  pub custom_endpoint : Option String
  pub graphs : List String
  pub cached_properties : Option ℕ

-- schemas.Pilot, the body of a request
pub record PilotData : Type 0 where
  pub name : String
  pub description : Option String
  pub custom_endpoint : Option String
  pub graphs : List String

-- schemas.PilotResponse
pub record PilotResponse : Type 0 where
  pub name : String
  pub description : Option String
  pub custom_endpoint : Option String
  pub root_url : String
  pub swagger_url : String
  pub graphs : List String

-- The classes of sta/src/sparql/query_handlers.py, one for each resource.
pub data Resource : Type 0 where
  observations datastreams features_of_interest historical_locations : Resource
  locations observed_properties sensors things : Resource

-- API_RESOURCES_NAMES, in its order
abbrev pub api_resources : List Resource
api_resources =
    observations ∷ datastreams ∷ features_of_interest ∷ historical_locations ∷ locations
    ∷ observed_properties ∷ sensors ∷ things ∷ []

abbrev pub resource_name : Resource → String
resource_name observations = "Observations"
resource_name datastreams = "Datastreams"
resource_name features_of_interest = "FeaturesOfInterest"
resource_name historical_locations = "HistoricalLocations"
resource_name locations = "Locations"
resource_name observed_properties = "ObservedProperties"
resource_name sensors = "Sensors"
resource_name things = "Things"

-- SPATIAL_FUNCTIONS_NAMES
abbrev pub spatial_functions_names : List String
spatial_functions_names =
    "equals" ∷ "disjoint" ∷ "touches" ∷ "within" ∷ "overlaps" ∷ "crosses" ∷ "intersects"
    ∷ "contains" ∷ "relate" ∷ []

abbrev pub default_query_endpoint : String
default_query_endpoint = "https://www.foodie-cloud.org/sparql"
