-- ===== src/CachedProperties.antt =====
-- CachedPropertiesHandler of sta/src/sparql/cached_properties_handler.py: seven questions to the
-- store of a pilot, packed into the bits of one number.
pub mod Bits
use Prim.Native.String.{[], ◌∷◌}
use mathlib.Core.List.{List, [], ◌∷◌}
use sta_generation_service.Prelude.{
  ℕ, zero, suc, ◌+◌, ◌^◌, String, Bool, true, false, Option, none, some, if◌then◌else◌,
}
use sta_generation_service.Errors.{Error, Result, ok, err, ◌>>=◌}
use sta_generation_service.Text.{◌<>◌}
use sta_generation_service.Models.{Pilot}
use sta_generation_service.Sparql.Handler.{query_endpoint}
use sta_generation_service.Sparql.Queries.{handled}

-- What the store does with an ASK query: bool() of its answer, or an exception.
abbrev pub AskStore : Type 0
AskStore = (endpoint : String) → (query : String) → Result Bool

-- The lines of each ASK query between the name of the graph and the closing braces.
abbrev pub Question : Type 0
Question = String

observation_collection : Question
observation_collection =
    "                ?col rdf:type/rdfs:subClassOf* sosa:ObservationCollection.\n"

property_on_collection : String → Question
property_on_collection property_name =
    "                ?col rdf:type/rdfs:subClassOf* sosa:ObservationCollection;\n                     "
    <> (property_name <> "           ?v.\n")

normal_result : Question
normal_result =
    "                ?obs\trdf:type/rdfs:subClassOf*\tsosa:Observation;\n\t\t\t            sosa:hasResult              ?result.\n"

wgs_location : Question
wgs_location =
    "                ?foi    rdf:type/rdfs:subClassOf*   sosa:FeatureOfInterest;\n                        wgs84:lat                   ?raw_lat;\n                        wgs84:long                  ?raw_long.\n"

ask_query : String → Question → String
ask_query graph question =
    "\n            ASK WHERE {\n              GRAPH <"
    <> (graph <> (">{\n" <> (question <> "              }\n            }\n            ")))

-- sosa_properties, the bits 0 to 3
abbrev pub sosa_properties : List String
sosa_properties =
    "sosa:phenomenonTime" ∷ "sosa:resultTime" ∷ "sosa:madeBySensor" ∷ "sosa:observedProperty" ∷ []

abbrev pub add_bit : ℕ → ℕ → Bool → ℕ
add_bit integer_code bit found = if found then integer_code + 2 ^ bit else integer_code

module _ (ask : AskStore) (pilot : Pilot) where
  -- The loop over the graphs: true at the first graph whose answer is true; an exception raises.
  unfoldable pub any_graph : Question → List String → Result Bool
  unfolding query_endpoint handled ask_query
  any_graph question [] = ok false
  any_graph question (graph ∷ graphs) =
      let later = any_graph question graphs in
      handled (ask (query_endpoint pilot.custom_endpoint) (ask_query graph question)) >>= λ found.
      if found then ok true else later

  unfoldable pub has_observation_collection : Result Bool
  unfolding any_graph observation_collection
  has_observation_collection = any_graph observation_collection pilot.graphs

  unfoldable pub has_property_on_observation_collection : String → Result Bool
  unfolding any_graph property_on_collection
  has_property_on_observation_collection property_name =
      any_graph (property_on_collection property_name) pilot.graphs

  unfoldable pub has_normal_result : Result Bool
  unfolding any_graph normal_result
  has_normal_result = any_graph normal_result pilot.graphs

  unfoldable pub has_wgs_location : Result Bool
  unfolding any_graph wgs_location
  has_wgs_location = any_graph wgs_location pilot.graphs

  -- for bit, sosa_property in enumerate(sosa_properties)
  unfoldable pub collection_bits : ℕ → List String → ℕ → Result ℕ
  unfolding has_property_on_observation_collection
  collection_bits bit [] integer_code = ok integer_code
  collection_bits bit (property_name ∷ properties) integer_code =
      has_property_on_observation_collection property_name >>= λ found.
      collection_bits (bit + 1) properties (add_bit integer_code bit found)

  unfoldable pub get_integer_code : Result ℕ
  unfolding has_observation_collection collection_bits has_normal_result has_wgs_location
      has_property_on_observation_collection
  get_integer_code = has_observation_collection >>= λ collection.
      (if collection then collection_bits 0 sosa_properties 0 else ok 0) >>= λ low.
      has_normal_result >>= λ normal. has_wgs_location >>= λ wgs.
      has_property_on_observation_collection "sosa:hasFeatureOfInterest" >>= λ feature.
      ok (add_bit (add_bit (add_bit low 4 normal) 5 wgs) 6 feature)
